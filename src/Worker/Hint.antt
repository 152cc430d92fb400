-- ===== src/Worker/Hint.antt =====
-- apps/api/app/worker/worker.py: `_retry_after_hint`, a search for `\(retry after (\d+)s\)`.
pub mod RateLimit
use ketabdan_ms.Prelude.{
  ℕ, zero, suc, ◌+◌, ◌-◌, ◌*◌, ◌/◌, ◌%◌, ◌^◌, ◌≤◌, ◌<◌, String, ◌≡◌, refl, sym, ap, ◌∙◌, ◌≢◌, ◌↔◌,
  ◌⊎◌, inl, inr, Bool, true, false, not, ◌&&◌, ◌||◌, Option, none, some, List, [], ◌∷◌, map, arith,
  eq_iff, ltb, leb, eqb, if◌then◌else◌, Bool-cases, Option-cases, ltb→lt, lt→ltb, leb→le, Eq, ◌==◌,
  nat_eq, string_eq, ==_refl, ==→≡, Result, ok, err, ◌>>=◌, >>=-eq-ok, length, length-append, find,
  keep, any, All, Any, elem,
}
use Prim.Native.String.{[], ◌∷◌}
use Prim.Native.Char.{code}
use ketabdan_ms.Prelude.Text.{Unicode, digit, take_digits, after_prefix}

module _ (u : Unicode) where
  starts_with_digit : String → Bool
  starts_with_digit [] = false
  starts_with_digit (c ∷ s) = elim (digit u (code c)) [ none ↦ false | some d ↦ true ]

  -- What is behind the digits must be `s)`.
  wait_of : ℕ × String → Option ℕ
  wait_of (n, rest) = elim (after_prefix "s)" rest) [ none ↦ none | some _ ↦ some n ]

  -- `(\d+)s\)` at the head of the text. No digit is an "s", so the longest run decides.
  match_wait : String → Option ℕ
  match_wait s = if starts_with_digit s then wait_of (take_digits u 0 s) else none

  match_here : String → Option ℕ
  match_here s = elim (after_prefix "(retry after " s) [ none ↦ none | some rest ↦ match_wait rest ]

  -- `_RETRY_AFTER_PATTERN.search`: the first position where the pattern matches
  pub search_wait : String → Option ℕ
  search_wait [] = none
  search_wait (c ∷ s) =
      let later = search_wait s in elim (match_here (c ∷ s)) [ none ↦ later | some n ↦ some n ]

  -- The hint in whole seconds. An empty message has none.
  unfoldable pub retry_after_hint : Option String → Option ℕ
  unfolding starts_with_digit wait_of match_wait match_here search_wait
  retry_after_hint none = none
  retry_after_hint (some message) = if message == "" then none else search_wait message

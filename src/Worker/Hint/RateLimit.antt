-- ===== src/Worker/Hint/RateLimit.antt =====
-- The wait that a provider module prints for HTTP 429 is the wait that the worker reads.
use ketabdan_ms.Prelude.{
  ℕ, zero, suc, ◌/◌, ◌%◌, ◌<◌, String, ◌≡◌, refl, ap, ◌∙◌, ◌≢◌, inl, inr, Bool, true, false, not,
  ◌&&◌, none, some, [], ◌∷◌, arith, ltb, Bool-cases, ◌==◌, nat_eq, string_eq, ==_refl, ==→≡,
}
use Prim.Native.Char.{Char, code}
use Prim.Native.String.{[], ◌∷◌, ◌++◌}
use text.Mathlib.TextLemmas.{nil-append, cons-append}
use ketabdan_ms.Prelude.Text.{
  Unicode, digit, digit_char, show, show_from, take_digits, after_prefix,
}
use ketabdan_ms.Prelude.Text.Decimal.{take_digits-show, digit-digit_char, show_from-append}
use ketabdan_ms.Json.{ℤ, pos, negsuc, show_ℤ}
use ketabdan_ms.Worker.Hint.{
  starts_with_digit, wait_of, match_wait, match_here, search_wait, retry_after_hint,
}

after_prefix-append : (p s : String) → after_prefix p (p ++ s) ≡ some s
unfolding after_prefix
after_prefix-append [] s = rw nil-append
after_prefix-append (c ∷ p) s = rw cons-append (rw (==_refl (code c)) (after_prefix-append p s))

abbrev pub no_paren : String → Bool
no_paren [] = true
no_paren (c ∷ s) = not (code c == b'(') && no_paren s

-- What `send_bot_api_message` appends for a wait that is a number.
abbrev pub wait_suffix : ℤ → String
wait_suffix wait = " (retry after " ++ (show_ℤ wait ++ "s)")

module _ (u : Unicode) where
  search_wait-skip :
      (c : Char) (s : String) → (code c == b'(') ≡ false → search_wait u (c ∷ s) ≡ search_wait u s
  unfolding search_wait match_here after_prefix
  search_wait-skip c s h = ground arith

  search_wait-append : (p s : String) → no_paren p ≡ true → search_wait u (p ++ s) ≡ search_wait u s
  search_wait-append [] s h = rw nil-append
  search_wait-append (c ∷ p) s h =
      rw cons-append
        (search_wait-skip c (p ++ s) (ground arith) ∙ search_wait-append p s (ground arith))

  starts_with_digit-digit :
      (d : ℕ) (s : String) → d < 10 → starts_with_digit u (digit_char d ∷ s) ≡ true
  unfolding starts_with_digit
  starts_with_digit-digit d s h = rw (digit-digit_char u d h, starts_with_digit)

  starts_with_digit-show_from :
      (fuel n : ℕ) (out : String)
      → starts_with_digit u out ≡ true
      → starts_with_digit u (show_from fuel n out) ≡ true
  unfolding show_from
  starts_with_digit-show_from zero n out h = h
  starts_with_digit-show_from (suc fuel) n out h =
      let first = starts_with_digit-digit (n % 10) out (omega arith) in
      elim (Bool-cases (ltb n 10)) [
        | inl small ↦ rw small first
        | inr large ↦ rw large (starts_with_digit-show_from fuel (n / 10) _ first)
      ]

  starts_with_digit-show : (n : ℕ) (rest : String) → starts_with_digit u (show n ++ rest) ≡ true
  unfolding show show_from
  starts_with_digit-show n rest = rw show_from-append (
      rw nil-append (
        let first = starts_with_digit-digit (n % 10) rest (omega arith) in
        elim (Bool-cases (ltb n 10)) [
          | inl small ↦ rw small first
          | inr large ↦ rw large (starts_with_digit-show_from n (n / 10) _ first)
        ]))

  wait_of-stop : (n : ℕ) → wait_of u (take_digits u n "s)") ≡ some n
  unfolding wait_of take_digits digit after_prefix
  wait_of-stop n = refl

  match_wait-show : (n : ℕ) → match_wait u (show n ++ "s)") ≡ some n
  unfolding match_wait
  match_wait-show n =
      rw (starts_with_digit-show n "s)")
        (ap (wait_of u) (take_digits-show u n "s)") ∙ wait_of-stop n)

  not-starts_with_digit-minus : (s : String) → starts_with_digit u ("-" ∷ s) ≡ false
  unfolding starts_with_digit digit
  not-starts_with_digit-minus s = refl

  match_wait-minus : (n : ℕ) → match_wait u (show_ℤ (negsuc n) ++ "s)") ≡ none
  unfolding match_wait show_ℤ
  match_wait-minus n = rw cons-append (rw cons-append (rw (not-starts_with_digit-minus _)))

  match_here-open : (s : String) → match_here u ("(retry after " ++ s) ≡ match_wait u s
  unfolding match_here
  match_here-open s =
      ap (λ o. elim o [ none ↦ none | some rest ↦ match_wait u rest ])
        (after_prefix-append "(retry after " s)

  search_wait-here : (t : String) (n : ℕ) → match_here u t ≡ some n → search_wait u t ≡ some n
  unfolding search_wait match_here after_prefix
  search_wait-here [] n h = cc
  search_wait-here (c ∷ s) n h = ground (arith, h)

  -- A printed wait is read back behind any text with no parenthesis.
  pub search_wait-suffix :
      (p : String) (n : ℕ) → no_paren p ≡ true → search_wait u (p ++ wait_suffix (pos n)) ≡ some n
  unfolding show_ℤ
  search_wait-suffix p n h =
      search_wait-append p _ h
      ∙ ap (search_wait u) (cons-append " " "(retry after " (show n ++ "s)"))
      ∙ search_wait-skip " " _ refl
      ∙ search_wait-here _ n (match_here-open _ ∙ match_wait-show n)

  not-search_wait-empty : (n : ℕ) → search_wait u "" ≢ some n
  unfolding search_wait
  not-search_wait-empty n h = cc

  hint-of-search_wait :
      (t : String) (n : ℕ) → search_wait u t ≡ some n → retry_after_hint u (some t) ≡ some n
  unfolding retry_after_hint
  hint-of-search_wait t n h = elim (Bool-cases (t == "")) [
    | inl e ↦ absurd (not-search_wait-empty n (rw (==→≡ t "" e) at h))
    | inr e ↦ rw e h
  ]

  -- A rate-limit message of a provider module is read back as its wait.
  pub retry_after_hint-rate_limit :
      (name : String) (n : ℕ)
      → no_paren name ≡ true
      → retry_after_hint u (some (name ++ (" rate limit exceeded" ++ wait_suffix (pos n)))) ≡ some n
  retry_after_hint-rate_limit name n h =
      hint-of-search_wait _ n
        (search_wait-append name _ h ∙ search_wait-suffix " rate limit exceeded" n refl)

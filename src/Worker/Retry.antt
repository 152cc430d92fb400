-- ===== src/Worker/Retry.antt =====
-- apps/api/app/worker/retry.py. A duration is a whole number of units; the float arithmetic of the
-- source (doubling, comparing) is exact on such values.
pub mod Bounds
pub mod Tests
use ketabdan_ms.Prelude.{
  ℕ, zero, suc, ◌+◌, ◌-◌, ◌*◌, ◌/◌, ◌%◌, ◌^◌, ◌≤◌, ◌<◌, String, ◌≡◌, refl, sym, ap, ◌∙◌, ◌≢◌, ◌↔◌,
  ◌⊎◌, inl, inr, Bool, true, false, not, ◌&&◌, ◌||◌, Option, none, some, List, [], ◌∷◌, ◌++◌, map,
  arith, eq_iff, ltb, leb, eqb, if◌then◌else◌, Bool-cases, Option-cases, ltb→lt, lt→ltb, leb→le, Eq,
  ◌==◌, nat_eq, string_eq, ==_refl, ==→≡, Result, ok, err, ◌>>=◌, >>=-eq-ok, length, length-append,
  find, keep, any, All, Any, elem,
}
use Prim.Native.Nat.{min}

abbrev pub Duration : Type 0
Duration = ℕ

pub record RetryPolicy : Type 0 where
  pub max_attempts : ℕ
  pub base_delay_seconds : Duration
  pub max_delay_seconds : Duration

-- The three ValueErrors of `__post_init__`.
pub data PolicyError : Type 0 where
  max_attempts_too_small base_delay_not_positive max_delay_below_base : PolicyError

unfoldable pub make_policy : ℕ → Duration → Duration → Result PolicyError RetryPolicy
make_policy max_attempts base most =
    if ltb max_attempts 1
    then err max_attempts_too_small
    else if leb base 0
    then err base_delay_not_positive
    else if ltb most base
    then err max_delay_below_base
    else ok (record {
      max_attempts = max_attempts;
      base_delay_seconds = base;
      max_delay_seconds = most;
    })

-- `if retry_after is not None and retry_after > delay: delay = float(retry_after)`
abbrev raise_to_hint : Option Duration → Duration → Duration
raise_to_hint none delay = delay
raise_to_hint (some hint) delay = if ltb delay hint then hint else delay

unfoldable pub delay_for : RetryPolicy → ℕ → Option Duration → Duration
delay_for policy attempt retry_after =
    if leb attempt 1
    then 0
    else min (raise_to_hint retry_after (policy.base_delay_seconds * 2 ^ (attempt - 2)))
        policy.max_delay_seconds

-- ===== src/Worker/Retry/Bounds.antt =====
-- The retry policy: what construction guarantees, and the bounds and growth of the delays.
use ketabdan_ms.Prelude.{
  ℕ, ◌-◌, ◌*◌, ◌^◌, ◌≤◌, ◌<◌, ◌≡◌, ◌↔◌, Option, none, some, arith, leb, if◌then◌else◌, nat_eq,
  string_eq, ok,
}
use Prim.Native.Nat.{min, max}
use native.Mathlib.Nat.{pow-le-pow_right}
use ketabdan_ms.Worker.Retry.{Duration, RetryPolicy, make_policy, delay_for}

pub record IsValid (p : RetryPolicy) : Type 0 where
  pub attempts_pos : 0 < p.max_attempts
  pub base_pos : 0 < p.base_delay_seconds
  pub base_le_max : p.base_delay_seconds ≤ p.max_delay_seconds

-- A policy is constructed exactly from a positive number of attempts, a positive base delay and a
-- maximal delay that is not below it; it then has these three values.
pub make_policy-eq-ok_iff :
    (n : ℕ) (base most : Duration) (p : RetryPolicy)
    → (make_policy n base most ≡ ok p) ↔ (
        IsValid p
        × (p ≡ record { max_attempts = n; base_delay_seconds = base; max_delay_seconds = most }))
unfolding make_policy
make_policy-eq-ok_iff n base most p = (λ h. (ground arith, ground arith), λ h. ground arith)

abbrev hint_or_zero : Option Duration → Duration
hint_or_zero none = 0
hint_or_zero (some hint) = hint

-- A retry waits for the doubled base delay or the provider's hint, whichever is longer, but never
-- longer than the maximal delay; an attempt that is no retry does not wait.
pub delay_for_lem :
    (p : RetryPolicy) (attempt : ℕ) (hint : Option Duration)
    → delay_for p attempt hint ≡ (
        if leb attempt 1
        then 0
        else min
            (max (p.base_delay_seconds * 2 ^ (attempt - 2)) (hint_or_zero hint))
            p.max_delay_seconds)
unfolding delay_for
delay_for_lem p attempt none = ground arith
delay_for_lem p attempt (some hint) = ground arith

pub delay_for-le-max :
    (p : RetryPolicy) (attempt : ℕ) (hint : Option Duration)
    → delay_for p attempt hint ≤ p.max_delay_seconds
unfolding delay_for
delay_for-le-max p attempt hint = ground arith

double_mono : (base i j : ℕ) → i ≤ j → base * 2 ^ i ≤ base * 2 ^ j
double_mono base i j h =
    let step : (2 ^ i ≤ 2 ^ j) = pow-le-pow_right (omega arith) h in grind arith

base-le-double : (base k : ℕ) → base ≤ base * 2 ^ k
base-le-double base k = omega (arith, double_mono base 0 k (omega arith))

-- A retry waits at least for the base delay, and for the provider's hint up to the maximal delay.
delay_for-ge :
    (p : RetryPolicy) (attempt : ℕ) (hint : Duration)
    → IsValid p
    → 2 ≤ attempt
    → (p.base_delay_seconds ≤ delay_for p attempt (some hint))
      × (min hint p.max_delay_seconds ≤ delay_for p attempt (some hint))
unfolding delay_for
delay_for-ge p attempt hint v h =
    let doubled = base-le-double p.base_delay_seconds (attempt - 2) in ground (arith, doubled)

-- Later attempts never wait less.
delay_for_mono :
    (p : RetryPolicy) (a b : ℕ) (hint : Option Duration)
    → a ≤ b
    → delay_for p a hint ≤ delay_for p b hint
unfolding delay_for
delay_for_mono p a b none h =
    let doubled = double_mono p.base_delay_seconds (a - 2) (b - 2) (omega arith) in
    ground (arith, doubled)
delay_for_mono p a b (some hint) h =
    let doubled = double_mono p.base_delay_seconds (a - 2) (b - 2) (omega arith) in
    ground (arith, doubled)

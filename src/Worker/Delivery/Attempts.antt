-- ===== src/Worker/Delivery/Attempts.antt =====
-- The runs of one job under arq: a run that asks for a retry is followed by a run with the next
-- attempt number, with whatever dispatcher and providers there are by then.
use ketabdan_ms.Prelude.{
  ℕ, zero, suc, ◌+◌, ◌-◌, ◌*◌, ◌≤◌, ◌<◌, ◌≡◌, ap, ◌≢◌, arith, nat_eq, string_eq,
}
use ketabdan_ms.Prelude.Text.{Unicode}
use ketabdan_ms.Json.{Json}
use ketabdan_ms.Metrics.{Registry}
use ketabdan_ms.Worker.Retry.{Duration, RetryPolicy}
use ketabdan_ms.Worker.Retry.Bounds.{delay_for-le-max}
use ketabdan_ms.Worker.Delivery.{Context, max_tries, retry, deliver_notification}
use ketabdan_ms.Worker.Delivery.Outcomes.{deliver-retry}

-- `Reached p payload k w`: attempt `k` is due, after waits of `w` in all. The counter of attempts is
-- arq's `job_try`, which starts at 1 and goes up by one with each `Retry`; above `max_tries` arq runs
-- the job no more.
pub data Reached (u : Unicode) (second : Duration) (p : RetryPolicy) (payload : Json)
    : ℕ → Duration → Type 0 where
  first : Reached u second p payload 1 0
  again :
      {k w : ℕ} (ctx : Context) (r : Registry) (d k' w' : ℕ)
      → Reached u second p payload k w
      → ctx.notification_retry_policy ≡ p
      → ctx.job_try ≡ k
      → (deliver_notification u second ctx payload r).0 ≡ retry d
      → k' ≡ k + 1
      → k' ≤ max_tries
      → w' ≡ w + d
      → Reached u second p payload k' w'

one_more_wait : (k m w d : ℕ) → 1 ≤ k → w ≤ (k - 1) * m → d ≤ m → w + d ≤ (k + 1 - 1) * m
one_more_wait zero m w d pos h h' = absurd (omega arith)
one_more_wait (suc j) m w d pos h h' =
    let e : (suc j - 1 ≡ j) = omega arith in
    let e' : (suc j + 1 - 1 ≡ j + 1) = omega arith in
    let before : (w ≤ j * m) = rw e at h in rw e' (omega arith)

-- No job is attempted more often than the policy and arq's own bound allow, and its waits add up to at most the
-- maximal delay for each attempt after the first.
pub attempts_bounded :
    (u : Unicode) (second : Duration) (p : RetryPolicy) (payload : Json) {k w : ℕ}
    → 0 < p.max_attempts
    → Reached u second p payload k w
    → (1 ≤ k) × (k ≤ p.max_attempts) × (k ≤ max_tries) × (w ≤ (k - 1) * p.max_delay_seconds)
attempts_bounded u second p payload pos first = (omega arith, omega arith, omega arith, omega arith)
attempts_bounded u second p payload pos
      (again {k} {w} ctx r d k' w' before policy try_is asked next tries total) =
    let retried = deliver-retry u second ctx payload r d asked in
    let earlier = attempts_bounded u second p payload pos before in
    let short : (d ≤ ctx.notification_retry_policy.max_delay_seconds) =
      rw retried.waits (delay_for-le-max ctx.notification_retry_policy (ctx.job_try + 1) _) in
    let same_cap = ap (λ (q : RetryPolicy). q.max_delay_seconds) policy in
    let same_most = ap (λ (q : RetryPolicy). q.max_attempts) policy in
    let left = retried.attempts_left in
    (
      omega arith,
      omega arith,
      tries,
      rw next
          (rw total (one_more_wait k p.max_delay_seconds w d earlier.0 earlier.3 (omega arith))),
    )

-- The last attempt that the policy allows never asks for another.
pub last_attempt_ends :
    (u : Unicode) (second : Duration) (ctx : Context) (payload : Json) (r : Registry) (d : Duration)
    → ctx.notification_retry_policy.max_attempts ≤ ctx.job_try
    → (deliver_notification u second ctx payload r).0 ≢ retry d
last_attempt_ends u second ctx payload r d h asked =
    let retried = deliver-retry u second ctx payload r d asked in
    absurd (omega (arith, retried.attempts_left))

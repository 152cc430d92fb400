-- ===== src/Worker/Delivery/Liveness.antt =====
-- Every job ends, whatever the providers answer at each attempt.
use ketabdan_ms.Prelude.{
  ℕ, zero, suc, ◌+◌, ◌-◌, ◌≤◌, ◌<◌, ◌≡◌, refl, ap, ◌⊎◌, inl, inr, Bool, true, false, arith, nat_eq,
  string_eq,
}
use ketabdan_ms.Prelude.Text.{Unicode}
use ketabdan_ms.Json.{Json}
use ketabdan_ms.Metrics.{Registry}
use ketabdan_ms.Worker.Retry.{Duration, RetryPolicy}
use ketabdan_ms.Worker.Delivery.{
  Context, max_tries, Outcome, delivered, permanent, retry, uncaught, deliver_notification,
}
use ketabdan_ms.Worker.Delivery.Attempts.{Reached, first, again, last_attempt_ends}

abbrev pub asks_again : Outcome → Bool
asks_again delivered = false
asks_again (permanent reason) = false
asks_again (retry d) = true
asks_again (uncaught e) = false

-- An attempt within the policy is reached, and does not ask for another.
pub record Ended (u : Unicode) (second : Duration) (p : RetryPolicy) (payload : Json)
    (env : ℕ → Context) (r : ℕ → Registry) : Type 0 where
  pub last : ℕ
  pub waited : Duration
  pub within : last ≤ p.max_attempts
  pub reached : Reached u second p payload last waited
  pub ended : asks_again (deliver_notification u second (env last) payload (r last)).0 ≡ false

module _ (u : Unicode) (second : Duration) (p : RetryPolicy) (payload : Json) (env : ℕ → Context)
    (r : ℕ → Registry) (policy : (k : ℕ) → (env k).notification_retry_policy ≡ p)
    (counts : (k : ℕ) → (env k).job_try ≡ k) where
  again-cases : (o : Outcome) → (asks_again o ≡ false) ⊎ ((d : Duration) × (o ≡ retry d))
  again-cases delivered = inl refl
  again-cases (permanent reason) = inl refl
  again-cases (retry d) = inr (d, refl)
  again-cases (uncaught e) = inl refl

  ends_here :
      (k w : ℕ)
      → k ≤ p.max_attempts
      → Reached u second p payload k w
      → asks_again (deliver_notification u second (env k) payload (r k)).0 ≡ false
      → Ended u second p payload env r
  ends_here k w within reached e = record {
    last = k;
    waited = w;
    within = within;
    reached = reached;
    ended = e;
  }

  no_more :
      (k : ℕ)
      → k + 0 ≡ p.max_attempts
      → (env k).notification_retry_policy.max_attempts ≤ (env k).job_try
  no_more k total =
      let same = ap (λ (q : RetryPolicy). q.max_attempts) (policy k) in
      let counted = counts k in omega arith

  ends-within :
      (left k w : ℕ)
      → k + left ≡ p.max_attempts
      → p.max_attempts ≤ max_tries
      → Reached u second p payload k w
      → Ended u second p payload env r
  ends-within zero k w total few reached =
      elim (again-cases (deliver_notification u second (env k) payload (r k)).0) [
        | inl e ↦ ends_here k w (omega (arith, total)) reached e
        | inr (d, e) ↦
            absurd (last_attempt_ends u second (env k) payload (r k) d (no_more k total) e)
      ]
  ends-within (suc left) k w total few reached =
      elim (again-cases (deliver_notification u second (env k) payload (r k)).0) [
        | inl e ↦ ends_here k w (omega (arith, total)) reached e
        | inr (d, e) ↦ ends-within left (k + 1) (w + d) (omega (arith, total)) few (
            again (env k) (r k) d (k + 1) (w + d) reached (policy k) (counts k) e refl
              (omega (arith, total, few)) refl)
      ]

  -- Where every attempt runs under the policy, which allows at most as many attempts as arq's own
  -- bound, and arq counts it, some attempt within the policy is reached and does not ask for
  -- another, whatever the providers do at each attempt.
  pub some_attempt_ends :
      0 < p.max_attempts → p.max_attempts ≤ max_tries → Ended u second p payload env r
  some_attempt_ends positive few =
      ends-within (p.max_attempts - 1) 1 0 (omega (arith, positive)) few first

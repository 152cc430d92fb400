-- ===== src/Http/Readiness.antt =====
-- What makes the service ready.
use ketabdan_ms.Prelude.{
  ℕ, String, ◌≡◌, refl, ◌↔◌, ◌⊎◌, inl, inr, arith, nat_eq, string_eq, Result, ok, err,
}
use ketabdan_ms.Http.{readiness, check_service}

abbrev pub Answers : Result String ℕ → Type 0
Answers r = (n : ℕ) × (r ≡ ok n)

-- The answer is 200 exactly when the database and Redis both answer, and else 503, whatever the
-- worker's heartbeat is.
readiness-200_iff :
    (database redis heartbeat : Result String ℕ)
    → (((readiness database redis heartbeat).status_code ≡ 200)
        ↔ (Answers database × Answers redis))
      × (((readiness database redis heartbeat).status_code ≡ 200)
          ⊎ ((readiness database redis heartbeat).status_code ≡ 503))
unfolding readiness check_service
readiness-200_iff (ok n) (ok m) w = ((λ h. ((n, refl), (m, refl)), λ h. refl), inl refl)
readiness-200_iff (ok n) (err e) w = ((λ h. absurd (omega arith), λ (a, (m, h)). cc), inr refl)
readiness-200_iff (err e) (ok m) w = ((λ h. absurd (omega arith), λ ((n, h), b). cc), inr refl)
readiness-200_iff (err e) (err e') w = ((λ h. absurd (omega arith), λ ((n, h), b). cc), inr refl)

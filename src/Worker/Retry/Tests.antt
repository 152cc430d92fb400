-- ===== src/Worker/Retry/Tests.antt =====
-- The retry policy on concrete values.
use ketabdan_ms.Prelude.{◌≡◌, refl, none, some, nat_eq, string_eq}
use ketabdan_ms.Worker.Retry.{RetryPolicy, delay_for}

-- Five attempts, five seconds doubled up to 300 seconds.
abbrev standard : RetryPolicy
standard = record { max_attempts = 5; base_delay_seconds = 5; max_delay_seconds = 300 }

third_attempt :
    (delay_for standard 3 none ≡ 10)
    × (delay_for standard 3 (some 60) ≡ 60)
    × (delay_for standard 3 (some 900) ≡ 300)
unfolding delay_for
third_attempt = (refl, refl, refl)

-- ===== src/Metrics/Labels.antt =====
-- The label values stay within fixed vocabularies, whatever the requests and jobs hold.
use ketabdan_ms.Prelude.{
  ℕ, zero, suc, ◌/◌, ◌≤◌, String, ◌≡◌, refl, sym, ap, inl, inr, true, Option, none, some, List, [],
  ◌∷◌, arith, Bool-cases, ◌==◌, nat_eq, string_eq, ==→≡, All, elem,
}
use Prim.Native.Nat.{min, max}
use ketabdan_ms.Prelude.Text.{show}
use ketabdan_ms.Metrics.{
  Registry, unmetered_paths, status_class, safe_channel, observe_http_request,
  observe_http_request_start, observe_http_request_end, observe_job, observe_notification_attempt,
}

abbrev pub status_classes : List String
status_classes = "1xx" ∷ "2xx" ∷ "3xx" ∷ "4xx" ∷ "5xx" ∷ []

abbrev pub channel_labels : List String
channel_labels = "telegram" ∷ "bale" ∷ "unknown" ∷ []

-- Every recorded status class and channel is one of the fixed words.
pub record IsBounded (r : Registry) : Type 0 where
  pub classes : All (λ e. elem e.2 status_classes ≡ true) r.http_requests_total
  pub deliveries : All (λ e. elem e.0 channel_labels ≡ true) r.notification_delivery_total
  pub durations : All (λ e. elem e.0 channel_labels ≡ true) r.notification_delivery_duration_seconds

class_of_digit :
    (k : ℕ) → 1 ≤ k → k ≤ 5 → elem (Prim.Native.String.◌++◌ (show k) "xx") status_classes ≡ true
unfolding show
class_of_digit zero h h' = absurd (omega arith)
class_of_digit (suc zero) h h' = refl
class_of_digit (suc (suc zero)) h h' = refl
class_of_digit (suc (suc (suc zero))) h h' = refl
class_of_digit (suc (suc (suc (suc zero)))) h h' = refl
class_of_digit (suc (suc (suc (suc (suc zero))))) h h' = refl
class_of_digit (suc (suc (suc (suc (suc (suc n)))))) h h' = absurd (omega arith)

status_class-known : (status : ℕ) → elem (status_class status) status_classes ≡ true
unfolding status_class
status_class-known status =
    class_of_digit (min (max (status / 100) 1) 5) (omega arith) (omega arith)

safe_channel-known : (channel : String) → elem (safe_channel channel) channel_labels ≡ true
unfolding safe_channel
safe_channel-known channel = elim (Bool-cases ("telegram" == channel)) [
  | inl e ↦ rw e (ap (λ c. elem c channel_labels) (sym (==→≡ "telegram" channel e)))
  | inr e ↦ elim (Bool-cases ("bale" == channel)) [
    | inl e' ↦ rw (e, e') (ap (λ c. elem c channel_labels) (sym (==→≡ "bale" channel e')))
    | inr e' ↦ rw (e, e') refl
  ]
]

observe_http_request-IsBounded :
    (method path : String) (template : Option (Option String)) (status duration : ℕ) {r : Registry}
    → IsBounded r
    → IsBounded (observe_http_request method path template status duration r)
unfolding observe_http_request
observe_http_request-IsBounded method path template status duration {r} b =
    elim (Bool-cases (elem path unmetered_paths)) [
      | inl e ↦ rw e b
      | inr e ↦ rw e (record {
        classes = (status_class-known status, b.classes);
        deliveries = b.deliveries;
        durations = b.durations;
      })
    ]

observe_notification-IsBounded :
    (channel outcome : String) (duration : Option ℕ) {r : Registry}
    → IsBounded r
    → IsBounded (observe_notification_attempt channel outcome duration r)
unfolding observe_notification_attempt
observe_notification-IsBounded channel outcome none b = record {
  classes = b.classes;
  deliveries = (safe_channel-known channel, b.deliveries);
  durations = b.durations;
}
observe_notification-IsBounded channel outcome (some d) b = record {
  classes = b.classes;
  deliveries = (safe_channel-known channel, b.deliveries);
  durations = (safe_channel-known channel, b.durations);
}

-- Each recording function keeps the labels within the vocabularies, for any method, path, status,
-- channel text and outcome.
observe-IsBounded :
    (r : Registry) (a b : String) (template : Option (Option String)) (status duration : ℕ)
    (elapsed : Option ℕ)
    → IsBounded r
    → IsBounded (observe_http_request a b template status duration r)
      × IsBounded (observe_http_request_start a r)
      × IsBounded (observe_http_request_end a r)
      × IsBounded (observe_job a b r)
      × IsBounded (observe_notification_attempt a b elapsed r)
unfolding observe_http_request_start observe_http_request_end observe_job
observe-IsBounded r a b template status duration elapsed v = (
  observe_http_request-IsBounded a b template status duration v,
  record { classes = v.classes; deliveries = v.deliveries; durations = v.durations },
  record { classes = v.classes; deliveries = v.deliveries; durations = v.durations },
  record { classes = v.classes; deliveries = v.deliveries; durations = v.durations },
  observe_notification-IsBounded a b elapsed v,
)

-- ===== src/Metrics.antt =====
-- apps/api/app/core/metrics.py. A counter is the list of its increments, each with its label
-- values, the latest first; a histogram is the list of its observations. No helper raises.
pub mod Labels
use ketabdan_ms.Prelude.{
  ℕ, zero, suc, ◌+◌, ◌-◌, ◌*◌, ◌/◌, ◌%◌, ◌^◌, ◌≤◌, ◌<◌, String, ◌≡◌, refl, sym, ap, ◌∙◌, ◌≢◌, ◌↔◌,
  ◌⊎◌, inl, inr, Bool, true, false, not, ◌&&◌, ◌||◌, Option, none, some, List, [], ◌∷◌, map, arith,
  eq_iff, ltb, leb, eqb, if◌then◌else◌, Bool-cases, Option-cases, ltb→lt, lt→ltb, leb→le, Eq, ◌==◌,
  nat_eq, string_eq, ==_refl, ==→≡, Result, ok, err, ◌>>=◌, >>=-eq-ok, length, length-append, find,
  keep, any, All, Any, elem,
}
use Prim.Native.Nat.{min, max}
use Prim.Native.String.{◌++◌}
use ketabdan_ms.Prelude.Text.{show}

pub record Registry : Type 0 where
  pub http_requests_total : List (String × String × String)
  pub http_request_duration_seconds : List (String × String × ℕ)
  pub in_progress_inc : List String
  pub in_progress_dec : List String
  pub worker_jobs_total : List (String × String)
  pub notification_delivery_total : List (String × String)
  pub notification_delivery_duration_seconds : List (String × ℕ)

abbrev pub empty_registry : Registry
empty_registry = record {
  http_requests_total = [];
  http_request_duration_seconds = [];
  in_progress_inc = [];
  in_progress_dec = [];
  worker_jobs_total = [];
  notification_delivery_total = [];
  notification_delivery_duration_seconds = [];
}

abbrev pub job_completed : String
job_completed = "completed"

abbrev pub job_retried : String
job_retried = "retried"

abbrev pub job_failed : String
job_failed = "failed"

abbrev pub notif_success : String
notif_success = "success"

abbrev pub notif_rejected : String
notif_rejected = "rejected"

abbrev pub notif_retryable : String
notif_retryable = "retryable"

abbrev pub notif_failed : String
notif_failed = "failed"

abbrev pub known_channels : List String
known_channels = "telegram" ∷ "bale" ∷ []

abbrev pub unmetered_paths : List String
unmetered_paths = "/metrics" ∷ "/api/health" ∷ "/api/health/live" ∷ "/api/health/ready" ∷ []

unfoldable pub safe_channel : String → String
safe_channel channel = if elem channel known_channels then channel else "unknown"

unfoldable pub status_class : ℕ → String
status_class status = show (min (max (status / 100) 1) 5) ++ "xx"

-- The route template is none for an unmatched request; its path may be missing or no text.
abbrev pub route_label : Option (Option String) → String
route_label (some (some path)) = if path == "" then "unmatched" else path
route_label _ = "unmatched"

unfoldable pub observe_http_request :
    String → String → Option (Option String) → ℕ → ℕ → Registry → Registry
unfolding status_class
observe_http_request method raw_path template status duration r =
    if elem raw_path unmetered_paths then r else record r {
      http_requests_total =
          (method, route_label template, status_class status) ∷ r.http_requests_total;
      http_request_duration_seconds =
          (method, route_label template, duration) ∷ r.http_request_duration_seconds;
    }

unfoldable pub observe_http_request_start : String → Registry → Registry
observe_http_request_start method r = record r { in_progress_inc = method ∷ r.in_progress_inc }

unfoldable pub observe_http_request_end : String → Registry → Registry
observe_http_request_end method r = record r { in_progress_dec = method ∷ r.in_progress_dec }

unfoldable pub observe_job : String → String → Registry → Registry
observe_job function outcome r = record r {
  worker_jobs_total = (function, outcome) ∷ r.worker_jobs_total;
}

abbrev observe_duration : String → Option ℕ → Registry → Registry
observe_duration channel none r = r
observe_duration channel (some d) r = record r {
  notification_delivery_duration_seconds = (channel, d) ∷ r.notification_delivery_duration_seconds;
}

unfoldable pub observe_notification_attempt : String → String → Option ℕ → Registry → Registry
unfolding safe_channel
observe_notification_attempt channel outcome duration r =
    let safe = safe_channel channel in
    observe_duration safe duration
      (record r { notification_delivery_total = (safe, outcome) ∷ r.notification_delivery_total })

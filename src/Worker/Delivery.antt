-- ===== src/Worker/Delivery.antt =====
-- apps/api/app/worker/worker.py: one run of the job `deliver_notification`, and the policy that
-- the worker's startup takes from the settings.
pub mod Outcomes
pub mod Attempts
pub mod Liveness
pub mod EndToEnd
pub mod LogLines
pub mod Privacy
use ketabdan_ms.Prelude.{
  ℕ, zero, suc, ◌+◌, ◌-◌, ◌*◌, ◌/◌, ◌%◌, ◌^◌, ◌≤◌, ◌<◌, String, ◌≡◌, refl, sym, ap, ◌∙◌, ◌≢◌, ◌↔◌,
  ◌⊎◌, inl, inr, Bool, true, false, not, ◌&&◌, ◌||◌, Option, none, some, List, [], ◌∷◌, map, arith,
  eq_iff, ltb, leb, eqb, if◌then◌else◌, Bool-cases, Option-cases, ltb→lt, lt→ltb, leb→le, Eq, ◌==◌,
  nat_eq, string_eq, ==_refl, ==→≡, Result, ok, err, ◌>>=◌, >>=-eq-ok, length, length-append, find,
  keep, any, All, Any, elem,
}
use Prim.Native.String.{◌++◌}
use ketabdan_ms.Prelude.Text.{Unicode, show}
use ketabdan_ms.Json.{Json}
use ketabdan_ms.Config.{Settings}
use ketabdan_ms.Metrics.{
  Registry, observe_job, observe_notification_attempt, job_completed, job_retried, job_failed,
  notif_success, notif_rejected, notif_retryable, notif_failed,
}
use ketabdan_ms.Notifications.Models.{NotificationMessage, NotificationResult}
use ketabdan_ms.Notifications.Dispatcher.{
  NotificationDispatcher, DispatchError, unsupported_channel, send,
}
use ketabdan_ms.Worker.Retry.{Duration, RetryPolicy, PolicyError, make_policy, delay_for}
use ketabdan_ms.Worker.Jobs.{
  NotificationJob, JobError, class_name, deliver_function_name, from_payload, to_message,
}
use ketabdan_ms.Worker.Hint.{retry_after_hint}

-- The entries of arq's `ctx` that the job reads, and how long the delivery takes.
pub record Context : Type 0 where
  pub notification_dispatcher : NotificationDispatcher
  pub notification_retry_policy : RetryPolicy
  pub job_try : ℕ
  pub elapsed : Duration

-- arq's outer bound, `WorkerSettings.max_tries`
abbrev pub max_tries : ℕ
max_tries = 25

-- How a run ends: it returns "delivered", or raises `PermanentNotificationFailure`, arq's `Retry`,
-- or the dispatcher's `UnsupportedChannelError`, which nothing catches.
pub data Outcome : Type 0 where
  delivered : Outcome
  permanent : String → Outcome
  retry : Duration → Outcome
  uncaught : DispatchError → Outcome

unfoldable pub retry_policy_from_settings : Settings → Result PolicyError RetryPolicy
retry_policy_from_settings s =
    make_policy s.notification_max_attempts s.notification_retry_base_delay_seconds
      s.notification_retry_max_delay_seconds

-- Step 1: the job and its message.
unfoldable pub reconstruct : Json → Result JobError (NotificationJob × NotificationMessage)
reconstruct payload =
    from_payload payload >>= λ job. to_message job >>= λ message. ok (job, message)

-- The test on `error_code` for a permanent rejection. An absent or empty code is retryable.
unfoldable pub is_rejection : Option String → Bool
is_rejection none = false
is_rejection (some code) =
    code == "notification_rejected"
    || (not (code == "") && not (code == "provider_unavailable" || code == "provider_error"))

-- `result.error_code`, and `result.error_code or 'unknown error'`, as the messages print them
abbrev code_text : Option String → String
code_text none = "None"
code_text (some code) = code

abbrev code_or_unknown : Option String → String
code_or_unknown none = "unknown error"
code_or_unknown (some code) = if code == "" then "unknown error" else code

abbrev hint_duration : Duration → Option ℕ → Option Duration
hint_duration second none = none
hint_duration second (some n) = some (n * second)

-- `second` is the number of units of a duration in a second.
module _ (u : Unicode) (second : Duration) where
  -- Step 3: classification, metrics and the retry policy.
  unfoldable pub classify_result :
      Context → NotificationJob → NotificationResult → Registry → Outcome × Registry
  unfolding is_rejection
  classify_result ctx job result r =
      let observe = λ (outcome attempt : String).
        observe_notification_attempt job.channel attempt (some ctx.elapsed)
          (observe_job deliver_function_name outcome r) in
      if result.success
      then (delivered, observe job_completed notif_success)
      else if is_rejection result.error_code
      then (
        permanent ("provider rejected the notification (" ++ (code_text result.error_code ++ ")")),
        observe job_failed notif_rejected,
      )
      else if leb ctx.notification_retry_policy.max_attempts ctx.job_try
      then (
        permanent (
            "delivery failed after "
            ++ (show ctx.job_try ++ (" attempts (" ++ (code_or_unknown result.error_code ++ ")")))),
        observe job_failed notif_failed,
      )
      else (
        retry (
            delay_for ctx.notification_retry_policy (ctx.job_try + 1)
              (hint_duration second (retry_after_hint u result.error_message))),
        observe job_retried notif_retryable,
      )

  -- Step 2's answer: an `UnsupportedChannelError` leaves the job function as it is.
  after_send :
      Context
      → NotificationJob
      → Registry
      → Result DispatchError NotificationResult
      → Outcome × Registry
  after_send ctx job r (err e) = (uncaught e, r)
  after_send ctx job r (ok result) = classify_result ctx job result r

  -- Step 1's answer: a corrupt payload fails at once, before anything is sent.
  after_reconstruct :
      Context
      → Registry
      → Result JobError (NotificationJob × NotificationMessage)
      → Outcome × Registry
  after_reconstruct ctx r (err e) = (
    permanent ("invalid job payload (" ++ (class_name e ++ ")")),
    observe_job deliver_function_name job_failed r,
  )
  after_reconstruct ctx r (ok (job, message)) =
      after_send ctx job r (send ctx.notification_dispatcher message)

  unfoldable pub deliver_notification : Context → Json → Registry → Outcome × Registry
  unfolding reconstruct classify_result after_send after_reconstruct
  deliver_notification ctx payload r = after_reconstruct ctx r (reconstruct payload)

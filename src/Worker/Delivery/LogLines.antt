-- ===== src/Worker/Delivery/LogLines.antt =====
-- The lines that a run of `deliver_notification` in apps/api/app/worker/worker.py logs.
use ketabdan_ms.Prelude.{ℕ, ◌+◌, String, Option, List, [], ◌∷◌, leb, if◌then◌else◌, Result, ok, err}
use ketabdan_ms.Prelude.Text.{Unicode}
use ketabdan_ms.Json.{Json}
use ketabdan_ms.Notifications.Models.{NotificationMessage, NotificationResult}
use ketabdan_ms.Notifications.Dispatcher.{DispatchError, send}
use ketabdan_ms.Worker.Retry.{Duration, delay_for}
use ketabdan_ms.Worker.Jobs.{NotificationJob, JobError, class_name}
use ketabdan_ms.Worker.Hint.{retry_after_hint}
use ketabdan_ms.Worker.Delivery.{Context, reconstruct, is_rejection, hint_duration}

pub data Argument : Type 0 where
  text : String → Argument
  optional : Option String → Argument
  number : ℕ → Argument
  duration : Duration → Argument

-- A call of the logger: its method, the format and the arguments
pub record LogLine : Type 0 where
  pub method : String
  pub format : String
  pub arguments : List Argument

module _ (u : Unicode) (second : Duration) (ctx : Context) (job_id : String) where
  unfoldable pub result_line : NotificationJob → NotificationResult → LogLine
  unfolding is_rejection
  result_line job result =
      if result.success
      then record {
        method = "info";
        format =
            "notification delivered: channel=%s category=%s external_id=%s job_id=%s duration_ms=%.0f";
        arguments =
            text job.channel
            ∷ text job.category
            ∷ optional result.external_message_id
            ∷ text job_id
            ∷ duration ctx.elapsed
            ∷ [];
      }
      else if is_rejection result.error_code
      then record {
        method = "warning";
        format =
            "notification permanently rejected: channel=%s category=%s error_code=%s job_id=%s duration_ms=%.0f";
        arguments =
            text job.channel
            ∷ text job.category
            ∷ optional result.error_code
            ∷ text job_id
            ∷ duration ctx.elapsed
            ∷ [];
      }
      else if leb ctx.notification_retry_policy.max_attempts ctx.job_try
      then record {
        method = "error";
        format =
            "notification delivery failed permanently after %d attempts: channel=%s category=%s error_code=%s job_id=%s";
        arguments =
            number ctx.job_try
            ∷ text job.channel
            ∷ text job.category
            ∷ optional result.error_code
            ∷ text job_id
            ∷ [];
      }
      else record {
        method = "info";
        format =
            "notification attempt %d/%d failed (error_code=%s) — retrying in %.1fs: channel=%s category=%s job_id=%s";
        arguments =
            number ctx.job_try
            ∷ number ctx.notification_retry_policy.max_attempts
            ∷ optional result.error_code
            ∷ duration (
                delay_for ctx.notification_retry_policy (ctx.job_try + 1)
                  (hint_duration second (retry_after_hint u result.error_message)))
            ∷ text job.channel
            ∷ text job.category
            ∷ text job_id
            ∷ [];
      }

  abbrev pub sent_lines : NotificationJob → Result DispatchError NotificationResult → List LogLine
  sent_lines job (err e) = []
  sent_lines job (ok result) = result_line job result ∷ []

  abbrev pub read_lines : Result JobError (NotificationJob × NotificationMessage) → List LogLine
  read_lines (err e) =
      record {
        method = "error";
        format = "notification job payload is invalid: job_id=%s (%s)";
        arguments = text job_id ∷ text (class_name e) ∷ [];
      }
      ∷ []
  read_lines (ok (job, message)) = sent_lines job (send ctx.notification_dispatcher message)

  unfoldable pub log_lines : Json → List LogLine
  unfolding reconstruct result_line
  log_lines payload = read_lines (reconstruct payload)

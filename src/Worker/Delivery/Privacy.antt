-- ===== src/Worker/Delivery/Privacy.antt =====
-- What a run of the delivery job lets out of a message.
use ketabdan_ms.Prelude.{String, ◌≡◌, refl, nat_eq, string_eq, Result, ok, err}
use ketabdan_ms.Prelude.Text.{Unicode}
use ketabdan_ms.Json.{Json}
use ketabdan_ms.Metrics.{Registry}
use ketabdan_ms.Notifications.Models.{NotificationMessage, NotificationResult}
use ketabdan_ms.Notifications.Dispatcher.{DispatchError, send}
use ketabdan_ms.Worker.Retry.{Duration}
use ketabdan_ms.Worker.Jobs.{NotificationJob, JobError, class_name}
use ketabdan_ms.Worker.Delivery.{
  Context, reconstruct, classify_result, after_send, after_reconstruct, deliver_notification,
}
use ketabdan_ms.Worker.Delivery.LogLines.{result_line, sent_lines, read_lines, log_lines}

-- Two payloads that are rebuilt alike: both fail with exceptions of one class, or both give a job of
-- the same channel and category whose message the dispatcher answers in the same way.
pub data Alike (ctx : Context)
    : (x y : Result JobError (NotificationJob × NotificationMessage)) → Type 0 where
  both_corrupt : {e e' : JobError} → class_name e ≡ class_name e' → Alike ctx (err e) (err e')
  both_rebuilt :
      {job job' : NotificationJob} {m m' : NotificationMessage}
      → job.channel ≡ job'.channel
      → job.category ≡ job'.category
      → send ctx.notification_dispatcher m ≡ send ctx.notification_dispatcher m'
      → Alike ctx (ok (job, m)) (ok (job', m'))

module _ (u : Unicode) (second : Duration) (ctx : Context) where
  classify-same :
      (job job' : NotificationJob) (result : NotificationResult) (r : Registry)
      → job.channel ≡ job'.channel
      → classify_result u second ctx job result r ≡ classify_result u second ctx job' result r
  unfolding classify_result
  classify-same job job' result r h = rw h refl

  sent-same :
      (job job' : NotificationJob) (r : Registry) (x : Result DispatchError NotificationResult)
      → job.channel ≡ job'.channel
      → after_send u second ctx job r x ≡ after_send u second ctx job' r x
  unfolding after_send
  sent-same job job' r (err e) h = refl
  sent-same job job' r (ok result) h = classify-same job job' result r h

  rebuilt-same :
      (r : Registry) (x y : Result JobError (NotificationJob × NotificationMessage))
      → Alike ctx x y
      → after_reconstruct u second ctx r x ≡ after_reconstruct u second ctx r y
  unfolding after_reconstruct
  rebuilt-same r (err e) (err e') (both_corrupt h) = rw h refl
  rebuilt-same r (ok (job, m)) (ok (job', m')) (both_rebuilt channel category answer) =
      rw answer (sent-same job job' r (send ctx.notification_dispatcher m') channel)
  rebuilt-same r (ok (job, m)) (err e) h = elim h [ ]
  rebuilt-same r (err e) (ok x) h = elim h [ ]

  module _ (job_id : String) where
    sent_lines-same :
        (job job' : NotificationJob) (x : Result DispatchError NotificationResult)
        → job.channel ≡ job'.channel
        → job.category ≡ job'.category
        → sent_lines u second ctx job_id job x ≡ sent_lines u second ctx job_id job' x
    unfolding result_line
    sent_lines-same job job' (err e) h h' = refl
    sent_lines-same job job' (ok result) h h' = rw (h, h') refl

    read_lines-same :
        (x y : Result JobError (NotificationJob × NotificationMessage))
        → Alike ctx x y
        → read_lines u second ctx job_id x ≡ read_lines u second ctx job_id y
    read_lines-same (err e) (err e') (both_corrupt h) = rw h refl
    read_lines-same (ok (job, m)) (ok (job', m')) (both_rebuilt channel category answer) =
        rw answer (sent_lines-same job job' (send ctx.notification_dispatcher m') channel category)
    read_lines-same (ok (job, m)) (err e) h = elim h [ ]
    read_lines-same (err e) (ok x) h = elim h [ ]

    -- The recipient, the text and the metadata of a notification stay out of the worker's log, of the
    -- exception that it raises and of its metrics: runs of two payloads of the same channel and
    -- category that the provider answers alike log the same lines, end alike and count alike; so do
    -- runs of two corrupt payloads, where the exceptions have one class.
    pub deliver_notification_private :
        (p p' : Json) (r : Registry)
        → Alike ctx (reconstruct p) (reconstruct p')
        → (log_lines u second ctx job_id p ≡ log_lines u second ctx job_id p')
          × (deliver_notification u second ctx p r ≡ deliver_notification u second ctx p' r)
    unfolding log_lines deliver_notification
    deliver_notification_private p p' r h = (
      read_lines-same (reconstruct p) (reconstruct p') h,
      rebuilt-same r (reconstruct p) (reconstruct p') h,
    )

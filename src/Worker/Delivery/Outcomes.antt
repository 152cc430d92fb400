-- ===== src/Worker/Delivery/Outcomes.antt =====
-- How one run of the delivery job ends, and what it counts.
use ketabdan_ms.Prelude.{
  ◌+◌, ◌<◌, String, ◌≡◌, refl, ap, ◌∙◌, false, List, [], ◌∷◌, ◌++◌, arith, nat_eq, string_eq,
  Result, ok, err,
}
use ketabdan_ms.Prelude.Text.{Unicode}
use ketabdan_ms.Json.{Json}
use ketabdan_ms.Metrics.{
  Registry, observe_job, observe_notification_attempt, job_completed, job_failed, job_retried,
}
use ketabdan_ms.Notifications.Models.{NotificationMessage, NotificationResult}
use ketabdan_ms.Notifications.Dispatcher.{DispatchError, send}
use ketabdan_ms.Worker.Retry.{Duration, delay_for}
use ketabdan_ms.Worker.Jobs.{NotificationJob, JobError, deliver_function_name}
use ketabdan_ms.Worker.Hint.{retry_after_hint}
use ketabdan_ms.Worker.Delivery.{
  Context, Outcome, delivered, permanent, retry, uncaught, reconstruct, is_rejection, hint_duration,
  classify_result, after_send, after_reconstruct, deliver_notification,
}

-- The entry that an outcome has in `worker_jobs_total`. An exception that nothing catches has none.
abbrev pub counted : Outcome → List (String × String)
counted delivered = (deliver_function_name, job_completed) ∷ []
counted (permanent text) = (deliver_function_name, job_failed) ∷ []
counted (retry delay) = (deliver_function_name, job_retried) ∷ []
counted (uncaught e) = []

module _ (u : Unicode) (second : Duration) where
  classify-counted :
      (ctx : Context) (job : NotificationJob) (result : NotificationResult) (r : Registry)
      → (classify_result u second ctx job result r).1.worker_jobs_total
        ≡ counted (classify_result u second ctx job result r).0 ++ r.worker_jobs_total
  unfolding classify_result observe_job observe_notification_attempt
  classify-counted ctx job result r = ground arith

  after_send-counted :
      (ctx : Context) (job : NotificationJob) (r : Registry)
      (x : Result DispatchError NotificationResult)
      → (after_send u second ctx job r x).1.worker_jobs_total
        ≡ counted (after_send u second ctx job r x).0 ++ r.worker_jobs_total
  unfolding after_send
  after_send-counted ctx job r (ok result) = classify-counted ctx job result r
  after_send-counted ctx job r (err e) = refl

  after_reconstruct-counted :
      (ctx : Context) (r : Registry) (x : Result JobError (NotificationJob × NotificationMessage))
      → (after_reconstruct u second ctx r x).1.worker_jobs_total
        ≡ counted (after_reconstruct u second ctx r x).0 ++ r.worker_jobs_total
  unfolding after_reconstruct observe_job
  after_reconstruct-counted ctx r (ok (job, message)) = after_send-counted ctx job r _
  after_reconstruct-counted ctx r (err e) = refl

  -- Every run adds exactly one entry to the job counter, with the outcome that it ends with, unless
  -- the dispatcher has no provider for the channel; that run adds none.
  pub deliver-counted :
      (ctx : Context) (payload : Json) (r : Registry)
      → (deliver_notification u second ctx payload r).1.worker_jobs_total
        ≡ counted (deliver_notification u second ctx payload r).0 ++ r.worker_jobs_total
  unfolding deliver_notification
  deliver-counted ctx payload r = after_reconstruct-counted ctx r (reconstruct payload)

  -- A run that asks for a retry has rebuilt the job and its message, got a failure that is no
  -- rejection from the dispatcher, has attempts left, and waits as the policy says for the next
  -- attempt and the hint in the failure's text.
  pub record Retried (ctx : Context) (payload : Json) (delay : Duration) : Type 0 where
    pub job : NotificationJob
    pub message : NotificationMessage
    pub result : NotificationResult
    pub rebuilt : reconstruct payload ≡ ok (job, message)
    pub sent : send ctx.notification_dispatcher message ≡ ok result
    pub failure : result.success ≡ false
    pub retryable : is_rejection result.error_code ≡ false
    pub attempts_left : ctx.job_try < ctx.notification_retry_policy.max_attempts
    pub waits :
        delay
        ≡ delay_for ctx.notification_retry_policy
            (ctx.job_try + 1)
            (hint_duration second (retry_after_hint u result.error_message))

  classify-retry :
      (ctx : Context) (job : NotificationJob) (result : NotificationResult) (r : Registry)
      (d : Duration)
      → (classify_result u second ctx job result r).0 ≡ retry d
      → (result.success ≡ false)
        × (is_rejection result.error_code ≡ false)
        × (ctx.job_try < ctx.notification_retry_policy.max_attempts)
        × (d
            ≡ delay_for ctx.notification_retry_policy
                (ctx.job_try + 1)
                (hint_duration second (retry_after_hint u result.error_message)))
  unfolding classify_result
  classify-retry ctx job result r d h = ground arith

  after_send-retry :
      (ctx : Context) (payload : Json) (job : NotificationJob) (m : NotificationMessage)
      (r : Registry) (d : Duration) (x : Result DispatchError NotificationResult)
      → reconstruct payload ≡ ok (job, m)
      → send ctx.notification_dispatcher m ≡ x
      → (after_send u second ctx job r x).0 ≡ retry d
      → Retried ctx payload d
  unfolding after_send
  after_send-retry ctx payload job m r d (ok result) e e' h =
      let (failure, retryable, left, waits) = classify-retry ctx job result r d h in
      record {
        job = job;
        message = m;
        result = result;
        rebuilt = e;
        sent = e';
        failure = failure;
        retryable = retryable;
        attempts_left = left;
        waits = waits;
      }
  after_send-retry ctx payload job m r d (err e) _ _ h = cc

  after_reconstruct-retry :
      (ctx : Context) (payload : Json) (r : Registry) (d : Duration)
      (x : Result JobError (NotificationJob × NotificationMessage))
      → reconstruct payload ≡ x
      → (after_reconstruct u second ctx r x).0 ≡ retry d
      → Retried ctx payload d
  unfolding after_reconstruct
  after_reconstruct-retry ctx payload r d (ok (job, m)) e h =
      after_send-retry ctx payload job m r d _ e refl h
  after_reconstruct-retry ctx payload r d (err x) e h = cc

  pub deliver-retry :
      (ctx : Context) (payload : Json) (r : Registry) (d : Duration)
      → (deliver_notification u second ctx payload r).0 ≡ retry d
      → Retried ctx payload d
  unfolding deliver_notification
  deliver-retry ctx payload r d h =
      after_reconstruct-retry ctx payload r d (reconstruct payload) refl h

  -- What was rebuilt from a payload is delivered and classified as it was.
  pub deliver-eq-classify :
      (ctx : Context) (payload : Json) (r : Registry) (job : NotificationJob)
      (m : NotificationMessage) (result : NotificationResult)
      → reconstruct payload ≡ ok (job, m)
      → send ctx.notification_dispatcher m ≡ ok result
      → deliver_notification u second ctx payload r ≡ classify_result u second ctx job result r
  unfolding deliver_notification after_send after_reconstruct
  deliver-eq-classify ctx payload r job m result e e' =
      ap (after_reconstruct u second ctx r) e ∙ ap (after_send u second ctx job r) e'

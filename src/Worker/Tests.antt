-- ===== src/Worker/Tests.antt =====
-- The queue and the delivery job on concrete values.
use ketabdan_ms.Prelude.{
  ℕ, ◌-◌, ◌*◌, ◌≤◌, String, ◌≡◌, refl, none, some, [], ◌++◌, arith, nat_eq, string_eq, ok, err,
}
use ketabdan_ms.Prelude.Text.{is_blank, strip, lstrip, rstrip, is_space}
use ketabdan_ms.Json.{Json, pos, get, keys, to_str, show_ℤ}
use ketabdan_ms.Metrics.{empty_registry}
use ketabdan_ms.Notifications.Models.{
  channel_of, make_message, make_recipient, channel_value, reject,
}
use ketabdan_ms.Notifications.BotApi.{
  retry_after, send_bot_api_message, read_reply, classify, envelope_description,
}
use ketabdan_ms.Notifications.Factory.Delivery.{built, build-eq-ok}
use ketabdan_ms.Worker.Retry.{RetryPolicy, delay_for}
use ketabdan_ms.Worker.Jobs.{
  NotificationJob, from_message, to_message, make_job, to_payload, from_payload,
}
use ketabdan_ms.Worker.Jobs.RoundTrip.{IsMessage, job_of, queue_round_trip}
use ketabdan_ms.Worker.Delivery.{Context, retry, reconstruct, deliver_notification}
use ketabdan_ms.Worker.Delivery.Outcomes.{counted, deliver-counted}
use ketabdan_ms.Worker.Delivery.Attempts.{Reached, first, again, attempts_bounded}
use ketabdan_ms.Worker.Delivery.Liveness.{Ended, some_attempt_ends}
use ketabdan_ms.Notifications.Dispatcher.{send, deliver_to, normalize}
use ketabdan_ms.Notifications.Factory.{token_or_none}
use ketabdan_ms.Worker.Delivery.LogLines.{log_lines}
use ketabdan_ms.Worker.Delivery.Privacy.{Alike, both_rebuilt, deliver_notification_private}
use ketabdan_ms.Worker.Delivery.EndToEnd.{rate_limit_respected}
use ketabdan_ms.Worker.Serialization.{Value, exception, Codec}
use ketabdan_ms.Worker.Service.{
  Redis, BackgroundNotificationService, could_not_enqueue, done, raised, enqueue_notification,
}
use ketabdan_ms.Worker.Service.Pool.{Queued, enqueue-ok}
use ketabdan_ms.Samples.{ascii, live_settings, message, busy, busy_body}

abbrev repr : Json → String
repr v = "..."

abbrev seconds : ℕ → String
seconds n = "10"

abbrev policy : RetryPolicy
policy = record { max_attempts = 5; base_delay_seconds = 5000; max_delay_seconds = 300000 }

abbrev ctx : Context
ctx = record {
  notification_dispatcher = built repr seconds busy live_settings;
  notification_retry_policy = policy;
  job_try = 1;
  elapsed = 20;
}

-- The provider is busy at every attempt.
abbrev busy_at : ℕ → Context
busy_at k = record ctx { job_try = k }

abbrev payload : Json
payload = to_payload (job_of message)

rebuilt : reconstruct payload ≡ ok (job_of message, message)
unfolding reconstruct to_payload from_payload make_job to_message channel_of channel_value
    make_message make_recipient is_blank strip lstrip rstrip is_space get keys
rebuilt = refl

busy-wait : retry_after (some busy_body) ≡ some (Json.int (pos 60))
unfolding retry_after get
busy-wait = refl

rate_limit_respected_example :
    (deliver_notification ascii 1000 ctx payload empty_registry).0
    ≡ retry (delay_for policy 2 (some 60000))
rate_limit_respected_example =
    rate_limit_respected repr seconds ascii 1000 busy live_settings ctx payload (job_of message)
      message "1:a" (some busy_body) 60 empty_registry (build-eq-ok repr seconds busy live_settings)
      rebuilt refl (λ h. cc) (omega arith) refl busy-wait (omega arith)

second_attempt : Reached ascii 1000 policy payload 2 (delay_for policy 2 (some 60000))
second_attempt =
    again ctx empty_registry (delay_for policy 2 (some 60000)) 2 (delay_for policy 2 (some 60000))
      first refl refl rate_limit_respected_example (omega arith) (omega arith) (omega arith)

other_payload : Json
unfolding to_payload
other_payload = to_payload (record (job_of message) { address = "77"; text = "other" })

alike : Alike ctx (reconstruct payload) (reconstruct other_payload)
unfolding reconstruct to_payload other_payload from_payload make_job to_message channel_of
    channel_value make_message make_recipient is_blank strip lstrip rstrip is_space get keys send
    deliver_to normalize send_bot_api_message read_reply classify envelope_description retry_after
    reject to_str show_ℤ token_or_none
alike = both_rebuilt refl refl refl

deliver_notification_private_example :
    (log_lines ascii 1000 ctx "7" payload ≡ log_lines ascii 1000 ctx "7" other_payload)
    × (deliver_notification ascii 1000 ctx payload empty_registry
        ≡ deliver_notification ascii 1000 ctx other_payload empty_registry)
deliver_notification_private_example =
    deliver_notification_private ascii 1000 ctx "7" payload other_payload empty_registry alike

attempts_bounded_example :
    (1 ≤ 2) × (2 ≤ 5) × (2 ≤ 25) × (delay_for policy 2 (some 60000) ≤ (2 - 1) * 300000)
attempts_bounded_example = attempts_bounded ascii 1000 policy payload (omega arith) second_attempt

deliver-counted_example :
    (deliver_notification ascii 1000 ctx payload empty_registry).1.worker_jobs_total
    ≡ counted (deliver_notification ascii 1000 ctx payload empty_registry).0 ++ []
deliver-counted_example = deliver-counted ascii 1000 ctx payload empty_registry

message-IsMessage : IsMessage message
unfolding is_blank strip lstrip rstrip is_space
message-IsMessage = record { address = refl; text = refl; category = refl }

queue_round_trip_example :
    (j : NotificationJob) × (from_message message ≡ ok j)
    × (from_payload (to_payload j) ≡ ok j)
    × (to_message j ≡ ok message)
queue_round_trip_example = queue_round_trip message message-IsMessage

accepted : from_payload payload ≡ ok (job_of message)
unfolding to_payload from_payload make_job channel_value is_blank strip lstrip rstrip is_space get
    keys
accepted = refl

-- One pool can be had; it is number 4.
abbrev up : Redis
up = record { connect = ok 4; enqueue_job = λ p name job. done }

abbrev failing : Redis
failing = record { connect = ok 4; enqueue_job = λ p name job. raised "ConnectionError" }

abbrev idle : BackgroundNotificationService
idle = record { pool = none; queued = []; released = [] }

enqueued :
    (enqueue_notification up "telegram" "42" "hi" "event_reminder" none idle).0
    ≡ ok (job_of message)
unfolding enqueue_notification make_job channel_value is_blank strip lstrip rstrip is_space
enqueued = refl

enqueue-ok_example :
    Queued up idle
      (enqueue_notification up "telegram" "42" "hi" "event_reminder" none idle).1
      (job_of message)
enqueue-ok_example =
    enqueue-ok up "telegram" "42" "hi" "event_reminder" none idle (job_of message) enqueued

not_enqueued :
    (enqueue_notification failing "telegram" "42" "hi" "event_reminder" none idle).0
    ≡ err (could_not_enqueue "ConnectionError")
unfolding enqueue_notification make_job is_blank strip lstrip rstrip is_space
not_enqueued = refl

some_attempt_ends_example : Ended ascii 1000 policy payload busy_at (λ k. empty_registry)
some_attempt_ends_example =
    some_attempt_ends ascii 1000 policy payload busy_at (λ k. empty_registry) (λ k. refl)
      (λ k. refl) (omega arith) (omega arith)

-- Codecs that print texts only
abbrev texts : Codec String
texts = record {
  dumps = λ j. elim j [ Json.str s ↦ ok s | _ ↦ err "RecursionError" ];
  encode = λ s. ok s;
  decode = λ s. ok s;
  loads = λ s. ok (Json.str s);
}

abbrev failure : Value
failure = exception "PermanentNotificationFailure" "delivery failed"

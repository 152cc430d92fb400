-- ===== src/Worker/Delivery/EndToEnd.antt =====
-- From the provider's HTTP 429 to the worker's wait: the hint crosses the provider module, the
-- dispatcher and the result's text, and comes out as the delay of the next attempt.
use ketabdan_ms.Prelude.{
  ℕ, ◌+◌, ◌*◌, ◌≤◌, ◌<◌, String, ◌≡◌, refl, ap, ◌∙◌, ◌≢◌, true, false, Option, some, arith, eq_iff,
  ltb, ◌==◌, nat_eq, string_eq, ok, err,
}
use Prim.Native.String.{count, ◌++◌}
use ketabdan_ms.Prelude.Text.{Unicode}
use ketabdan_ms.Json.{Json, int, pos, to_str}
use ketabdan_ms.Config.{Settings}
use ketabdan_ms.Metrics.{Registry}
use ketabdan_ms.Notifications.Models.{
  NotificationChannel, telegram, bale, NotificationMessage, NotificationResult, unavailable,
}
use ketabdan_ms.Notifications.Dispatcher.{normalize, send}
use ketabdan_ms.Notifications.BotApi.{
  BotApi, Transport, response, retry_after, url_of, payload_of, classify, read_reply,
  send_bot_api_message,
}
use ketabdan_ms.Notifications.Factory.{token_or_none, build_notification_dispatcher}
use ketabdan_ms.Notifications.Factory.Delivery.{api_of, token_of, built, build-eq-ok, send-built}
use ketabdan_ms.Worker.Retry.{Duration, delay_for}
use ketabdan_ms.Worker.Jobs.{NotificationJob}
use ketabdan_ms.Worker.Hint.RateLimit.{no_paren, wait_suffix, retry_after_hint-rate_limit}
use ketabdan_ms.Worker.Delivery.{Context, retry, reconstruct, classify_result, deliver_notification}
use ketabdan_ms.Worker.Delivery.Outcomes.{deliver-eq-classify}

rate_limited : String → NotificationMessage → ℕ → NotificationResult
rate_limited name m n =
    normalize m (err (unavailable (name ++ (" rate limit exceeded" ++ wait_suffix (pos n)))))

module _ (repr : Json → String) where
  classify-rate_limit :
      (api : BotApi) (body : Option Json) (n : ℕ)
      → retry_after body ≡ some (int (pos n))
      → classify repr api 429 body
        ≡ err (unavailable (api.provider_name ++ (" rate limit exceeded" ++ wait_suffix (pos n))))
  unfolding classify to_str
  classify-rate_limit api body n wait = rw wait

  send-rate_limited :
      (t : Transport) (api : BotApi) (key timeout : String) (m : NotificationMessage)
      (body : Option Json) (n : ℕ)
      → key ≢ ""
      → count m.text ≤ api.max_text_length
      → t (url_of api key) (payload_of m) ≡ response 429 body
      → retry_after body ≡ some (int (pos n))
      → normalize m (send_bot_api_message repr t api (token_or_none (some key)) timeout m)
        ≡ rate_limited api.provider_name m n
  unfolding send_bot_api_message token_or_none rate_limited read_reply
  send-rate_limited t api key timeout m body n h fits replied wait =
      let e : ((key == "") ≡ false) = ground (arith, eq_iff key "") in
      let f : (ltb api.max_text_length (count m.text) ≡ false) = ground arith in
      rw e (rw e (rw f (rw replied (ap (normalize m) (classify-rate_limit api body n wait)))))

  classify-rate_limited :
      (u : Unicode) (second : Duration) (ctx : Context) (job : NotificationJob) (name : String)
      (m : NotificationMessage) (n : ℕ) (r : Registry)
      → no_paren name ≡ true
      → ctx.job_try < ctx.notification_retry_policy.max_attempts
      → (classify_result u second ctx job (rate_limited name m n) r).0
        ≡ retry (delay_for ctx.notification_retry_policy (ctx.job_try + 1) (some (n * second)))
  unfolding classify_result rate_limited normalize
  classify-rate_limited u second ctx job name m n r h left =
      ground (arith, retry_after_hint-rate_limit u name n)

no_paren-name : (c : NotificationChannel) → no_paren (api_of c).provider_name ≡ true
no_paren-name telegram = refl
no_paren-name bale = refl

fits-limit : (c : NotificationChannel) → (api_of c).max_text_length ≡ 4096
fits-limit telegram = refl
fits-limit bale = refl

-- When the worker's dispatcher is the one that the settings build, the channel of a queued message
-- has a non-empty token, the text is within 4096 characters and the provider answers 429 with a wait
-- of `n` seconds, then a run with attempts left asks for a retry after the policy's delay for the
-- next attempt with that wait as the hint.
pub rate_limit_respected :
    (repr : Json → String) (show_seconds : ℕ → String) (u : Unicode) (second : Duration)
    (t : Transport) (s : Settings) (ctx : Context) (payload : Json) (job : NotificationJob)
    (m : NotificationMessage) (key : String) (body : Option Json) (n : ℕ) (r : Registry)
    → build_notification_dispatcher repr show_seconds t s ≡ ok ctx.notification_dispatcher
    → reconstruct payload ≡ ok (job, m)
    → token_of m.recipient.channel s ≡ some key
    → key ≢ ""
    → count m.text ≤ 4096
    → t (url_of (api_of m.recipient.channel) key) (payload_of m) ≡ response 429 body
    → retry_after body ≡ some (int (pos n))
    → ctx.job_try < ctx.notification_retry_policy.max_attempts
    → (deliver_notification u second ctx payload r).0
      ≡ retry (delay_for ctx.notification_retry_policy (ctx.job_try + 1) (some (n * second)))
rate_limit_respected repr show_seconds u second t s ctx payload job m key body n r built_it rebuilt
      token not_empty fits replied wait left =
    let api = api_of m.recipient.channel in
    let same : (ctx.notification_dispatcher ≡ built repr show_seconds t s) =
      cc (build-eq-ok repr show_seconds t s) in
    let limited =
      send-rate_limited repr t api key (show_seconds s.notification_timeout_seconds) m body n
        not_empty (rw (fits-limit m.recipient.channel) fits) replied wait in
    let sent : (send ctx.notification_dispatcher m ≡ ok (rate_limited api.provider_name m n)) =
      ap (λ d. send d m) same
      ∙ send-built repr show_seconds t s m
      ∙ ap ok (
          ap
            (λ k. normalize m (
              send_bot_api_message repr t api (token_or_none k)
                (show_seconds s.notification_timeout_seconds) m))
            token
          ∙ limited) in
    ap (λ x. x.0) (deliver-eq-classify u second ctx payload r job m _ rebuilt sent)
    ∙ classify-rate_limited repr u second ctx job api.provider_name m n r
        (no_paren-name m.recipient.channel) left

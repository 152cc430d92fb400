-- ===== src/Notifications/Factory/Delivery.antt =====
-- The dispatcher that the settings build: which API serves a message, and that it always answers.
use ketabdan_ms.Prelude.{
  ℕ, String, ◌≡◌, refl, ap, ◌∙◌, Option, some, [], ◌∷◌, nat_eq, string_eq, Result, ok, err,
}
use ketabdan_ms.Json.{Json}
use ketabdan_ms.Config.{Settings}
use ketabdan_ms.Notifications.Models.{
  NotificationChannel, telegram, bale, NotificationMessage, NotificationResult, Failure,
  unavailable, rejected, crashed, channel_value,
}
use ketabdan_ms.Notifications.Dispatcher.{
  NotificationDispatcher, make_dispatcher, normalize, lookup, deliver_to, send,
}
use ketabdan_ms.Notifications.BotApi.{
  BotApi, Transport, telegram_api, bale_api, make_provider, send_bot_api_message,
}
use ketabdan_ms.Notifications.BotApi.Outcomes.{sent-channel}
use ketabdan_ms.Notifications.Factory.{token_or_none, build_notification_dispatcher}

-- The API and the configured token behind a channel.
abbrev pub api_of : NotificationChannel → BotApi
api_of telegram = telegram_api
api_of bale = bale_api

abbrev pub token_of : NotificationChannel → Settings → Option String
token_of telegram s = s.telegram_bot_token
token_of bale s = s.bale_bot_token

channel-api_of : (c : NotificationChannel) → (api_of c).channel ≡ c
channel-api_of telegram = refl
channel-api_of bale = refl

module _ (repr : Json → String) (show_seconds : ℕ → String) (transport : Transport)
    (s : Settings) where
  abbrev provider_for :
      NotificationChannel → ketabdan_ms.Notifications.Dispatcher.NotificationProvider
  provider_for c =
      make_provider repr transport (api_of c) (token_or_none (token_of c s))
        (show_seconds s.notification_timeout_seconds)

  abbrev pub built : NotificationDispatcher
  built = record {
    providers = ("telegram", provider_for telegram) ∷ ("bale", provider_for bale) ∷ [];
  }

  pub build-eq-ok : build_notification_dispatcher repr show_seconds transport s ≡ ok built
  unfolding build_notification_dispatcher channel_value
  build-eq-ok = refl

  lookup-built :
      (c : NotificationChannel) → lookup (channel_value c) built.providers ≡ some (provider_for c)
  unfolding channel_value
  lookup-built telegram = refl
  lookup-built bale = refl

  -- A message is served by the API of its own channel, with the token that is configured for it.
  pub send-built :
      (m : NotificationMessage)
      → send built m
        ≡ ok (
            normalize m (
              send_bot_api_message repr transport
                (api_of m.recipient.channel)
                (token_or_none (token_of m.recipient.channel s))
                (show_seconds s.notification_timeout_seconds)
                m))
  unfolding send
  send-built m = ap (deliver_to m) (lookup-built m.recipient.channel)

  normalize-channel :
      (m : NotificationMessage) (x : Result Failure NotificationResult)
      → ((r : NotificationResult) → x ≡ ok r → r.channel ≡ m.recipient.channel)
      → (normalize m x).channel ≡ m.recipient.channel
  unfolding normalize
  normalize-channel m (ok r) h = h r refl
  normalize-channel m (err (unavailable t)) h = refl
  normalize-channel m (err (rejected t c)) h = refl
  normalize-channel m (err (crashed n t)) h = refl

  -- Whatever the settings and the providers answer, the dispatcher is built without an error and
  -- every send returns a result for the channel of its message.
  build_and_send :
      (m : NotificationMessage)
      → (d : NotificationDispatcher) × (r : NotificationResult) × (build_notification_dispatcher
            repr show_seconds transport s
          ≡ ok d)
        × (send d m ≡ ok r)
        × (r.channel ≡ m.recipient.channel)
  build_and_send m = (
    built,
    _,
    build-eq-ok,
    send-built m,
    normalize-channel m _ (λ r e.
        sent-channel repr transport (api_of m.recipient.channel) _ _ m r e
        ∙ channel-api_of m.recipient.channel),
  )

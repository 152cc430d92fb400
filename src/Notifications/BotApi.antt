-- ===== src/Notifications/BotApi.antt =====
-- apps/api/app/notifications/_botapi.py, telegram.py and bale.py. The HTTP client is a function
-- from the URL and the JSON payload to what comes back.
pub mod Outcomes
pub mod Privacy
use ketabdan_ms.Prelude.{
  ℕ, zero, suc, ◌+◌, ◌-◌, ◌*◌, ◌/◌, ◌%◌, ◌^◌, ◌≤◌, ◌<◌, String, ◌≡◌, refl, sym, ap, ◌∙◌, ◌≢◌, ◌↔◌,
  ◌⊎◌, inl, inr, Bool, true, false, not, ◌&&◌, ◌||◌, Option, none, some, List, [], ◌∷◌, map, arith,
  eq_iff, ltb, leb, eqb, if◌then◌else◌, Bool-cases, Option-cases, ltb→lt, lt→ltb, leb→le, Eq, ◌==◌,
  nat_eq, string_eq, ==_refl, ==→≡, Result, ok, err, ◌>>=◌, >>=-eq-ok, length, length-append, find,
  keep, any, All, Any, elem,
}
use Prim.Native.String.{◌++◌, count}
use ketabdan_ms.Prelude.Text.{show}
use ketabdan_ms.Json.{Json, int, bool, str, obj, Fields, end, field, get, to_str}
use ketabdan_ms.Notifications.Models.{
  NotificationChannel, telegram, bale, NotificationMessage, NotificationResult, Failure,
  unavailable, rejected, crashed, reject,
}
use ketabdan_ms.Notifications.Dispatcher.{NotificationProvider}

-- `response` has the status code, and the body unless it is no JSON.
pub data Reply : Type 0 where
  timed_out unreachable : Reply
  failed : (type_name message : String) → Reply
  response : (status : ℕ) (body : Option Json) → Reply

abbrev pub Transport : Type 0
Transport = String → Fields → Reply

-- What telegram.py and bale.py own: endpoint, name, channel and limit.
pub record BotApi : Type 0 where
  pub base_url : String
  pub provider_name : String
  pub channel : NotificationChannel
  pub max_text_length : ℕ

abbrev pub telegram_api : BotApi
telegram_api = record {
  base_url = "https://api.telegram.org";
  provider_name = "Telegram";
  channel = telegram;
  max_text_length = 4096;
}

abbrev pub bale_api : BotApi
bale_api = record {
  base_url = "https://tapi.bale.ai";
  provider_name = "Bale";
  channel = bale;
  max_text_length = 4096;
}

-- `body.get(key)` where the body may be no dict
abbrev dict_get : String → Option Json → Option Json
dict_get key (some (obj fs)) = get key fs
dict_get key _ = none

unfoldable pub envelope_description : Option Json → Option String
envelope_description body = elim (dict_get "description" body) [
  | some (str s) ↦ if s == "" then none else some s
  | _ ↦ none
]

-- Only an `int` counts, and in Python a `bool` is one.
unfoldable pub retry_after : Option Json → Option Json
retry_after body = elim (dict_get "retry_after" (dict_get "parameters" body)) [
  | some (int n) ↦ some (int n)
  | some (bool b) ↦ some (bool b)
  | _ ↦ none
]

abbrev pub url_of : BotApi → String → String
url_of api token = api.base_url ++ ("/bot" ++ (token ++ "/sendMessage"))

abbrev pub payload_of : NotificationMessage → Fields
payload_of message =
    field "chat_id" (str message.recipient.address) (field "text" (str message.text) end)

module _ (repr : Json → String) where
  abbrev rate_limit_suffix : Option Json → String
  rate_limit_suffix none = ""
  rate_limit_suffix (some wait) = " (retry after " ++ (to_str repr wait ++ "s)")

  abbrev rejection_detail : ℕ → Option String → String
  rejection_detail status none = " (HTTP " ++ (show status ++ ")")
  rejection_detail status (some description) = ": " ++ description

  -- `message_id is not None`
  abbrev not_null : Option Json → Option Json
  not_null none = none
  not_null (some Json.null) = none
  not_null (some id) = some id

  -- `body.get("ok") is True`
  abbrev if_true : Option Json → Option Json → Option Json
  if_true (some (bool true)) id = id
  if_true _ id = none

  -- The message id of a success envelope: `{"ok": true, "result": {"message_id": …}}`.
  unfoldable pub message_id : Option Json → Option Json
  message_id body =
      if_true (dict_get "ok" body) (not_null (dict_get "message_id" (dict_get "result" body)))

  -- What a response means, by its status and its envelope.
  unfoldable pub classify : BotApi → ℕ → Option Json → Result Failure NotificationResult
  unfolding retry_after envelope_description message_id
  classify api status body =
      if status == 429
      then err (
          unavailable
            (api.provider_name ++ (" rate limit exceeded" ++ rate_limit_suffix (retry_after body))))
      else if leb 500 status
      then err (unavailable (api.provider_name ++ (" server error (HTTP " ++ (show status ++ ")"))))
      else if status == 401
      then err (unavailable (api.provider_name ++ " rejected the bot token (HTTP 401)"))
      else if leb 400 status
      then err (
          reject
            (api.provider_name
              ++ (" rejected the notification"
                  ++ rejection_detail status (envelope_description body)))
            none)
      else elim (message_id body) [
        | none ↦ err (unavailable (api.provider_name ++ " returned an unexpected response"))
        | some id ↦ ok (record {
          success = true;
          channel = api.channel;
          external_message_id = some (to_str repr id);
          error_code = none;
          error_message = none;
        })
      ]

  unfoldable pub read_reply : BotApi → String → Reply → Result Failure NotificationResult
  unfolding classify
  read_reply api timeout_seconds timed_out =
      err (
        unavailable
          (api.provider_name ++ (" request timed out after " ++ (timeout_seconds ++ "s"))))
  read_reply api timeout_seconds unreachable =
      err (unavailable (api.provider_name ++ " could not be reached"))
  read_reply api timeout_seconds (failed type_name message) = err (crashed type_name message)
  read_reply api timeout_seconds (response status body) = classify api status body

  abbrev not_configured : BotApi → Failure
  not_configured api = unavailable (
      api.provider_name
      ++ (" provider is not configured: no bot token was provided (see "
          ++ "TELEGRAM_BOT_TOKEN/BALE_BOT_TOKEN in .env.example)"))

  abbrev too_long : BotApi → NotificationMessage → Failure
  too_long api message =
      reject
        ("message text exceeds the "
          ++ (api.provider_name
              ++ (" limit of "
                  ++ (show api.max_text_length
                      ++ (" characters ("
                          ++ (show (count message.text)
                              ++ " given); chunking is not implemented"))))))
        (some "message_too_long")

  -- `timeout_seconds` is the configured bound as the message prints it.
  unfoldable pub send_bot_api_message :
      Transport
      → BotApi
      → Option String
      → String
      → NotificationMessage
      → Result Failure NotificationResult
  unfolding read_reply
  send_bot_api_message transport api none timeout_seconds message = err (not_configured api)
  send_bot_api_message transport api (some token) timeout_seconds message =
      if token == ""
      then err (not_configured api)
      else if ltb api.max_text_length (count message.text)
      then err (too_long api message)
      else read_reply api timeout_seconds (transport (url_of api token) (payload_of message))

  -- `TelegramNotificationProvider` and `BaleNotificationProvider`, by the API they speak.
  abbrev pub make_provider : Transport → BotApi → Option String → String → NotificationProvider
  make_provider transport api token timeout_seconds = record {
    channel = api.channel;
    send = send_bot_api_message transport api token timeout_seconds;
  }

-- ===== src/Notifications/Tests.antt =====
-- Sending on concrete values.
use ketabdan_ms.Prelude.{
  ℕ, zero, suc, ◌+◌, ◌-◌, ◌*◌, ◌/◌, ◌%◌, ◌^◌, ◌≤◌, ◌<◌, String, ◌≡◌, refl, sym, ap, ◌∙◌, ◌≢◌, ◌↔◌,
  ◌⊎◌, inl, inr, Bool, true, false, not, ◌&&◌, ◌||◌, Option, none, some, List, [], ◌∷◌, ◌++◌, map,
  arith, eq_iff, ltb, leb, eqb, if◌then◌else◌, Bool-cases, Option-cases, ltb→lt, lt→ltb, leb→le, Eq,
  ◌==◌, nat_eq, string_eq, ==_refl, ==→≡, Result, ok, err, ◌>>=◌, >>=-eq-ok, length, length-append,
  find, keep, any, All, Any, elem,
}
use ketabdan_ms.Json.{Json, to_str, get}
use ketabdan_ms.Notifications.Models.{NotificationResult, telegram}
use ketabdan_ms.Notifications.BotApi.{
  telegram_api, send_bot_api_message, classify, read_reply, message_id,
}
use ketabdan_ms.Notifications.BotApi.Outcomes.{Sent, send_sound}
use ketabdan_ms.Samples.{message, accepting}

abbrev repr : Json → String
repr v = "..."

abbrev seconds : ℕ → String
seconds n = "10"

abbrev sent : NotificationResult
sent = record {
  success = true;
  channel = telegram;
  external_message_id = some "7";
  error_code = none;
  error_message = none;
}

accepted : send_bot_api_message repr accepting telegram_api (some "1:a") "10" message ≡ ok sent
unfolding send_bot_api_message classify read_reply message_id get to_str ketabdan_ms.Json.show_ℤ
    ketabdan_ms.Prelude.Text.show
accepted = refl

send_sound_example : Sent repr accepting telegram_api (some "1:a") message sent
send_sound_example = send_sound repr accepting telegram_api (some "1:a") "10" message sent accepted

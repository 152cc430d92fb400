-- ===== src/Samples.antt =====
-- The values on which the theorems are tried.
use ketabdan_ms.Prelude.{true, false, not, none, some, ◌==◌, nat_eq, string_eq}
use ketabdan_ms.Prelude.Text.{Unicode}
use ketabdan_ms.Json.{Json, field, end, obj, int, pos}
use ketabdan_ms.Config.{Settings, RawSettings, Platform, production}
use ketabdan_ms.Notifications.Models.{NotificationMessage, telegram}
use ketabdan_ms.Notifications.BotApi.{Transport, response}

-- An interpreter with no letters or digits outside ASCII
abbrev pub ascii : Unicode
ascii = record {
  lower_char = λ before c after. "";
  upper_char = λ c. "";
  fold_char = λ c. "";
  decimal = λ c. none;
}

abbrev pub platform : Platform
platform = record {
  unicode = ascii;
  make_url_accepts = λ url. not (url == "");
  url_checks = record { bad_bracketed_host = λ s. false; bad_normal_form = λ s. false };
}

abbrev pub live_settings : Settings
live_settings = record {
  app_env = production;
  database_url = some "postgresql+psycopg://db/app";
  cors_allow_origins = "https://a.ir";
  auth_secret_key = "0123456789012345678901234567890123456789";
  auth_algorithm = "HS256";
  access_token_expire_minutes = 30;
  auth_allow_insecure_dev_secret = false;
  log_level = "INFO";
  telegram_bot_token = some "1:a";
  bale_bot_token = none;
  notification_timeout_seconds = 10;
  redis_url = "redis://q:6379";
  redis_url_set = true;
  notification_max_attempts = 5;
  notification_retry_base_delay_seconds = 5;
  notification_retry_max_delay_seconds = 300;
  worker_metrics_port = 9100;
}

abbrev pub raw_settings : RawSettings
raw_settings = record {
  app_env = " Production";
  settings = record live_settings { log_level = "info" };
}

abbrev pub message : NotificationMessage
message = record {
  recipient = record { channel = telegram; address = "42" };
  text = "hi";
  category = "event_reminder";
  metadata = end;
}

-- Telegram's answer to too many requests, with a wait of 60 seconds
abbrev pub busy_body : Json
busy_body = obj (field "parameters" (obj (field "retry_after" (int (pos 60)) end)) end)

abbrev pub busy : Transport
busy url payload = response 429 (some busy_body)

abbrev pub sent_body : Json
sent_body =
    obj (
      field "ok" (Json.bool true) (field "result" (obj (field "message_id" (int (pos 7)) end)) end))

abbrev pub accepting : Transport
accepting url payload = response 200 (some sent_body)

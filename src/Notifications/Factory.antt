-- ===== src/Notifications/Factory.antt =====
-- apps/api/app/notifications/factory.py.
pub mod Delivery
use ketabdan_ms.Prelude.{
  ℕ, zero, suc, ◌+◌, ◌-◌, ◌*◌, ◌/◌, ◌%◌, ◌^◌, ◌≤◌, ◌<◌, String, ◌≡◌, refl, sym, ap, ◌∙◌, ◌≢◌, ◌↔◌,
  ◌⊎◌, inl, inr, Bool, true, false, not, ◌&&◌, ◌||◌, Option, none, some, List, [], ◌∷◌, ◌++◌, map,
  arith, eq_iff, ltb, leb, eqb, if◌then◌else◌, Bool-cases, Option-cases, ltb→lt, lt→ltb, leb→le, Eq,
  ◌==◌, nat_eq, string_eq, ==_refl, ==→≡, Result, ok, err, ◌>>=◌, >>=-eq-ok, length, length-append,
  find, keep, any, All, Any, elem,
}
use ketabdan_ms.Json.{Json}
use ketabdan_ms.Config.{Settings}
use ketabdan_ms.Notifications.Dispatcher.{
  NotificationDispatcher, RegistrationError, make_dispatcher,
}
use ketabdan_ms.Notifications.BotApi.{Transport, telegram_api, bale_api, make_provider}

-- `_token_or_none`: an empty token is none.
unfoldable pub token_or_none : Option String → Option String
token_or_none none = none
token_or_none (some token) = if token == "" then none else some token

-- `show_seconds` prints a float, as an f-string does.
module _ (repr : Json → String) (show_seconds : ℕ → String) (transport : Transport) where
  unfoldable pub build_notification_dispatcher :
      Settings → Result RegistrationError NotificationDispatcher
  unfolding token_or_none make_dispatcher
  build_notification_dispatcher s =
      let timeout = show_seconds s.notification_timeout_seconds in
      make_dispatcher (
        make_provider repr transport telegram_api (token_or_none s.telegram_bot_token) timeout
        ∷ make_provider repr transport bale_api (token_or_none s.bale_bot_token) timeout
        ∷ [])

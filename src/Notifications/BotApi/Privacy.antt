-- ===== src/Notifications/BotApi/Privacy.antt =====
-- Which address a provider calls, and what its reports may depend on.
use ketabdan_ms.Prelude.{
  String, ◌≡◌, refl, ◌≢◌, Option, none, some, arith, eq_iff, nat_eq, string_eq,
}
use ketabdan_ms.Json.{Json}
use ketabdan_ms.Notifications.Models.{NotificationMessage}
use ketabdan_ms.Notifications.BotApi.{BotApi, Transport, url_of, payload_of, send_bot_api_message}

module _ (repr : Json → String) where
  -- The HTTP client is asked for nothing but the message's payload at the URL made of the API's
  -- base and the token: two clients that agree there give the same result.
  pub send_asks_one_url :
      (t t' : Transport) (api : BotApi) (token : Option String) (timeout : String)
      (m : NotificationMessage)
      → ((key : String)
          → token ≡ some key
          → t (url_of api key) (payload_of m) ≡ t' (url_of api key) (payload_of m))
      → send_bot_api_message repr t api token timeout m
        ≡ send_bot_api_message repr t' api token timeout m
  unfolding send_bot_api_message
  send_asks_one_url t t' api none timeout m same = refl
  send_asks_one_url t t' api (some key) timeout m same = ground (arith, same key refl)

  -- The token shows in a result only through the client's reply: two tokens whose requests get the
  -- same reply give the same result, error texts included.
  send_hides_token :
      (t t' : Transport) (api : BotApi) (key key' : String) (timeout : String)
      (m : NotificationMessage)
      → key ≢ ""
      → key' ≢ ""
      → t (url_of api key) (payload_of m) ≡ t' (url_of api key') (payload_of m)
      → send_bot_api_message repr t api (some key) timeout m
        ≡ send_bot_api_message repr t' api (some key') timeout m
  unfolding send_bot_api_message
  send_hides_token t t' api key key' timeout m k k' same =
      ground (arith, eq_iff key "", eq_iff key' "")

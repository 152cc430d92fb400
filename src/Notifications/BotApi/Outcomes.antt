-- ===== src/Notifications/BotApi/Outcomes.antt =====
-- What a Bot API provider reports, by the reply of the HTTP client.
use ketabdan_ms.Prelude.{
  ℕ, ◌≤◌, ◌<◌, String, ◌≡◌, refl, sym, ap, ◌∙◌, ◌≢◌, true, false, Option, none, some, arith, eq_iff,
  Option-cases, inl, inr, ◌==◌, nat_eq, string_eq, ok,
}
use Prim.Native.String.{count}
use ketabdan_ms.Json.{Json, obj, Fields, get, to_str}
use ketabdan_ms.Notifications.Models.{NotificationMessage, NotificationResult, reject}
use ketabdan_ms.Notifications.BotApi.{
  BotApi, Transport, Reply, timed_out, unreachable, failed, response, url_of, payload_of, dict_get,
  not_null, if_true, message_id, classify, read_reply, send_bot_api_message,
}

module _ (repr : Json → String) where
  not_null-some :
      (o : Option Json) (id : Json) → not_null repr o ≡ some id → (o ≡ some id) × (id ≢ Json.null)
  not_null-some none id h = cc
  not_null-some (some Json.null) id h = cc
  not_null-some (some (Json.bool b)) id h = (h, λ e. cc)
  not_null-some (some (Json.int n)) id h = (h, λ e. cc)
  not_null-some (some (Json.float r)) id h = (h, λ e. cc)
  not_null-some (some (Json.str s)) id h = (h, λ e. cc)
  not_null-some (some (Json.arr js)) id h = (h, λ e. cc)
  not_null-some (some (Json.obj fs)) id h = (h, λ e. cc)

  if_true-some :
      (o found : Option Json) (id : Json)
      → if_true repr o found ≡ some id
      → (o ≡ some (Json.bool true)) × (found ≡ some id)
  if_true-some (some (Json.bool true)) found id h = (refl, h)
  if_true-some (some (Json.bool false)) found id h = cc
  if_true-some none found id h = cc
  if_true-some (some Json.null) found id h = cc
  if_true-some (some (Json.int n)) found id h = cc
  if_true-some (some (Json.float r)) found id h = cc
  if_true-some (some (Json.str s)) found id h = cc
  if_true-some (some (Json.arr js)) found id h = cc
  if_true-some (some (Json.obj fs)) found id h = cc

  dict_get-some :
      (key : String) (o : Option Json) (v : Json)
      → dict_get key o ≡ some v
      → (fs : Fields) × (o ≡ some (obj fs)) × (get key fs ≡ some v)
  dict_get-some key none v h = cc
  dict_get-some key (some (Json.obj fs)) v h = (fs, refl, h)
  dict_get-some key (some Json.null) v h = cc
  dict_get-some key (some (Json.bool b)) v h = cc
  dict_get-some key (some (Json.int n)) v h = cc
  dict_get-some key (some (Json.float r)) v h = cc
  dict_get-some key (some (Json.str s)) v h = cc
  dict_get-some key (some (Json.arr js)) v h = cc

  -- The envelope of a success, written out
  pub record Accepted (body : Option Json) (id : Json) : Type 0 where
    pub envelope : Fields
    pub is_object : body ≡ some (obj envelope)
    pub ok_true : get "ok" envelope ≡ some (Json.bool true)
    pub result : Fields
    pub has_result : get "result" envelope ≡ some (obj result)
    pub has_id : get "message_id" result ≡ some id
    pub not_none : id ≢ Json.null

  message_id-Accepted :
      (body : Option Json) (id : Json) → message_id repr body ≡ some id → Accepted body id
  unfolding message_id
  message_id-Accepted body id h =
      let (is_true, found) = if_true-some (dict_get "ok" body) _ id h in
      let (there, real) = not_null-some (dict_get "message_id" (dict_get "result" body)) id found in
      let (fs, object, ok_true) = dict_get-some "ok" body (Json.bool true) is_true in
      let (result, has_result, has_id) =
        dict_get-some "message_id" (dict_get "result" body) id there in
      record {
        envelope = fs;
        is_object = object;
        ok_true = ok_true;
        result = result;
        has_result = ap (dict_get "result") (sym object) ∙ has_result;
        has_id = has_id;
        not_none = real;
      }

  -- What a success goes back to
  pub record Sent (transport : Transport) (api : BotApi) (token : Option String)
      (m : NotificationMessage) (r : NotificationResult) : Type 0 where
    pub key : String
    pub configured : token ≡ some key
    pub not_empty : key ≢ ""
    pub fits : count m.text ≤ api.max_text_length
    pub status : ℕ
    pub body : Option Json
    pub replied : transport (url_of api key) (payload_of m) ≡ response status body
    pub status_ok : status < 400
    pub message : Json
    pub accepted : Accepted body message
    pub id : r.external_message_id ≡ some (to_str repr message)
    pub success : r.success ≡ true
    pub channel : r.channel ≡ api.channel

  classify_sound :
      (api : BotApi) (status : ℕ) (body : Option Json) (r : NotificationResult)
      → classify repr api status body ≡ ok r
      → (status < 400)
        × (id : Json) × (message_id repr body ≡ some id)
        × (r.success ≡ true)
        × (r.channel ≡ api.channel)
        × (r.external_message_id ≡ some (to_str repr id))
  unfolding classify reject
  classify_sound api status body r h = elim (Option-cases (message_id repr body)) [
    | inl e ↦ (let h' = rw e at h in absurd (ground arith))
    | inr (id, e) ↦
        (let h' = rw e at h in (ground arith, id, e, ground arith, ground arith, ground arith))
  ]

  read_reply_sound :
      (api : BotApi) (timeout : String) (reply : Reply) (r : NotificationResult)
      → read_reply repr api timeout reply ≡ ok r
      → (status : ℕ) × (body : Option Json) × (reply ≡ response status body)
        × (classify repr api status body ≡ ok r)
  unfolding read_reply
  read_reply_sound api timeout (response status body) r h = (status, body, refl, h)
  read_reply_sound api timeout timed_out r h = cc
  read_reply_sound api timeout unreachable r h = cc
  read_reply_sound api timeout (failed n t) r h = cc

  -- A success comes only from a response below 400 whose body is an object with `ok` true and a
  -- message id in `result` that is not null, for a configured
  -- token and a text within the limit; the result is
  -- for the API's own channel and has that id as text.
  pub send_sound :
      (transport : Transport) (api : BotApi) (token : Option String) (timeout : String)
      (m : NotificationMessage) (r : NotificationResult)
      → send_bot_api_message repr transport api token timeout m ≡ ok r
      → Sent transport api token m r
  unfolding send_bot_api_message
  send_sound transport api none timeout m r h = cc
  send_sound transport api (some key) timeout m r h =
      let accepted : ((key == "") ≡ false)
          × (count m.text ≤ api.max_text_length)
          × (read_reply repr api timeout (transport (url_of api key) (payload_of m)) ≡ ok r) =
        ground arith in
      let (status, body, replied, classified) = read_reply_sound api timeout _ r accepted.2 in
      let (status_ok, message, has_id, success, channel, id) =
        classify_sound api status body r classified in
      record {
        key = key;
        configured = refl;
        not_empty = λ e. ground (arith, eq_iff key "", accepted.0);
        fits = accepted.1;
        status = status;
        body = body;
        replied = replied;
        status_ok = status_ok;
        message = message;
        accepted = message_id-Accepted body message has_id;
        success = success;
        channel = channel;
        id = id;
      }

  pub sent-channel :
      (transport : Transport) (api : BotApi) (token : Option String) (timeout : String)
      (m : NotificationMessage) (r : NotificationResult)
      → send_bot_api_message repr transport api token timeout m ≡ ok r
      → r.channel ≡ api.channel
  sent-channel transport api token timeout m r h =
      (send_sound transport api token timeout m r h).channel

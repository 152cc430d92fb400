-- ===== src/Notifications/Dispatcher.antt =====
-- apps/api/app/notifications/dispatcher.py and providers.py.
pub mod Routing
use ketabdan_ms.Prelude.{
  ℕ, zero, suc, ◌+◌, ◌-◌, ◌*◌, ◌/◌, ◌%◌, ◌^◌, ◌≤◌, ◌<◌, String, ◌≡◌, refl, sym, ap, ◌∙◌, ◌≢◌, ◌↔◌,
  ◌⊎◌, inl, inr, Bool, true, false, not, ◌&&◌, ◌||◌, Option, none, some, List, [], ◌∷◌, ◌++◌, map,
  arith, eq_iff, ltb, leb, eqb, if◌then◌else◌, Bool-cases, Option-cases, ltb→lt, lt→ltb, leb→le, Eq,
  ◌==◌, nat_eq, string_eq, ==_refl, ==→≡, Result, ok, err, ◌>>=◌, >>=-eq-ok, length, length-append,
  find, keep, any, All, Any, elem,
}
use Prim.Native.String
use ketabdan_ms.Notifications.Models.{
  NotificationChannel, NotificationMessage, NotificationResult, Failure, unavailable, rejected,
  crashed, channel_value,
}

pub record NotificationProvider : Type 0 where
  pub channel : NotificationChannel
  pub send : NotificationMessage → Result Failure NotificationResult

-- The dict of providers by channel value, in the order of registration.
pub record NotificationDispatcher : Type 0 where
  pub providers : List (String × NotificationProvider)

abbrev pub lookup {ℓ} : {A : Type ℓ} → String → List (String × A) → Option A
lookup key [] = none
lookup key ((k, v) ∷ rest) = if k == key then some v else lookup key rest

unfoldable pub has_provider : NotificationDispatcher → String → Bool
has_provider d channel = any (λ p. p.0 == channel) d.providers

-- `some` of the channel's name is the ValueError of a second registration.
pub data RegistrationError : Type 0 where
  already_registered : String → RegistrationError

unfoldable pub register :
    NotificationDispatcher → NotificationProvider → Result RegistrationError NotificationDispatcher
unfolding has_provider
register d provider =
    let key = channel_value provider.channel in
    if has_provider d key
    then err (already_registered key)
    else ok (record { providers = d.providers ++ (key, provider) ∷ [] })

register_all :
    NotificationDispatcher
    → List NotificationProvider
    → Result RegistrationError NotificationDispatcher
register_all d [] = ok d
register_all d (p ∷ ps) = register d p >>= λ d'. register_all d' ps

-- `NotificationDispatcher(providers)`: the mapping's values are registered in turn.
unfoldable pub make_dispatcher :
    List NotificationProvider → Result RegistrationError NotificationDispatcher
unfolding register register_all
make_dispatcher ps = register_all (record { providers = [] }) ps

abbrev failure : NotificationMessage → String → String → NotificationResult
failure message code text = record {
  success = false;
  channel = message.recipient.channel;
  external_message_id = none;
  error_code = some code;
  error_message = some text;
}

-- The handlers of `_deliver`.
unfoldable pub normalize :
    NotificationMessage → Result Failure NotificationResult → NotificationResult
normalize message (ok result) = result
normalize message (err (unavailable text)) = failure message "provider_unavailable" text
normalize message (err (rejected text code)) = failure message code text
normalize message (err (crashed type_name text)) =
    failure message "provider_error" (String.◌++◌ type_name (String.◌++◌ ": " text))

pub data DispatchError : Type 0 where
  unsupported_channel : String → DispatchError

-- `_deliver` to the provider that was found, if one was.
unfoldable pub deliver_to :
    NotificationMessage → Option NotificationProvider → Result DispatchError NotificationResult
unfolding normalize
deliver_to message none = err (unsupported_channel (channel_value message.recipient.channel))
deliver_to message (some provider) = ok (normalize message (provider.send message))

unfoldable pub send :
    NotificationDispatcher → NotificationMessage → Result DispatchError NotificationResult
unfolding deliver_to
send d message = deliver_to message (lookup (channel_value message.recipient.channel) d.providers)

-- The first unsupported channel stops the list with its exception.
unfoldable pub send_many :
    NotificationDispatcher
    → List NotificationMessage
    → Result DispatchError (List NotificationResult)
unfolding send
send_many d [] = ok []
send_many d (m ∷ ms) = send d m >>= λ r. send_many d ms >>= λ rs. ok (r ∷ rs)

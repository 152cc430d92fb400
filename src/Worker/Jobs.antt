-- ===== src/Worker/Jobs.antt =====
-- apps/api/app/worker/jobs.py: the queued job, its payload and the message it stands for.
pub mod RoundTrip
use ketabdan_ms.Prelude.{
  ℕ, zero, suc, ◌+◌, ◌-◌, ◌*◌, ◌/◌, ◌%◌, ◌^◌, ◌≤◌, ◌<◌, String, ◌≡◌, refl, sym, ap, ◌∙◌, ◌≢◌, ◌↔◌,
  ◌⊎◌, inl, inr, Bool, true, false, not, ◌&&◌, ◌||◌, Option, none, some, List, [], ◌∷◌, ◌++◌, map,
  arith, eq_iff, ltb, leb, eqb, if◌then◌else◌, Bool-cases, Option-cases, ltb→lt, lt→ltb, leb→le, Eq,
  ◌==◌, nat_eq, string_eq, ==_refl, ==→≡, Result, ok, err, ◌>>=◌, >>=-eq-ok, length, length-append,
  find, keep, any, All, Any, elem,
}
use ketabdan_ms.Prelude.Text.{is_blank}
use ketabdan_ms.Json.{Json, str, obj, Fields, end, field, get, keys}
use ketabdan_ms.Notifications.Models.{
  NotificationMessage, InvalidNotification, bad_field, metadata_not_a_mapping,
  payload_not_a_mapping, wrong_keys, channel_value, channel_of, make_recipient, make_message,
}

abbrev pub deliver_function_name : String
deliver_function_name = "deliver_notification"

abbrev pub notification_queue_name : String
notification_queue_name = "ketabdaneh:notifications"

abbrev pub payload_keys : List String
payload_keys = "channel" ∷ "address" ∷ "text" ∷ "category" ∷ "metadata" ∷ []

abbrev pub mandatory_keys : List String
mandatory_keys = "channel" ∷ "address" ∷ "text" ∷ "category" ∷ []

pub record NotificationJob : Type 0 where
  pub channel : String
  pub address : String
  pub text : String
  pub category : String
  pub metadata : Fields

-- What building a job or its message may raise. The ValueError is that of `NotificationChannel`.
pub data JobError : Type 0 where
  invalid : InvalidNotification → JobError
  value_error : JobError
  key_error : String → JobError

-- `exc.__class__.__name__`
abbrev pub class_name : JobError → String
class_name (invalid cause) = "InvalidNotificationError"
class_name value_error = "ValueError"
class_name (key_error key) = "KeyError"

-- `isinstance(value, str) and value.strip()`
abbrev check_text : String → Json → Result JobError String
check_text name (str s) = if is_blank s then err (invalid (bad_field name)) else ok s
check_text name _ = err (invalid (bad_field name))

abbrev check_mapping : Json → Result JobError Fields
check_mapping (obj fs) = ok fs
check_mapping _ = err (invalid metadata_not_a_mapping)

-- `NotificationJob(...)`, whose `__post_init__` checks values of any type.
unfoldable pub make_job : Json → Json → Json → Json → Json → Result JobError NotificationJob
make_job channel address text category metadata = do
  c ← check_text "channel" channel
  a ← check_text "address" address
  t ← check_text "text" text
  g ← check_text "category" category
  m ← check_mapping metadata
  ok (record { channel = c; address = a; text = t; category = g; metadata = m })

unfoldable pub from_message : NotificationMessage → Result JobError NotificationJob
unfolding make_job
from_message m =
    make_job (str (channel_value m.recipient.channel)) (str m.recipient.address) (str m.text)
      (str m.category) (obj m.metadata)

abbrev lift_invalid : {A : Type 0} → Result InvalidNotification A → Result JobError A
lift_invalid (ok a) = ok a
lift_invalid (err cause) = err (invalid cause)

unfoldable pub to_message : NotificationJob → Result JobError NotificationMessage
unfolding channel_of make_recipient make_message
to_message job = elim (channel_of job.channel) [
  | none ↦ err value_error
  | some channel ↦ lift_invalid (make_recipient channel job.address) >>= λ recipient.
      lift_invalid (make_message recipient job.text job.category job.metadata)
]

unfoldable pub to_payload : NotificationJob → Json
to_payload job = obj (
    field "channel" (str job.channel) (
      field "address" (str job.address) (
        field "text" (str job.text)
          (field "category" (str job.category) (field "metadata" (obj job.metadata) end)))))

-- `payload[key]`
abbrev index : String → Fields → Result JobError Json
index key fs = elim (get key fs) [ none ↦ err (key_error key) | some v ↦ ok v ]

abbrev get_or : String → Json → Fields → Json
get_or key default fs = elim (get key fs) [ none ↦ default | some v ↦ v ]

-- The sets `unknown` and `missing` of the source, empty or not.
keys_are_wrong : Fields → Bool
keys_are_wrong fs =
    any (λ k. not (elem k payload_keys)) (keys fs)
    || any (λ k. not (elem k (keys fs))) mandatory_keys

unfoldable pub from_payload : Json → Result JobError NotificationJob
unfolding keys_are_wrong get keys make_job
from_payload (obj fs) = if keys_are_wrong fs then err (invalid wrong_keys) else do
  metadata ← check_mapping (get_or "metadata" (obj end) fs)
  channel ← index "channel" fs
  address ← index "address" fs
  text ← index "text" fs
  category ← index "category" fs
  make_job channel address text category (obj metadata)
from_payload _ = err (invalid payload_not_a_mapping)

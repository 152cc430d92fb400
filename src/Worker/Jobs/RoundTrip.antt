-- ===== src/Worker/Jobs/RoundTrip.antt =====
-- A message survives the queue: flattened, stored as a payload, and rebuilt by the worker.
use ketabdan_ms.Prelude.{
  String, ◌≡◌, refl, ◌⊎◌, true, false, not, none, some, List, [], ◌∷◌, arith, nat_eq, string_eq, ok,
  any, All, elem,
}
use ketabdan_ms.Prelude.Text.{is_blank}
use ketabdan_ms.Json.{Json, str, obj, Fields, end, get, keys}
use ketabdan_ms.Notifications.Models.{
  NotificationChannel, NotificationMessage, telegram, bale, channel_value, channel_of,
}
use ketabdan_ms.Worker.Jobs.{
  NotificationJob, payload_keys, make_job, from_message, to_message, to_payload, from_payload,
}

-- What the constructors of the models check.
pub record IsMessage (m : NotificationMessage) : Type 0 where
  pub address : is_blank m.recipient.address ≡ false
  pub text : is_blank m.text ≡ false
  pub category : is_blank m.category ≡ false

pub record IsJob (j : NotificationJob) : Type 0 where
  pub channel : is_blank j.channel ≡ false
  pub address : is_blank j.address ≡ false
  pub text : is_blank j.text ≡ false
  pub category : is_blank j.category ≡ false

abbrev pub job_of : NotificationMessage → NotificationJob
job_of m = record {
  channel = channel_value m.recipient.channel;
  address = m.recipient.address;
  text = m.text;
  category = m.category;
  metadata = m.metadata;
}

channel_value-not-blank : (c : NotificationChannel) → is_blank (channel_value c) ≡ false
unfolding channel_value is_blank
channel_value-not-blank telegram = refl
channel_value-not-blank bale = refl

channel_of-channel_value : (c : NotificationChannel) → channel_of (channel_value c) ≡ some c
unfolding channel_of channel_value
channel_of-channel_value telegram = refl
channel_of-channel_value bale = refl

pub from_message-eq-ok : (m : NotificationMessage) → IsMessage m → from_message m ≡ ok (job_of m)
unfolding from_message
from_message-eq-ok m v = ground (arith, channel_value-not-blank m.recipient.channel)

pub from_payload-to_payload : (j : NotificationJob) → IsJob j → from_payload (to_payload j) ≡ ok j
unfolding from_payload to_payload
from_payload-to_payload j v = ground arith

pub make_job-IsJob :
    (channel address text category metadata : Json) (j : NotificationJob)
    → make_job channel address text category metadata ≡ ok j
    → IsJob j
unfolding make_job
make_job-IsJob (str c) (str a) (str t) (str g) (obj m) j h = ground arith
make_job-IsJob c a t g m j h = ground arith

pub job_of-IsJob : (m : NotificationMessage) → IsMessage m → IsJob (job_of m)
job_of-IsJob m v = record {
  channel = channel_value-not-blank m.recipient.channel;
  address = v.address;
  text = v.text;
  category = v.category;
}

pub to_message-job_of : (m : NotificationMessage) → IsMessage m → to_message (job_of m) ≡ ok m
unfolding to_message
to_message-job_of m v = ground (arith, channel_of-channel_value m.recipient.channel)

-- A well-formed message is flattened into a job; the worker rebuilds from the job's payload both
-- that job and the message it came from.
pub queue_round_trip :
    (m : NotificationMessage)
    → IsMessage m
    → (j : NotificationJob) × (from_message m ≡ ok j)
      × (from_payload (to_payload j) ≡ ok j)
      × (to_message j ≡ ok m)
queue_round_trip m v = (
  job_of m,
  from_message-eq-ok m v,
  from_payload-to_payload (job_of m) (job_of-IsJob m v),
  to_message-job_of m v,
)

-- A mapping holds the fields of a job and nothing else.
pub record Holds (fs : Fields) (j : NotificationJob) : Type 0 where
  pub known : All (λ k. elem k payload_keys ≡ true) (keys fs)
  pub channel : get "channel" fs ≡ some (str j.channel)
  pub address : get "address" fs ≡ some (str j.address)
  pub text : get "text" fs ≡ some (str j.text)
  pub category : get "category" fs ≡ some (str j.category)
  pub metadata :
      (get "metadata" fs ≡ some (obj j.metadata))
      ⊎ ((get "metadata" fs ≡ none) × (j.metadata ≡ end))

payload_keys-All :
    (ks : List String)
    → any (λ k. not (elem k payload_keys)) ks ≡ false
    → All (λ k. elem k payload_keys ≡ true) ks
payload_keys-All [] h = tt
payload_keys-All (k ∷ ks) h = (ground arith, payload_keys-All ks (ground arith))

-- A payload is accepted only if it is a mapping with no other keys than the five known ones, whose
-- four mandatory values are the non-blank texts of the job; the metadata is the empty mapping where
-- it is missing.
from_payload_sound :
    (payload : Json) (j : NotificationJob)
    → from_payload payload ≡ ok j
    → (fs : Fields) × (payload ≡ obj fs) × Holds fs j × IsJob j
unfolding from_payload
from_payload_sound (obj fs) j h = (
  fs,
  refl,
  record {
    known = payload_keys-All (keys fs) (ground arith);
    channel = ground arith;
    address = ground arith;
    text = ground arith;
    category = ground arith;
    metadata = ground arith;
  },
  ground arith,
)
from_payload_sound _ j h = cc

-- ===== src/Notifications/Models.antt =====
-- apps/api/app/notifications/models.py and errors.py.
use ketabdan_ms.Prelude.{
  String, Bool, Option, none, some, if◌then◌else◌, ◌==◌, nat_eq, string_eq, Result, ok, err,
}
use ketabdan_ms.Prelude.Text.{is_blank}
use ketabdan_ms.Json.{Fields}

pub data NotificationChannel : Type 0 where
  telegram bale : NotificationChannel

-- `str(channel)`
unfoldable pub channel_value : NotificationChannel → String
channel_value telegram = "telegram"
channel_value bale = "bale"

-- `NotificationChannel(value)`; `none` is its ValueError.
unfoldable pub channel_of : String → Option NotificationChannel
channel_of value =
    if value == "telegram" then some telegram else if value == "bale" then some bale else none

pub record NotificationRecipient : Type 0 where
  pub channel : NotificationChannel
  pub address : String

pub record NotificationMessage : Type 0 where
  pub recipient : NotificationRecipient
  pub text : String
  pub category : String
  pub metadata : Fields

pub record NotificationResult : Type 0 where
  pub success : Bool
  pub channel : NotificationChannel
  pub external_message_id : Option String
  pub error_code : Option String
  pub error_message : Option String

-- The causes of an `InvalidNotificationError`.
pub data InvalidNotification : Type 0 where
  empty_address empty_text empty_category : InvalidNotification
  bad_field : String → InvalidNotification
  metadata_not_a_mapping payload_not_a_mapping wrong_keys : InvalidNotification

unfoldable pub make_recipient :
    NotificationChannel → String → Result InvalidNotification NotificationRecipient
make_recipient channel address =
    if is_blank address
    then err empty_address
    else ok (record { channel = channel; address = address })

unfoldable pub make_message :
    NotificationRecipient
    → String
    → String
    → Fields
    → Result InvalidNotification NotificationMessage
make_message recipient text category metadata =
    if is_blank text
    then err empty_text
    else if is_blank category
    then err empty_category
    else ok
        (record { recipient = recipient; text = text; category = category; metadata = metadata })

-- What `provider.send` may raise: the two errors of errors.py, each with its text, and any other
-- exception, with the name of its class.
pub data Failure : Type 0 where
  unavailable : (message : String) → Failure
  rejected : (message error_code : String) → Failure
  crashed : (type_name message : String) → Failure

-- `NotificationRejectedError(message, error_code=…)`
unfoldable pub reject : String → Option String → Failure
reject message none = rejected message "notification_rejected"
reject message (some code) = rejected message (if code == "" then "notification_rejected" else code)

-- ===== src/Ktls/Stream/Records.antt =====
-- The types of records and alerts that ktls/src/ktls_stream.rs reads from control messages.
use proxy_printer.Base.{
  ℕ, Bool, true, false, List, [], ◌∷◌, Option, none, some, ◌==◌, if◌then◌else◌,
}

-- `TlsAlertLevel`, `TlsAlertDescription` and `TlsRecordType`, with their `from_primitive`.
pub data TlsAlertLevel : Type 0 where
  warning fatal : TlsAlertLevel
  other_level : ℕ → TlsAlertLevel

pub data TlsAlertDescription : Type 0 where
  close_notify : TlsAlertDescription
  other_description : ℕ → TlsAlertDescription

pub data TlsRecordType : Type 0 where
  change_cipher_spec alert handshake application_data : TlsRecordType
  other_record : ℕ → TlsRecordType

unfoldable pub alert_level : ℕ → TlsAlertLevel
alert_level b = if b == 1 then warning else if b == 2 then fatal else other_level b

unfoldable pub alert_description : ℕ → TlsAlertDescription
alert_description b = if b == 0 then close_notify else other_description b

unfoldable pub record_type : ℕ → TlsRecordType
record_type b =
    if b == 20
    then change_cipher_spec
    else if b == 21
    then alert
    else if b == 22
    then handshake
    else if b == 23
    then application_data
    else other_record b

-- The level and the description in the data of an alert; `none` is a panic (`unreachable!`).
unfoldable pub alert_parts : List ℕ → Option (TlsAlertLevel × TlsAlertDescription)
unfolding alert_level alert_description
alert_parts [] = none
alert_parts (level ∷ []) = some (alert_level level, close_notify)
alert_parts (level ∷ description ∷ []) = some (alert_level level, alert_description description)
alert_parts (level ∷ description ∷ more ∷ rest) = none

-- `(_, CloseNotify) | (Fatal, _)`.
unfoldable pub ends_session : TlsAlertLevel → TlsAlertDescription → Bool
ends_session level close_notify = true
ends_session fatal (other_description d) = true
ends_session warning (other_description d) = false
ends_session (other_level l) (other_description d) = false

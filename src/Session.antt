-- ===== src/Session.antt =====
-- src/core/session.rs: what the sessions share: the error type and the notifications of
-- `SessionEvents`. A session's log is the list of notifications in the order of the calls.
use raydriver.Base.{List, Option, ◌≡◌}
use raydriver.Base.Int.{ℤ}
use raydriver.Device.{F64, DeviceState, TransportStatus}
use raydriver.Text.Utf8.{Text, codes}

pub data TransportError : Type 0 where
  connection : Text → TransportError
  not_connected : TransportError

pub data SessionError : Type 0 where
  connection : Text → SessionError
  timeout : SessionError
  device : Text → SessionError
  buffer_stall : Text → SessionError
  other : Text → SessionError

-- `From<TransportError>`.
unfoldable pub from_transport : TransportError → SessionError
from_transport (TransportError.connection message) = SessionError.connection message
from_transport TransportError.not_connected = SessionError.connection (codes "not connected")

-- `Result<T, SessionError>`.
pub data Result {ℓ} (A : Type ℓ) : Type ℓ where
  ok : A → Result A
  err : SessionError → Result A

pub ok_not_err {ℓ κ} :
    {A : Type ℓ} {P : Type κ} {result : Result A} {a : A} {error : SessionError}
    → result ≡ Result.ok a
    → result ≡ Result.err error
    → P
ok_not_err granted failed = cc (granted, failed)

-- The `?` of a method that suspends: what it leaves behind, beside its result.
abbrev pub and_then {ℓ κ μ} :
    {S : Type ℓ} {A : Type κ} {B : Type μ} → S × Result A → (S → A → S × Result B) → S × Result B
and_then (s, Result.ok a) next = next s a
and_then (s, Result.err error) next = (s, Result.err error)

module _ (F : F64) where
  open F use {Float}

  pub data Event : Type 0 where
    state_changed : DeviceState F → Event
    connection_status : TransportStatus → Option Text → Event
    command_status : TransportStatus → Option Text → Event
    job_finished : Event
    probe_status : Text → Event
    wcs_updated : List (Text × (Float × Float × Float)) → Event
    config_changed : Text → ℤ → Event
    command_done : ℤ → Event
    raw_rx : Text → Event
    raw_tx : Text → Event

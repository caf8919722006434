-- ===== src/Grbl/Session.antt =====
-- src/grbl/session.rs: the state of the GRBL session. The tasks share it behind locks and atomics;
-- each handler runs to its end between two waits, so a handler is a function on the state. The
-- request that a slot points to is kept in the slot: the two slots never hold the same request, for
-- each execution makes its own.
pub mod Receive
pub mod Job
pub mod Stall
pub mod Stream
pub mod Cancel
pub mod Finish
pub mod Drain
pub mod Interactive
mod Tests
use raydriver.Base.{
  ℕ, ◌+◌, ◌-◌, ◌%◌, Bool, true, false, List, [], ◌∷◌, ◌++◌, Option, none, some, ltb, usize_mod,
}
use raydriver.Base.Int.{ℤ, pos, negsuc}
use raydriver.Device.{F64, DeviceStatus, DeviceState, TransportStatus, default_state}
use raydriver.Flow.{FlowControl, fresh}
use raydriver.Session.{SessionError, Event}
use raydriver.Text.Utf8.{Text}

pub record RequestShared : Type 0 where
  pub command : Text
  pub response_lines : List Text
  pub finished : Bool

abbrev pub add_line : RequestShared → Text → RequestShared
add_line r line = record r { response_lines = r.response_lines ++ line ∷ [] }

abbrev pub finish : RequestShared → RequestShared
finish r = record r { finished = true }

-- The part of the configuration that the modelled operations read.
pub record SessionConfig : Type 0 where
  pub rx_buffer_size_override : ℤ
  pub cached_rx_buffer_size : Option ℤ
  pub deadlock_detection : Bool
  pub unanswered_poll_limit : ℕ

abbrev pub is_positive : ℤ → Bool
is_positive (pos n) = ltb 0 n
is_positive (negsuc n) = false

-- `as usize` of an `i64`.
abbrev pub as_usize : ℤ → ℕ
as_usize (pos n) = n
as_usize (negsuc n) = usize_mod - (n + 1)

module _ (F : F64) where
  pub record SessionCore : Type 0 where
    pub config : SessionConfig
    pub events : List (Event F)
    pub flow : FlowControl
    pub state : DeviceState F
    pub job_running : Bool
    pub is_cancelled : Bool
    pub is_holding : Bool
    pub raw_grbl_status : DeviceStatus
    pub device_response_count : ℕ
    pub consecutive_unanswered_polls : ℕ
    pub job_exception : Option SessionError
    pub current_request : Option RequestShared
    pub interactive_request : Option RequestShared
    pub queued_requests : List RequestShared
    pub handshake_received : Bool
    pub report_in_inches : Bool
    pub last_reported_op_index : ℤ

  abbrev pub emit : SessionCore → Event F → SessionCore
  emit s e = record s { events = s.events ++ e ∷ [] }

  -- `fetch_add(1)` on an `AtomicU64`.
  unfoldable pub note_device_response : SessionCore → SessionCore
  note_device_response s = record s {
    device_response_count = (s.device_response_count + 1) % usize_mod;
  }

  -- The request that an answer belongs to: the interactive one if there is one.
  unfoldable pub pending_request : SessionCore → Option RequestShared
  pending_request s = elim s.interactive_request [ some r ↦ some r | none ↦ s.current_request ]

  -- A mutation of that request, through its `Arc`.
  unfoldable pub set_request : SessionCore → RequestShared → SessionCore
  set_request s r = elim s.interactive_request [
    | some _ ↦ record s { interactive_request = some r }
    | none ↦ record s { current_request = some r }
  ]

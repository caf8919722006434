-- ===== src/Grbl/Simple.antt =====
-- src/grbl/simple.rs: the minimal GRBL session, which sends one line and waits for its answer before
-- the next. A handler runs to its end between two waits, so it is a function on the state. What the
-- other tasks do during a write or a wait is a parameter of the operation that suspends.
pub mod Receive
pub mod Exchange
pub mod Run
pub mod Cancel
pub mod Operations
pub mod Connection
mod Tests
use raydriver.Base.{
  ℕ, Bool, true, false, List, [], ◌∷◌, ◌++◌, Option, none, some, if◌then◌else◌, length, modify,
}
use raydriver.Base.Int.{ℤ, negsuc}
use raydriver.Device.{F64, DeviceState, TransportStatus, default_state}
use raydriver.Device.Equal.{state_equal}
use raydriver.Session.{SessionError, Event}
use raydriver.Text.Utf8.{Bytes, Text}

-- The configuration, less the durations and the transport.
pub record SimpleConfig : Type 0 where
  pub poll_status_while_running : Bool

pub record PendingCmd : Type 0 where
  pub lines : List Text
  pub finished : Bool

abbrev pub new_pending : PendingCmd
new_pending = record { lines = []; finished = false }

abbrev pub add_line : Text → PendingCmd → PendingCmd
add_line line p = record p { lines = p.lines ++ line ∷ [] }

abbrev pub finish : PendingCmd → PendingCmd
finish p = record p { finished = true }

module _ (F : F64) where
  -- `transport` has what was handed to the transport so far, `commands` every `PendingCmd` made so
  -- far; `pending` is the slot, an `Arc` into it.
  pub record SimpleCore : Type 0 where
    pub config : SimpleConfig
    pub events : List (Event F)
    pub transport : List Bytes
    pub state : DeviceState F
    pub keep_running : Bool
    pub job_running : Bool
    pub is_cancelled : Bool
    pub is_holding : Bool
    pub report_in_inches : Bool
    pub handshake_received : Bool
    pub line_buffer : Bytes
    pub commands : List PendingCmd
    pub pending : Option ℕ
    pub job_exception : Option SessionError
    pub last_reported_op_index : ℤ

  unfoldable pub new : SimpleConfig → SimpleCore
  unfolding default_state
  new config = record {
    config = config;
    events = [];
    transport = [];
    state = default_state F;
    keep_running = false;
    job_running = false;
    is_cancelled = false;
    is_holding = false;
    report_in_inches = false;
    handshake_received = false;
    line_buffer = [];
    commands = [];
    pending = none;
    job_exception = none;
    last_reported_op_index = negsuc 0;
  }

  abbrev pub emit : SimpleCore → Event F → SimpleCore
  emit s e = record s { events = s.events ++ e ∷ [] }

  abbrev pub hand_over : SimpleCore → Bytes → SimpleCore
  hand_over s payload = record s { transport = s.transport ++ payload ∷ [] }

  -- A new state, told only where it differs.
  unfoldable pub emit_state_if_changed : SimpleCore → DeviceState F → SimpleCore
  unfolding state_equal
  emit_state_if_changed s state =
      if state_equal F s.state state
      then s
      else emit (record s { state = state }) (Event.state_changed state)

  abbrev pub mutate : SimpleCore → ℕ → (PendingCmd → PendingCmd) → SimpleCore
  mutate s i f = record s { commands = modify i f s.commands }

  abbrev pub update_connection_status : SimpleCore → TransportStatus → Option Text → SimpleCore
  update_connection_status s status message = emit s (Event.connection_status status message)

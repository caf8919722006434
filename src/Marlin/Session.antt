-- ===== src/Marlin/Session.antt =====
-- src/marlin/session.rs: the Marlin session. A handler runs to its end between two waits, so it is a
-- function on the state. What the other tasks do during a write or a wait is a parameter of the
-- operation that suspends.
pub mod Receive
pub mod Exchange
pub mod Run
pub mod Operations
pub mod Connection
mod Tests
use raydriver.Base.{ℕ, Bool, true, false, List, [], ◌∷◌, ◌++◌, Option, none, modify}
use raydriver.Base.Int.{ℤ, negsuc}
use raydriver.Device.{F64, DeviceState, TransportStatus, default_state}
use raydriver.Session.{SessionError, Event}
use raydriver.Text.Utf8.{Bytes, Text}

-- The configuration, less the durations and the transport.
pub record MarlinConfig : Type 0 where
  pub poll_status_while_running : Bool

pub record PendingCmd : Type 0 where
  pub lines : List Text
  pub finished : Bool

abbrev pub new_pending : PendingCmd
new_pending = record { lines = []; finished = false }

abbrev pub add_line : Text → PendingCmd → PendingCmd
add_line line p = record p { lines = p.lines ++ line ∷ [] }

abbrev pub finish : PendingCmd → PendingCmd
finish p = record p { finished = true }

module _ (F : F64) where
  -- `transport` has what was handed to the transport so far, `commands` every `PendingCmd` made so
  -- far, into which the queue has the `Arc`s.
  pub record MarlinCore : Type 0 where
    pub config : MarlinConfig
    pub events : List (Event F)
    pub transport : List Bytes
    pub state : DeviceState F
    pub keep_running : Bool
    pub job_running : Bool
    pub is_cancelled : Bool
    pub handshake_received : Bool
    pub connected : Bool
    pub line_buffer : Bytes
    pub commands : List PendingCmd
    pub pending_queue : List ℕ
    pub job_exception : Option SessionError
    pub last_reported_op_index : ℤ

  unfoldable pub new : MarlinConfig → MarlinCore
  unfolding default_state
  new config = record {
    config = config;
    events = [];
    transport = [];
    state = default_state F;
    keep_running = false;
    job_running = false;
    is_cancelled = false;
    handshake_received = false;
    connected = false;
    line_buffer = [];
    commands = [];
    pending_queue = [];
    job_exception = none;
    last_reported_op_index = negsuc 0;
  }

  abbrev pub emit : MarlinCore → Event F → MarlinCore
  emit s e = record s { events = s.events ++ e ∷ [] }

  abbrev pub hand_over : MarlinCore → Bytes → MarlinCore
  hand_over s payload = record s { transport = s.transport ++ payload ∷ [] }

  abbrev pub mutate : MarlinCore → ℕ → (PendingCmd → PendingCmd) → MarlinCore
  mutate s i f = record s { commands = modify i f s.commands }

  abbrev pub update_connection_status : MarlinCore → TransportStatus → Option Text → MarlinCore
  update_connection_status s status message = emit s (Event.connection_status status message)

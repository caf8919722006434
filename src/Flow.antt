-- ===== src/Flow.antt =====
-- src/grbl/flow.rs: character-counting flow control. This file has its data and the operations that
-- do not parse; `Scan` the searches in the byte buffer, `Incoming` the extraction of
-- acknowledgements and lines, `Account` the accounting, `Wait` the timed waits.
pub mod Scan
pub mod Incoming
pub mod Account
pub mod Wait
pub mod Tests
use raydriver.Base.{
  ℕ, zero, suc, ◌+◌, ◌-◌, ◌^◌, Bool, true, false, ◌||◌, List, [], ◌∷◌, ◌++◌, Option, none, some,
  ltb, if◌then◌else◌, add_usize, is_empty,
}
use raydriver.Base.Int.{ℤ}
use raydriver.Text.Utf8.{Bytes, Text}

abbrev pub default_grbl_rx_buffer_size : ℕ
default_grbl_rx_buffer_size = 127

-- A command sent with buffer accounting, awaiting its acknowledgement.
pub record PendingCommand : Type 0 where
  pub length : ℕ
  pub op_index : Option ℤ
  pub command : Text

pub data GrblResponseType : Type 0 where
  ok error line : GrblResponseType

pub record GrblResponse : Type 0 where
  pub rtype : GrblResponseType
  pub text : Text
  pub pending : Option PendingCommand

pub record FlowInner : Type 0 where
  pub rx_count : ℕ
  pub rx_size : Option ℕ
  pub status_buffer : Bytes
  pub pending : List PendingCommand
  pub acked_since_flush : Bool
  pub drained_since_flush : Bool

-- `FlowControl` keeps its `FlowInner` behind a mutex, and two `Notify` objects. A state here is the
-- inner state with the number of wake-ups delivered on each.
pub record FlowControl : Type 0 where
  pub inner : FlowInner
  pub space_available : ℕ
  pub pending_drained : ℕ

abbrev pub fresh : FlowControl
fresh = record {
  inner = record {
    rx_count = 0;
    rx_size = none;
    status_buffer = [];
    pending = [];
    acked_since_flush = false;
    drained_since_flush = false;
  };
  space_available = 0;
  pending_drained = 0;
}

abbrev pub unwrap_or {ℓ} : {A : Type ℓ} → A → Option A → A
unwrap_or d none = d
unwrap_or d (some a) = a

unfoldable pub rx_buffer_size : FlowInner → ℕ
rx_buffer_size s = unwrap_or default_grbl_rx_buffer_size s.rx_size

unfoldable pub needs_space : FlowInner → ℕ → Bool
unfolding rx_buffer_size
needs_space s needed = ltb (rx_buffer_size s) (add_usize s.rx_count needed)

unfoldable pub set_rx_buffer_size : FlowInner → ℕ → FlowInner
set_rx_buffer_size s size = if ltb 0 size then record s { rx_size = some size } else s

-- `pop_front`, then `saturating_sub`.
unfoldable pub pop_pending : FlowInner → List PendingCommand → Option PendingCommand × FlowInner
pop_pending s [] = (none, s)
pop_pending s (p ∷ rest) = (some p, record s { rx_count = s.rx_count - p.length; pending = rest })

unfoldable pub ack_ok_locked : FlowInner → Option PendingCommand × FlowInner
unfolding pop_pending
ack_ok_locked s = pop_pending s s.pending

unfoldable pub track_command : FlowInner → ℕ → Option ℤ → Text → FlowInner
track_command s length op_index command = record s {
  pending = s.pending ++ record { length = length; op_index = op_index; command = command } ∷ [];
  rx_count = add_usize s.rx_count length;
}

unfoldable pub signal_space_available : FlowControl → FlowControl
signal_space_available f = record f { space_available = f.space_available + 1 }

unfoldable pub notify_drained : FlowControl → FlowControl
notify_drained f = record f { pending_drained = f.pending_drained + 1 }

-- `mem::take` on both flags, then the notifications that they ask for.
unfoldable pub flush_notifications : FlowControl → FlowControl
unfolding signal_space_available notify_drained
flush_notifications f =
    let taken = record f {
      inner = record (f.inner) { acked_since_flush = false; drained_since_flush = false };
    } in
    let spaced = if f.inner.acked_since_flush then signal_space_available taken else taken in
    if f.inner.drained_since_flush then notify_drained spaced else spaced

unfoldable pub reset_flow_control : FlowControl → FlowControl
unfolding signal_space_available notify_drained
reset_flow_control f =
    let cleared = record f { inner = record (f.inner) { rx_count = 0; pending = [] } } in
    signal_space_available (notify_drained cleared)

unfoldable pub reset : FlowControl → FlowControl
unfolding reset_flow_control
reset f =
    let g = reset_flow_control f in record g { inner = record (g.inner) { status_buffer = [] } }

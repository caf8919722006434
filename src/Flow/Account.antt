-- ===== src/Flow/Account.antt =====
-- src/grbl/flow.rs: the byte accounting of the pending queue.
pub mod Incoming
pub mod Window
use raydriver.Base.{
  ℕ, zero, suc, ◌+◌, ◌-◌, ◌≤◌, ◌<◌, ◌≡◌, refl, ap, Bool, true, false, ◌||◌, ◌&&◌, List, [], ◌∷◌,
  ◌++◌, Option, none, some, arith, map, add_usize, usize_mod, drop, is_empty, ltb,
}
use raydriver.Base.Int.{ℤ}
use raydriver.Flow.{
  PendingCommand, GrblResponseType, GrblResponse, FlowInner, FlowControl, pop_pending,
  ack_ok_locked, track_command, set_rx_buffer_size, flush_notifications, reset_flow_control, reset,
}
use raydriver.Text.Utf8.{Text}

-- The bytes that the device may still hold.
abbrev pub outstanding : List PendingCommand → ℕ
outstanding [] = 0
outstanding (p ∷ rest) = p.length + outstanding rest

-- The counter is the sum over the queue.
abbrev pub IsAccounted : FlowInner → Type 0
IsAccounted s = s.rx_count ≡ outstanding s.pending

pub outstanding-append :
    (xs ys : List PendingCommand) → outstanding (xs ++ ys) ≡ outstanding xs + outstanding ys
outstanding-append [] ys = omega arith
outstanding-append (x ∷ xs) ys = omega (arith, outstanding-append xs ys)

pub outstanding-drop-le :
    (n : ℕ) (xs : List PendingCommand) → outstanding (drop n xs) ≤ outstanding xs
outstanding-drop-le zero xs = omega arith
outstanding-drop-le (suc n) [] = omega arith
outstanding-drop-le (suc n) (x ∷ xs) = omega (arith, outstanding-drop-le n xs)

-- An acknowledgement takes the head off the queue and its bytes off the counter; the saturating
-- subtraction never saturates.
pop_pending_lem :
    (q : List PendingCommand) (s : FlowInner)
    → s.pending ≡ q
    → IsAccounted s
    → ((pop_pending s q).1.pending ≡ drop 1 q) × IsAccounted (pop_pending s q).1
unfolding pop_pending
pop_pending_lem [] s e h = (e, h)
pop_pending_lem (p ∷ rest) s e h =
    (refl, let h' : s.rx_count ≡ p.length + outstanding rest = rw e at h in omega arith)

pub ack_ok_locked-IsAccounted : (s : FlowInner) → IsAccounted s → IsAccounted (ack_ok_locked s).1
unfolding ack_ok_locked
ack_ok_locked-IsAccounted s h = (pop_pending_lem s.pending s refl h).1

pop_pending-fields :
    (q : List PendingCommand) (s : FlowInner)
    → s.pending ≡ q
    → ((pop_pending s q).1.pending ≡ drop 1 q)
      × ((pop_pending s q).1.rx_size ≡ s.rx_size)
      × ((pop_pending s q).1.acked_since_flush ≡ s.acked_since_flush)
      × ((pop_pending s q).1.drained_since_flush ≡ s.drained_since_flush)
      × ((pop_pending s q).1.status_buffer ≡ s.status_buffer)
unfolding pop_pending
pop_pending-fields [] s e = (e, refl, refl, refl, refl)
pop_pending-fields (p ∷ rest) s e = (refl, refl, refl, refl, refl)

pub ack_ok_locked-fields :
    (s : FlowInner)
    → ((ack_ok_locked s).1.pending ≡ drop 1 s.pending)
      × ((ack_ok_locked s).1.rx_size ≡ s.rx_size)
      × ((ack_ok_locked s).1.acked_since_flush ≡ s.acked_since_flush)
      × ((ack_ok_locked s).1.drained_since_flush ≡ s.drained_since_flush)
      × ((ack_ok_locked s).1.status_buffer ≡ s.status_buffer)
unfolding ack_ok_locked
ack_ok_locked-fields s = pop_pending-fields s.pending s refl

-- Tracking a command keeps the account unless the sum leaves a machine word.
pub track_command-IsAccounted :
    (s : FlowInner) (length : ℕ) (op_index : Option ℤ) (command : Text)
    → outstanding s.pending + length < usize_mod
    → IsAccounted s
    → IsAccounted (track_command s length op_index command)
unfolding track_command
track_command-IsAccounted s length op_index command fits h = omega (
  arith,
  outstanding-append s.pending
      (record { length = length; op_index = op_index; command = command } ∷ []),
)

pub reset_flow_control-IsAccounted : (f : FlowControl) → IsAccounted (reset_flow_control f).inner
unfolding reset_flow_control
reset_flow_control-IsAccounted f = refl

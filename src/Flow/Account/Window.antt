-- ===== src/Flow/Account/Window.antt =====
-- src/grbl/flow.rs with the senders and the reader of src/grbl/session.rs: interleavings of sends
-- that waited for space with whatever the device answers.
use raydriver.Base.{ℕ, ◌+◌, ◌^◌, ◌≤◌, ◌<◌, ◌≡◌, refl, false, [], Option, arith}
use raydriver.Base.Int.{ℤ}
use raydriver.Flow.{
  FlowInner, FlowControl, rx_buffer_size, needs_space, track_command, set_rx_buffer_size,
  flush_notifications, reset_flow_control,
}
use raydriver.Flow.Account.{
  outstanding, IsAccounted, outstanding-drop-le, track_command-IsAccounted,
}
use raydriver.Flow.Account.Incoming.{ack_count, parse_incoming-Tracks}
use raydriver.Flow.Incoming.{parse_incoming}
use raydriver.Text.Utf8.{Bytes, Text}

-- The account holds, and the device's buffer holds all that is outstanding. Sizes come from
-- positive `i64` values.
pub record IsWindowed (s : FlowInner) : Type 0 where
  pub accounted : IsAccounted s
  pub fits : s.rx_count ≤ rx_buffer_size s
  pub sized : rx_buffer_size s < 2 ^ 63

-- A sender that `wait_for_space` let through, the reader, and the operations between jobs.
pub data Step (find_ok : Bytes → Option (ℕ × ℕ)) : FlowInner → FlowInner → Type 0 where
  sends :
      {s : FlowInner} (length : ℕ) (op_index : Option ℤ) (command : Text)
      → length < 2 ^ 63
      → needs_space s length ≡ false
      → Step find_ok s (track_command s length op_index command)
  receives : {s : FlowInner} (input : Bytes) → Step find_ok s (parse_incoming find_ok s input).inner
  flushes :
      (f : FlowControl) {s t : FlowInner}
      → s ≡ f.inner
      → t ≡ (flush_notifications f).inner
      → Step find_ok s t
  resets :
      (f : FlowControl) {s t : FlowInner}
      → s ≡ f.inner
      → t ≡ (reset_flow_control f).inner
      → Step find_ok s t
  resizes :
      {s : FlowInner} (size : ℕ)
      → s.pending ≡ []
      → size < 2 ^ 63
      → Step find_ok s (set_rx_buffer_size s size)

pub data Reach (find_ok : Bytes → Option (ℕ × ℕ)) (s : FlowInner) : FlowInner → Type 0 where
  start : Reach find_ok s s
  next : {t u : FlowInner} → Reach find_ok s t → Step find_ok t u → Reach find_ok s u

sends-IsWindowed :
    (s : FlowInner) (length : ℕ) (op_index : Option ℤ) (command : Text)
    → length < 2 ^ 63
    → needs_space s length ≡ false
    → IsWindowed s
    → IsWindowed (track_command s length op_index command)
unfolding needs_space track_command rx_buffer_size
sends-IsWindowed s length op_index command small room w = record {
  accounted =
      let sum_fits : outstanding s.pending + length < 2 ^ 64 =
        omega (arith, w.accounted, w.fits, w.sized) in
      track_command-IsAccounted s length op_index command sum_fits w.accounted;
  fits = ground (arith, w.fits, w.sized);
  sized = w.sized;
}

receives-IsWindowed :
    (find_ok : Bytes → Option (ℕ × ℕ)) (s : FlowInner) (input : Bytes)
    → IsWindowed s
    → IsWindowed (parse_incoming find_ok s input).inner
unfolding rx_buffer_size
receives-IsWindowed find_ok s input w =
    let t = parse_incoming-Tracks find_ok s input w.accounted in
    let p = parse_incoming find_ok s input in
    let less : outstanding p.inner.pending ≤ outstanding s.pending =
      rw t.dropped (outstanding-drop-le (ack_count p.responses) s.pending) in
    record {
      accounted = t.accounted;
      fits = rw t.same_size (omega (arith, t.accounted, w.accounted, w.fits, less));
      sized = rw t.same_size w.sized;
    }

flushes-IsWindowed :
    (f : FlowControl) → IsWindowed f.inner → IsWindowed (flush_notifications f).inner
unfolding flush_notifications rx_buffer_size
flushes-IsWindowed f w = ground (arith, w.accounted, w.fits, w.sized)

resets-IsWindowed : (f : FlowControl) → IsWindowed f.inner → IsWindowed (reset_flow_control f).inner
unfolding reset_flow_control rx_buffer_size
resets-IsWindowed f w = record { accounted = refl; fits = omega arith; sized = w.sized }

resizes-IsWindowed :
    (s : FlowInner) (size : ℕ)
    → s.pending ≡ []
    → size < 2 ^ 63
    → IsWindowed s
    → IsWindowed (set_rx_buffer_size s size)
unfolding set_rx_buffer_size rx_buffer_size
resizes-IsWindowed s size idle small w =
    let zero_out : s.rx_count ≡ 0 = rw idle at w.accounted in
    ground (arith, w.accounted, w.fits, w.sized)

module _ (find_ok : Bytes → Option (ℕ × ℕ)) where
  Step-IsWindowed : {s t : FlowInner} → Step find_ok s t → IsWindowed s → IsWindowed t
  Step-IsWindowed {s} (sends length op_index command small room) w =
      sends-IsWindowed s length op_index command small room w
  Step-IsWindowed {s} (receives input) w = receives-IsWindowed find_ok s input w
  Step-IsWindowed (flushes f e e') w = rw e' (flushes-IsWindowed f (rw e at w))
  Step-IsWindowed (resets f e e') w = rw e' (resets-IsWindowed f (rw e at w))
  Step-IsWindowed {s} (resizes size idle small) w = resizes-IsWindowed s size idle small w

  -- However sends that waited for space interleave with incoming bytes, flushes and resets, and
  -- with a change of the buffer size while nothing is pending: the bytes outstanding never exceed
  -- the device's RX buffer.
  pub Reach-IsWindowed : {s t : FlowInner} → Reach find_ok s t → IsWindowed s → IsWindowed t
  Reach-IsWindowed start w = w
  Reach-IsWindowed (next r st) w = Step-IsWindowed st (Reach-IsWindowed r w)

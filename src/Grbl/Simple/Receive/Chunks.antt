-- ===== src/Grbl/Simple/Receive/Chunks.antt =====
-- src/grbl/simple.rs: bytes that arrive in pieces.
use raydriver.Base.{
  ℕ, ◌≡◌, refl, ap, ◌∙◌, sym, inl, inr, arith, Bool, true, false, ◌&&◌, ◌||◌, List, [], ◌∷◌, ◌++◌,
  ++_assoc, Option, none, some, Option-cases, if◌then◌else◌, length, get_elem?,
}
use raydriver.Device.{F64, DeviceError, DeviceState, DeviceStatus}
use raydriver.Device.Equal.{state_equal}
use raydriver.Grbl.Errors.{error_code_to_device_error, alarm_code_to_device_error}
use raydriver.Grbl.Session.Receive.{second_part}
use raydriver.Grbl.Simple.{PendingCmd, add_line, finish, SimpleCore, emit, emit_state_if_changed}
use raydriver.Grbl.Simple.Receive.{
  drain_lines, with_last_line, change_found, change_open, finish_pending, collect_line,
  set_device_error, fail_job, or_error, handle_error_line, handle_alarm, shown_state,
  handle_status_report, handle_line, handle_lines, handle_rx,
}
use raydriver.Grbl.Simple.Receive.Framing.{drain_lines-append}
use raydriver.Session.{Event}
use raydriver.Text.Affix.{equal, strip_prefix, starts_with, ends_with, split}
use raydriver.Text.Regex.{Regex}
use raydriver.Text.Trim.{trim}
use raydriver.Text.Utf8.{Bytes, Text, codes}

module _ {F : F64} (b : Bytes) where
  -- The state with another line buffer.
  abbrev pub with_buffer : SimpleCore F → SimpleCore F
  with_buffer s = record s { line_buffer = b }

  -- The first state, with another line buffer, is the second.
  record Rebuffered (s t : SimpleCore F) : Type 0 where
    is_same : t ≡ with_buffer s

  Rebuffered-if :
      {s t x y : SimpleCore F} (test : Bool)
      → Rebuffered s x
      → Rebuffered t y
      → Rebuffered (if test then s else t) (if test then x else y)
  Rebuffered-if true h k = h
  Rebuffered-if false h k = k

  change_found-Rebuffered :
      (s : SimpleCore F) (i : ℕ) (found : Option PendingCmd) (change : PendingCmd → PendingCmd)
      → Rebuffered (change_found F s i found change) (change_found F (with_buffer s) i found change)
  change_found-Rebuffered s i none change = record { is_same = refl }
  change_found-Rebuffered s i (some p) change =
      Rebuffered-if p.finished (record { is_same = refl }) (record { is_same = refl })

  change_open-Rebuffered :
      (s : SimpleCore F) (slot : Option ℕ) (change : PendingCmd → PendingCmd)
      → Rebuffered (change_open F s slot change) (change_open F (with_buffer s) slot change)
  unfolding change_open
  change_open-Rebuffered s none change = record { is_same = refl }
  change_open-Rebuffered s (some i) change =
      change_found-Rebuffered s i (get_elem? s.commands i) change

  -- What is done to the state with the other buffer.
  Rebuffered-then :
      {s t : SimpleCore F} (step : SimpleCore F → SimpleCore F)
      → Rebuffered s t
      → Rebuffered (step s) (step (with_buffer s))
      → Rebuffered (step s) (step t)
  Rebuffered-then step h k = record { is_same = ap step h.is_same ∙ k.is_same }

  finish_pending-Rebuffered :
      (s : SimpleCore F) (last_line : Option Text)
      → Rebuffered (finish_pending F s last_line) (finish_pending F (with_buffer s) last_line)
  unfolding finish_pending
  finish_pending-Rebuffered s last_line =
      change_open-Rebuffered s s.pending (λ p. finish (with_last_line F last_line p))

  collect_line-Rebuffered :
      (s : SimpleCore F) (line : Text)
      → Rebuffered (collect_line F s line) (collect_line F (with_buffer s) line)
  unfolding collect_line
  collect_line-Rebuffered s line = change_open-Rebuffered s s.pending (add_line line)

  set_device_error-Rebuffered :
      (s : SimpleCore F) (error : DeviceError)
      → Rebuffered (set_device_error F s error) (set_device_error F (with_buffer s) error)
  unfolding set_device_error
  set_device_error-Rebuffered s error = elim (Option-cases s.state.error) [
    | inl e ↦ rw (e, set_device_error) (record { is_same = refl })
    | inr (first, e) ↦ rw (e, set_device_error) (record { is_same = refl })
  ]

  -- An error in a job, behind its answer.
  abbrev failing : Text → SimpleCore F → SimpleCore F
  failing text s = if s.job_running then fail_job F s text else s

  failing-Rebuffered :
      {s t : SimpleCore F} (text : Text)
      → Rebuffered s t
      → Rebuffered (failing text s) (failing text t)
  failing-Rebuffered {s} text h =
      Rebuffered-then (failing text) h
        (Rebuffered-if s.job_running (record { is_same = refl }) (record { is_same = refl }))

  handle_error_line-Rebuffered :
      (s : SimpleCore F) (line : Text)
      → Rebuffered (handle_error_line F s line) (handle_error_line F (with_buffer s) line)
  unfolding handle_error_line
  handle_error_line-Rebuffered s line =
      let error = error_code_to_device_error (trim (second_part (split b':' line))) in
      failing-Rebuffered (codes "GRBL error: " ++ line) (
        Rebuffered-then (λ t. finish_pending F t (some line)) (set_device_error-Rebuffered s error)
          (finish_pending-Rebuffered (set_device_error F s error) (some line)))

  handle_alarm-Rebuffered :
      (s : SimpleCore F) (code line : Text)
      → Rebuffered (handle_alarm F s code line) (handle_alarm F (with_buffer s) code line)
  unfolding handle_alarm
  handle_alarm-Rebuffered s code line =
      let alarmed = record (s.state) {
        error = or_error F s.state.error (alarm_code_to_device_error code);
        status = DeviceStatus.alarm;
      } in
      failing-Rebuffered (codes "GRBL ALARM: " ++ line) (
        finish_pending-Rebuffered
          (emit F (record s { state = alarmed }) (Event.state_changed alarmed)) (some line))

  emit_state_if_changed-Rebuffered :
      (s : SimpleCore F) (state : DeviceState F)
      → Rebuffered (emit_state_if_changed F s state) (emit_state_if_changed F (with_buffer s) state)
  unfolding emit_state_if_changed
  emit_state_if_changed-Rebuffered s state =
      Rebuffered-if (state_equal F s.state state) (record { is_same = refl })
        (record { is_same = refl })

  module _ (re : Regex) where
    handle_status_report-Rebuffered :
        (s : SimpleCore F) (report : Text)
        → Rebuffered
            (handle_status_report F re s report)
            (handle_status_report F re (with_buffer s) report)
    unfolding handle_status_report shown_state
    handle_status_report-Rebuffered s report =
        emit_state_if_changed-Rebuffered (record s { handshake_received = true })
          (shown_state F re s report)

    Rebuffered-code :
        {s t : SimpleCore F} (x y : Text → SimpleCore F) (code : Option Text)
        → ((c : Text) → Rebuffered (x c) (y c))
        → Rebuffered s t
        → Rebuffered
            (elim code as (λ _. SimpleCore F) [ some c ↦ x c | none ↦ s ])
            (elim code as (λ _. SimpleCore F) [ some c ↦ y c | none ↦ t ])
    Rebuffered-code x y none h k = k
    Rebuffered-code x y (some c) h k = h c

    handle_line-Rebuffered :
        (s : SimpleCore F) (line : Text)
        → Rebuffered (handle_line F re s line) (handle_line F re (with_buffer s) line)
    unfolding handle_line
    handle_line-Rebuffered s line =
        let told = emit F s (Event.raw_rx line) in
        Rebuffered-if (equal line (codes "ok")) (finish_pending-Rebuffered told none) (
          Rebuffered-if (starts_with (codes "error:") line) (handle_error_line-Rebuffered told line)
            (Rebuffered-if (starts_with (codes "<") line && ends_with b'>' line)
              (handle_status_report-Rebuffered s line)
              (Rebuffered-code (λ code. handle_alarm F told (trim code) line)
                (λ code. handle_alarm F (with_buffer told) (trim code) line)
                (strip_prefix (codes "ALARM:") line)
                (λ code. handle_alarm-Rebuffered told (trim code) line)
                (Rebuffered-if
                  (starts_with (codes "Grbl ") line || starts_with (codes "GrblHAL ") line)
                  (record { is_same = refl }) (collect_line-Rebuffered told line)))))

    handle_lines-with_buffer :
        (lines : List Text) (s : SimpleCore F)
        → handle_lines F re (with_buffer s) lines ≡ with_buffer (handle_lines F re s lines)
    unfolding handle_lines
    handle_lines-with_buffer [] s = refl
    handle_lines-with_buffer (line ∷ rest) s =
        ap (λ t. handle_lines F re t rest) (handle_line-Rebuffered s line).is_same
        ∙ handle_lines-with_buffer rest (handle_line F re s line)

handle_lines-append :
    {F : F64} (re : Regex) (xs ys : List Text) (s : SimpleCore F)
    → handle_lines F re s (xs ++ ys) ≡ handle_lines F re (handle_lines F re s xs) ys
unfolding handle_lines
handle_lines-append re [] ys s = refl
handle_lines-append re (x ∷ xs) ys s = handle_lines-append re xs ys (handle_line _ re s x)

-- The lines of a whole buffer.
abbrev drained : Bytes → List Text × Bytes
drained buffer = drain_lines (length buffer) buffer

module _ {F : F64} (re : Regex) where
  -- The handlers leave the buffer as it is.
  handle_lines-line_buffer :
      (lines : List Text) (s : SimpleCore F)
      → (handle_lines F re s lines).line_buffer ≡ s.line_buffer
  handle_lines-line_buffer lines s =
      ap (λ t. t.line_buffer) (handle_lines-with_buffer s.line_buffer re lines s)

  -- The lines of a buffer, handled with what is left of it.
  abbrev with_lines : SimpleCore F → List Text × Bytes → SimpleCore F
  with_lines s drained = handle_lines F re (with_buffer drained.1 s) drained.0

  with_lines-behind :
      (s : SimpleCore F) (d e : List Text × Bytes)
      → with_lines (with_lines s d) e ≡ with_lines s (d.0 ++ e.0, e.1)
  with_lines-behind s d e =
      ap (λ t. handle_lines F re t e.0)
        (sym (handle_lines-with_buffer e.1 re d.0 (with_buffer d.1 s)))
      ∙ sym (handle_lines-append re d.0 e.0 (with_buffer e.1 s))

  -- However the bytes of the device are cut into reads: two reads do the same as one with the bytes of
  -- both, also where the cut is inside a line or inside a character.
  pub handle_rx-append :
      (s : SimpleCore F) (first second : Bytes)
      → handle_rx F re (handle_rx F re s first) second ≡ handle_rx F re s (first ++ second)
  unfolding handle_rx
  handle_rx-append s first second =
      let buffer = s.line_buffer ++ first in
      let d = drained buffer in
      ap (λ left. with_lines (with_lines s d) (drained (left ++ second)))
        (handle_lines-line_buffer d.0 (with_buffer d.1 s))
      ∙ with_lines-behind s d (drained (d.1 ++ second))
      ∙ ap (with_lines s) (sym (drain_lines-append (length buffer) buffer second (omega arith)))
      ∙ ap (λ b. with_lines s (drained b)) (++_assoc s.line_buffer first second)

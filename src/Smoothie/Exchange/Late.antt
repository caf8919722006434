-- ===== src/Smoothie/Exchange/Late.antt =====
-- src/smoothie/session.rs: answers that come in behind an exchange.
use raydriver.Base.{
  ◌≡◌, refl, inl, inr, Bool, true, false, ◌&&◌, List, [], ◌∷◌, ◌++◌, Option, none, some,
  Option-cases, if◌then◌else◌,
}
use raydriver.Device.{F64, DeviceError, DeviceStatus}
use raydriver.Device.Equal.{state_equal}
use raydriver.Grbl.Errors.{error_code_to_device_error, alarm_code_to_device_error}
use raydriver.Grbl.Session.Receive.{second_part}
use raydriver.Grbl.Simple.Receive.{or_error}
use raydriver.Session.{Event}
use raydriver.Smoothie.{PendingCmd, add_line, finish, SmoothieCore, emit, hand_over}
use raydriver.Smoothie.Exchange.{World, begin_exchange, end_exchange, ping_pong}
use raydriver.Smoothie.Receive.{
  resolve_pending, with_last_line, fail_job, change_open, finish_pending, collect_line,
  set_first_error, handle_error_line, handle_alarm, handle_status_report, shown_state, handle_line,
  handle_lines,
}
use raydriver.Text.Affix.{equal, strip_prefix, starts_with, ends_with, split}
use raydriver.Text.Regex.{Regex}
use raydriver.Text.Trim.{trim}
use raydriver.Text.Utf8.{Text, codes, as_bytes}

module _ {F : F64} where
  -- Nothing is waited for, and the commands are these.
  pub record IsIdle (commands : List PendingCmd) (s : SmoothieCore F) : Type 0 where
    pub slot : s.pending ≡ none
    pub same : s.commands ≡ commands

  module _ {commands : List PendingCmd} where
    IsIdle-if :
        {s t : SmoothieCore F} (test : Bool)
        → IsIdle commands s
        → IsIdle commands t
        → IsIdle commands (if test then s else t)
    IsIdle-if true h k = h
    IsIdle-if false h k = k

    change_open-IsIdle :
        (s : SmoothieCore F) (change : PendingCmd → PendingCmd)
        → IsIdle commands s
        → IsIdle commands (change_open F s s.pending change)
    unfolding change_open
    change_open-IsIdle s change h = rw (h.slot, change_open) h

    set_first_error-IsIdle :
        (s : SmoothieCore F) (error : DeviceError)
        → IsIdle commands s
        → IsIdle commands (set_first_error F s error)
    unfolding set_first_error
    set_first_error-IsIdle s error h = elim (Option-cases s.state.error) [
      | inl e ↦ rw (e, set_first_error) (record { slot = h.slot; same = h.same })
      | inr (first, e) ↦ rw (e, set_first_error) h
    ]

    finish_pending-IsIdle :
        (s : SmoothieCore F) (last_line : Option Text)
        → IsIdle commands s
        → IsIdle commands (finish_pending F s last_line)
    unfolding finish_pending
    finish_pending-IsIdle s last_line h =
        change_open-IsIdle s (λ p. finish (with_last_line F last_line p)) h

    failing-IsIdle :
        (s : SmoothieCore F) (text : Text)
        → IsIdle commands s
        → IsIdle commands (if s.job_running then fail_job F s text else s)
    failing-IsIdle s text h = IsIdle-if s.job_running (record { slot = h.slot; same = h.same }) h

    handle_error_line-IsIdle :
        (s : SmoothieCore F) (line : Text)
        → IsIdle commands s
        → IsIdle commands (handle_error_line F s line)
    unfolding handle_error_line
    handle_error_line-IsIdle s line h =
        let error = error_code_to_device_error (trim (second_part (split b':' line))) in
        failing-IsIdle (finish_pending F (set_first_error F s error) (some line))
          (codes "Device error: " ++ line)
          (finish_pending-IsIdle (set_first_error F s error) (some line)
            (set_first_error-IsIdle s error h))

    handle_alarm-IsIdle :
        (s : SmoothieCore F) (code line : Text)
        → IsIdle commands s
        → IsIdle commands (handle_alarm F s code line)
    unfolding handle_alarm
    handle_alarm-IsIdle s code line h =
        let alarmed = record (s.state) {
          error = or_error F s.state.error (alarm_code_to_device_error code);
          status = DeviceStatus.alarm;
        } in
        let told = emit F (record s { state = alarmed }) (Event.state_changed alarmed) in
        failing-IsIdle (finish_pending F told (some line)) (codes "Device ALARM: " ++ line)
          (finish_pending-IsIdle told (some line) (record { slot = h.slot; same = h.same }))

    module _ (re : Regex) where
      IsIdle-code :
          (x : Text → SmoothieCore F) {s : SmoothieCore F} (code : Option Text)
          → ((c : Text) → IsIdle commands (x c))
          → IsIdle commands s
          → IsIdle commands (elim code as (λ _. SmoothieCore F) [ some c ↦ x c | none ↦ s ])
      IsIdle-code x none h k = k
      IsIdle-code x (some c) h k = h c

      handle_line-IsIdle :
          (s : SmoothieCore F) (line : Text)
          → IsIdle commands s
          → IsIdle commands (handle_line F re s line)
      unfolding handle_line handle_status_report collect_line
      handle_line-IsIdle s line h =
          let told = emit F s (Event.raw_rx line) in
          let heard : IsIdle commands told = record { slot = h.slot; same = h.same } in
          IsIdle-if (equal line (codes "ok")) (finish_pending-IsIdle told (some (codes "ok")) heard)
            (IsIdle-if (starts_with (codes "error:") line)
              (handle_error_line-IsIdle told line heard)
              (IsIdle-if (starts_with (codes "<") line && ends_with b'>' line)
                (IsIdle-if (state_equal F told.state (shown_state F re told line))
                  (record { slot = h.slot; same = h.same })
                  (record { slot = h.slot; same = h.same }))
                (IsIdle-code (λ code. handle_alarm F told (trim code) line)
                  (strip_prefix (codes "ALARM:") line)
                  (λ code. handle_alarm-IsIdle told (trim code) line heard)
                  (change_open-IsIdle told (add_line line) heard))))

      handle_lines-IsIdle :
          (lines : List Text) (s : SmoothieCore F)
          → IsIdle commands s
          → IsIdle commands (handle_lines F re s lines)
      unfolding handle_lines
      handle_lines-IsIdle [] s h = h
      handle_lines-IsIdle (line ∷ rest) s h =
          handle_lines-IsIdle rest (handle_line F re s line) (handle_line-IsIdle s line h)

  resolve_pending-slot : (s : SmoothieCore F) → (resolve_pending F s).pending ≡ none
  unfolding resolve_pending
  resolve_pending-slot s = elim (Option-cases s.pending) [
    | inl e ↦ rw (e, resolve_pending) refl
    | inr (i, e) ↦ rw (e, resolve_pending) refl
  ]

  resolved-late :
      (re : Regex) (s : SmoothieCore F) (lines : List Text)
      → let t = resolve_pending F s in IsIdle t.commands (handle_lines F re t lines)
  resolved-late re s lines =
      handle_lines-IsIdle re lines (resolve_pending F s)
        (record { slot = resolve_pending-slot s; same = refl })

  -- After an exchange over an open transport, whether it was answered, timed out or failed at its
  -- write, no command is waited for, and no line that comes in changes one, as long as none is sent.
  pub ping_pong-late :
      (re : Regex) (world : World F) (s : SmoothieCore F) (command : Text) (lines : List Text)
      → world.is_open s ≡ true
      → let t = (ping_pong F world s command).0 in IsIdle t.commands (handle_lines F re t lines)
  unfolding ping_pong end_exchange
  ping_pong-late re world s command lines is_open =
      let begun = begin_exchange F s command in
      let payload = as_bytes (command ++ b'\n' ∷ []) in
      let written = world.writing (hand_over F begun payload) in
      elim (Option-cases (world.write begun payload)) [
        | inl e ↦ rw (is_open, e) (resolved-late re (world.waiting written) lines)
        | inr (error, e) ↦ rw (is_open, e) (resolved-late re written lines)
      ]

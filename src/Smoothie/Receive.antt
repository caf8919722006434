-- ===== src/Smoothie/Receive.antt =====
-- src/smoothie/session.rs: what the session does with received bytes. Logging is left out.
use raydriver.Base.{
  ℕ, true, false, ◌&&◌, List, [], ◌∷◌, ◌++◌, Option, none, some, if◌then◌else◌, length, get_elem?,
}
use raydriver.Device.{F64, DeviceStatus, DeviceError, DeviceState}
use raydriver.Device.Equal.{state_equal}
use raydriver.Grbl.Simple.Receive.{drain_lines, shown_status, or_error}
use raydriver.Grbl.Errors.{error_code_to_device_error, alarm_code_to_device_error}
use raydriver.Grbl.Parser.Report.{parse_state}
use raydriver.Grbl.Session.Receive.{second_part}
use raydriver.Smoothie.{PendingCmd, add_line, finish, SmoothieCore, emit, mutate}
use raydriver.Session.{SessionError, Event}
use raydriver.Text.Affix.{equal, strip_prefix, starts_with, ends_with, split}
use raydriver.Text.Regex.{Regex}
use raydriver.Text.Trim.{trim}
use raydriver.Text.Utf8.{Bytes, Text, codes}

module _ (F : F64) where
  abbrev pub with_last_line : Option Text → PendingCmd → PendingCmd
  with_last_line none p = p
  with_last_line (some line) p = add_line line p

  -- A change of the command that an `Arc` points to, as long as it is not finished.
  abbrev pub change_found :
      SmoothieCore F → ℕ → Option PendingCmd → (PendingCmd → PendingCmd) → SmoothieCore F
  change_found s i none change = s
  change_found s i (some p) change = if p.finished then s else mutate F s i change

  unfoldable pub change_open :
      SmoothieCore F → Option ℕ → (PendingCmd → PendingCmd) → SmoothieCore F
  change_open s none change = s
  change_open s (some i) change = change_found s i (get_elem? s.commands i) change

  -- The command in the slot is finished, once. The slot keeps it.
  unfoldable pub finish_pending : SmoothieCore F → Option Text → SmoothieCore F
  unfolding change_open
  finish_pending s last_line = change_open s s.pending (λ p. finish (with_last_line last_line p))

  abbrev pub resolve_slot : SmoothieCore F → Option ℕ → SmoothieCore F
  resolve_slot s none = s
  resolve_slot s (some i) = mutate F (record s { pending = none }) i finish

  unfoldable pub resolve_pending : SmoothieCore F → SmoothieCore F
  resolve_pending s = resolve_slot s s.pending

  -- The first error stays.
  unfoldable pub set_first_error : SmoothieCore F → DeviceError → SmoothieCore F
  set_first_error s error = elim s.state.error [
    | some _ ↦ s
    | none ↦
        let changed = record (s.state) { error = some error } in
        emit F (record s { state = changed }) (Event.state_changed changed)
  ]

  abbrev pub fail_job : SmoothieCore F → Text → SmoothieCore F
  fail_job s message = record s { job_exception = some (SessionError.device message) }

  unfoldable pub handle_error_line : SmoothieCore F → Text → SmoothieCore F
  unfolding set_first_error finish_pending error_code_to_device_error
  handle_error_line s line =
      let code = trim (second_part (split b':' line)) in
      let failed = set_first_error s (error_code_to_device_error code) in
      let answered = finish_pending failed (some line) in
      if answered.job_running then fail_job answered (codes "Device error: " ++ line) else answered

  unfoldable pub handle_alarm : SmoothieCore F → Text → Text → SmoothieCore F
  unfolding finish_pending alarm_code_to_device_error
  handle_alarm s code line =
      let alarmed = record (s.state) {
        error = or_error F s.state.error (alarm_code_to_device_error code);
        status = DeviceStatus.alarm;
      } in
      let told = emit F (record s { state = alarmed }) (Event.state_changed alarmed) in
      let answered = finish_pending told (some line) in
      if answered.job_running then fail_job answered (codes "Device ALARM: " ++ line) else answered

  unfoldable pub collect_line : SmoothieCore F → Text → SmoothieCore F
  unfolding change_open
  collect_line s line = change_open s s.pending (add_line line)

  module _ (re : Regex) where
    unfoldable pub shown_state : SmoothieCore F → Text → DeviceState F
    unfolding parse_state shown_status
    shown_state s report =
        let state = parse_state F re report s.state false in
        record state { status = shown_status F s.job_running s.is_holding state.status }

    unfoldable pub handle_status_report : SmoothieCore F → Text → SmoothieCore F
    unfolding shown_state state_equal
    handle_status_report s report =
        let noted = record s { handshake_received = true } in
        let state = shown_state s report in
        if state_equal F s.state state
        then noted
        else emit F (record noted { state = state }) (Event.state_changed state)

    unfoldable pub handle_line : SmoothieCore F → Text → SmoothieCore F
    unfolding equal starts_with ends_with strip_prefix trim finish_pending handle_error_line
        handle_status_report handle_alarm collect_line
    handle_line s line =
        let told = emit F s (Event.raw_rx line) in
        if equal line (codes "ok")
        then finish_pending told (some (codes "ok"))
        else if starts_with (codes "error:") line
        then handle_error_line told line
        else if starts_with (codes "<") line && ends_with b'>' line
        then handle_status_report told line
        else elim (strip_prefix (codes "ALARM:") line) [
          | some code ↦ handle_alarm told (trim code) line
          | none ↦ collect_line told line
        ]

    unfoldable pub handle_lines : SmoothieCore F → List Text → SmoothieCore F
    unfolding handle_line
    handle_lines s [] = s
    handle_lines s (line ∷ rest) = handle_lines (handle_line s line) rest

    -- First all whole lines are taken out of the buffer, then they are handled.
    unfoldable pub handle_rx : SmoothieCore F → Bytes → SmoothieCore F
    unfolding drain_lines handle_lines
    handle_rx s data_in =
        let buffer = s.line_buffer ++ data_in in
        let (new_lines, left) = drain_lines (length buffer) buffer in
        handle_lines (record s { line_buffer = left }) new_lines

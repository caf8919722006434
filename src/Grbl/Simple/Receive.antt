-- ===== src/Grbl/Simple/Receive.antt =====
-- src/grbl/simple.rs: what the session does with received bytes. Logging is left out.
pub mod Kind
pub mod Reply
pub mod Framing
pub mod Chunks
use raydriver.Base.{
  ℕ, zero, suc, Bool, true, false, ◌&&◌, ◌||◌, List, [], ◌∷◌, ◌++◌, Option, none, some,
  if◌then◌else◌, length, take, drop, get_elem?, is_empty,
}
use raydriver.Device.{F64, DeviceStatus, DeviceError, DeviceState}
use raydriver.Device.Equal.{status_equal}
use raydriver.Flow.Scan.{position}
use raydriver.Grbl.Errors.{error_code_to_device_error, alarm_code_to_device_error}
use raydriver.Grbl.Parser.Report.{parse_state}
use raydriver.Grbl.Session.Receive.{second_part}
use raydriver.Grbl.Simple.{
  PendingCmd, add_line, finish, SimpleCore, emit, emit_state_if_changed, mutate,
}
use raydriver.Session.{SessionError, Event}
use raydriver.Text.Affix.{equal, strip_prefix, starts_with, ends_with, split}
use raydriver.Text.Regex.{Regex}
use raydriver.Text.Trim.{trim, lines as text_lines}
use raydriver.Text.Utf8.{Bytes, Text, codes, from_utf8}

-- The lines that are not empty.
unfoldable pub non_empty_lines : List Text → List Text
non_empty_lines [] = []
non_empty_lines (line ∷ rest) =
    let others = non_empty_lines rest in if is_empty line then others else line ∷ others

-- What a line of bytes holds; one that is not UTF-8 is dropped.
unfoldable pub decoded_lines : Bytes → List Text
unfolding non_empty_lines from_utf8 trim text_lines
decoded_lines line_bytes = elim (from_utf8 line_bytes) [
  | none ↦ []
  | some text ↦ non_empty_lines (text_lines (trim text))
]

-- The lines of a buffer up to its last newline, and what is left of it; on fuel, for which the
-- length of the buffer is enough.
unfoldable pub drain_lines : ℕ → Bytes → List Text × Bytes
unfolding position decoded_lines
drain_lines zero buffer = ([], buffer)
drain_lines (suc fuel) buffer = elim (position b'\n' buffer) [
  | none ↦ ([], buffer)
  | some nl ↦
      let (later, left) = drain_lines fuel (drop (suc nl) buffer) in
      (decoded_lines (take (suc nl) buffer) ++ later, left)
]

module _ (F : F64) where
  abbrev pub with_last_line : Option Text → PendingCmd → PendingCmd
  with_last_line none p = p
  with_last_line (some line) p = add_line line p

  -- A change of the command that an `Arc` points to, as long as it is not finished.
  abbrev pub change_found :
      SimpleCore F → ℕ → Option PendingCmd → (PendingCmd → PendingCmd) → SimpleCore F
  change_found s i none change = s
  change_found s i (some p) change = if p.finished then s else mutate F s i change

  unfoldable pub change_open : SimpleCore F → Option ℕ → (PendingCmd → PendingCmd) → SimpleCore F
  change_open s none change = s
  change_open s (some i) change = change_found s i (get_elem? s.commands i) change

  -- The command in the slot is finished, once. The slot keeps it.
  unfoldable pub finish_pending : SimpleCore F → Option Text → SimpleCore F
  unfolding change_open
  finish_pending s last_line = change_open s s.pending (λ p. finish (with_last_line last_line p))

  abbrev pub resolve_slot : SimpleCore F → Option ℕ → SimpleCore F
  resolve_slot s none = s
  resolve_slot s (some i) = mutate F (record s { pending = none }) i finish

  unfoldable pub resolve_pending : SimpleCore F → SimpleCore F
  resolve_pending s = resolve_slot s s.pending

  unfoldable pub set_device_error : SimpleCore F → DeviceError → SimpleCore F
  set_device_error s error = elim s.state.error [
    | some _ ↦ s
    | none ↦
        let changed = record (s.state) { error = some error } in
        emit F (record s { state = changed }) (Event.state_changed changed)
  ]

  abbrev pub fail_job : SimpleCore F → Text → SimpleCore F
  fail_job s message = record s { job_exception = some (SessionError.device message) }

  unfoldable pub handle_error_line : SimpleCore F → Text → SimpleCore F
  unfolding set_device_error finish_pending error_code_to_device_error
  handle_error_line s line =
      let code = trim (second_part (split b':' line)) in
      let failed = set_device_error s (error_code_to_device_error code) in
      let answered = finish_pending failed (some line) in
      if answered.job_running then fail_job answered (codes "GRBL error: " ++ line) else answered

  abbrev pub or_error : Option DeviceError → DeviceError → Option DeviceError
  or_error none error = some error
  or_error (some first) error = some first

  unfoldable pub handle_alarm : SimpleCore F → Text → Text → SimpleCore F
  unfolding finish_pending alarm_code_to_device_error
  handle_alarm s code line =
      let alarmed = record (s.state) {
        error = or_error s.state.error (alarm_code_to_device_error code);
        status = DeviceStatus.alarm;
      } in
      let told = emit F (record s { state = alarmed }) (Event.state_changed alarmed) in
      let answered = finish_pending told (some line) in
      if answered.job_running then fail_job answered (codes "GRBL ALARM: " ++ line) else answered

  -- The status that is shown for a reported one: during a job `Run` for `Idle`; `Hold` while a hold
  -- was asked for, but for an alarm.
  unfoldable pub shown_status : Bool → Bool → DeviceStatus → DeviceStatus
  unfolding status_equal
  shown_status job_running is_holding status =
      let in_job =
        if job_running && status_equal status DeviceStatus.idle then DeviceStatus.run else status in
      if is_holding
      then if status_equal in_job DeviceStatus.alarm then in_job else DeviceStatus.hold
      else in_job

  unfoldable pub collect_line : SimpleCore F → Text → SimpleCore F
  unfolding change_open
  collect_line s line = change_open s s.pending (add_line line)

  module _ (re : Regex) where
    unfoldable pub shown_state : SimpleCore F → Text → DeviceState F
    unfolding parse_state shown_status
    shown_state s report =
        let state = parse_state F re report s.state s.report_in_inches in
        record state { status = shown_status s.job_running s.is_holding state.status }

    unfoldable pub handle_status_report : SimpleCore F → Text → SimpleCore F
    unfolding shown_state emit_state_if_changed
    handle_status_report s report =
        emit_state_if_changed F (record s { handshake_received = true }) (shown_state s report)

    unfoldable pub handle_line : SimpleCore F → Text → SimpleCore F
    unfolding equal starts_with ends_with strip_prefix trim finish_pending handle_error_line
        handle_status_report handle_alarm collect_line
    handle_line s line =
        let told = emit F s (Event.raw_rx line) in
        if equal line (codes "ok")
        then finish_pending told none
        else if starts_with (codes "error:") line
        then handle_error_line told line
        else if starts_with (codes "<") line && ends_with b'>' line
        then handle_status_report s line
        else elim (strip_prefix (codes "ALARM:") line) [
          | some code ↦ handle_alarm told (trim code) line
          | none ↦
              if starts_with (codes "Grbl ") line || starts_with (codes "GrblHAL ") line
              then record told { handshake_received = true }
              else collect_line told line
        ]

    unfoldable pub handle_lines : SimpleCore F → List Text → SimpleCore F
    unfolding handle_line
    handle_lines s [] = s
    handle_lines s (line ∷ rest) = handle_lines (handle_line s line) rest

    -- First all whole lines are taken out of the buffer, then they are handled.
    unfoldable pub handle_rx : SimpleCore F → Bytes → SimpleCore F
    unfolding drain_lines handle_lines
    handle_rx s data_in =
        let buffer = s.line_buffer ++ data_in in
        let (new_lines, left) = drain_lines (length buffer) buffer in
        handle_lines (record s { line_buffer = left }) new_lines

-- ===== src/Marlin/Session/Receive.antt =====
-- src/marlin/session.rs: what the session does with received bytes. Logging is left out.
pub mod Front
pub mod Queue
use raydriver.Base.{
  ℕ, Bool, true, false, List, [], ◌∷◌, ◌++◌, Option, none, some, if◌then◌else◌, length, get_elem?,
}
use raydriver.Base.Int.{negsuc}
use raydriver.Device.{F64, DeviceStatus, DeviceError}
use raydriver.Device.Equal.{status_equal}
use raydriver.Grbl.Simple.Receive.{drain_lines}
use raydriver.Marlin.Parser.{
  is_ok, is_error, is_m114_position, parse_m114_line, parse_error_message,
}
use raydriver.Marlin.Session.{PendingCmd, add_line, finish, MarlinCore, emit, mutate}
use raydriver.Session.{SessionError, Event}
use raydriver.Text.Regex.{Regex}
use raydriver.Text.Unicode.{Unicode}
use raydriver.Text.Utf8.{Bytes, Text, codes}

module _ (F : F64) where
  -- The first line of a device is its handshake.
  unfoldable pub maybe_announce_handshake : MarlinCore F → Text → MarlinCore F
  maybe_announce_handshake s line =
      if s.handshake_received then s else record s { handshake_received = true }

  -- A change of a command, as long as it is not finished.
  abbrev pub change_found :
      MarlinCore F → ℕ → Option PendingCmd → (PendingCmd → PendingCmd) → MarlinCore F
  change_found s i none change = s
  change_found s i (some p) change = if p.finished then s else mutate F s i change

  -- A change of the command at the front of the queue.
  unfoldable pub change_front : MarlinCore F → List ℕ → (PendingCmd → PendingCmd) → MarlinCore F
  change_front s [] change = s
  change_front s (i ∷ later) change = change_found s i (get_elem? s.commands i) change

  unfoldable pub collect_for_pending : MarlinCore F → Text → MarlinCore F
  unfolding change_front
  collect_for_pending s line = change_front s s.pending_queue (add_line line)

  abbrev pub with_last_line : Option Text → PendingCmd → PendingCmd
  with_last_line none p = p
  with_last_line (some line) p = add_line line p

  -- The command stays in the queue until its waiter takes it out.
  unfoldable pub finish_pending : MarlinCore F → Option Text → MarlinCore F
  unfolding change_front
  finish_pending s last_line =
      change_front s s.pending_queue (λ p. finish (with_last_line last_line p))

  unfoldable pub finish_all : MarlinCore F → List ℕ → MarlinCore F
  finish_all s [] = s
  finish_all s (i ∷ later) = finish_all (mutate F s i finish) later

  unfoldable pub resolve_pending : MarlinCore F → MarlinCore F
  unfolding finish_all
  resolve_pending s = finish_all (record s { pending_queue = [] }) s.pending_queue

  -- The first error stays.
  unfoldable pub set_first_error : MarlinCore F → DeviceError → MarlinCore F
  set_first_error s error = elim s.state.error [
    | some _ ↦ s
    | none ↦
        let changed = record (s.state) { error = some error } in
        emit F (record s { state = changed }) (Event.state_changed changed)
  ]

  module _ (unicode : Unicode) (re : Regex) where
    abbrev pub reported_error : Text → DeviceError
    reported_error line = record {
      code = negsuc 0;
      title = codes "Device Error";
      description = parse_error_message F re line;
    }

    unfoldable pub handle_error_line : MarlinCore F → Text → MarlinCore F
    unfolding set_first_error finish_pending parse_error_message
    handle_error_line s line =
        let failed = set_first_error s (reported_error line) in
        let answered = finish_pending failed (some line) in
        if answered.job_running
        then record answered {
          job_exception = some (SessionError.device (codes "Device error: " ++ line));
        }
        else answered

    unfoldable pub handle_position_report : MarlinCore F → Text → MarlinCore F
    unfolding parse_m114_line status_equal
    handle_position_report s line = elim (parse_m114_line F re line) [
      | none ↦ s
      | some (x, y, z) ↦
          let state = record (s.state) {
            machine_pos = some x ∷ some y ∷ some z ∷ [];
            work_pos = some x ∷ some y ∷ some z ∷ [];
            status =
                if status_equal s.state.status DeviceStatus.unknown
                then DeviceStatus.idle
                else s.state.status;
          } in
          emit F (record s { state = state }) (Event.state_changed state)
    ]

    unfoldable pub handle_line : MarlinCore F → Text → MarlinCore F
    unfolding maybe_announce_handshake is_ok is_error is_m114_position finish_pending
        handle_error_line handle_position_report collect_for_pending
    handle_line s line =
        let told = emit F (maybe_announce_handshake s line) (Event.raw_rx line) in
        if is_ok unicode line
        then finish_pending told (some line)
        else if is_error line
        then handle_error_line told line
        else if is_m114_position F re line
        then collect_for_pending (handle_position_report told line) line
        else collect_for_pending told line

    unfoldable pub handle_lines : MarlinCore F → List Text → MarlinCore F
    unfolding handle_line
    handle_lines s [] = s
    handle_lines s (line ∷ rest) = handle_lines (handle_line s line) rest

    -- All lines of a read are handled before another task runs.
    unfoldable pub handle_rx : MarlinCore F → Bytes → MarlinCore F
    unfolding drain_lines handle_lines
    handle_rx s data_in =
        let buffer = s.line_buffer ++ data_in in
        let (new_lines, left) = drain_lines (length buffer) buffer in
        handle_lines (record s { line_buffer = left }) new_lines

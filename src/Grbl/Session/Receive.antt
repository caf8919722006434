-- ===== src/Grbl/Session/Receive.antt =====
-- src/grbl/session.rs: what the session does with received bytes. Logging is left out.
pub mod Quiet
pub mod Span
pub mod Progress
pub mod Outcome
pub mod FirstError
pub mod Status
pub mod Apart
pub mod Reply
pub mod Account
pub mod Requests
use Prim.Native.String.{String}
use raydriver.Base.{
  ℕ, zero, suc, ◌+◌, ◌-◌, Bool, true, false, not, ◌&&◌, ◌||◌, List, [], ◌∷◌, ◌++◌, Option, none,
  some, ◌==◌, ltb, if◌then◌else◌,
}
use raydriver.Base.Int.{ℤ, pos, negsuc, sub_ℕ, pos_part, neg_part, ltb_ℤ}
use raydriver.Device.{F64, DeviceStatus, DeviceError, DeviceState, TransportStatus}
use raydriver.Device.Equal.{state_equal}
use raydriver.Flow.{
  FlowControl, FlowInner, PendingCommand, GrblResponse, GrblResponseType, set_rx_buffer_size,
  rx_buffer_size, signal_space_available, flush_notifications,
}
use raydriver.Flow.Incoming.{Parsing, parse_incoming}
use raydriver.Grbl.Errors.{error_code_to_device_error, alarm_code_to_device_error}
use raydriver.Grbl.Parser.Report.{is_alarm, parse_state}
use raydriver.Grbl.Parser.Settings.{parse_opt_info}
use raydriver.Grbl.Session.{
  RequestShared, add_line, finish, is_positive, as_usize, SessionCore, emit, note_device_response,
  pending_request, set_request,
}
use raydriver.Session.{SessionError, Event}
use raydriver.Text.Affix.{strip_prefix, starts_with, ends_with, contains, contains_char, split}
use raydriver.Text.Regex.{Regex}
use raydriver.Text.Trim.{trim}
use raydriver.Text.Utf8.{Bytes, Text, codes}

-- `a ..= b` for `i64`, as a list: `n` numbers from `a` on.
abbrev pub successor : ℤ → ℤ
successor (pos n) = pos (suc n)
successor (negsuc zero) = pos 0
successor (negsuc (suc n)) = negsuc n

unfoldable pub count_up : ℤ → ℕ → List ℤ
count_up a zero = []
count_up a (suc n) = a ∷ count_up (successor a) n

-- How many numbers lie behind `last` up to `op_index`.
abbrev pub span : ℤ → ℤ → ℕ
span last op_index = pos_part op_index + neg_part last - (pos_part last + neg_part op_index)

-- `text.split(':').nth(1).unwrap_or("")`.
abbrev pub second_part : List Text → Text
second_part (a ∷ b ∷ rest) = b
second_part _ = []

-- `pending.as_ref().and_then(|p| p.op_index)`.
abbrev pub op_index_of : Option PendingCommand → Option ℤ
op_index_of none = none
op_index_of (some p) = p.op_index

abbrev pub is_line_type : GrblResponseType → Bool
is_line_type GrblResponseType.line = true
is_line_type _ = false

abbrev pub is_line : GrblResponse → Bool
is_line r = is_line_type r.rtype

abbrev pub select {ℓ} : {A : Type ℓ} → (A → Bool) → List A → List A
select p [] = []
select p (x ∷ xs) = if p x then x ∷ select p xs else select p xs

-- Lines first, then the acknowledgements.
abbrev pub lines_first : List GrblResponse → List GrblResponse
lines_first rs = select is_line rs ++ select (λ r. not (is_line r)) rs

module _ (F : F64) where
  unfoldable pub emit_done : SessionCore F → List ℤ → SessionCore F
  emit_done s [] = s
  emit_done s (i ∷ rest) = emit_done (emit F s (Event.command_done i)) rest

  -- Progress of a job: every operation behind the last reported one, up to the acknowledged one.
  unfoldable pub report_progress : SessionCore F → Option ℤ → SessionCore F
  unfolding emit_done count_up
  report_progress s none = s
  report_progress s (some op_index) =
      record (emit_done s
        (count_up (successor s.last_reported_op_index) (span s.last_reported_op_index op_index))) {
          last_reported_op_index = op_index;
        }

  -- An answer finishes the request that waits, once.
  unfoldable pub finish_request :
      SessionCore F → Text → TransportStatus → Option Text → SessionCore F
  unfolding pending_request set_request
  finish_request s line status message = elim (pending_request F s) [
    | none ↦ s
    | some r ↦
        if not r.finished
        then emit F (set_request F s (finish (add_line r line)))
            (Event.command_status status message)
        else s
  ]

  unfoldable pub handle_ok : SessionCore F → Option PendingCommand → SessionCore F
  unfolding note_device_response finish_request report_progress
  handle_ok s pending =
      let noted = note_device_response F s in
      let answered = finish_request noted (codes "ok") TransportStatus.idle none in
      if answered.job_running then report_progress answered (op_index_of pending) else answered

  -- The first error stays: a later one does not replace it.
  unfoldable pub set_first_error : SessionCore F → DeviceError → SessionCore F
  set_first_error s error = elim s.state.error [
    | some _ ↦ s
    | none ↦
        let changed = record (s.state) { error = some error } in
        emit F (record s { state = changed }) (Event.state_changed changed)
  ]

  abbrev pub wake_senders : SessionCore F → SessionCore F
  wake_senders s = record s { flow = signal_space_available s.flow }

  unfoldable pub handle_error : SessionCore F → Text → SessionCore F
  unfolding note_device_response set_first_error finish_request signal_space_available
      error_code_to_device_error
  handle_error s text =
      let error_code = trim (second_part (split b':' text)) in
      let failed =
        set_first_error (note_device_response F s) (error_code_to_device_error error_code) in
      let answered = finish_request failed text TransportStatus.error (some text) in
      if answered.job_running
      then wake_senders
          (record (emit F answered (Event.command_status TransportStatus.error (some text))) {
            job_exception = some (SessionError.device (codes "GRBL error: " ++ text));
          })
      else answered

  -- A line for the request that waits.
  unfoldable pub collect_line : SessionCore F → Text → SessionCore F
  unfolding pending_request set_request
  collect_line s line = elim (pending_request F s) [
    | none ↦ s
    | some r ↦ if not r.finished then set_request F s (add_line r line) else s
  ]

  unfoldable pub handle_alarm : SessionCore F → Text → Text → SessionCore F
  unfolding set_first_error signal_space_available alarm_code_to_device_error
  handle_alarm s code line =
      let failed = set_first_error s (alarm_code_to_device_error (trim code)) in
      let told = emit F failed (Event.command_status TransportStatus.error (some line)) in
      if told.job_running
      then wake_senders (record told {
        job_exception = some (SessionError.device (codes "GRBL ALARM: " ++ line));
      })
      else told

  abbrev pub resize : SessionCore F → ℕ → SessionCore F
  resize s size = record s {
    flow = record (s.flow) { inner = set_rx_buffer_size s.flow.inner size };
  }

  unfoldable pub cache_rx_buffer_size : SessionCore F → ℤ → SessionCore F
  cache_rx_buffer_size s size = emit F s (Event.config_changed (codes "rx_buffer_size") size)

  unfoldable pub handle_opt : SessionCore F → Option ℤ → SessionCore F
  unfolding cache_rx_buffer_size set_rx_buffer_size
  handle_opt s none = s
  handle_opt s (some size) =
      let cached = cache_rx_buffer_size s size in
      if not (is_positive s.config.rx_buffer_size_override)
      then resize cached (as_usize size)
      else cached

  abbrev pub is_idle : DeviceStatus → Bool
  is_idle DeviceStatus.idle = true
  is_idle _ = false

  -- The buffer size that an idle device shows as free, if it is another.
  unfoldable pub adopt_size : SessionCore F → Option ℤ → SessionCore F
  unfolding cache_rx_buffer_size set_rx_buffer_size rx_buffer_size
  adopt_size s none = s
  adopt_size s (some total) =
      let size = as_usize total in
      if ltb 0 size && not (size == rx_buffer_size s.flow.inner)
      then cache_rx_buffer_size (resize s size) total
      else s

  -- The status that is shown: `Run` for `Idle` while a job runs, and `Hold` while a hold was asked
  -- for, except in an alarm.
  unfoldable pub shown_status : Bool → Bool → DeviceStatus → DeviceStatus
  shown_status job_running is_holding status =
      let running = if job_running && is_idle status then DeviceStatus.run else status in
      if is_holding && not (is_alarm running) then DeviceStatus.hold else running

  unfoldable pub show_state : SessionCore F → DeviceState F → SessionCore F
  unfolding state_equal
  show_state s shown =
      if state_equal F shown s.state
      then s
      else emit F (record s { state = shown }) (Event.state_changed shown)

  module _ (re : Regex) where
    unfoldable pub handle_status_report : SessionCore F → Text → SessionCore F
    unfolding note_device_response adopt_size shown_status show_state parse_state
    handle_status_report s report =
        let noted = note_device_response F s in
        let parsed = parse_state F re report noted.state noted.report_in_inches in
        let seen = record noted { raw_grbl_status = parsed.status } in
        let sized =
          if is_idle parsed.status && not (is_positive seen.config.rx_buffer_size_override)
          then adopt_size seen parsed.buffer_rx_available
          else seen in
        show_state sized
          (record parsed { status = shown_status sized.job_running sized.is_holding parsed.status })

    -- `<` without `>`, or a position and a bar without `<`.
    unfoldable pub is_fragment : Text → Bool
    unfolding starts_with ends_with contains contains_char
    is_fragment line =
        (starts_with (codes "<") line && not (ends_with b'>' line))
        || (contains (codes "Pos:") line
            && contains_char b'|' line
            && not (starts_with (codes "<") line))

    -- Everything that is neither a fragment nor a status report.
    unfoldable pub handle_other_line : SessionCore F → Text → SessionCore F
    unfolding handle_alarm handle_opt strip_prefix starts_with parse_opt_info
    handle_other_line s line = elim (strip_prefix (codes "ALARM:") line) [
      | some code ↦ handle_alarm s code line
      | none ↦
          if starts_with (codes "[VER:") line
          then s
          else if starts_with (codes "[OPT:") line
          then handle_opt s (parse_opt_info F re line)
          else if starts_with (codes "Grbl ") line || starts_with (codes "GrblHAL ") line
          then record s { handshake_received = true }
          else s
    ]

    unfoldable pub handle_line : SessionCore F → Text → SessionCore F
    unfolding is_fragment handle_status_report collect_line handle_other_line starts_with ends_with
        trim
    handle_line s line =
        if is_fragment line
        then s
        else if starts_with (codes "<") line && ends_with b'>' line
        then handle_status_report (record s { handshake_received = true }) (trim line)
        else handle_other_line (collect_line s line) line

    abbrev pub handle_as : GrblResponseType → SessionCore F → GrblResponse → SessionCore F
    handle_as GrblResponseType.ok s r = handle_ok (emit F s (Event.raw_rx (codes "ok"))) r.pending
    handle_as GrblResponseType.error s r = handle_error (emit F s (Event.raw_rx r.text)) r.text
    handle_as GrblResponseType.line s r = handle_line (emit F s (Event.raw_rx r.text)) r.text

    unfoldable pub handle_responses : SessionCore F → List GrblResponse → SessionCore F
    unfolding handle_ok handle_error handle_line
    handle_responses s [] = s
    handle_responses s (r ∷ rest) = handle_responses (handle_as r.rtype s r) rest

    unfoldable pub handle_rx : (Bytes → Option (ℕ × ℕ)) → SessionCore F → Bytes → SessionCore F
    unfolding handle_responses flush_notifications parse_incoming
    handle_rx find_ok s input =
        let parsed = parse_incoming find_ok s.flow.inner input in
        let handled =
          handle_responses (record s { flow = record (s.flow) { inner = parsed.inner } })
            (lines_first parsed.responses) in
        record handled { flow = flush_notifications handled.flow }

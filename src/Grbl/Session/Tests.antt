-- ===== src/Grbl/Session/Tests.antt =====
-- src/grbl/session.rs: runs of the handlers, with the theorems at them.
mod Jobs
use raydriver.Base.{
  All, drop, ℕ, is_some, ◌≡◌, ◌≢◌, ◌⊎◌, refl, true, false, List, [], ◌∷◌, ◌++◌, Option, none, some,
  arith,
}
use raydriver.Base.Int.{ℤ, pos, negsuc}
use raydriver.Device.{DeviceStatus, DeviceError, default_state}
use raydriver.Device.Equal.{status_equal}
use raydriver.Device.Sample.{whole_numbers, comma_engine}
use raydriver.Flow.{track_command, needs_space, fresh, GrblResponse, GrblResponseType}
use raydriver.Flow.Incoming.{parse_incoming}
use raydriver.Flow.Tests.OkFind.{ok_find}
use raydriver.Grbl.Errors.{error_code_to_device_error, alarm_code_to_device_error}
use raydriver.Grbl.Parser.Report.{parse_state}
use raydriver.Grbl.Session.{RequestShared, SessionCore, pending_request}
use raydriver.Grbl.Session.Receive.{
  handle_error, handle_alarm, handle_responses, handle_status_report, handle_rx, count_up,
  shown_status, second_part,
}
use raydriver.Grbl.Session.Receive.FirstError.{handle_responses-first_error}
use raydriver.Grbl.Session.Receive.Outcome.{
  first, IsHalted, handle_error-outcome, handle_alarm-outcome,
}
use raydriver.Grbl.Session.Receive.Progress.{handle_responses-progress}
use raydriver.Grbl.Session.Receive.Quiet.{done_ops}
use raydriver.Grbl.Session.Receive.Reply.{reply, lines_of, acks_of}
use raydriver.Grbl.Session.Receive.Requests.{handle_rx-request, handle_rx-finished}
use raydriver.Grbl.Session.Receive.Status.{
  handle_status_report-status, handle_status_report-running, handle_status_report-holding,
}
use raydriver.Grbl.Session.Job.{Transport, Outcome, start_job, set_hold}
use raydriver.Grbl.Session.Job.Held.{IsHeld, read_all, set_hold-IsHeld}
use raydriver.Grbl.Session.Job.Start.{start_job-progress, start_job-clean}
use raydriver.Flow.Account.{IsAccounted}
use raydriver.Grbl.Session.Stall.{Meanwhile, on_buffer_stall}
use raydriver.Grbl.Session.Stall.Verdict.{on_buffer_stall-gives_up}
use raydriver.Grbl.Session.Stream.{
  line_payload, Payload, Stream, take_line, write_line, begin, Reach, start, next, takes, sends,
}
use raydriver.Grbl.Session.Stream.Order.{taken, commands, Reach-in_order}
use raydriver.Grbl.Session.Receive.Account.{handle_rx-IsAccounted}
use raydriver.Flow.Account.Incoming.{ack_count}
use raydriver.Dialect.{default_dialect}
use raydriver.Grbl.Session.Cancel.{During, cancel}
use raydriver.Grbl.Session.Cancel.Stops.{IsStopped, IsCalm, cancel-IsStopped}
use raydriver.Text.Affix.{split}
use raydriver.Text.Trim.{trim}
use raydriver.Text.Utf8.{Bytes, Text, codes}

abbrev pub asked : RequestShared
asked = record { command = codes "$G"; response_lines = []; finished = false }

abbrev answered : RequestShared
answered = record { command = codes "$G"; response_lines = codes "ok" ∷ []; finished = true }

abbrev pub at_work : Option RequestShared → SessionCore whole_numbers
at_work request = record {
  config = record {
    rx_buffer_size_override = pos 0;
    cached_rx_buffer_size = none;
    deadlock_detection = true;
    unanswered_poll_limit = 3;
  };
  events = [];
  flow = fresh;
  state = record (default_state whole_numbers) { status = DeviceStatus.run };
  job_running = true;
  is_cancelled = false;
  is_holding = true;
  raw_grbl_status = DeviceStatus.run;
  device_response_count = 0;
  consecutive_unanswered_polls = 0;
  job_exception = none;
  current_request = request;
  interactive_request = none;
  queued_requests = [];
  handshake_received = true;
  report_in_inches = false;
  last_reported_op_index = negsuc 0;
}

abbrev ok_for : ℤ → GrblResponse
ok_for i = record {
  rtype = GrblResponseType.ok;
  text = codes "ok";
  pending = some (record { length = 3; op_index = some i; command = codes "G0" });
}

abbrev failure : GrblResponse
failure = record { rtype = GrblResponseType.error; text = codes "error:9"; pending = none }

abbrev pub batch : List GrblResponse
batch = ok_for (pos 0) ∷ failure ∷ ok_for (pos 3) ∷ []

abbrev locked : DeviceError
locked = record { code = pos 9; title = codes "locked"; description = [] }

abbrev pub broken : SessionCore whole_numbers
broken = let s = at_work none in record s { state = record (s.state) { error = some locked } }

batch-done_ops :
    done_ops (handle_responses whole_numbers comma_engine (at_work none) batch).events
    ≡ pos 0 ∷ pos 1 ∷ pos 2 ∷ pos 3 ∷ []
unfolding handle_responses default_state
batch-done_ops = refl

handle_responses-progress_example :
    let t = handle_responses whole_numbers comma_engine (at_work none) batch in
    (t.last_reported_op_index ≡ pos 3) × (done_ops t.events ≡ [] ++ count_up (pos 0) 4)
handle_responses-progress_example =
    handle_responses-progress whole_numbers comma_engine batch (at_work none) refl
      (omega arith, (omega arith, tt))

handle_responses-first_error_example :
    (handle_responses whole_numbers comma_engine broken batch).state.error ≡ some locked
handle_responses-first_error_example =
    handle_responses-first_error whole_numbers comma_engine batch broken locked
      (refl, (refl, (refl, tt))) refl

handle_error-outcome_example :
    let s = at_work (some asked) in
    let t = handle_error whole_numbers s (codes "error:9") in
    let error = error_code_to_device_error (trim (second_part (split b':' (codes "error:9")))) in
    (t.state.error ≡ some (first whole_numbers s.state.error error))
    × IsHalted whole_numbers s t (codes "GRBL error: " ++ codes "error:9")
handle_error-outcome_example =
    handle_error-outcome whole_numbers (at_work (some asked)) (codes "error:9")

-- An acknowledgement in front of the line that it ends.
abbrev pub reordered : Bytes
reordered = codes "ok" ++ b'\n' ∷ codes "[GC:G0]" ++ b'\n' ∷ []

handle_rx-request_example :
    let s = at_work (some asked) in
    let responses = (parse_incoming ok_find s.flow.inner reordered).responses in
    pending_request whole_numbers (handle_rx whole_numbers comma_engine ok_find s reordered)
    ≡ some (
        reply whole_numbers comma_engine asked
          (lines_of whole_numbers comma_engine responses)
          (acks_of whole_numbers comma_engine responses))
unfolding pending_request
handle_rx-request_example =
    handle_rx-request whole_numbers comma_engine ok_find (at_work (some asked)) reordered asked refl
      refl

handle_rx-finished_example :
    pending_request whole_numbers
      (handle_rx whole_numbers comma_engine ok_find (at_work (some answered)) reordered)
    ≡ some answered
unfolding pending_request
handle_rx-finished_example =
    handle_rx-finished whole_numbers comma_engine ok_find (at_work (some answered)) reordered
      answered refl refl

abbrev pub loaded : SessionCore whole_numbers
loaded =
    let s = at_work (some asked) in
    record s {
      flow = record fresh { inner = track_command fresh.inner 5 (some (pos 0)) (codes "G0X1") };
    }

handle_rx-IsAccounted_example :
    let responses = (parse_incoming ok_find loaded.flow.inner reordered).responses in
    let t = handle_rx whole_numbers comma_engine ok_find loaded reordered in
    (t.flow.inner.pending ≡ drop (ack_count responses) loaded.flow.inner.pending)
    × IsAccounted t.flow.inner
unfolding track_command
handle_rx-IsAccounted_example =
    handle_rx-IsAccounted whole_numbers comma_engine ok_find loaded reordered refl

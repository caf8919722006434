-- ===== src/Grbl/Session/Tests/Jobs.antt =====
-- src/grbl/session.rs: jobs, holds, stalls, streams and cancellations, with the theorems at them.
use raydriver.Base.{
  ◌+◌, All, ℕ, is_some, ◌≡◌, ◌⊎◌, refl, true, false, ◌||◌, List, [], ◌∷◌, ◌++◌, Option, none, some,
  arith,
}
use raydriver.Base.Int.{ℤ, pos}
use raydriver.Device.{DeviceStatus, default_state}
use raydriver.Device.Equal.{status_equal}
use raydriver.Device.Sample.{whole_numbers, comma_engine}
use raydriver.Flow.{needs_space, track_command}
use raydriver.Flow.Tests.OkFind.{ok_find}
use raydriver.Grbl.Session.{SessionCore}
use raydriver.Grbl.Session.Receive.{handle_responses, handle_rx, count_up}
use raydriver.Grbl.Session.Receive.Quiet.{done_ops}
use raydriver.Grbl.Session.Job.{Transport, Outcome, start_job, set_hold}
use raydriver.Grbl.Session.Job.Held.{IsHeld, read_all, set_hold-IsHeld}
use raydriver.Grbl.Session.Job.Start.{start_job-progress}
use raydriver.Grbl.Session.Stall.{Meanwhile, on_buffer_stall}
use raydriver.Grbl.Session.Stall.Verdict.{on_buffer_stall-gives_up}
use raydriver.Grbl.Session.Stream.{
  line_payload, Payload, Stream, take_line, write_line, begin, Reach, start, next, takes, sends,
}
use raydriver.Grbl.Session.Stream.Order.{taken, commands, Reach-in_order}
use raydriver.Dialect.{default_dialect}
use raydriver.Grbl.Session.Cancel.{During, cancel}
use raydriver.Grbl.Session.Cancel.Stops.{IsStopped, IsCalm, cancel-IsStopped}
use raydriver.Grbl.Session.Finish.{finish_stream, finished_count, finish_stream-closed}
use raydriver.Grbl.Session.Drain.{DrainRound, drain_pending_acks, outcome_of, end_lines, end_stream}
use raydriver.Grbl.Session.Drain.Ends.{end_lines-done}
use raydriver.Grbl.Session.Drain.Closed.{KeepsCount, IsDown, drain_pending_acks-ends}
use raydriver.Grbl.Session.Stall.{is_alarmed}
use raydriver.Flow.Wait.{has_pending}
use raydriver.Flow.Incoming.{parse_incoming}
use raydriver.Grbl.Session.Interactive.{Turns, execute_interactive_command}
use raydriver.Grbl.Session.Interactive.Answer
use raydriver.Grbl.Session.Interactive.Answer.{
  LeavesSlot, answer_to, execute_interactive_command-result,
}
use raydriver.Grbl.Session.Receive.Reply.{lines_of, acks_of}
use raydriver.Session.{SessionError}
use raydriver.Text.Utf8.{Text, codes}
use raydriver.Grbl.Session.Tests.{asked, at_work, batch, broken, reordered, loaded}

start_job-progress_example :
    let t = handle_responses whole_numbers comma_engine (start_job whole_numbers broken) batch in
    (t.last_reported_op_index ≡ pos 3)
    × (done_ops t.events ≡ done_ops broken.events ++ count_up (pos 0) 4)
start_job-progress_example =
    start_job-progress whole_numbers comma_engine batch broken (omega arith, (omega arith, tt))

abbrev wire : Transport
wire = record { is_open = true; write = λ b. none }

set_hold-IsHeld_example :
    let (held, outcome) = set_hold whole_numbers wire (λ t. t) (at_work none) false true in
    (outcome ≡ Outcome.done)
    × IsHeld whole_numbers
        (read_all whole_numbers comma_engine ok_find held (reordered ∷ reordered ∷ []))
set_hold-IsHeld_example =
    set_hold-IsHeld whole_numbers comma_engine ok_find wire (λ t. t) (at_work none) false
      (reordered ∷ reordered ∷ []) refl (λ b. refl) (λ t h. h)

abbrev idle_others : Meanwhile whole_numbers
idle_others = record { write = λ s. s; sleeps = (λ s. s) ∷ []; wait = λ s. s; drain = λ s. s }

-- No report comes in for the last poll of three.
abbrev unheard : SessionCore whole_numbers
unheard = let s = at_work none in record s { consecutive_unanswered_polls = 2 }

on_buffer_stall-gives_up_example :
    let (t, retry) = on_buffer_stall whole_numbers wire idle_others unheard 10 in
    (unheard.is_cancelled ≡ true) ⊎ (is_some t.job_exception ≡ true)
unfolding on_buffer_stall default_state
on_buffer_stall-gives_up_example =
    on_buffer_stall-gives_up whole_numbers wire idle_others unheard 10 refl (omega arith)
      (omega arith) refl

-- A line without code between two moves.
abbrev job_lines : List Text
job_lines = codes "G0X1" ∷ codes "; next" ∷ codes "G0X2" ∷ []

abbrev ops : ℕ → Option ℤ
ops i = some (pos i)

abbrev begun : Stream whole_numbers
begun = begin whole_numbers comma_engine ops (at_work none) job_lines

abbrev first_taken : Stream whole_numbers
first_taken = take_line whole_numbers comma_engine ops begun

abbrev first_move : Payload
first_move = (codes "G0X1" ++ b'\n' ∷ [], some (pos 0))

first_sent :
    Reach whole_numbers comma_engine ops begun
      (write_line whole_numbers comma_engine ops first_taken first_move)
unfolding take_line default_state needs_space status_equal
first_sent = next (next start (takes begun refl)) (sends first_taken first_move refl refl)

commands_run :
    commands whole_numbers comma_engine ops 0 job_lines
    ≡ first_move ∷ (codes "G0X2" ++ b'\n' ∷ [], some (pos 2)) ∷ []
unfolding line_payload
commands_run = refl

Reach-in_order_example :
    let σ = write_line whole_numbers comma_engine ops first_taken first_move in
    σ.written ++ (taken σ.phase ++ commands whole_numbers comma_engine ops σ.line_idx σ.rest)
    ≡ commands whole_numbers comma_engine ops 0 job_lines
Reach-in_order_example =
    Reach-in_order whole_numbers comma_engine ops (at_work none) job_lines
      (write_line whole_numbers comma_engine ops first_taken first_move) first_sent

abbrev quiet_others : During whole_numbers
quiet_others = record {
  soft_reset = λ s. s;
  abort = λ s. s;
  delay = λ s. s;
  wait = λ s. s;
  write = λ s. s;
}

quiet_others-IsCalm : IsCalm whole_numbers quiet_others
quiet_others-IsCalm = record {
  soft_reset = λ s h. h;
  abort = λ s h. h;
  delay = λ s h. h;
  wait = λ s h. h;
  write = λ s h. h;
}

abbrev queueing : SessionCore whole_numbers
queueing = let s = at_work none in record s { queued_requests = asked ∷ [] }

cancel-IsStopped_example :
    let (t, released, outcome) =
      cancel whole_numbers wire quiet_others default_dialect queueing true in
    IsStopped whole_numbers t × All (λ r. r.finished ≡ true) released
cancel-IsStopped_example =
    cancel-IsStopped whole_numbers wire quiet_others default_dialect quiet_others-IsCalm queueing
      true

abbrev unplugged : Transport
unplugged = record { is_open = false; write = λ b. none }

abbrev lost : Outcome
lost = Outcome.failed (SessionError.connection (codes "Serial transport disconnected during job."))

finish_stream-closed_example :
    finished_count
      (finish_stream whole_numbers unplugged quiet_others default_dialect
        (at_work none)
        lost).events
    ≡ 0 + 0
finish_stream-closed_example =
    finish_stream-closed whole_numbers unplugged quiet_others default_dialect (at_work none) lost
      refl

-- A command is not acknowledged yet, and a status report has put the device in alarm.
abbrev alarmed : SessionCore whole_numbers
alarmed = record loaded { state = record (loaded.state) { status = DeviceStatus.alarm } }

end_lines-done_example :
    (has_pending alarmed.flow.inner ≡ false)
    ⊎ ((is_alarmed whole_numbers alarmed || alarmed.is_cancelled) ≡ true)
unfolding end_lines drain_pending_acks outcome_of track_command
end_lines-done_example = end_lines-done whole_numbers [] alarmed alarmed refl

-- The end of this job, as its clients see it.
abbrev told_end : Option (SessionCore whole_numbers) → ℕ × Option SessionError
told_end none = (0, none)
told_end (some t) = (finished_count t.events, t.job_exception)

alarmed_run :
    told_end (end_stream whole_numbers wire quiet_others default_dialect alarmed []) ≡ (1, none)
unfolding end_stream end_lines drain_pending_acks outcome_of track_command finish_stream
alarmed_run = refl

abbrev down : DrainRound whole_numbers
down = record {
  wait = λ s. s;
  poll_lock = λ s. s;
  poll_transport = unplugged;
  poll = idle_others;
  recovery_lock = λ s. s;
  recovery_transport = unplugged;
  recovery = idle_others;
}

same-KeepsCount : KeepsCount whole_numbers (λ s. s)
same-KeepsCount = record { count = λ s. refl; config = λ s. refl }

down-IsDown : IsDown whole_numbers down
down-IsDown = record { closed = refl; wait = same-KeepsCount; poll_lock = same-KeepsCount }

drain_pending_acks-ends_example :
    is_some (drain_pending_acks whole_numbers loaded (down ∷ down ∷ down ∷ [])) ≡ true
drain_pending_acks-ends_example =
    drain_pending_acks-ends whole_numbers (down ∷ down ∷ down ∷ []) loaded
      (down-IsDown, (down-IsDown, (down-IsDown, tt))) (omega arith) (omega arith) (omega arith)

-- The answer to `$G` comes in behind the acknowledgement that ends it.
abbrev answering : Turns whole_numbers
answering = record {
  lock = λ s. s;
  drain = λ s. s;
  space = λ s. s;
  write = λ s. s;
  answer = λ s. handle_rx whole_numbers comma_engine ok_find s reordered;
}

answering-LeavesSlot : LeavesSlot answering
answering-LeavesSlot = record { space = λ s. refl; write = λ s. refl }

execute_interactive_command-result_example :
    let sent = Answer.asked wire answering (at_work none) (codes "$G") in
    let responses = (parse_incoming ok_find sent.flow.inner reordered).responses in
    let (t, result) =
      execute_interactive_command whole_numbers wire answering (at_work none) (codes "$G") in
    (result
      ≡ answer_to
          (lines_of whole_numbers comma_engine responses)
          (acks_of whole_numbers comma_engine responses))
    × (t.interactive_request ≡ none)
execute_interactive_command-result_example =
    execute_interactive_command-result wire answering comma_engine ok_find (at_work none)
      (codes "$G") reordered answering-LeavesSlot refl refl (λ t. refl)

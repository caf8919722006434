-- ===== src/Grbl/Session/Drain.antt =====
-- src/grbl/session.rs: the wait for the last acknowledgements of a job, and the outcome of the
-- streaming task. What a task meets in each round of its loop is a schedule.
pub mod Ends
pub mod Closed
use raydriver.Base.{
  ℕ, Bool, true, false, not, ◌&&◌, ◌||◌, List, [], ◌∷◌, Option, none, some, if◌then◌else◌, is_some,
}
use raydriver.Device.{F64}
use raydriver.Dialect.{Dialect}
use raydriver.Flow.Wait.{has_pending}
use raydriver.Grbl.Session.{SessionCore}
use raydriver.Grbl.Session.Cancel.{During}
use raydriver.Grbl.Session.Finish.{finish_stream}
use raydriver.Grbl.Session.Job.{Transport, Outcome}
use raydriver.Grbl.Session.Stall.{
  Meanwhile, is_alarmed, device_stopped_responding, mark_device_unresponsive, poll_and_check_idle,
  recover_from_deadlock,
}
use raydriver.Session.{SessionError}

module _ (F : F64) where
  -- A round: what the others do during the timed wait, until the command lock is taken for the poll
  -- and for the recovery, and at the waits within these; and the transport at both.
  pub record DrainRound : Type 0 where
    pub wait : SessionCore F → SessionCore F
    pub poll_lock : SessionCore F → SessionCore F
    pub poll_transport : Transport
    pub poll : Meanwhile F
    pub recovery_lock : SessionCore F → SessionCore F
    pub recovery_transport : Transport
    pub recovery : Meanwhile F

  -- A reason for which the wait is given up.
  unfoldable pub is_broken_off : SessionCore F → Bool
  is_broken_off s = is_some s.job_exception || is_alarmed F s || s.is_cancelled

  abbrev pub is_waiting : SessionCore F → Bool
  is_waiting s = has_pending s.flow.inner && not (is_broken_off s)

  -- `none` where the schedule leaves the task in its loop. The timed wait succeeds exactly where the
  -- queue is empty at its end.
  unfoldable pub drain_pending_acks : SessionCore F → List DrainRound → Option (SessionCore F)
  unfolding is_broken_off poll_and_check_idle device_stopped_responding mark_device_unresponsive
      recover_from_deadlock
  drain_pending_acks s [] = if is_waiting s then none else some s
  drain_pending_acks s (r ∷ rest) =
      let waited = r.wait s in
      let (polled, idle_or_desynced) =
        poll_and_check_idle F r.poll_transport r.poll r.poll_lock waited in
      let recovered =
        recover_from_deadlock F r.recovery_transport r.recovery r.recovery_lock polled in
      let after_recovery = drain_pending_acks recovered rest in
      let after_poll = drain_pending_acks polled rest in
      if not (is_waiting s)
      then some s
      else if not (has_pending waited.flow.inner)
      then some waited
      else if device_stopped_responding F polled
      then some (mark_device_unresponsive F polled)
      else if not idle_or_desynced
      then after_poll
      else if not (has_pending polled.flow.inner)
      then some polled
      else after_recovery

  -- The exception is taken out.
  abbrev pub outcome_for : SessionCore F → Option SessionError → SessionCore F × Outcome
  outcome_for s none = (s, Outcome.done)
  outcome_for s (some error) = (record s { job_exception = none }, Outcome.failed error)

  unfoldable pub outcome_of : SessionCore F → SessionCore F × Outcome
  outcome_of s = outcome_for s s.job_exception

  -- The end of `stream_gcode_inner`, behind the loop over the lines.
  unfoldable pub end_lines : SessionCore F → List DrainRound → Option (SessionCore F × Outcome)
  unfolding drain_pending_acks outcome_of
  end_lines s rounds =
      let drained = drain_pending_acks s rounds in
      if not s.is_cancelled && not (is_some s.job_exception)
      then elim drained [ none ↦ none | some t ↦ some (outcome_of t) ]
      else some (outcome_of s)

  module _ (transport : Transport) (env : During F) (dialect : Dialect) where
    -- The end of `stream_gcode` with the wait before it.
    unfoldable pub end_stream : SessionCore F → List DrainRound → Option (SessionCore F)
    unfolding end_lines finish_stream
    end_stream s rounds = elim (end_lines s rounds) [
      | none ↦ none
      | some (t, outcome) ↦ some (finish_stream F transport env dialect t outcome)
    ]

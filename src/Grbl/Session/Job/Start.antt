-- ===== src/Grbl/Session/Job/Start.antt =====
-- src/grbl/session.rs: a job starts from a clean slate.
use raydriver.Base.{
  ◌≡◌, refl, ap, ◌∙◌, ◌⊎◌, inl, inr, true, false, not, ◌&&◌, List, ◌++◌, none, Bool-cases, is_some,
}
use raydriver.Base.Int.{pos, negsuc}
use raydriver.Device.{F64, DeviceStatus}
use raydriver.Device.Equal.{status_equal}
use raydriver.Flow.{GrblResponse, reset_flow_control}
use raydriver.Flow.Account.{IsAccounted}
use raydriver.Grbl.Session.{SessionCore}
use raydriver.Grbl.Session.Job.{start_state, start_job}
use raydriver.Grbl.Session.Receive.{count_up, span, handle_responses, successor}
use raydriver.Grbl.Session.Receive.Progress.{
  Ascending, acked_ops, latest, handle_responses-progress,
}
use raydriver.Grbl.Session.Receive.Quiet.{
  done_ops, Quiet, and_then, emit-Quiet, same-Quiet, branch-Quiet,
}
use raydriver.Grbl.Session.Receive.Status.{status_equal_sound}
use raydriver.Session.{Event}
use raydriver.Text.Regex.{Regex}

module _ (F : F64) where
  start_state-Quiet : (s : SessionCore F) → Quiet F s (start_state F s)
  unfolding start_state
  start_state-Quiet s =
      let cleared = record (s.state) { error = none } in
      let running = record cleared { status = DeviceStatus.run } in
      branch-Quiet F
        (not (status_equal s.state.status DeviceStatus.run)
          && not (status_equal s.state.status DeviceStatus.alarm))
        (and_then F
          (same-Quiet F {s = s} {t = record s { state = running }} refl refl refl refl refl refl)
          (emit-Quiet F (record s { state = running }) (Event.state_changed running) refl))
        (branch-Quiet F (is_some s.state.error)
          (and_then F
            (same-Quiet F {s = s} {t = record s { state = cleared }} refl refl refl refl refl refl)
            (emit-Quiet F (record s { state = cleared }) (Event.state_changed cleared) refl))
          (same-Quiet F refl refl refl refl refl refl))

  start_job-Quiet :
      (s : SessionCore F)
      → let t = start_job F s in
        (t.job_running ≡ true)
        × (t.last_reported_op_index ≡ negsuc 0)
        × (done_ops t.events ≡ done_ops s.events)
  unfolding start_job
  start_job-Quiet s =
      let quiet = start_state-Quiet (record s {
        is_cancelled = false;
        job_running = true;
        is_holding = false;
        last_reported_op_index = negsuc 0;
        job_exception = none;
        consecutive_unanswered_polls = 0;
        flow = reset_flow_control s.flow;
      }) in
      (quiet.running, quiet.last, quiet.done)

  module _ (re : Regex) where
    -- A job whose operations the device acknowledges in order reports the operations from 0 to the
    -- last acknowledged one, each once, in order and without a gap, whatever job was before it.
    pub start_job-progress :
        (rs : List GrblResponse) (s : SessionCore F)
        → Ascending (negsuc 0) (acked_ops rs)
        → let t = handle_responses F re (start_job F s) rs in
          let upto = latest (negsuc 0) (acked_ops rs) in
          (t.last_reported_op_index ≡ upto)
          × (done_ops t.events ≡ done_ops s.events ++ count_up (pos 0) (span (negsuc 0) upto))
    start_job-progress rs s up =
        let (running, last, done) = start_job-Quiet s in
        let reported = handle_responses-progress F re rs (start_job F s) running (rw last up) in
        let acked = acked_ops rs in
        (
          reported.0 ∙ ap (λ a. latest a acked) last,
          reported.1
              ∙ ap
                  (λ a.
                    done_ops (start_job F s).events
                    ++ count_up (successor a) (span a (latest a acked)))
                  last
              ∙ ap (λ es. es ++ count_up (pos 0) (span (negsuc 0) (latest (negsuc 0) acked))) done,
        )

  -- Whatever the state before it, a job starts without an error, an exception, a hold or a
  -- cancellation, with an empty account, and shows `Run`, or `Alarm` where the device was in one.
  pub start_job-clean :
      (s : SessionCore F)
      → let t = start_job F s in
        (t.state.error ≡ none)
        × ((t.state.status ≡ DeviceStatus.run)
            ⊎ ((t.state.status ≡ DeviceStatus.alarm) × (s.state.status ≡ DeviceStatus.alarm)))
        × (t.job_exception ≡ none)
        × (t.is_holding ≡ false)
        × (t.is_cancelled ≡ false)
        × IsAccounted t.flow.inner
  unfolding start_job start_state reset_flow_control
  start_job-clean s =
      let run = status_equal s.state.status DeviceStatus.run in
      let alarm = status_equal s.state.status DeviceStatus.alarm in
      elim (Bool-cases run) [
        | inl e ↦
            let is_run = status_equal_sound s.state.status DeviceStatus.run e in
            rw (e, start_state)
              (elim (Bool-cases (is_some s.state.error)) [
                | inl e' ↦ rw e' (refl, inl is_run, refl, refl, refl, refl)
                | inr e' ↦ rw e' (refl, inl is_run, refl, refl, refl, refl)
              ])
        | inr e ↦
            rw (e, start_state)
              (elim (Bool-cases alarm) [
                | inr a ↦ rw a (refl, inl refl, refl, refl, refl, refl)
                | inl a ↦
                    let is_alarm = status_equal_sound s.state.status DeviceStatus.alarm a in
                    rw a (elim (Bool-cases (is_some s.state.error)) [
                      | inl e' ↦ rw e' (refl, inr (is_alarm, is_alarm), refl, refl, refl, refl)
                      | inr e' ↦ rw e' (refl, inr (is_alarm, is_alarm), refl, refl, refl, refl)
                    ])
              ])
      ]

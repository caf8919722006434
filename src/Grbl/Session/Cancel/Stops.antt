-- ===== src/Grbl/Session/Cancel/Stops.antt =====
-- src/grbl/session.rs: a cancelled job stays cancelled.
use raydriver.Base.{
  ◌≡◌, refl, inl, inr, Bool, true, false, not, List, [], ◌∷◌, ◌++◌, none, map, if◌then◌else◌,
  is_empty, All, Bool-cases, Option-cases, length,
}
use raydriver.Device.{F64}
use raydriver.Dialect.{Dialect}
use raydriver.Flow.{needs_space, signal_space_available, reset}
use raydriver.Grbl.Session.{RequestShared, finish, SessionCore}
use raydriver.Grbl.Session.Cancel.{
  During, shutdown_commands, send_commands, send_safety_shutdown, cancel,
}
use raydriver.Grbl.Session.Job.{Transport, Outcome, note_sent}
use raydriver.Grbl.Session.Stall.{send_gcode_simple}
use raydriver.Text.Utf8.{Bytes, Text, as_bytes}

module _ (F : F64) where
  pub record IsStopped (s : SessionCore F) : Type 0 where
    pub cancelled : s.is_cancelled ≡ true
    pub idle : s.job_running ≡ false

  -- Nothing starts a job or takes the cancellation back.
  abbrev pub Keeps : (SessionCore F → SessionCore F) → Type 0
  Keeps f = (s : SessionCore F) → IsStopped s → IsStopped (f s)

  pub record IsCalm (env : During F) : Type 0 where
    pub soft_reset : Keeps env.soft_reset
    pub abort : Keeps env.abort
    pub delay : Keeps env.delay
    pub wait : Keeps env.wait
    pub write : Keeps env.write

  branch-IsStopped :
      {x y : SessionCore F} (b : Bool) → IsStopped x → IsStopped y → IsStopped (if b then x else y)
  branch-IsStopped true p q = p
  branch-IsStopped false p q = q

  record IsEnded (r : SessionCore F × List RequestShared × Outcome) : Type 0 where
    stopped : IsStopped r.0
    released : All (λ q. q.finished ≡ true) r.1

  ended :
      {r : SessionCore F × List RequestShared × Outcome}
      → IsEnded r
      → IsStopped r.0 × All (λ q. q.finished ≡ true) r.1
  ended e = (e.stopped, e.released)

  branch-IsEnded :
      {x y : SessionCore F × List RequestShared × Outcome} (b : Bool)
      → IsEnded x
      → IsEnded y
      → IsEnded (if b then x else y)
  branch-IsEnded true p q = p
  branch-IsEnded false p q = q

  map-finish-finished : (rs : List RequestShared) → All (λ r. r.finished ≡ true) (map finish rs)
  map-finish-finished [] = tt
  map-finish-finished (r ∷ rs) = (refl, map-finish-finished rs)

  module _ (transport : Transport) (env : During F) (dialect : Dialect) (calm : IsCalm env) where
    send_gcode_simple-IsStopped :
        (s : SessionCore F) (payload : Bytes)
        → IsStopped s
        → IsStopped (send_gcode_simple F transport env.wait env.write s payload).0
    unfolding send_gcode_simple note_sent
    send_gcode_simple-IsStopped s payload stopped =
        let waited = calm.wait s stopped in
        elim (Bool-cases (needs_space (env.wait s).flow.inner (length payload))) [
          | inl e ↦ rw (e, send_gcode_simple) waited
          | inr e ↦
              rw (e, send_gcode_simple)
                (calm.write (note_sent F (env.wait s) payload none)
                  (record { cancelled = waited.cancelled; idle = waited.idle }))
        ]

    send_commands-IsStopped :
        (commands : List Text) (s : SessionCore F)
        → IsStopped s
        → IsStopped (send_commands F transport env dialect s commands)
    unfolding send_commands
    send_commands-IsStopped [] s stopped = stopped
    send_commands-IsStopped (command ∷ rest) s stopped =
        let payload = as_bytes (command ++ b'\n' ∷ []) in
        send_commands-IsStopped rest (send_gcode_simple F transport env.wait env.write s payload).0
          (send_gcode_simple-IsStopped s payload stopped)

    send_safety_shutdown-IsStopped :
        (s : SessionCore F) (emergency : Bool)
        → IsStopped s
        → IsStopped (send_safety_shutdown F transport env dialect s emergency)
    unfolding send_safety_shutdown
    send_safety_shutdown-IsStopped s emergency stopped =
        let commands = shutdown_commands F dialect emergency in
        branch-IsStopped (is_empty commands) stopped (
          branch-IsStopped (not transport.is_open) stopped
            (send_commands-IsStopped commands (env.delay s) (calm.delay s stopped)))

    -- Whatever its outcome, `cancel` leaves the session cancelled and without a job, where no other
    -- task starts one or takes the cancellation back meanwhile, and every queued request that it
    -- takes is finished.
    pub cancel-IsStopped :
        (s : SessionCore F) (emergency : Bool)
        → let (t, released, outcome) = cancel F transport env dialect s emergency in
          IsStopped t × All (λ r. r.finished ≡ true) released
    unfolding cancel
    cancel-IsStopped s emergency =
        let flagged = record s {
          is_cancelled = true;
          job_running = false;
          flow = signal_space_available s.flow;
        } in
        let stopped : IsStopped flagged = record { cancelled = refl; idle = refl } in
        let sent = calm.soft_reset flagged stopped in
        let aborted = calm.abort (env.soft_reset flagged) sent in
        ended (
          branch-IsEnded (not transport.is_open) (record { stopped = stopped; released = tt })
            (elim (Option-cases (transport.write (24 ∷ []))) [
              | inr (error, e) ↦ rw e (record { stopped = sent; released = tt })
              | inl e ↦
                  let after = env.abort (env.soft_reset flagged) in
                  let cleared = record after { queued_requests = []; flow = reset after.flow } in
                  let safe =
                    send_safety_shutdown-IsStopped cleared emergency
                      (record { cancelled = aborted.cancelled; idle = aborted.idle }) in
                  rw e (record {
                    stopped =
                        branch-IsStopped s.job_running
                          (record { cancelled = safe.cancelled; idle = safe.idle }) safe;
                    released = map-finish-finished after.queued_requests;
                  })
            ]))

-- ===== src/Grbl/Session/Cancel.antt =====
-- src/grbl/session.rs: `cancel` and the safety shutdown. What the other tasks do while it waits is in
-- `During`.
pub mod Stops
use raydriver.Base.{
  ℕ, Bool, true, false, not, List, [], ◌∷◌, ◌++◌, Option, none, some, map, if◌then◌else◌, is_empty,
}
use raydriver.Device.{F64}
use raydriver.Dialect.{Dialect}
use raydriver.Flow.{signal_space_available, reset}
use raydriver.Grbl.Session.{RequestShared, finish, SessionCore, emit}
use raydriver.Grbl.Session.Job.{Transport, Outcome}
use raydriver.Grbl.Session.Stall.{send_gcode_simple}
use raydriver.Session.{SessionError, from_transport, Event}
use raydriver.Text.Utf8.{Bytes, Text, codes, as_bytes}

module _ (F : F64) where
  -- During the soft reset's write, until the streaming task is gone, during the delay, and during
  -- the wait and the write of a safety command.
  pub record During : Type 0 where
    pub soft_reset : SessionCore F → SessionCore F
    pub abort : SessionCore F → SessionCore F
    pub delay : SessionCore F → SessionCore F
    pub wait : SessionCore F → SessionCore F
    pub write : SessionCore F → SessionCore F

  unfoldable pub shutdown_commands : Dialect → Bool → List Text
  shutdown_commands dialect false = dialect.safety_off_commands
  shutdown_commands dialect true =
      dialect.safety_off_commands ++ elim dialect.emergency_stop [ none ↦ [] | some c ↦ c ∷ [] ]

  module _ (transport : Transport) (env : During) (dialect : Dialect) where
    -- A command that fails is logged, and the next one is sent.
    unfoldable pub send_commands : SessionCore F → List Text → SessionCore F
    unfolding send_gcode_simple as_bytes
    send_commands s [] = s
    send_commands s (command ∷ rest) =
        let payload = as_bytes (command ++ b'\n' ∷ []) in
        send_commands (send_gcode_simple F transport env.wait env.write s payload).0 rest

    unfoldable pub send_safety_shutdown : SessionCore F → Bool → SessionCore F
    unfolding shutdown_commands send_commands
    send_safety_shutdown s emergency =
        let commands = shutdown_commands dialect emergency in
        if is_empty commands
        then s
        else if not transport.is_open
        then s
        else send_commands (env.delay s) commands

    -- The state, the queued requests that it finished, and the outcome.
    unfoldable pub cancel : SessionCore F → Bool → SessionCore F × List RequestShared × Outcome
    unfolding signal_space_available reset send_safety_shutdown from_transport
    cancel s emergency =
        let flagged = record s {
          is_cancelled = true;
          job_running = false;
          flow = signal_space_available s.flow;
        } in
        if not transport.is_open
        then (
          flagged,
          [],
          Outcome.failed (SessionError.connection (codes "Serial transport not connected")),
        )
        else (let sent = env.soft_reset flagged in
            elim (transport.write (24 ∷ [])) [
              | some error ↦ (sent, [], Outcome.failed (from_transport error))
              | none ↦
                  let aborted = env.abort sent in
                  let cleared = record aborted {
                    queued_requests = [];
                    flow = reset aborted.flow;
                  } in
                  let safe = send_safety_shutdown cleared emergency in
                  let told = if s.job_running then emit F safe Event.job_finished else safe in
                  (told, map finish aborted.queued_requests, Outcome.done)
            ])

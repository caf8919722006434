-- ===== src/Grbl/Session/Job.antt =====
-- src/grbl/session.rs: the start of a job, feed hold, and what is sent. The transport is a function
-- that says whether a write fails. A write suspends the task: what the other tasks do meanwhile is
-- the parameter `meanwhile`.
pub mod Held
pub mod Start
use raydriver.Base.{
  ℕ, Bool, true, false, not, ◌&&◌, List, [], ◌∷◌, ◌++◌, Option, none, some, if◌then◌else◌, length,
  is_some,
}
use raydriver.Base.Int.{ℤ, negsuc}
use raydriver.Device.{F64, DeviceStatus, DeviceState}
use raydriver.Device.Equal.{status_equal}
use raydriver.Flow.{track_command, reset_flow_control, set_rx_buffer_size}
use raydriver.Grbl.Session.{SessionCore, emit, is_positive, as_usize}
use raydriver.Session.{TransportError, SessionError, from_transport, Event}
use raydriver.Text.Trim.{trim_end}
use raydriver.Text.Utf8.{Bytes, Text, codes, as_bytes, from_utf8_lossy}

-- The part of a `Transport` that the session writes through.
pub record Transport : Type 0 where
  pub is_open : Bool
  pub write : Bytes → Option TransportError

-- `Result<(), SessionError>`.
pub data Outcome : Type 0 where
  done : Outcome
  failed : SessionError → Outcome

abbrev pub written : Option TransportError → Outcome
written none = Outcome.done
written (some error) = Outcome.failed (from_transport error)

module _ (F : F64) where
  -- A new status, told only where it is one.
  unfoldable pub set_status : SessionCore F → DeviceStatus → SessionCore F
  unfolding status_equal
  set_status s desired =
      if status_equal s.state.status desired
      then s
      else let changed = record (s.state) { status = desired } in
        emit F (record s { state = changed }) (Event.state_changed changed)

  -- The state of the device at the start of a job: no error, and `Run` but for an alarm.
  unfoldable pub start_state : SessionCore F → SessionCore F
  unfolding status_equal
  start_state s =
      let had_error = is_some s.state.error in
      let cleared = record (s.state) { error = none } in
      let running = record cleared { status = DeviceStatus.run } in
      if not (status_equal s.state.status DeviceStatus.run)
        && not (status_equal s.state.status DeviceStatus.alarm)
      then emit F (record s { state = running }) (Event.state_changed running)
      else if had_error
      then emit F (record s { state = cleared }) (Event.state_changed cleared)
      else record s { state = cleared }

  unfoldable pub start_job : SessionCore F → SessionCore F
  unfolding reset_flow_control start_state
  start_job s = start_state (record s {
    is_cancelled = false;
    job_running = true;
    is_holding = false;
    last_reported_op_index = negsuc 0;
    job_exception = none;
    consecutive_unanswered_polls = 0;
    flow = reset_flow_control s.flow;
  })

  unfoldable pub resize_to : SessionCore F → ℤ → SessionCore F
  unfolding set_rx_buffer_size
  resize_to s size = record s {
    flow = record (s.flow) { inner = set_rx_buffer_size s.flow.inner (as_usize size) };
  }

  unfoldable pub apply_cached_rx_buffer_size : SessionCore F → SessionCore F
  unfolding resize_to
  apply_cached_rx_buffer_size s =
      if is_positive s.config.rx_buffer_size_override
      then resize_to s s.config.rx_buffer_size_override
      else elim s.config.cached_rx_buffer_size [
        | none ↦ s
        | some cached ↦ if is_positive cached then resize_to s cached else s
      ]

  -- The account and the log of what is about to be written.
  unfoldable pub note_sent : SessionCore F → Bytes → Option ℤ → SessionCore F
  unfolding from_utf8_lossy trim_end track_command
  note_sent s payload op_index =
      let text = trim_end (from_utf8_lossy payload) in
      let tracked = record s {
        flow = record (s.flow) {
          inner = track_command s.flow.inner (length payload) op_index text;
        };
      } in
      emit F tracked (Event.raw_tx text)

  module _ (transport : Transport) (meanwhile : SessionCore F → SessionCore F) where
    -- The state goes on from `meanwhile` once the write was started.
    unfoldable pub send_realtime : SessionCore F → Text → Bool → SessionCore F × Outcome
    unfolding as_bytes from_transport
    send_realtime s command add_newline =
        if not transport.is_open
        then (s, Outcome.failed (SessionError.connection (codes "Serial transport not connected")))
        else let payload = if add_newline then command ++ b'\n' ∷ [] else command in
          (
            meanwhile (emit F s (Event.raw_tx command)),
            written (transport.write (as_bytes payload)),
          )

    -- After the wait for space, whether it was granted or not.
    unfoldable pub send_tracked : SessionCore F → Bytes → Option ℤ → SessionCore F × Outcome
    unfolding note_sent from_transport
    send_tracked s payload op_index =
        (meanwhile (note_sent s payload op_index), written (transport.write payload))

    -- A hold or its end. `stream_done` says that no streaming task is alive.
    unfoldable pub set_hold : SessionCore F → Bool → Bool → SessionCore F × Outcome
    unfolding send_realtime set_status
    set_hold s stream_done hold =
        let asked = record s {
          is_holding = hold;
          is_cancelled = if not s.job_running && stream_done then false else s.is_cancelled;
        } in
        let (sent, outcome) = send_realtime asked (if hold then codes "!" else codes "~") false in
        elim outcome [
          | Outcome.failed error ↦ (sent, Outcome.failed error)
          | Outcome.done ↦
              let desired =
                if hold
                then DeviceStatus.hold
                else if sent.job_running
                then DeviceStatus.run
                else DeviceStatus.idle in
              (set_status sent desired, Outcome.done)
        ]

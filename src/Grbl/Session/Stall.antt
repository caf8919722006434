-- ===== src/Grbl/Session/Stall.antt =====
-- src/grbl/session.rs: what a sender does when the wait for buffer space times out. A task that
-- waits or writes lets the others run: what they do is in `Meanwhile`.
pub mod Verdict
use raydriver.Base.{
  ℕ, ◌+◌, ◌%◌, ◌^◌, Bool, true, false, not, ◌&&◌, ◌||◌, List, [], ◌∷◌, ◌++◌, Option, none, some,
  if◌then◌else◌, length, ltb, leb, is_some,
}
use raydriver.Base.Int.{ℤ, pos, negsuc, ltb_ℤ}
use raydriver.Device.{F64, DeviceStatus}
use raydriver.Device.Equal.{status_equal}
use raydriver.Flow.{rx_buffer_size, needs_space, reset_flow_control, reset}
use raydriver.Grbl.Session.{SessionCore, emit}
use raydriver.Grbl.Session.Job.{Transport, Outcome, send_realtime, send_tracked}
use raydriver.Session.{SessionError, Event}
use raydriver.Text.Utf8.{Bytes, Text, codes}

-- The dwell that drains the device's planner.
abbrev pub dwell : Bytes
dwell = codes "G4 P0.01" ++ b'\n' ∷ []

module _ (F : F64) where
  -- During a write, during each sleep of a poll, during the wait for space, and during the wait for
  -- the queue to drain.
  pub record Meanwhile : Type 0 where
    pub write : SessionCore F → SessionCore F
    pub sleeps : List (SessionCore F → SessionCore F)
    pub wait : SessionCore F → SessionCore F
    pub drain : SessionCore F → SessionCore F

  abbrev pub is_alarmed : SessionCore F → Bool
  is_alarmed s = status_equal s.state.status DeviceStatus.alarm

  -- The free buffer that the device reports is all of it.
  abbrev pub reports_all_free : ℕ → Option ℤ → Bool
  reports_all_free size none = false
  reports_all_free size (some v) = ltb 0 size && not (ltb_ℤ v (pos size))

  unfoldable pub is_grbl_idle_or_desynced : SessionCore F → Bool
  unfolding status_equal rx_buffer_size
  is_grbl_idle_or_desynced s =
      status_equal s.state.status DeviceStatus.idle
      || status_equal s.raw_grbl_status DeviceStatus.idle
      || status_equal s.raw_grbl_status DeviceStatus.hold
      || reports_all_free (rx_buffer_size s.flow.inner) s.state.buffer_available

  unfoldable pub device_stopped_responding : SessionCore F → Bool
  device_stopped_responding s = leb s.config.unanswered_poll_limit s.consecutive_unanswered_polls

  abbrev pub blame : SessionCore F → Text → SessionCore F
  blame s message = record s { job_exception = some (SessionError.device message) }

  unfoldable pub mark_device_unresponsive : SessionCore F → SessionCore F
  mark_device_unresponsive s =
      blame s (codes "Device stopped responding during job (no reply to status polls).")

  -- An alarm is the job's exception if there is none.
  unfoldable pub mark_alarm : SessionCore F → SessionCore F
  mark_alarm s =
      if is_some s.job_exception
      then s
      else blame s (codes "Machine entered ALARM state during job.")

  -- `fetch_add(1)` on an `AtomicU32`.
  abbrev pub count_unanswered : SessionCore F → SessionCore F
  count_unanswered s = record s {
    consecutive_unanswered_polls = (s.consecutive_unanswered_polls + 1) % 2 ^ 32;
  }

  -- At most as many sleeps as there are attempts; a report ends the wait.
  unfoldable pub await_report : SessionCore F → List (SessionCore F → SessionCore F) → SessionCore F
  unfolding status_equal
  await_report s [] = s
  await_report s (sleep ∷ rest) =
      let more = await_report (sleep s) rest in
      if not (status_equal (sleep s).raw_grbl_status DeviceStatus.unknown) then sleep s else more

  unfoldable pub note_poll : ℕ → SessionCore F → SessionCore F
  note_poll responses_before s =
      if ltb responses_before s.device_response_count
      then record s { consecutive_unanswered_polls = 0 }
      else count_unanswered s

  -- A command outside a job's stream. `wait_for_space` succeeds exactly where the bytes fit.
  unfoldable pub send_gcode_simple :
      Transport
      → (SessionCore F → SessionCore F)
      → (SessionCore F → SessionCore F)
      → SessionCore F
      → Bytes
      → SessionCore F × Outcome
  unfolding needs_space send_tracked
  send_gcode_simple transport wait write s payload =
      let waited = wait s in
      if needs_space waited.flow.inner (length payload)
      then (
        waited,
        Outcome.failed (SessionError.buffer_stall (codes "timed out waiting for buffer space")),
      )
      else send_tracked F transport write waited payload none

  module _ (transport : Transport) (env : Meanwhile) where
    -- `lock` is what the others do until the command lock is taken: nothing where the caller has it.
    unfoldable pub poll_and_check_idle :
        (SessionCore F → SessionCore F) → SessionCore F → SessionCore F × Bool
    unfolding await_report note_poll is_grbl_idle_or_desynced
    poll_and_check_idle lock s =
        let locked = lock (record s { raw_grbl_status = DeviceStatus.unknown }) in
        let asked = emit F locked (Event.raw_tx (codes "?")) in
        if not transport.is_open
        then (count_unanswered asked, false)
        else (let sent = env.write asked in
            elim (transport.write (codes "?")) [
              | some _ ↦ (count_unanswered sent, false)
              | none ↦
                  let polled = note_poll s.device_response_count (await_report sent env.sleeps) in
                  (polled, is_grbl_idle_or_desynced polled)
            ])

    -- What fails on the way is logged.
    unfoldable pub recover_from_deadlock :
        (SessionCore F → SessionCore F) → SessionCore F → SessionCore F
    unfolding reset_flow_control send_gcode_simple reset
    recover_from_deadlock lock s =
        if not transport.is_open
        then s
        else (let locked = lock s in
            let cleared = record locked { flow = reset_flow_control locked.flow } in
            let sent = (send_gcode_simple transport env.wait env.write cleared dwell).0 in
            let drained = env.drain sent in record drained { flow = reset drained.flow })

    -- Whether the sender may try again.
    unfoldable pub on_buffer_stall : SessionCore F → ℕ → SessionCore F × Bool
    unfolding poll_and_check_idle device_stopped_responding mark_device_unresponsive mark_alarm
        needs_space recover_from_deadlock
    on_buffer_stall s command_len =
        let (polled, idle_or_desynced) = poll_and_check_idle (λ t. t) s in
        let recovered = recover_from_deadlock (λ t. t) polled in
        if s.is_cancelled
        then (s, false)
        else if device_stopped_responding polled
        then (mark_device_unresponsive polled, false)
        else if is_alarmed polled
        then (mark_alarm polled, false)
        else if not polled.config.deadlock_detection
        then (polled, true)
        else if not idle_or_desynced
        then (polled, true)
        else if not (needs_space polled.flow.inner command_len)
        then (polled, true)
        else (recovered, not (needs_space recovered.flow.inner command_len))

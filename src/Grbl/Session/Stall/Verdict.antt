-- ===== src/Grbl/Session/Stall/Verdict.antt =====
-- src/grbl/session.rs: a stalled sender gives up only with a reason.
use raydriver.Base.{
  ℕ, ◌≤◌, ◌<◌, ◌^◌, ◌≡◌, refl, ◌⊎◌, inl, inr, Bool, true, false, not, if◌then◌else◌, Bool-cases,
  arith, is_some,
}
use raydriver.Device.{F64}
use raydriver.Flow.{FlowControl, rx_buffer_size, needs_space, reset, reset_flow_control}
use raydriver.Grbl.Session.{SessionCore}
use raydriver.Grbl.Session.Job.{Transport}
use raydriver.Grbl.Session.Stall.{
  send_gcode_simple, Meanwhile, device_stopped_responding, mark_device_unresponsive, mark_alarm,
  is_alarmed, poll_and_check_idle, recover_from_deadlock, on_buffer_stall, dwell,
}

-- An empty account has room for whatever the buffer can hold.
reset-has_room :
    (f : FlowControl) (n : ℕ)
    → n ≤ rx_buffer_size (reset f).inner
    → rx_buffer_size (reset f).inner < 2 ^ 64
    → needs_space (reset f).inner n ≡ false
unfolding needs_space rx_buffer_size reset reset_flow_control
reset-has_room f n fits small = ground (arith, fits, small)

module _ (F : F64) where
  -- What the device's buffer can hold fits now.
  record HasRoom (n : ℕ) (s : SessionCore F) : Type 0 where
    room :
        n ≤ rx_buffer_size s.flow.inner
        → rx_buffer_size s.flow.inner < 2 ^ 64
        → needs_space s.flow.inner n ≡ false

  open_branch :
      (n : ℕ) (s t : SessionCore F) (is_open : Bool)
      → is_open ≡ true
      → HasRoom n t
      → HasRoom n (if not is_open then s else t)
  open_branch n s t true e h = h
  open_branch n s t false e h = ground arith

  mark_alarm-blames : (s : SessionCore F) → is_some (mark_alarm F s).job_exception ≡ true
  unfolding mark_alarm
  mark_alarm-blames s = elim (Bool-cases (is_some s.job_exception)) [
    | inl e ↦ rw (e, mark_alarm) e
    | inr e ↦ rw (e, mark_alarm) refl
  ]

  -- The branches of the stall callback, for any outcome of their tests.
  verdict :
      (cancelled silent alarmed off busy fits : Bool) (s m k p r : SessionCore F) (n : ℕ)
      → is_some m.job_exception ≡ true
      → is_some k.job_exception ≡ true
      → HasRoom n r
      → let (t, retry) : SessionCore F × Bool =
          if cancelled
          then (s, false)
          else if silent
          then (m, false)
          else if alarmed
          then (k, false)
          else if off
          then (p, true)
          else if busy
          then (p, true)
          else if fits
          then (p, true)
          else (r, not (needs_space r.flow.inner n)) in
        n ≤ rx_buffer_size t.flow.inner
        → rx_buffer_size t.flow.inner < 2 ^ 64
        → retry ≡ false
        → (cancelled ≡ true) ⊎ (is_some t.job_exception ≡ true)
  verdict true silent alarmed off busy fits s m k p r n em ek h le lt g = inl refl
  verdict false true alarmed off busy fits s m k p r n em ek h le lt g = inr em
  verdict false false true off busy fits s m k p r n em ek h le lt g = inr ek
  verdict false false false true busy fits s m k p r n em ek h le lt g = ground arith
  verdict false false false false true fits s m k p r n em ek h le lt g = ground arith
  verdict false false false false false true s m k p r n em ek h le lt g = ground arith
  verdict false false false false false false s m k p r n em ek h le lt g =
      let room = h.room le lt in ground (arith, room, g)

  module _ (transport : Transport) (env : Meanwhile F) where
    recover_from_deadlock-HasRoom :
        (s : SessionCore F) (n : ℕ)
        → transport.is_open ≡ true
        → HasRoom n (recover_from_deadlock F transport env (λ t. t) s)
    unfolding recover_from_deadlock
    recover_from_deadlock-HasRoom s n is_open =
        let cleared = record s { flow = reset_flow_control s.flow } in
        let sent = (send_gcode_simple F transport env.wait env.write cleared dwell).0 in
        let drained = env.drain sent in
        open_branch n s (record drained { flow = reset drained.flow }) transport.is_open is_open
          (record { room = reset-has_room drained.flow n })

    -- With an open transport, a sender whose command the device's buffer can hold gives up on a stall
    -- only where the job was cancelled, or has its exception: an alarm, an error, or a device that
    -- stopped responding. Otherwise it tries again.
    pub on_buffer_stall-gives_up :
        (s : SessionCore F) (n : ℕ)
        → transport.is_open ≡ true
        → let (t, retry) = on_buffer_stall F transport env s n in
          n ≤ rx_buffer_size t.flow.inner
          → rx_buffer_size t.flow.inner < 2 ^ 64
          → retry ≡ false
          → (s.is_cancelled ≡ true) ⊎ (is_some t.job_exception ≡ true)
    unfolding on_buffer_stall mark_device_unresponsive
    on_buffer_stall-gives_up s n is_open fits small gave_up =
        let polled = (poll_and_check_idle F transport env (λ t. t) s).0 in
        verdict s.is_cancelled (device_stopped_responding F polled) (is_alarmed F polled)
          (not polled.config.deadlock_detection)
          (not (poll_and_check_idle F transport env (λ t. t) s).1)
          (not (needs_space polled.flow.inner n)) s (mark_device_unresponsive F polled)
          (mark_alarm F polled) polled (recover_from_deadlock F transport env (λ t. t) polled) n
          refl (mark_alarm-blames polled) (recover_from_deadlock-HasRoom polled n is_open) fits
          small gave_up

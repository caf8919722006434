-- ===== src/Grbl/Session/Drain/Closed.antt =====
-- src/grbl/session.rs: the wait for the last acknowledgements over a closed transport.
use raydriver.Base.{
  ◌+◌, ◌≤◌, ◌<◌, ◌^◌, ◌≡◌, refl, ap, ◌∙◌, arith, Bool, true, false, not, List, [], ◌∷◌, Option,
  some, if◌then◌else◌, length, is_some, All,
}
use raydriver.Device.{F64, DeviceStatus}
use raydriver.Flow.Wait.{has_pending}
use raydriver.Grbl.Session.{SessionCore, emit}
use raydriver.Grbl.Session.Drain.{DrainRound, is_waiting, drain_pending_acks}
use raydriver.Grbl.Session.Job.{Transport}
use raydriver.Grbl.Session.Stall.{
  Meanwhile, count_unanswered, device_stopped_responding, mark_device_unresponsive,
  poll_and_check_idle,
}
use raydriver.Session.{Event}
use raydriver.Text.Utf8.{codes}

module _ (F : F64) where
  -- No poll is answered or counted meanwhile.
  pub record KeepsCount (f : SessionCore F → SessionCore F) : Type 0 where
    pub count :
        (s : SessionCore F) → (f s).consecutive_unanswered_polls ≡ s.consecutive_unanswered_polls
    pub config : (s : SessionCore F) → (f s).config ≡ s.config

  -- The transport is closed, and nothing is heard.
  pub record IsDown (r : DrainRound F) : Type 0 where
    pub closed : r.poll_transport.is_open ≡ false
    pub wait : KeepsCount r.wait
    pub poll_lock : KeepsCount r.poll_lock

  abbrev asked : (SessionCore F → SessionCore F) → SessionCore F → SessionCore F
  asked lock s =
      emit F (lock (record s { raw_grbl_status = DeviceStatus.unknown })) (Event.raw_tx (codes "?"))

  poll-closed :
      (transport : Transport) (env : Meanwhile F) (lock : SessionCore F → SessionCore F)
      (s : SessionCore F)
      → transport.is_open ≡ false
      → poll_and_check_idle F transport env lock s ≡ (count_unanswered F (asked lock s), false)
  unfolding poll_and_check_idle
  poll-closed transport env lock s e = rw e refl

  -- The state behind the poll of a round.
  abbrev polled : DrainRound F → SessionCore F → SessionCore F
  polled r s = count_unanswered F (asked r.poll_lock (r.wait s))

  polled-count :
      (r : DrainRound F) (s : SessionCore F)
      → IsDown r
      → s.consecutive_unanswered_polls + 1 < 2 ^ 32
      → (polled r s).consecutive_unanswered_polls ≡ s.consecutive_unanswered_polls + 1
  polled-count r s down small =
      let waited : (r.wait s).consecutive_unanswered_polls ≡ s.consecutive_unanswered_polls =
        down.wait.count s in
      let locked =
        down.poll_lock.count (record (r.wait s) { raw_grbl_status = DeviceStatus.unknown }) in
      let same = locked ∙ waited in rw same (omega (arith, small))

  polled-config : (r : DrainRound F) (s : SessionCore F) → IsDown r → (polled r s).config ≡ s.config
  polled-config r s down =
      down.poll_lock.config (record (r.wait s) { raw_grbl_status = DeviceStatus.unknown })
      ∙ down.wait.config s

  -- The wait ends.
  abbrev Ended : Option (SessionCore F) → Type 0
  Ended o = is_some o ≡ true

  -- The branches of a round whose poll fails.
  Ended-round :
      (stops empty silent : Bool) (s w m : SessionCore F) (later : Option (SessionCore F))
      → (silent ≡ false → Ended later)
      → Ended (if stops then some s else if empty then some w else if silent then some m else later)
  Ended-round true empty silent s w m later h = refl
  Ended-round false true silent s w m later h = refl
  Ended-round false false true s w m later h = refl
  Ended-round false false false s w m later h = h refl

  -- Over a closed transport on which nothing is heard the wait for the last acknowledgements ends, and
  -- after at most as many rounds as polls may go unanswered.
  pub drain_pending_acks-ends :
      (rounds : List (DrainRound F)) (s : SessionCore F)
      → All IsDown rounds
      → s.consecutive_unanswered_polls < s.config.unanswered_poll_limit
      → s.config.unanswered_poll_limit < 2 ^ 32
      → s.config.unanswered_poll_limit ≤ s.consecutive_unanswered_polls + length rounds
      → is_some (drain_pending_acks F s rounds) ≡ true
  unfolding drain_pending_acks device_stopped_responding
  drain_pending_acks-ends [] s down below small enough = ground arith
  drain_pending_acks-ends (r ∷ rest) s down below small enough =
      let counted = polled-count r s down.0 (omega arith) in
      let kept = ap (λ c. c.unanswered_poll_limit) (polled-config r s down.0) in
      rw (poll-closed r.poll_transport r.poll r.poll_lock (r.wait s) down.0.closed) (
        Ended-round (not (is_waiting F s)) (not (has_pending (r.wait s).flow.inner))
          (device_stopped_responding F (polled r s)) s (r.wait s)
          (mark_device_unresponsive F (polled r s)) (drain_pending_acks F (polled r s) rest)
          (λ e.
            drain_pending_acks-ends rest (polled r s) down.1 (ground arith) (omega arith)
              (omega arith)))

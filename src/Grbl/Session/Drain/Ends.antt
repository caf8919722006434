-- ===== src/Grbl/Session/Drain/Ends.antt =====
-- src/grbl/session.rs: why the wait for the last acknowledgements ends.
use raydriver.Base.{
  ◌≡◌, refl, ap, sym, ◌⊎◌, inl, inr, arith, Bool, true, false, not, ◌&&◌, ◌||◌, List, [], ◌∷◌,
  Option, none, some, Bool-cases, if◌then◌else◌, is_some,
}
use raydriver.Device.{F64}
use raydriver.Flow.Wait.{has_pending}
use raydriver.Grbl.Session.{SessionCore}
use raydriver.Grbl.Session.Drain.{
  DrainRound, is_broken_off, is_waiting, drain_pending_acks, outcome_for, outcome_of, end_lines,
}
use raydriver.Grbl.Session.Job.{Outcome}
use raydriver.Session.{SessionError}
use raydriver.Grbl.Session.Stall.{
  is_alarmed, device_stopped_responding, mark_device_unresponsive, poll_and_check_idle,
  recover_from_deadlock,
}

module _ (F : F64) where
  -- No acknowledgement is waited for, or there is a reason to wait no more.
  abbrev pub IsDrained : SessionCore F → Type 0
  IsDrained t = (has_pending t.flow.inner ≡ false) ⊎ (is_broken_off F t ≡ true)

  not_waiting : (s : SessionCore F) → is_waiting F s ≡ false → IsDrained s
  not_waiting s e = by_test (has_pending s.flow.inner) (is_broken_off F s) e
    where
      by_test :
          (pending broken : Bool)
          → (pending && not broken) ≡ false
          → (pending ≡ false) ⊎ (broken ≡ true)
      by_test false broken e = inl refl
      by_test true true e = inr refl
      by_test true false e = ground arith

  unresponsive-broken_off :
      (s : SessionCore F) → is_broken_off F (mark_device_unresponsive F s) ≡ true
  unfolding is_broken_off mark_device_unresponsive
  unresponsive-broken_off s = refl

  -- Where a wait ends, it is drained.
  record Ends (o : Option (SessionCore F)) : Type 0 where
    ends : (t : SessionCore F) → o ≡ some t → IsDrained t

  Ends-some : (s : SessionCore F) → IsDrained s → Ends (some s)
  Ends-some s h = record { ends = λ t e. let same : s ≡ t = cc in rw (sym same) h }

  Ends-none : Ends none
  Ends-none = record { ends = λ t e. cc }

  Ends-if :
      {a b : Option (SessionCore F)} (test : Bool)
      → (test ≡ true → Ends a)
      → (test ≡ false → Ends b)
      → Ends (if test then a else b)
  Ends-if true h k = h refl
  Ends-if false h k = k refl

  Ends-stop :
      {b : Option (SessionCore F)} (s : SessionCore F)
      → Ends b
      → Ends (if not (is_waiting F s) then some s else b)
  Ends-stop s h = elim (Bool-cases (is_waiting F s)) [
    | inl e ↦ rw e h
    | inr e ↦ rw e (Ends-some s (not_waiting s e))
  ]

  -- Stops where the queue is empty.
  Ends-empty :
      {b : Option (SessionCore F)} (s : SessionCore F)
      → Ends b
      → Ends (if not (has_pending s.flow.inner) then some s else b)
  Ends-empty s h = elim (Bool-cases (has_pending s.flow.inner)) [
    | inl e ↦ rw e h
    | inr e ↦ rw e (Ends-some s (inl e))
  ]

  drain_pending_acks-Ends :
      (rounds : List (DrainRound F)) (s : SessionCore F) → Ends (drain_pending_acks F s rounds)
  unfolding drain_pending_acks
  drain_pending_acks-Ends [] s =
      Ends-if (is_waiting F s) (λ e. Ends-none) (λ e. Ends-some s (not_waiting s e))
  drain_pending_acks-Ends (r ∷ rest) s =
      let waited = r.wait s in
      let (polled, idle_or_desynced) =
        poll_and_check_idle F r.poll_transport r.poll r.poll_lock waited in
      let recovered =
        recover_from_deadlock F r.recovery_transport r.recovery r.recovery_lock polled in
      Ends-stop s (
        Ends-empty waited (
          Ends-if (device_stopped_responding F polled)
            (λ e.
              Ends-some (mark_device_unresponsive F polled) (inr (unresponsive-broken_off polled)))
            (λ e.
              Ends-if (not idle_or_desynced) (λ e. drain_pending_acks-Ends rest polled)
                (λ e. Ends-empty polled (drain_pending_acks-Ends rest recovered)))))

  outcome_for-done :
      (t u : SessionCore F) (exception : Option SessionError)
      → outcome_for F t exception ≡ (u, Outcome.done)
      → (exception ≡ none) × (t ≡ u)
  outcome_for-done t u none o = (refl, ap (λ p. p.0) o)
  outcome_for-done t u (some error) o =
      let clash : Outcome.failed error ≡ Outcome.done = ap (λ p. p.1) o in cc

  -- Why a job without an exception is drained.
  abbrev IsOver : SessionCore F → Type 0
  IsOver t = (has_pending t.flow.inner ≡ false) ⊎ ((is_alarmed F t || t.is_cancelled) ≡ true)

  outcome_of-IsOver :
      (t u : SessionCore F) → IsDrained t → outcome_of F t ≡ (u, Outcome.done) → IsOver u
  unfolding outcome_of is_broken_off
  outcome_of-IsOver t u drained o =
      let (no_exception, same) = outcome_for-done t u t.job_exception o in
      rw (sym same)
        (elim drained [ inl empty ↦ inl empty | inr broken ↦ inr (rw no_exception at broken) ])

  drained-IsOver :
      (drained : Option (SessionCore F)) (u : SessionCore F)
      → Ends drained
      → elim drained as (λ _. Option (SessionCore F × Outcome)) [
        | none ↦ none
        | some t ↦ some (outcome_of F t)
      ]
        ≡ some (u, Outcome.done)
      → IsOver u
  drained-IsOver none u h e = cc
  drained-IsOver (some t) u h e =
      let same : outcome_of F t ≡ (u, Outcome.done) = cc in
      outcome_of-IsOver t u (h.ends t refl) same

  not_begun :
      (s : SessionCore F)
      → (not s.is_cancelled && not (is_some s.job_exception)) ≡ false
      → is_broken_off F s ≡ true
  unfolding is_broken_off
  not_begun s e = by_test s.is_cancelled (is_some s.job_exception) (is_alarmed F s) e
    where
      by_test :
          (cancelled failed alarmed : Bool)
          → (not cancelled && not failed) ≡ false
          → (failed || alarmed || cancelled) ≡ true
      by_test true true alarmed e = refl
      by_test true false true e = refl
      by_test true false false e = refl
      by_test false true alarmed e = refl
      by_test false false alarmed e = ground arith

  -- Where the streaming task of a job ends behind its lines without an error, however the others act
  -- meanwhile: no acknowledgement is waited for any more, or the device is in alarm, or the job was
  -- cancelled.
  pub end_lines-done :
      (rounds : List (DrainRound F)) (s t : SessionCore F)
      → end_lines F s rounds ≡ some (t, Outcome.done)
      → (has_pending t.flow.inner ≡ false) ⊎ ((is_alarmed F t || t.is_cancelled) ≡ true)
  unfolding end_lines
  end_lines-done rounds s t e =
      elim (Bool-cases (not s.is_cancelled && not (is_some s.job_exception))) [
        | inl test ↦ drained-IsOver _ t (drain_pending_acks-Ends rounds s) (rw test at e)
        | inr test ↦
            let same : some (outcome_of F s) ≡ some (t, Outcome.done) = rw test at e in
            let same : outcome_of F s ≡ (t, Outcome.done) = cc in
            outcome_of-IsOver s t (inr (not_begun s test)) same
      ]

-- ===== src/Flow/Wait/Deadline.antt =====
-- src/grbl/flow.rs: a waiter for space is not parked past its deadline.
use Prim.Native.Nat.{max}
use raydriver.Base.{
  ℕ, ◌+◌, ◌-◌, ◌≤◌, ◌<◌, ◌≡◌, refl, inl, inr, Bool, true, false, not, ◌&&◌, List, [], ◌∷◌, Option,
  none, some, arith, ◌==◌, if◌then◌else◌, length, ltb, Bool-cases,
}
use raydriver.Flow.{FlowInner, needs_space}
use raydriver.Flow.Wait.{
  Round, notified, elapsed, first_of, wake_of, WaitResult, ready, timed_out, Waited, after_deadline,
  space_loop, wait_for_space,
}

-- A notification comes behind the clock's reading, at once where it was there before.
abbrev pub NoSooner : ℕ → Option ℕ → Type 0
NoSooner now none = Unit
NoSooner now (some at) = now ≤ at

abbrev pub woken_at : ℕ → Option ℕ → ℕ
woken_at now none = now
woken_at now (some at) = at

-- The clock of a schedule that begins at `time`: it runs on between a wake-up and the next reading,
-- and by `delay` ticks at most, for which a woken task waits to run.
abbrev pub IsTimed : ℕ → ℕ → List Round → Type 0
IsTimed delay time [] = Unit
IsTimed delay time (r ∷ rs) =
    (time < r.now)
    × (r.now ≤ time + delay)
    × NoSooner r.now r.notice
    × IsTimed delay (woken_at r.now r.notice) rs

-- The wait ended, at `limit` at the latest.
record EndsBy (limit : ℕ) (o : Waited) : Type 0 where
  result : WaitResult × FlowInner
  time : ℕ
  ended : o ≡ some (result.0, result.1, time)
  in_time : time ≤ limit

EndsBy-some :
    (limit : ℕ) (result : WaitResult) (s : FlowInner) (time : ℕ)
    → time ≤ limit
    → EndsBy limit (some (result, s, time))
EndsBy-some limit result s time h = record {
  result = (result, s);
  time = time;
  ended = refl;
  in_time = h;
}

EndsBy-if :
    {limit : ℕ} {a b : Waited} (test : Bool)
    → (test ≡ true → EndsBy limit a)
    → (test ≡ false → EndsBy limit b)
    → EndsBy limit (if test then a else b)
EndsBy-if true h k = h refl
EndsBy-if false h k = k refl

EndsBy-after_deadline :
    (limit : ℕ) (blocked : FlowInner → Bool) (s : FlowInner) (time : ℕ)
    → time ≤ limit
    → EndsBy limit (after_deadline blocked s time)
unfolding after_deadline
EndsBy-after_deadline limit blocked s time h =
    EndsBy-if (blocked s) (λ e. EndsBy-some limit timed_out s time h)
      (λ e. EndsBy-some limit ready s time h)

-- What a round's wait is left with.
EndsBy-wake :
    {limit : ℕ} (alarm : ℕ) (first : Bool) (notice : Option ℕ) (later : ℕ → Waited) {late : Waited}
    → ((at : ℕ) → notice ≡ some at → at ≤ alarm → EndsBy limit (later at))
    → EndsBy limit late
    → EndsBy limit (elim (first_of alarm first notice) as (λ _. Waited) [
      | notified at ↦ later at
      | elapsed ↦ late
    ])
EndsBy-wake alarm first none later h k = k
EndsBy-wake alarm first (some at) later h k = elim (Bool-cases (ltb at alarm)) [
  | inl e ↦ rw e (h at refl (ground (arith, e)))
  | inr e ↦ elim (Bool-cases (at == alarm && first)) [
    | inl tie ↦ rw (e, tie) (h at refl (ground arith))
    | inr tie ↦ rw (e, tie) k
  ]
]

module _ (delay deadline needed : ℕ) where
  space_loop-EndsBy :
      (rs : List Round) (time : ℕ) (s : FlowInner)
      → IsTimed delay time rs
      → time ≤ deadline
      → deadline < time + length rs
      → EndsBy (deadline + delay) (space_loop deadline needed time s rs)
  unfolding space_loop wake_of
  space_loop-EndsBy [] time s timed before long = absurd (omega arith)
  space_loop-EndsBy (r ∷ rs) time s (later, prompt, behind, timed) before long =
      let limit = deadline + delay in
      EndsBy-if (not (needs_space s needed)) (λ e. EndsBy-some limit ready s time (omega arith))
        (λ e.
          EndsBy-if (deadline - r.now == 0)
            (λ zero. EndsBy-some limit timed_out s r.now (omega arith))
            (λ early.
              let ahead : r.now < deadline = ground (arith, early) in
              EndsBy-if (not (needs_space r.recheck needed))
                (λ e. EndsBy-some limit ready r.recheck r.now (omega arith))
                (λ e.
                  EndsBy-wake (max r.now deadline) r.notice_first r.notice
                    (λ at. space_loop deadline needed at r.after rs)
                    (λ at found in_time.
                      space_loop-EndsBy rs at r.after (rw found at timed) (omega arith)
                        (let sooner : r.now ≤ at = rw found at behind in omega arith))
                    (EndsBy-after_deadline limit (λ t. needs_space t needed) r.after
                      (max r.now deadline) (omega arith)))))

-- A waiter for space is not parked past its deadline, however often it is notified in vain: where its
-- clock runs on from each wake-up to the next reading, by `delay` ticks at most, `timeout + 1` rounds
-- are enough for the wait to end, and it ends by the deadline and that delay.
pub wait_for_space-ends :
    (delay start timeout needed : ℕ) (rs : List Round) (s : FlowInner)
    → IsTimed delay start rs
    → timeout < length rs
    → (result : WaitResult) × (seen : FlowInner) × (time : ℕ) × (wait_for_space start timeout needed
          s rs
        ≡ some (result, seen, time))
      × (time ≤ start + timeout + delay)
unfolding wait_for_space
wait_for_space-ends delay start timeout needed rs s timed long =
    let h =
      space_loop-EndsBy delay (start + timeout) needed rs start s timed (omega arith)
        (omega arith) in
    (h.result.0, h.result.1, h.time, h.ended, h.in_time)

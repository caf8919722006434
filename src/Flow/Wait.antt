-- ===== src/Flow/Wait.antt =====
-- src/grbl/flow.rs: `wait_for_space` and `wait_pending_empty`. What a waiter meets at each round of
-- its loop is a schedule: the clock and the states that it reads, and when it is notified. The clock
-- counts its smallest ticks.
pub mod Deadline
use Prim.Native.Nat.{max}
use raydriver.Base.{
  ℕ, ◌+◌, ◌-◌, ◌≡◌, refl, sym, inl, inr, Bool-cases, ◌≢◌, Bool, true, false, not, ◌&&◌, List, [],
  ◌∷◌, Option, none, some, arith, ◌==◌, if◌then◌else◌, is_empty, ltb,
}
use raydriver.Flow.{FlowInner, needs_space}

-- `now` is the clock where `remaining` is computed, `recheck` the state read once more behind the
-- registration, `late` the one read beside `remaining`, `notice` when a notification comes, if one
-- does, `notice_first` which branch `select!` takes where both are ready, and `after` the state behind
-- the wait.
pub record Round : Type 0 where
  pub now : ℕ
  pub recheck : FlowInner
  pub late : FlowInner
  pub notice : Option ℕ
  pub notice_first : Bool
  pub after : FlowInner

-- What the `select!` of a round ends with: a notification, and when, or the deadline.
pub data Wake : Type 0 where
  notified : ℕ → Wake
  elapsed : Wake

-- `alarm` is when the sleep ends. A notification wakes the waiter where it comes before.
abbrev pub first_of : ℕ → Bool → Option ℕ → Wake
first_of alarm notice_first none = elapsed
first_of alarm notice_first (some at) =
    if ltb at alarm
    then notified at
    else if at == alarm && notice_first
    then notified at
    else elapsed

unfoldable pub wake_of : ℕ → Round → Wake
wake_of alarm r = first_of alarm r.notice_first r.notice

pub data WaitResult : Type 0 where
  ready timed_out : WaitResult

-- A result, the state that it was read from, and when the wait ended; `none` while the schedule
-- leaves the waiter parked.
abbrev pub Waited : Type 0
Waited = Option (WaitResult × FlowInner × ℕ)

-- `blocked` is the loop's test: `needs_space needed`, or that the queue is not empty.
unfoldable pub after_deadline : (FlowInner → Bool) → FlowInner → ℕ → Waited
after_deadline blocked s time =
    if blocked s then some (timed_out, s, time) else some (ready, s, time)

-- The loop from `time` on. A sleep until a deadline that has passed ends at once.
unfoldable pub space_loop : ℕ → ℕ → ℕ → FlowInner → List Round → Waited
unfolding after_deadline wake_of
space_loop deadline needed time s [] = if needs_space s needed then none else some (ready, s, time)
space_loop deadline needed time s (r ∷ rs) =
    if not (needs_space s needed)
    then some (ready, s, time)
    else if deadline - r.now == 0
    then some (timed_out, s, r.now)
    else if not (needs_space r.recheck needed)
    then some (ready, r.recheck, r.now)
    else elim (wake_of (max r.now deadline) r) [
      | notified at ↦ space_loop deadline needed at r.after rs
      | elapsed ↦ after_deadline (λ t. needs_space t needed) r.after (max r.now deadline)
    ]

unfoldable pub wait_for_space : ℕ → ℕ → ℕ → FlowInner → List Round → Waited
unfolding space_loop
wait_for_space start timeout needed s rs = space_loop (start + timeout) needed start s rs

abbrev pub has_pending : FlowInner → Bool
has_pending s = not (is_empty s.pending)

-- Without a deadline a waiter that is not notified stays parked.
unfoldable pub drained_loop : Option ℕ → ℕ → FlowInner → List Round → Waited
unfolding after_deadline wake_of
drained_loop deadline time s [] = if has_pending s then none else some (ready, s, time)
drained_loop deadline time s (r ∷ rs) =
    if not (has_pending s)
    then some (ready, s, time)
    else if not (has_pending r.recheck)
    then some (ready, r.recheck, r.now)
    else elim deadline [
      | none ↦ elim r.notice [ none ↦ none | some at ↦ drained_loop none at r.after rs ]
      | some late_at ↦
          if late_at - r.now == 0 && has_pending r.late
          then some (timed_out, r.late, r.now)
          else elim (wake_of (max r.now late_at) r) [
            | notified at ↦ drained_loop (some late_at) at r.after rs
            | elapsed ↦ after_deadline has_pending r.after (max r.now late_at)
          ]
    ]

abbrev pub deadline_of : ℕ → Option ℕ → Option ℕ
deadline_of start none = none
deadline_of start (some timeout) = some (start + timeout)

unfoldable pub wait_pending_empty : ℕ → Option ℕ → FlowInner → List Round → Waited
unfolding drained_loop
wait_pending_empty start timeout s rs = drained_loop (deadline_of start timeout) start s rs

-- The result says what the state was that it was read from.
abbrev pub Agrees : (FlowInner → Bool) → WaitResult → FlowInner → Type 0
Agrees blocked ready s = blocked s ≡ false
Agrees blocked timed_out s = blocked s ≡ true

-- Where a wait ends, its result agrees with its state.
record Ends (blocked : FlowInner → Bool) (o : Waited) : Type 0 where
  ends :
      (result : WaitResult) (seen : FlowInner) (time : ℕ)
      → o ≡ some (result, seen, time)
      → Agrees blocked result seen

Ends-none : {blocked : FlowInner → Bool} → Ends blocked none
Ends-none = record { ends = λ result seen time e. cc }

Ends-some :
    {blocked : FlowInner → Bool} (result : WaitResult) (s : FlowInner) (time : ℕ)
    → Agrees blocked result s
    → Ends blocked (some (result, s, time))
Ends-some {blocked} result s time h = record {
  ends = λ other seen at e.
      let same_result : result ≡ other = cc in
      let same_state : s ≡ seen = cc in rw (sym same_result, sym same_state) h;
}

Ends-if :
    {blocked : FlowInner → Bool} {a b : Waited} (test : Bool)
    → (test ≡ true → Ends blocked a)
    → (test ≡ false → Ends blocked b)
    → Ends blocked (if test then a else b)
Ends-if true h k = h refl
Ends-if false h k = k refl

-- It is ready where the test fails.
Ends-ready :
    (blocked : FlowInner → Bool) (s : FlowInner) (time : ℕ) {b : Waited}
    → Ends blocked b
    → Ends blocked (if not (blocked s) then some (ready, s, time) else b)
Ends-ready blocked s time h = elim (Bool-cases (blocked s)) [
  | inl e ↦ rw e h
  | inr e ↦ rw e (Ends-some ready s time e)
]

Ends-after_deadline :
    (blocked : FlowInner → Bool) (s : FlowInner) (time : ℕ)
    → Ends blocked (after_deadline blocked s time)
unfolding after_deadline
Ends-after_deadline blocked s time =
    Ends-if (blocked s) (λ e. Ends-some timed_out s time e) (λ e. Ends-some ready s time e)

Ends-wake :
    {blocked : FlowInner → Bool} (wake : Wake) (later : ℕ → Waited) {late : Waited}
    → ((at : ℕ) → Ends blocked (later at))
    → Ends blocked late
    → Ends blocked (elim wake as (λ _. Waited) [ notified at ↦ later at | elapsed ↦ late ])
Ends-wake (notified at) later h k = h at
Ends-wake elapsed later h k = k

module _ (deadline needed : ℕ) where
  space_loop-Ends :
      (rs : List Round) (time : ℕ) (s : FlowInner)
      → Ends (λ t. needs_space t needed) (space_loop deadline needed time s rs)
  unfolding space_loop
  space_loop-Ends [] time s =
      Ends-if (needs_space s needed) (λ e. Ends-none) (λ e. Ends-some ready s time e)
  space_loop-Ends (r ∷ rs) time s = elim (Bool-cases (needs_space s needed)) [
    | inr e ↦ rw e (Ends-some ready s time e)
    | inl e ↦ rw e (
        Ends-if (deadline - r.now == 0) (λ late. Ends-some timed_out s r.now e)
          (λ early.
            Ends-ready (λ t. needs_space t needed) r.recheck r.now
              (Ends-wake (wake_of (max r.now deadline) r)
                (λ at. space_loop deadline needed at r.after rs)
                (λ at. space_loop-Ends rs at r.after)
                (Ends-after_deadline (λ t. needs_space t needed) r.after (max r.now deadline)))))
  ]

-- Whatever the schedule, `wait_for_space` reports success only from a state in which the bytes fit,
-- and a timeout only from one in which they do not.
pub wait_for_space-Agrees :
    (start timeout needed : ℕ) (rs : List Round) (s : FlowInner) (result : WaitResult)
    (seen : FlowInner) (time : ℕ)
    → wait_for_space start timeout needed s rs ≡ some (result, seen, time)
    → Agrees (λ t. needs_space t needed) result seen
unfolding wait_for_space
wait_for_space-Agrees start timeout needed rs s =
    (space_loop-Ends (start + timeout) needed rs start s).ends

Ends-notice :
    {blocked : FlowInner → Bool} (notice : Option ℕ) (later : ℕ → Waited)
    → ((at : ℕ) → Ends blocked (later at))
    → Ends blocked (elim notice as (λ _. Waited) [ none ↦ none | some at ↦ later at ])
Ends-notice none later h = Ends-none
Ends-notice (some at) later h = h at

drained_loop-Ends :
    (deadline : Option ℕ) (rs : List Round) (time : ℕ) (s : FlowInner)
    → Ends has_pending (drained_loop deadline time s rs)
unfolding drained_loop
drained_loop-Ends deadline [] time s =
    Ends-if (has_pending s) (λ e. Ends-none) (λ e. Ends-some ready s time e)
drained_loop-Ends none (r ∷ rs) time s = Ends-ready has_pending s time (
    Ends-ready has_pending r.recheck r.now (
      Ends-notice r.notice (λ at. drained_loop none at r.after rs)
        (λ at. drained_loop-Ends none rs at r.after)))
drained_loop-Ends (some late_at) (r ∷ rs) time s = Ends-ready has_pending s time (
    Ends-ready has_pending r.recheck r.now (
      Ends-if (late_at - r.now == 0 && has_pending r.late)
        (λ e. Ends-some timed_out r.late r.now (ground arith))
        (λ e.
          Ends-wake (wake_of (max r.now late_at) r)
            (λ at. drained_loop (some late_at) at r.after rs)
            (λ at. drained_loop-Ends (some late_at) rs at r.after)
            (Ends-after_deadline has_pending r.after (max r.now late_at)))))

-- Whatever the schedule, `wait_pending_empty` reports success only from an empty queue, and a timeout
-- only from one that is not empty.
pub wait_pending_empty-Agrees :
    (start : ℕ) (timeout : Option ℕ) (rs : List Round) (s : FlowInner) (result : WaitResult)
    (seen : FlowInner) (time : ℕ)
    → wait_pending_empty start timeout s rs ≡ some (result, seen, time)
    → Agrees has_pending result seen
unfolding wait_pending_empty
wait_pending_empty-Agrees start timeout rs s =
    (drained_loop-Ends (deadline_of start timeout) rs start s).ends

-- A loop without a deadline never times out.
drained_loop-patient :
    (rs : List Round) (at : ℕ) (s seen : FlowInner) (time : ℕ)
    → drained_loop none at s rs ≢ some (timed_out, seen, time)
unfolding drained_loop
drained_loop-patient [] at s seen time = ground arith
drained_loop-patient (r ∷ rs) at s seen time =
    by_notice (λ woken. drained_loop-patient rs woken r.after seen time) r.notice (has_pending s)
      (has_pending r.recheck)
  where
    by_notice :
        ((woken : ℕ) → drained_loop none woken r.after rs ≢ some (timed_out, seen, time))
        → (notice : Option ℕ) (a b : Bool)
        → (if not a
            then some (ready, s, at)
            else if not b
            then some (ready, r.recheck, r.now)
            else elim notice as (λ _. Waited) [
              | none ↦ none
              | some woken ↦ drained_loop none woken r.after rs
            ])
          ≢ some (timed_out, seen, time)
    by_notice later notice false b = ground arith
    by_notice later notice true false = ground arith
    by_notice later none true true = ground arith
    by_notice later (some woken) true true = later woken

-- With no timeout `wait_pending_empty` never times out.
pub wait_pending_empty-patient :
    (start : ℕ) (rs : List Round) (s seen : FlowInner) (time : ℕ)
    → wait_pending_empty start none s rs ≢ some (timed_out, seen, time)
unfolding wait_pending_empty
wait_pending_empty-patient start rs s seen time = drained_loop-patient rs start s seen time

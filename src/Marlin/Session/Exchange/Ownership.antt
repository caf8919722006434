-- ===== src/Marlin/Session/Exchange/Ownership.antt =====
-- src/marlin/session.rs: the queue of the commands that wait, whatever the tasks do with it.
use raydriver.Base.{
  Bool, false, not, ◌&&◌, ◌||◌, ℕ, ◌+◌, ◌<◌, ◌≡◌, refl, ap, ◌∙◌, arith, All, List, [], ◌∷◌, ◌++◌,
  ◌==◌, length, length-append, length-modify,
}
use raydriver.Device.{F64}
use raydriver.Marlin.Session.{MarlinConfig, new_pending, finish, MarlinCore, new, mutate}
use raydriver.Marlin.Session.Exchange.Entries.{
  Distinct, All-append-last, All-weaken, Distinct-last, All-without, Distinct-without, occurs,
  count, occurs-last, occurs-without, ended,
}
use raydriver.Marlin.Session.Exchange.{enqueue, drop_entry}
use raydriver.Marlin.Session.Receive.{finish_all, resolve_pending, handle_lines}
use raydriver.Marlin.Session.Receive.Queue.{handle_lines-queue, handle_lines-count}
use raydriver.Text.Regex.{Regex}
use raydriver.Text.Unicode.{Unicode}
use raydriver.Text.Utf8.{Text}

-- What the tasks do to the queue, in any order: an exchange of a user's command or of a poll begins,
-- it ends on some path, lines come in, and a cancellation or a clean-up resolves all.
pub data Act : Type 0 where
  begins : Text → Act
  ends : ℕ → Act
  receives : List Text → Act
  resolves : Act

-- Whether the command `i` is in flight behind these acts, where `made` commands were made before them
-- and `now` says whether it was in flight.
abbrev pub in_flight : ℕ → ℕ → Bool → List Act → Bool
in_flight i made now [] = now
in_flight i made now (begins command ∷ acts) = in_flight i (made + 1) (now || made == i) acts
in_flight i made now (ends j ∷ acts) = in_flight i made (now && not (j == i)) acts
in_flight i made now (receives lines ∷ acts) = in_flight i made now acts
in_flight i made now (resolves ∷ acts) = in_flight i made false acts

module _ {F : F64} where
  -- Every entry of the queue is a command, and no command has two entries.
  pub record IsQueued (s : MarlinCore F) : Type 0 where
    pub bounded : All (λ i. i < length s.commands) s.pending_queue
    pub distinct : Distinct s.pending_queue

  module _ (unicode : Unicode) (re : Regex) where
    abbrev pub act : MarlinCore F → Act → MarlinCore F
    act s (Act.begins command) = enqueue F s command
    act s (Act.ends i) = drop_entry F s i
    act s (Act.receives lines) = handle_lines F unicode re s lines
    act s Act.resolves = resolve_pending F s

    abbrev pub act_all : MarlinCore F → List Act → MarlinCore F
    act_all s [] = s
    act_all s (a ∷ acts) = act_all (act s a) acts

    begins-IsQueued :
        (s : MarlinCore F) (command : Text) → IsQueued s → IsQueued (enqueue F s command)
    begins-IsQueued s command h =
        let longer : length (s.commands ++ new_pending ∷ []) ≡ length s.commands + 1 =
          length-append s.commands (new_pending ∷ []) in
        record {
          bounded =
              All-append-last (λ i. i < length (s.commands ++ new_pending ∷ [])) s.pending_queue
                (length s.commands) (All-weaken s.pending_queue (λ i below. omega arith) h.bounded)
                (omega arith);
          distinct = Distinct-last s.pending_queue _ h.bounded h.distinct;
        }

    ends-IsQueued : (s : MarlinCore F) (i : ℕ) → IsQueued s → IsQueued (drop_entry F s i)
    ends-IsQueued s i h = record {
      bounded = All-without (λ j. j < length s.commands) i s.pending_queue h.bounded;
      distinct = Distinct-without i s.pending_queue h.distinct;
    }

    IsQueued-empty : (t : MarlinCore F) → t.pending_queue ≡ [] → IsQueued t
    IsQueued-empty t e = record { bounded = rw e tt; distinct = rw e tt }

    -- The same queue, over as many commands.
    IsQueued-same :
        (s t : MarlinCore F)
        → t.pending_queue ≡ s.pending_queue
        → length t.commands ≡ length s.commands
        → IsQueued s
        → IsQueued t
    IsQueued-same s t queue_is count_is h = record {
      bounded = rw (queue_is, count_is) h.bounded;
      distinct = rw queue_is h.distinct;
    }

    receives-IsQueued :
        (s : MarlinCore F) (lines : List Text)
        → IsQueued s
        → IsQueued (handle_lines F unicode re s lines)
    receives-IsQueued s lines h =
        IsQueued-same s _ (handle_lines-queue unicode re lines s)
          (handle_lines-count unicode re lines s) h

    finish_all-queue :
        (queue : List ℕ) (s : MarlinCore F) → (finish_all F s queue).pending_queue ≡ s.pending_queue
    unfolding finish_all
    finish_all-queue [] s = refl
    finish_all-queue (i ∷ later) s = finish_all-queue later (mutate F s i finish)

    resolves-IsQueued : (s : MarlinCore F) → IsQueued (resolve_pending F s)
    unfolding resolve_pending
    resolves-IsQueued s =
        IsQueued-empty _ (finish_all-queue s.pending_queue (record s { pending_queue = [] }))

    act-IsQueued : (a : Act) (s : MarlinCore F) → IsQueued s → IsQueued (act s a)
    act-IsQueued (Act.begins command) s h = begins-IsQueued s command h
    act-IsQueued (Act.ends i) s h = ends-IsQueued s i h
    act-IsQueued (Act.receives lines) s h = receives-IsQueued s lines h
    act-IsQueued Act.resolves s h = resolves-IsQueued s

    IsQueued-act_all : (acts : List Act) (s : MarlinCore F) → IsQueued s → IsQueued (act_all s acts)
    IsQueued-act_all [] s h = h
    IsQueued-act_all (a ∷ acts) s h = IsQueued-act_all acts (act s a) (act-IsQueued a s h)

    finished_count :
        (queue : List ℕ) (s : MarlinCore F)
        → length (finish_all F s queue).commands ≡ length s.commands
    unfolding finish_all
    finished_count [] s = refl
    finished_count (i ∷ later) s =
        finished_count later (mutate F s i finish) ∙ length-modify i finish s.commands

    resolved_count : (s : MarlinCore F) → length (resolve_pending F s).commands ≡ length s.commands
    unfolding resolve_pending
    resolved_count s = finished_count s.pending_queue (record s { pending_queue = [] })

    resolved_queue : (s : MarlinCore F) → (resolve_pending F s).pending_queue ≡ []
    unfolding resolve_pending
    resolved_queue s = finish_all-queue s.pending_queue (record s { pending_queue = [] })

    -- The queue behind acts, from any state.
    act_all-occurs :
        (i : ℕ) (acts : List Act) (s : MarlinCore F) (made : ℕ) (now : Bool)
        → IsQueued s
        → length s.commands ≡ made
        → occurs i s.pending_queue ≡ count now
        → occurs i (act_all s acts).pending_queue ≡ count (in_flight i made now acts)
    act_all-occurs i [] s made now h made_is now_is = now_is
    act_all-occurs i (Act.begins command ∷ acts) s made now h made_is now_is =
        act_all-occurs i acts (enqueue F s command) (made + 1) (now || made == i)
          (begins-IsQueued s command h)
          (length-append s.commands (new_pending ∷ []) ∙ ap (λ n. n + 1) made_is)
          (ap (λ n. occurs i (s.pending_queue ++ n ∷ [])) made_is
            ∙ occurs-last i made now s.pending_queue (rw made_is at h.bounded) now_is)
    act_all-occurs i (Act.ends j ∷ acts) s made now h made_is now_is =
        act_all-occurs i acts (drop_entry F s j) made (now && not (j == i)) (ends-IsQueued s j h)
          made_is
          (occurs-without i j s.pending_queue
            ∙ ended (j == i) now (occurs i s.pending_queue) now_is)
    act_all-occurs i (Act.receives lines ∷ acts) s made now h made_is now_is =
        act_all-occurs i acts (handle_lines F unicode re s lines) made now
          (receives-IsQueued s lines h) (handle_lines-count unicode re lines s ∙ made_is)
          (ap (occurs i) (handle_lines-queue unicode re lines s) ∙ now_is)
    act_all-occurs i (Act.resolves ∷ acts) s made now h made_is now_is =
        act_all-occurs i acts (resolve_pending F s) made false (resolves-IsQueued s)
          (resolved_count s ∙ made_is) (ap (occurs i) (resolved_queue s))

    -- In a session that was made anew, whatever exchanges begin and end, whatever is received and
    -- however often all is resolved, in any order: the queue has the commands that are in flight, each
    -- once, and no other: those that were begun, and behind that neither ended nor resolved. Each is the
    -- index of a command that was made.
    pub act_all-IsQueued :
        (config : MarlinConfig) (acts : List Act) (i : ℕ)
        → (occurs i (act_all (new F config) acts).pending_queue ≡ count (in_flight i 0 false acts))
          × IsQueued (act_all (new F config) acts)
    unfolding new
    act_all-IsQueued config acts i =
        let h : IsQueued (new F config) = record { bounded = tt; distinct = tt } in
        (
          act_all-occurs i acts (new F config) 0 false h refl refl,
          IsQueued-act_all acts (new F config) h,
        )

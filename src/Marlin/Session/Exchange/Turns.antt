-- ===== src/Marlin/Session/Exchange/Turns.antt =====
-- src/marlin/session.rs: several commands in flight, each of which has its answer before the next.
use raydriver.Base.{
  ℕ, ◌≡◌, ◌≢◌, refl, ap, ◌∙◌, sym, inl, inr, Bool-cases, All, List, [], ◌∷◌, ◌==◌, ==_iff,
  get_elem?, modify, through, get_elem?-modify-through, get_elem?-modify-other,
}
use raydriver.Device.{F64}
use raydriver.Marlin.Session.{PendingCmd, MarlinCore}
use raydriver.Marlin.Session.Exchange.{without, drop_entry}
use raydriver.Marlin.Session.Exchange.Entries.{Distinct}
use raydriver.Marlin.Session.Receive.{handle_lines}
use raydriver.Marlin.Session.Receive.Front.{hear_all}
use raydriver.Marlin.Session.Receive.Queue.{handle_lines-commands}
use raydriver.Text.Regex.{Regex}
use raydriver.Text.Unicode.{Unicode}
use raydriver.Text.Utf8.{Text}

without-fresh : (i : ℕ) (queue : List ℕ) → All (λ j. j ≢ i) queue → without i queue ≡ queue
unfolding without
without-fresh i [] h = refl
without-fresh i (j ∷ queue) (differ, h) = elim (Bool-cases (j == i)) [
  | inl e ↦ absurd (differ ((==_iff j i).0 e))
  | inr e ↦ rw e (ap (◌∷◌ j) (without-fresh i queue h))
]

without-front : (i : ℕ) (queue : List ℕ) → All (λ j. j ≢ i) queue → without i (i ∷ queue) ≡ queue
unfolding without
without-front i queue h = rw ((==_iff i i).1 refl) (without-fresh i queue h)

-- The abstract exchange: the commands of the queue, in order, hear one after the other the answers.
abbrev pub Answered :
    Unicode → List ℕ → List (List Text) → List PendingCmd → List PendingCmd → Type 0
Answered unicode [] answers before after = Unit
Answered unicode (i ∷ queue) [] before after = Unit
Answered unicode (i ∷ queue) (answer ∷ rest) before after =
    (get_elem? after i ≡ through (hear_all unicode answer) (get_elem? before i))
    × Answered unicode queue rest before after

Answered-same :
    (unicode : Unicode) (queue : List ℕ) (answers : List (List Text))
    (before earlier after : List PendingCmd)
    → All (λ j. get_elem? before j ≡ get_elem? earlier j) queue
    → Answered unicode queue answers before after
    → Answered unicode queue answers earlier after
Answered-same unicode [] answers before earlier after same h = tt
Answered-same unicode (i ∷ queue) [] before earlier after same h = tt
Answered-same unicode (i ∷ queue) (answer ∷ rest) before earlier after (e, same) (first, h) = (
  first ∙ ap (through (hear_all unicode answer)) e,
  Answered-same unicode queue rest before earlier after same h,
)

module _ {F : F64} (unicode : Unicode) (re : Regex) where
  -- Each task that waits takes its entry out of the queue before the next answer comes in.
  abbrev pub turns : List ℕ → MarlinCore F → List (List Text) → MarlinCore F
  turns [] s answers = s
  turns (i ∷ queue) s [] = s
  turns (i ∷ queue) s (answer ∷ rest) =
      turns queue (drop_entry F (handle_lines F unicode re s answer) i) rest

  unchanged :
      (s : MarlinCore F) (i : ℕ) (answer : List Text) (queue : List ℕ)
      → (handle_lines F unicode re s answer).commands
        ≡ modify i (hear_all unicode answer) s.commands
      → All (λ j. j ≢ i) queue
      → All
          (λ j. get_elem? (handle_lines F unicode re s answer).commands j ≡ get_elem? s.commands j)
          queue
  unchanged s i answer [] e h = tt
  unchanged s i answer (j ∷ queue) e (differ, h) = (
    ap (λ l. get_elem? l j) e ∙ get_elem?-modify-other i j _ s.commands differ,
    unchanged s i answer queue e h,
  )

  -- The queue behind the front's turn.
  next_queue :
      (s : MarlinCore F) (i : ℕ) (queue : List ℕ) (answer : List Text)
      → All (λ j. j ≢ i) queue
      → s.pending_queue ≡ i ∷ queue
      → (drop_entry F (handle_lines F unicode re s answer) i).pending_queue ≡ queue
  next_queue s i queue answer fresh e =
      ap (without i) (handle_lines-commands unicode re answer s i queue e).1
      ∙ without-front i queue fresh

  turns-other :
      (queue : List ℕ) (s : MarlinCore F) (answers : List (List Text)) (k : ℕ)
      → s.pending_queue ≡ queue
      → Distinct queue
      → All (λ j. j ≢ k) queue
      → get_elem? (turns queue s answers).commands k ≡ get_elem? s.commands k
  turns-other [] s answers k e distinct h = refl
  turns-other (i ∷ queue) s [] k e distinct h = refl
  turns-other (i ∷ queue) s (answer ∷ rest) k e (fresh, distinct) (differ, h) =
      turns-other queue (drop_entry F (handle_lines F unicode re s answer) i) rest k
        (next_queue s i queue answer fresh e) distinct h
      ∙ ap (λ l. get_elem? l k) (handle_lines-commands unicode re answer s i queue e).0
      ∙ get_elem?-modify-other i k _ s.commands (λ d. differ (sym d))

  -- With several commands in flight, be they of the user or polls, the queue implements the abstract
  -- exchange: where each command's task takes its entry out before the next answer comes in, every
  -- command gets exactly its own answer, in the order of the queue.
  pub turns-Answered :
      (queue : List ℕ) (s : MarlinCore F) (answers : List (List Text))
      → s.pending_queue ≡ queue
      → Distinct queue
      → Answered unicode queue answers s.commands (turns queue s answers).commands
  turns-Answered [] s answers e distinct = tt
  turns-Answered (i ∷ queue) s [] e distinct = tt
  turns-Answered (i ∷ queue) s (answer ∷ rest) e (fresh, distinct) =
      let heard = handle_lines F unicode re s answer in
      let next = next_queue s i queue answer fresh e in
      let commands_are = (handle_lines-commands unicode re answer s i queue e).0 in
      (
        turns-other queue (drop_entry F heard i) rest i next distinct fresh
            ∙ ap (λ l. get_elem? l i) commands_are
            ∙ get_elem?-modify-through i _ s.commands,
        Answered-same unicode queue rest heard.commands s.commands
            (turns queue (drop_entry F heard i) rest).commands
            (unchanged s i answer queue commands_are fresh)
            (turns-Answered queue (drop_entry F heard i) rest next distinct),
      )

-- ===== src/Marlin/Session/Exchange/Entries.antt =====
-- src/marlin/session.rs: the entries of the queue, which are the indices of commands.
use raydriver.Base.{
  Bool, true, false, not, ◌&&◌, ◌||◌, if◌then◌else◌, ℕ, ◌+◌, ◌<◌, ◌≡◌, ◌≢◌, refl, ◌∙◌, inl, inr,
  arith, Bool-cases, All, List, [], ◌∷◌, ◌++◌, ◌==◌, ==_iff,
}
use raydriver.Marlin.Session.Exchange.{without}

abbrev pub Distinct : List ℕ → Type 0
Distinct [] = Unit
Distinct (i ∷ queue) = All (λ j. j ≢ i) queue × Distinct queue

pub All-append-last :
    (P : ℕ → Type 0) (queue : List ℕ) (n : ℕ) → All P queue → P n → All P (queue ++ n ∷ [])
All-append-last P [] n h p = (p, tt)
All-append-last P (i ∷ queue) n (first, h) p = (first, All-append-last P queue n h p)

pub All-weaken :
    {P Q : ℕ → Type 0} (queue : List ℕ) → ((i : ℕ) → P i → Q i) → All P queue → All Q queue
All-weaken [] f h = tt
All-weaken (i ∷ queue) f (first, h) = (f i first, All-weaken queue f h)

pub Distinct-last :
    (queue : List ℕ) (n : ℕ) → All (λ j. j < n) queue → Distinct queue → Distinct (queue ++ n ∷ [])
Distinct-last [] n below distinct = (tt, tt)
Distinct-last (i ∷ queue) n (first, below) (fresh, distinct) = (
  All-append-last (λ j. j ≢ i) queue n fresh (λ e. omega arith),
  Distinct-last queue n below distinct,
)

pub All-without : (P : ℕ → Type 0) (i : ℕ) (queue : List ℕ) → All P queue → All P (without i queue)
unfolding without
All-without P i [] h = tt
All-without P i (j ∷ queue) (first, h) = elim (Bool-cases (j == i)) [
  | inl e ↦ rw e (All-without P i queue h)
  | inr e ↦ rw e (first, All-without P i queue h)
]

pub Distinct-without : (i : ℕ) (queue : List ℕ) → Distinct queue → Distinct (without i queue)
unfolding without
Distinct-without i [] h = tt
Distinct-without i (j ∷ queue) (fresh, h) = elim (Bool-cases (j == i)) [
  | inl e ↦ rw e (Distinct-without i queue h)
  | inr e ↦ rw e (All-without (λ k. k ≢ j) i queue fresh, Distinct-without i queue h)
]

-- How often an index is in the queue.
abbrev pub occurs : ℕ → List ℕ → ℕ
occurs i [] = 0
occurs i (j ∷ queue) = (if j == i then 1 else 0) + occurs i queue

abbrev pub count : Bool → ℕ
count true = 1
count false = 0

occurs-append :
    (i : ℕ) (queue more : List ℕ) → occurs i (queue ++ more) ≡ occurs i queue + occurs i more
occurs-append i [] more = omega arith
occurs-append i (j ∷ queue) more = let h = occurs-append i queue more in omega (arith, h)

occurs-beyond : (i : ℕ) (queue : List ℕ) → All (λ j. j < i) queue → occurs i queue ≡ 0
occurs-beyond i [] h = refl
occurs-beyond i (j ∷ queue) (below, h) =
    let others = occurs-beyond i queue h in ground (arith, others)

pub occurs-last :
    (i made : ℕ) (now : Bool) (queue : List ℕ)
    → All (λ j. j < made) queue
    → occurs i queue ≡ count now
    → occurs i (queue ++ made ∷ []) ≡ count (now || made == i)
occurs-last i made now queue below now_is = elim (Bool-cases (made == i)) [
  | inl e ↦
      let same : made ≡ i = (==_iff made i).0 e in
      let none_before = occurs-beyond i queue (rw same at below) in
      occurs-append i queue (made ∷ []) ∙ rw e (new_one now none_before now_is)
  | inr e ↦ occurs-append i queue (made ∷ []) ∙ rw e (old_one now now_is)
]
  where
    new_one :
        (now : Bool)
        → occurs i queue ≡ 0
        → occurs i queue ≡ count now
        → occurs i queue + (1 + 0) ≡ count (now || true)
    new_one false none_before now_is = omega (arith, none_before)
    new_one true none_before now_is = omega (arith, none_before, now_is)

    old_one :
        (now : Bool) → occurs i queue ≡ count now → occurs i queue + (0 + 0) ≡ count (now || false)
    old_one false now_is = omega (arith, now_is)
    old_one true now_is = omega (arith, now_is)

pub occurs-without :
    (i j : ℕ) (queue : List ℕ) → occurs i (without j queue) ≡ (if j == i then 0 else occurs i queue)
unfolding without
occurs-without i j [] = ground arith
occurs-without i j (k ∷ queue) = let others = occurs-without i j queue in ground (arith, others)

pub ended :
    (same now : Bool) (n : ℕ) → n ≡ count now → (if same then 0 else n) ≡ count (now && not same)
ended true true n e = refl
ended true false n e = refl
ended false true n e = e
ended false false n e = e

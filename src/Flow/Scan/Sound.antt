-- ===== src/Flow/Scan/Sound.antt =====
-- src/grbl/flow.rs: what the searches of the byte buffer find, and that they find the first.
use raydriver.Base.{
  ℕ, zero, suc, ◌≤◌, ◌<◌, ◌≡◌, inl, inr, refl, true, false, [], ◌∷◌, Option, none, some, arith,
  ◌==◌, drop, length, get_elem?, length-drop, Option-cases, Bool-cases,
}
use raydriver.Flow.Scan.{shift, position, first_window, find_subslice}
use raydriver.Text.Affix.{starts_with}
use raydriver.Text.Utf8.{Bytes}

pub shift-some : (o : Option ℕ) {i : ℕ} → shift o ≡ some i → (k : ℕ) × (o ≡ some k) × (i ≡ suc k)
shift-some none e = cc
shift-some (some k) e = (k, refl, cc)

-- `position` gives an index in range at which the byte stands.
pub position-some :
    (byte : ℕ) (bs : Bytes) {i : ℕ}
    → position byte bs ≡ some i
    → (i < length bs) × (get_elem? bs i ≡ some byte)
unfolding position
position-some byte [] e = cc
position-some byte (b ∷ bs) e = elim (Bool-cases (b == byte)) [
  | inl h ↦ ground arith
  | inr h ↦
      let later : shift (position byte bs) ≡ some _ = rw h at e in
      let (k, found, i_is) = shift-some (position byte bs) later in
      let (below, there) = position-some byte bs found in (omega arith, rw (i_is) there)
]

pub position-drop-none :
    (byte n : ℕ) (bs : Bytes) → position byte bs ≡ none → position byte (drop n bs) ≡ none
unfolding position
position-drop-none byte zero bs e = e
position-drop-none byte (suc n) [] e = refl
position-drop-none byte (suc n) (b ∷ bs) e = position-drop-none byte n bs (ground arith)

-- No byte that `position` misses stands anywhere.
pub position-none :
    (byte : ℕ) (bs : Bytes) (i : ℕ) → position byte bs ≡ none → get_elem? bs i ≡ some byte → ⊥
unfolding position
position-none byte [] i e h = cc
position-none byte (b ∷ bs) zero e h = ground arith
position-none byte (b ∷ bs) (suc i) e h = position-none byte bs i (ground arith) h

-- An occurrence of a needle at an index.
abbrev pub OccursAt : Bytes → Bytes → ℕ → Type 0
OccursAt needle bs i = starts_with needle (drop i bs) ≡ true

first_window-some :
    (needle bs : Bytes) {i : ℕ}
    → first_window needle bs ≡ some i
    → OccursAt needle bs i × ((j : ℕ) → j < i → ¬ (OccursAt needle bs j))
unfolding first_window
first_window-some needle [] e = cc
first_window-some needle (b ∷ bs) {i} e = elim (Bool-cases (starts_with needle (b ∷ bs))) [
  | inl h ↦ let at_once : i ≡ 0 = ground arith in (rw at_once h, λ j below. absurd (omega arith))
  | inr h ↦
      let later : shift (first_window needle bs) ≡ some i = rw h at e in
      let (k, found, i_is) = shift-some (first_window needle bs) later in
      let (there, first) = first_window-some needle bs found in
      (rw i_is there, λ j below. before h first i_is j below)
]
  where
    before :
        {i k : ℕ}
        → starts_with needle (b ∷ bs) ≡ false
        → ((j : ℕ) → j < k → ¬ (OccursAt needle bs j))
        → i ≡ suc k
        → (j : ℕ) → j < i
        → ¬ (OccursAt needle (b ∷ bs) j)
    before h first e zero below o = cc
    before h first e (suc j) below o = first j (omega arith) o

first_window-none :
    (needle bs : Bytes) (j : ℕ)
    → j < length bs
    → first_window needle bs ≡ none
    → ¬ (OccursAt needle bs j)
unfolding first_window
first_window-none needle [] j below e o = absurd (omega arith)
first_window-none needle (b ∷ bs) zero below e o = ground arith
first_window-none needle (b ∷ bs) (suc j) below e o =
    first_window-none needle bs j (omega arith) (ground arith) o

-- What a prefix test accepts is as long as the prefix.
pub starts_with-length : (p t : Bytes) → starts_with p t ≡ true → length p ≤ length t
unfolding starts_with
starts_with-length [] t h = omega arith
starts_with-length (a ∷ p) [] h = cc
starts_with-length (a ∷ p) (c ∷ t) h = omega (arith, starts_with-length p t (ground arith))

-- The answer of a search for a needle: the first occurrence, or that there is none.
abbrev pub IsFirst : Bytes → Bytes → Option ℕ → Type 0
IsFirst needle bs none = (j : ℕ) → ¬ (OccursAt needle bs j)
IsFirst needle bs (some i) = OccursAt needle bs i × ((j : ℕ) → j < i → ¬ (OccursAt needle bs j))

find_subslice-none :
    (haystack : Bytes) (a : ℕ) (rest : Bytes) (j : ℕ)
    → find_subslice haystack (a ∷ rest) ≡ none
    → ¬ (OccursAt (a ∷ rest) haystack j)
unfolding find_subslice
find_subslice-none haystack a rest j e o =
    let fits = starts_with-length (a ∷ rest) (drop j haystack) o in
    first_window-none (a ∷ rest) haystack j (omega (arith, length-drop j haystack))
      (ground (arith, length-drop j haystack)) o

find_subslice-some :
    (haystack : Bytes) (a : ℕ) (rest : Bytes) {i : ℕ}
    → find_subslice haystack (a ∷ rest) ≡ some i
    → IsFirst (a ∷ rest) haystack (some i)
unfolding find_subslice
find_subslice-some haystack a rest e = first_window-some (a ∷ rest) haystack (ground arith)

-- `find_subslice` of a needle that is not empty: `some i` is the index of its first occurrence, and
-- `none` means that it occurs nowhere.
pub find_subslice-IsFirst :
    (haystack : Bytes) (a : ℕ) (rest : Bytes)
    → IsFirst (a ∷ rest) haystack (find_subslice haystack (a ∷ rest))
find_subslice-IsFirst haystack a rest = elim (Option-cases (find_subslice haystack (a ∷ rest))) [
  | inl e ↦ rw e (λ j. find_subslice-none haystack a rest j e)
  | inr (i, e) ↦ rw e (find_subslice-some haystack a rest e)
]

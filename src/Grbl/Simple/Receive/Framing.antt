-- ===== src/Grbl/Simple/Receive/Framing.antt =====
-- src/grbl/simple.rs: how the bytes of several reads are split into lines.
use raydriver.Base.{
  ℕ, zero, suc, ◌+◌, ◌-◌, ◌≤◌, ◌≡◌, refl, ap, ◌∙◌, sym, inl, inr, arith, Bool-cases, List, [], ◌∷◌,
  ◌++◌, ++_assoc, ◌==◌, none, some, Option-cases, length, take, drop, length-drop, length-append,
}
use raydriver.Flow.Scan.{shift, position}
use raydriver.Flow.Scan.Sound.{shift-some, position-some}
use raydriver.Grbl.Simple.Receive.{decoded_lines, drain_lines}
use raydriver.Text.Utf8.{Bytes, Text}

position-append :
    (byte : ℕ) (a b : Bytes) {i : ℕ} → position byte a ≡ some i → position byte (a ++ b) ≡ some i
unfolding position
position-append byte [] b e = cc e
position-append byte (c ∷ a) b e = elim (Bool-cases (c == byte)) [
  | inl h ↦ rw h (rw h at e)
  | inr h ↦
      let later : shift (position byte a) ≡ some _ = rw h at e in
      let (k, found, i_is) = shift-some (position byte a) later in
      rw h (ap shift (position-append byte a b found ∙ sym found) ∙ later)
]

take-append : (n : ℕ) (a b : Bytes) → n ≤ length a → take n (a ++ b) ≡ take n a
take-append zero a b h = refl
take-append (suc n) [] b h = ground arith
take-append (suc n) (c ∷ a) b h = ap (◌∷◌ c) (take-append n a b (omega arith))

drop-append : (n : ℕ) (a b : Bytes) → n ≤ length a → drop n (a ++ b) ≡ drop n a ++ b
drop-append zero a b h = refl
drop-append (suc n) [] b h = ground arith
drop-append (suc n) (c ∷ a) b h = drop-append n a b (omega arith)

-- A line in front of what follows.
abbrev behind : List Text → List Text × Bytes → List Text × Bytes
behind first later = (first ++ later.0, later.1)

behind-behind :
    (xs ys : List Text) (later : List Text × Bytes)
    → behind xs (behind ys later) ≡ behind (xs ++ ys) later
behind-behind xs ys later = ap (λ l. (l, later.1)) (sym (++_assoc xs ys later.0))

drain_lines-none :
    (n : ℕ) (buffer : Bytes) → position b'\n' buffer ≡ none → drain_lines n buffer ≡ ([], buffer)
unfolding drain_lines
drain_lines-none zero buffer e = refl
drain_lines-none (suc n) buffer e = rw (e, drain_lines) refl

drain_lines-some :
    (n : ℕ) (buffer : Bytes) {nl : ℕ}
    → position b'\n' buffer ≡ some nl
    → drain_lines (suc n) buffer
      ≡ behind (decoded_lines (take (suc nl) buffer)) (drain_lines n (drop (suc nl) buffer))
unfolding drain_lines
drain_lines-some n buffer e = rw (e, drain_lines) refl

-- Enough fuel is as good as more.
drain_lines-fuel :
    (n m : ℕ) (buffer : Bytes)
    → length buffer ≤ n
    → length buffer ≤ m
    → drain_lines n buffer ≡ drain_lines m buffer
unfolding drain_lines position
drain_lines-fuel zero zero buffer h k = refl
drain_lines-fuel zero (suc m) [] h k = refl
drain_lines-fuel zero (suc m) (c ∷ buffer) h k = ground arith
drain_lines-fuel (suc n) zero [] h k = refl
drain_lines-fuel (suc n) zero (c ∷ buffer) h k = ground arith
drain_lines-fuel (suc n) (suc m) buffer h k = elim (Option-cases (position b'\n' buffer)) [
  | inl e ↦ drain_lines-none (suc n) buffer e ∙ sym (drain_lines-none (suc m) buffer e)
  | inr (nl, e) ↦
      let shorter : length (drop (suc nl) buffer) ≡ length buffer - suc nl =
        length-drop (suc nl) buffer in
      drain_lines-some n buffer e
      ∙ ap (behind (decoded_lines (take (suc nl) buffer)))
          (drain_lines-fuel n m (drop (suc nl) buffer) (omega arith) (omega arith))
      ∙ sym (drain_lines-some m buffer e)
]

-- The lines of what was left over and of the bytes behind it.
abbrev pub drain_again : Bytes → List Text × Bytes → List Text × Bytes
drain_again b first = behind first.0 (drain_lines (length (first.1 ++ b)) (first.1 ++ b))

pub drain_lines-append :
    (n : ℕ) (a b : Bytes)
    → length a ≤ n
    → drain_lines (length (a ++ b)) (a ++ b) ≡ drain_again b (drain_lines n a)
unfolding drain_lines
drain_lines-append zero a b h = refl
drain_lines-append (suc n) a b h = elim (Option-cases (position b'\n' a)) [
  | inl e ↦ sym (ap (drain_again b) (drain_lines-none (suc n) a e))
  | inr (nl, e) ↦
      let (below, there) = position-some b'\n' a e in
      let kept = drop-append (suc nl) a b (omega arith) in
      let taken = take-append (suc nl) a b (omega arith) in
      let first = decoded_lines (take (suc nl) a) in
      let count : length (a ++ b) ≡ length a + length b = length-append a b in
      let rest_count : length (drop (suc nl) a ++ b) ≡ length (drop (suc nl) a) + length b =
        length-append (drop (suc nl) a) b in
      let shorter : length (drop (suc nl) a) ≡ length a - suc nl = length-drop (suc nl) a in
      drain_lines-fuel (length (a ++ b)) (suc (length (a ++ b))) (a ++ b) (omega arith)
        (omega arith)
      ∙ drain_lines-some (length (a ++ b)) (a ++ b) (position-append b'\n' a b e)
      ∙ ap (λ l. behind (decoded_lines l) (drain_lines (length (a ++ b)) (drop (suc nl) (a ++ b))))
          taken
      ∙ ap (λ l. behind first (drain_lines (length (a ++ b)) l)) kept
      ∙ ap (behind first) (
          drain_lines-fuel (length (a ++ b)) (length (drop (suc nl) a ++ b)) (drop (suc nl) a ++ b)
            (omega arith) (omega arith)
          ∙ drain_lines-append n (drop (suc nl) a) b (omega arith))
      ∙ behind-behind first (drain_lines n (drop (suc nl) a)).0 _
      ∙ sym (ap (drain_again b) (drain_lines-some n a e))
]

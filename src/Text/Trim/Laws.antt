-- ===== src/Text/Trim/Laws.antt =====
-- Trimming twice is trimming once, and trimming brings no character in.
use raydriver.Base.{ℕ, ◌≡◌, refl, inl, inr, Bool, false, [], ◌∷◌, arith, Bool-cases}
use raydriver.Text.Affix.{contains_char}
use raydriver.Text.Trim.{drop_while, drop_while_end, is_whitespace, trim, trim_start, trim_end}
use raydriver.Text.Utf8.{Text}

module _ (p : ℕ → Bool) where
  -- The first character, if any, fails the test.
  abbrev NoHead : Text → Type 0
  NoHead [] = Unit
  NoHead (c ∷ t) = p c ≡ false

  drop_while-NoHead : (t : Text) → NoHead (drop_while p t)
  unfolding drop_while
  drop_while-NoHead [] = tt
  drop_while-NoHead (c ∷ t) = elim (Bool-cases (p c)) [
    | inl h ↦ rw h (drop_while-NoHead t)
    | inr h ↦ rw h h
  ]

  drop_while-of_NoHead : (t : Text) → NoHead t → drop_while p t ≡ t
  unfolding drop_while
  drop_while-of_NoHead [] h = refl
  drop_while-of_NoHead (c ∷ t) h = rw h refl

  drop_while_end-NoHead : (t : Text) → NoHead t → NoHead (drop_while_end p t)
  unfolding drop_while_end
  drop_while_end-NoHead [] h = tt
  drop_while_end-NoHead (c ∷ t) h = rw h h

  drop_while_end_idem : (t : Text) → drop_while_end p (drop_while_end p t) ≡ drop_while_end p t
  unfolding drop_while_end
  drop_while_end_idem [] = refl
  drop_while_end_idem (c ∷ t) = ground (arith, drop_while_end_idem t)

  contains_char-drop_while :
      (s : ℕ) (t : Text) → contains_char s t ≡ false → contains_char s (drop_while p t) ≡ false
  unfolding contains_char drop_while
  contains_char-drop_while s [] h = refl
  contains_char-drop_while s (c ∷ t) h = ground (arith, contains_char-drop_while s t)

  contains_char-drop_while_end :
      (s : ℕ) (t : Text) → contains_char s t ≡ false → contains_char s (drop_while_end p t) ≡ false
  unfolding contains_char drop_while_end
  contains_char-drop_while_end s [] h = refl
  contains_char-drop_while_end s (c ∷ t) h = ground (arith, contains_char-drop_while_end s t)

pub trim_idem : (t : Text) → trim (trim t) ≡ trim t
unfolding trim trim_start trim_end
trim_idem t =
    let u = drop_while is_whitespace t in
    let kept = drop_while_end-NoHead is_whitespace u (drop_while-NoHead is_whitespace t) in
    rw (drop_while-of_NoHead is_whitespace (drop_while_end is_whitespace u) kept)
      (drop_while_end_idem is_whitespace u)

pub contains_char-trim :
    (s : ℕ) (t : Text) → contains_char s t ≡ false → contains_char s (trim t) ≡ false
unfolding trim trim_start trim_end
contains_char-trim s t h =
    contains_char-drop_while_end is_whitespace s (drop_while is_whitespace t)
      (contains_char-drop_while is_whitespace s t h)

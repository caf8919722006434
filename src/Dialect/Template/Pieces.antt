-- ===== src/Dialect/Template/Pieces.antt =====
-- src/core/dialect.rs: `format_template` against a template that is given as its pieces.
use raydriver.Base.{
  ℕ, zero, suc, ◌≤◌, ◌<◌, ◌≡◌, refl, ap, ◌∙◌, inl, inr, false, List, [], ◌∷◌, ◌++◌, Option, none,
  some, arith, length, length-append, All, Option-cases, ++_assoc, ++_nil,
}
use raydriver.Device.{F64}
use raydriver.Dialect.Template.{
  TemplateError, Formatted, Arg, render, name_and_spec, format_loop, format_template,
}
use raydriver.Text.Affix.{split_once, contains_char}
use raydriver.Text.Dict.{lookup}
use raydriver.Text.Utf8.{Text}

pub data Piece : Type 0 where
  literal : Text → Piece
  placeholder : Text → Option Text → Piece

abbrev pub inner : Text → Option Text → Text
inner name none = name
inner name (some spec) = name ++ b':' ∷ spec

-- The template that the pieces stand for.
abbrev pub show : List Piece → Text
show [] = []
show (literal t ∷ ps) = t ++ show ps
show (placeholder name spec ∷ ps) = b'{' ∷ inner name spec ++ b'}' ∷ show ps

abbrev pub IsPiece : Piece → Type 0
IsPiece (literal t) = contains_char b'{' t ≡ false
IsPiece (placeholder name spec) =
    (contains_char b':' name ≡ false) × (contains_char b'}' (inner name spec) ≡ false)

split_once-miss : (s : ℕ) (a : Text) → contains_char s a ≡ false → split_once s a ≡ none
unfolding split_once contains_char
split_once-miss s [] e = refl
split_once-miss s (c ∷ a) e = ground (arith, split_once-miss s a)

split_once-hit :
    (s : ℕ) (a b : Text) → contains_char s a ≡ false → split_once s (a ++ s ∷ b) ≡ some (a, b)
unfolding split_once contains_char
split_once-hit s [] b e = ground arith
split_once-hit s (c ∷ a) b e = ground (arith, split_once-hit s a b)

contains_char-append :
    (s : ℕ) (a b : Text)
    → contains_char s a ≡ false
    → contains_char s b ≡ false
    → contains_char s (a ++ b) ≡ false
unfolding contains_char
contains_char-append s [] b e f = f
contains_char-append s (c ∷ a) b e f = ground (arith, contains_char-append s a b)

abbrev placeholders : List Piece → ℕ
placeholders [] = 0
placeholders (literal t ∷ ps) = placeholders ps
placeholders (placeholder name spec ∷ ps) = suc (placeholders ps)

placeholders-le : (ps : List Piece) → placeholders ps ≤ length (show ps)
placeholders-le [] = omega arith
placeholders-le (literal t ∷ ps) = omega (arith, placeholders-le ps, length-append t (show ps))
placeholders-le (placeholder name spec ∷ ps) =
    omega (arith, placeholders-le ps, length-append (inner name spec) (b'}' ∷ show ps))

module _ (F : F64) (args : List (Text × Arg F)) where
  -- The pieces filled in one after the other; the first placeholder without a value is the error.
  abbrev pub fill : Text → List Piece → Formatted
  fill out [] = Formatted.formatted out
  fill out (literal t ∷ ps) = fill (out ++ t) ps
  fill out (placeholder name spec ∷ ps) = elim (lookup name args) [
    | none ↦ Formatted.refused (TemplateError.no_value name)
    | some arg ↦ fill (out ++ render F arg spec) ps
  ]

  name_and_spec-inner :
      (name : Text) (spec : Option Text)
      → contains_char b':' name ≡ false
      → name_and_spec F (inner name spec) ≡ (name, spec)
  unfolding name_and_spec
  name_and_spec-inner name none e = rw (split_once-miss b':' name e, name_and_spec) refl
  name_and_spec-inner name (some spec) e = rw (split_once-hit b':' name spec e, name_and_spec) refl

  -- A round of the loop, for the name and the spec that were read.
  abbrev round : Text → ℕ → Text → Text → Text × Option Text → Formatted
  round template fuel out behind named = elim (lookup named.0 args) [
    | none ↦ Formatted.refused (TemplateError.no_value named.0)
    | some arg ↦ format_loop F template args fuel (out ++ render F arg named.1) behind
  ]

  format_loop-fill :
      (template : Text) (ps : List Piece) (fuel : ℕ) (out before : Text)
      → All IsPiece ps
      → contains_char b'{' before ≡ false
      → placeholders ps < fuel
      → format_loop F template args fuel out (before ++ show ps) ≡ fill (out ++ before) ps
  unfolding format_loop contains_char
  format_loop-fill template ps zero out before good free less = ground (arith, less)
  format_loop-fill template [] (suc fuel) out before good free less =
      let none_left = split_once-miss b'{' (before ++ []) (rw (++_nil before) free) in
      rw (none_left, format_loop) (ap (λ r. Formatted.formatted (out ++ r)) (++_nil before))
  format_loop-fill template (literal t ∷ ps) (suc fuel) out before (fine, good) free less =
      rw⁻¹ (++_assoc before t (show ps)) (
        rw (++_assoc out before t) (
          format_loop-fill template ps (suc fuel) out (before ++ t) good
            (contains_char-append b'{' before t free fine) less))
  format_loop-fill template (placeholder name spec ∷ ps) (suc fuel) out before
        ((no_colon, no_brace), good) free less =
      let found = split_once-hit b'{' before (inner name spec ++ b'}' ∷ show ps) free in
      let closed = split_once-hit b'}' (inner name spec) (show ps) no_brace in
      rw (found, format_loop)
        (rw closed (
          ap (round template fuel (out ++ before) (show ps))
            (name_and_spec-inner name spec no_colon)
          ∙ elim (Option-cases (lookup name args)) [
            | inl e ↦ rw (e, round, fill) refl
            | inr (arg, e) ↦
                let more =
                  format_loop-fill template ps fuel ((out ++ before) ++ render F arg spec) [] good
                    refl (omega (arith, less)) in
                rw (e, round, fill)
                  (more ∙ ap (λ r. fill r ps) (++_nil ((out ++ before) ++ render F arg spec)))
          ]))

  -- A template that is written as literal pieces without `{`, and placeholders, gives the pieces
  -- filled in, in order: each placeholder the value of its name in its spec. The first placeholder
  -- without a value is the error.
  pub format_template-fill :
      (ps : List Piece) → All IsPiece ps → format_template F (show ps) args ≡ fill [] ps
  unfolding format_template contains_char
  format_template-fill ps good =
      format_loop-fill (show ps) ps (suc (length (show ps))) [] [] good refl
        (omega (arith, placeholders-le ps))

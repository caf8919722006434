-- ===== src/Grbl/Parser/Commands/Laws.antt =====
-- src/grbl/parser.rs: what the helpers on command lines give.
use mathlib.Core.List.{append_assoc, append-nil}
use raydriver.Base.{
  ℕ, ◌+◌, ◌≤◌, ◌≡◌, refl, ◌∙◌, ◌↔◌, inl, inr, Bool, false, not, List, [], ◌∷◌, ◌++◌, some, arith,
  if◌then◌else◌, Bool-cases, Option-cases,
}
use raydriver.Base.Int.{ℤ, pos, negsuc}
use raydriver.Grbl.Parser.Commands.{
  is_realtime, split_realtime_from, split_realtime_commands, until_semicolon, strip_gcode_comments,
  gcode_to_p_number, p_number_of,
}
use raydriver.Text.Affix.{contains_char, strip_prefix}
use raydriver.Text.Number.{parse_i64}
use raydriver.Text.Regex.{Regex}
use raydriver.Text.Trim.{trim}
use raydriver.Text.Trim.Laws.{trim_idem, contains_char-trim}
use raydriver.Text.Utf8.{Text, codes}

-- The elements that pass a test, in their order.
abbrev pub select {ℓ} : {A : Type ℓ} → (A → Bool) → List A → List A
select p [] = []
select p (x ∷ xs) = if p x then x ∷ select p xs else select p xs

split_realtime_from-select :
    (lines gcode realtime : List Text)
    → split_realtime_from gcode realtime lines
      ≡ (gcode ++ select (λ l. not (is_realtime l)) lines, realtime ++ select is_realtime lines)
unfolding split_realtime_from
split_realtime_from-select [] gcode realtime = rw (append-nil gcode, append-nil realtime) refl
split_realtime_from-select (line ∷ rest) gcode realtime = elim (Bool-cases (is_realtime line)) [
  | inl h ↦
      rw (h, split_realtime_from)
        (split_realtime_from-select rest gcode (realtime ++ line ∷ [])
          ∙ rw (append_assoc realtime (line ∷ []) (select is_realtime rest)) refl)
  | inr h ↦
      rw (h, split_realtime_from)
        (split_realtime_from-select rest (gcode ++ line ∷ []) realtime
          ∙ rw (append_assoc gcode (line ∷ []) (select (λ l. not (is_realtime l)) rest)) refl)
]

-- `split_realtime_commands` gives the lines that are no realtime command and those that are, each
-- in the order in which they came: nothing is lost, and no realtime character goes with the gcode.
pub split_realtime_commands-select :
    (lines : List Text)
    → split_realtime_commands lines
      ≡ (select (λ l. not (is_realtime l)) lines, select is_realtime lines)
unfolding split_realtime_commands
split_realtime_commands-select lines = split_realtime_from-select lines [] []

until_semicolon-contains_char : (t : Text) → contains_char b';' (until_semicolon t) ≡ false
unfolding contains_char until_semicolon
until_semicolon-contains_char [] = refl
until_semicolon-contains_char (c ∷ t) = ground (arith, until_semicolon-contains_char t)

-- Whatever the regex takes out: a stripped line holds no `;`, and has no space at either end.
pub strip_gcode_comments_clean :
    (re : Regex) (line : Text)
    → (contains_char b';' (strip_gcode_comments re line) ≡ false)
      × (trim (strip_gcode_comments re line) ≡ strip_gcode_comments re line)
unfolding strip_gcode_comments
strip_gcode_comments_clean re line =
    let cut = until_semicolon (re.remove_all "\\([^)]*\\)" line) in
    (
      contains_char-trim b';' cut
          (until_semicolon-contains_char (re.remove_all "\\([^)]*\\)" line)),
      trim_idem cut,
    )

p_number_of_lem :
    (n : ℤ) (p : ℕ) → (p_number_of n ≡ some (pos p)) ↔ ((n ≡ pos (p + 53)) × (1 ≤ p) × (p ≤ 6))
p_number_of_lem (pos n) p = (λ h. ground arith, λ h. ground arith)
p_number_of_lem (negsuc n) p = (λ h. cc, λ h. cc)

-- The slots with a P-number are exactly `G` followed by a number from 54 to 59, and the P-numbers
-- are 1 to 6.
pub gcode_to_p_number_iff :
    (wcs_slot rest : Text) (p : ℕ)
    → strip_prefix (codes "G") wcs_slot ≡ some rest
    → (gcode_to_p_number wcs_slot ≡ some (pos p))
      ↔ ((parse_i64 rest ≡ some (pos (p + 53))) × (1 ≤ p) × (p ≤ 6))
unfolding gcode_to_p_number
gcode_to_p_number_iff wcs_slot rest p e = elim (Option-cases (parse_i64 rest)) [
  | inl h ↦ rw (e, gcode_to_p_number, h) (λ g. cc, λ g. cc)
  | inr (n, h) ↦
      rw (e, gcode_to_p_number, h)
        (λ g. ground (arith, (p_number_of_lem n p).0), λ g. ground (arith, (p_number_of_lem n p).1))
]

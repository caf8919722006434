-- ===== src/Grbl/Simple/Receive/Kind.antt =====
-- src/grbl/simple.rs: which of the received lines answer a command, said without the session's state.
use raydriver.Base.{
  ◌≡◌, refl, ap, ◌∙◌, true, ◌&&◌, ◌||◌, List, [], ◌∷◌, Option, none, some, if◌then◌else◌, if_true,
}
use raydriver.Grbl.Simple.{PendingCmd, add_line, finish}
use raydriver.Text.Affix.{equal, strip_prefix, starts_with, ends_with}
use raydriver.Text.Utf8.{Text, codes}

-- What a line is to a command: its acknowledgement, its failure, no part of the answer, or a part.
pub data Kind : Type 0 where
  ack failure aside part : Kind

unfoldable pub kind : Text → Kind
unfolding equal starts_with ends_with strip_prefix
kind line =
    if equal line (codes "ok")
    then Kind.ack
    else if starts_with (codes "error:") line
    then Kind.failure
    else if starts_with (codes "<") line && ends_with b'>' line
    then Kind.aside
    else elim (strip_prefix (codes "ALARM:") line) [
      | some code ↦ Kind.failure
      | none ↦
          if starts_with (codes "Grbl ") line || starts_with (codes "GrblHAL ") line
          then Kind.aside
          else Kind.part
    ]

-- The answer that a sequence of lines gives: the parts up to the acknowledgement, or up to and with
-- the failure.
unfoldable pub response : List Text → Option (List Text)
unfolding kind
response [] = none
response (line ∷ rest) = elim (kind line) [
  | Kind.ack ↦ some []
  | Kind.failure ↦ some (line ∷ [])
  | Kind.aside ↦ response rest
  | Kind.part ↦ elim (response rest) [ none ↦ none | some later ↦ some (line ∷ later) ]
]

abbrev pub unless_finished : PendingCmd → PendingCmd → PendingCmd
unless_finished p q = if p.finished then p else q

abbrev pub hear : Kind → Text → PendingCmd → PendingCmd
hear Kind.ack line p = unless_finished p (finish p)
hear Kind.failure line p = unless_finished p (finish (add_line line p))
hear Kind.aside line p = p
hear Kind.part line p = unless_finished p (add_line line p)

unfoldable pub hear_all : List Text → PendingCmd → PendingCmd
unfolding kind
hear_all [] p = p
hear_all (line ∷ rest) p = hear_all rest (hear (kind line) line p)

-- A finished command hears nothing more.
hear_finished : (line : Text) (p : PendingCmd) (k : Kind) → p.finished ≡ true → hear k line p ≡ p
hear_finished line p Kind.ack e = if_true _ p _ e
hear_finished line p Kind.failure e = if_true _ p _ e
hear_finished line p Kind.aside e = refl
hear_finished line p Kind.part e = if_true _ p _ e

pub hear_all-finished :
    (lines : List Text) (p : PendingCmd) → p.finished ≡ true → hear_all lines p ≡ p
unfolding hear_all
hear_all-finished [] p e = refl
hear_all-finished (line ∷ rest) p e =
    ap (hear_all rest) (hear_finished line p (kind line) e) ∙ hear_all-finished rest p e

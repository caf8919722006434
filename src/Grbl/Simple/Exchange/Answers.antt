-- ===== src/Grbl/Simple/Exchange/Answers.antt =====
-- src/grbl/simple.rs: what an exchange returns, for what is received during it.
use raydriver.Base.{
  ◌≡◌, refl, sym, ap, ◌∙◌, true, false, List, [], ◌∷◌, ◌++◌, ++_assoc, ++_nil, Option, none, some,
  length, get_elem?-last,
}
use raydriver.Device.{F64}
use raydriver.Grbl.Simple.{PendingCmd, new_pending, SimpleCore, hand_over}
use raydriver.Grbl.Simple.Exchange.{World, begin_exchange, waited_for, end_exchange, ping_pong}
use raydriver.Grbl.Simple.Receive.{handle_lines}
use raydriver.Grbl.Simple.Receive.Kind.{Kind, kind, response, hear, hear_all, hear_all-finished}
use raydriver.Grbl.Simple.Receive.Reply.{Holds, Holds-handle_lines}
use raydriver.Session.{SessionError, Result}
use raydriver.Text.Regex.{Regex}
use raydriver.Text.Utf8.{Text, as_bytes}

-- What a wait gives for a command that has got the lines `before`, then this answer, or none.
abbrev pub outcome : List Text → Option (List Text) → Result (List Text)
outcome before none = Result.err SessionError.timeout
outcome before (some answer) = Result.ok (before ++ answer)

abbrev open_with : List Text → PendingCmd
open_with before = record { lines = before; finished = false }

outcome_part :
    (before : List Text) (line : Text) (answer : Option (List Text))
    → outcome (before ++ line ∷ []) answer
      ≡ outcome before (elim answer [ none ↦ none | some later ↦ some (line ∷ later) ])
outcome_part before line none = refl
outcome_part before line (some later) = ap Result.ok (++_assoc before (line ∷ []) later)

module _ (F : F64) where
  waited_kind :
      (line : Text) (rest before : List Text) (k : Kind)
      → ((b : List Text)
          → waited_for F (some (hear_all rest (open_with b))) ≡ outcome b (response rest))
      → waited_for F (some (hear_all rest (hear k line (open_with before))))
        ≡ outcome before (elim k [
          | Kind.ack ↦ some []
          | Kind.failure ↦ some (line ∷ [])
          | Kind.aside ↦ response rest
          | Kind.part ↦ elim (response rest) [ none ↦ none | some later ↦ some (line ∷ later) ]
        ])
  waited_kind line rest before Kind.ack ih =
      rw (hear_all-finished rest (record { lines = before; finished = true }) refl)
        (ap Result.ok (sym (++_nil before)))
  waited_kind line rest before Kind.failure ih =
      rw (hear_all-finished rest (record { lines = before ++ line ∷ []; finished = true }) refl)
        refl
  waited_kind line rest before Kind.aside ih = ih before
  waited_kind line rest before Kind.part ih =
      ih (before ++ line ∷ []) ∙ outcome_part before line (response rest)

  waited_open :
      (lines before : List Text)
      → waited_for F (some (hear_all lines (open_with before))) ≡ outcome before (response lines)
  unfolding hear_all response
  waited_open [] before = refl
  waited_open (line ∷ rest) before = waited_kind line rest before (kind line) (waited_open rest)

  module _ (re : Regex) (world : World F) where
    -- An exchange over an open transport, during which exactly these lines are received, returns the
    -- answer that they give: the lines up to the `ok`, or up to and with the error or the alarm, less
    -- the status reports and the banners. Lines behind that change nothing, and without an answer it
    -- times out. What the state was before does not matter, an earlier command included.
    pub ping_pong-response :
        (s : SimpleCore F) (command : Text) (lines : List Text)
        → world.is_open s ≡ true
        → world.write (begin_exchange F s command) (as_bytes (command ++ b'\n' ∷ [])) ≡ none
        → ((t : SimpleCore F) → world.waiting (world.writing t) ≡ handle_lines F re t lines)
        → (ping_pong F world s command).1 ≡ outcome [] (response lines)
    unfolding ping_pong end_exchange
    ping_pong-response s command lines is_open accepted hears =
        let begun = hand_over F (begin_exchange F s command) (as_bytes (command ++ b'\n' ∷ [])) in
        let held : Holds begun (length s.commands) new_pending = record {
          slot = refl;
          object = get_elem?-last s.commands new_pending;
        } in
        rw (is_open, accepted, hears begun, (Holds-handle_lines re lines held).object)
          (waited_open lines [])

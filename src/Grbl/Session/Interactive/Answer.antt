-- ===== src/Grbl/Session/Interactive/Answer.antt =====
-- src/grbl/session.rs: what an interactive command returns.
use raydriver.Base.{
  ℕ, ◌≡◌, refl, ap, ◌∙◌, true, List, [], ◌∷◌, ◌++◌, Option, none, some, Option-cases, is_some, inl,
  inr,
}
use raydriver.Device.{F64}
use raydriver.Flow.Incoming.{parse_incoming}
use raydriver.Grbl.Session.{RequestShared, SessionCore, pending_request}
use raydriver.Grbl.Session.Interactive.{
  new_request, result_of, Turns, send_command_bytes, ask, execute_interactive_command,
}
use raydriver.Grbl.Session.Job.{Transport, note_sent, send_tracked}
use raydriver.Grbl.Session.Receive.{handle_rx}
use raydriver.Grbl.Session.Receive.Reply.{lines_of, acks_of, reply}
use raydriver.Grbl.Session.Receive.Requests.{handle_rx-slot, handle_rx-request}
use raydriver.Session.{SessionError, Result}
use raydriver.Text.Regex.{Regex}
use raydriver.Text.Utf8.{Bytes, Text, as_bytes}

-- The answer that these lines and acknowledgements are: the lines and the first acknowledgement, and
-- none without an acknowledgement.
abbrev pub answer_to : List Text → List Text → Result (List Text)
answer_to lines [] = Result.err SessionError.timeout
answer_to lines (ack ∷ more) = Result.ok (lines ++ ack ∷ [])

module _ (F : F64) where
  reply-answer :
      (re : Regex) (command : Text) (lines acks : List Text)
      → result_of (some (reply F re (new_request command) lines acks)) ≡ answer_to lines acks
  reply-answer re command lines [] = refl
  reply-answer re command lines (ack ∷ more) = refl

module _ {F : F64} where
  -- Up to its write the others leave the request alone.
  pub record LeavesSlot (env : Turns F) : Type 0 where
    pub space : (s : SessionCore F) → (env.space s).interactive_request ≡ s.interactive_request
    pub write : (s : SessionCore F) → (env.write s).interactive_request ≡ s.interactive_request

  module _ (transport : Transport) (env : Turns F) where
    -- The state in which an interactive command begins to wait.
    abbrev pub asked : SessionCore F → Text → SessionCore F
    asked s command =
        (send_command_bytes F transport env (ask F transport env s command)
          (as_bytes (command ++ b'\n' ∷ []))).0

    asked-slot :
        (s : SessionCore F) (command : Text)
        → LeavesSlot env
        → (asked s command).interactive_request ≡ some (new_request command)
    unfolding send_command_bytes send_tracked note_sent
    asked-slot s command calm = calm.write _ ∙ calm.space (ask F transport env s command)

    slot-pending :
        (s : SessionCore F) {r : RequestShared}
        → s.interactive_request ≡ some r
        → pending_request F s ≡ some r
    unfolding pending_request
    slot-pending s e = rw e refl

    -- What is pending is what the slot has.
    pending-slot :
        (t : SessionCore F) {r : Option RequestShared}
        → is_some t.interactive_request ≡ true
        → pending_request F t ≡ r
        → t.interactive_request ≡ r
    unfolding pending_request
    pending-slot t there e = elim (Option-cases t.interactive_request) [
      | inl empty ↦ let clash = ap is_some empty in cc (clash, there)
      | inr (q, found) ↦ rw found (rw found at e)
    ]

    module _ (re : Regex) (find_ok : Bytes → Option (ℕ × ℕ)) where
      -- A command over an open transport that takes its bytes, to which the others leave its slot and
      -- one read comes in while it waits: it returns the lines of the read that are neither status
      -- reports nor fragments of one, in order, then its first acknowledgement or error, even where
      -- that came before a line; without one it times out. It leaves the slot empty.
      pub execute_interactive_command-result :
          (s : SessionCore F) (command : Text) (input : Bytes)
          → LeavesSlot env
          → transport.is_open ≡ true
          → transport.write (as_bytes (command ++ b'\n' ∷ [])) ≡ none
          → ((t : SessionCore F) → env.answer t ≡ handle_rx F re find_ok t input)
          → let responses = (parse_incoming find_ok (asked s command).flow.inner input).responses in
            let (t, result) = execute_interactive_command F transport env s command in
            (result ≡ answer_to (lines_of F re responses) (acks_of F re responses))
            × (t.interactive_request ≡ none)
      unfolding execute_interactive_command send_command_bytes send_tracked
      execute_interactive_command-result s command input calm is_open accepted reads =
          let slot = asked-slot s command calm in
          let sent = asked s command in
          let responses = (parse_incoming find_ok sent.flow.inner input).responses in
          let kept =
            pending-slot (handle_rx F re find_ok sent input)
              (handle_rx-slot F re find_ok sent input (new_request command) slot)
              (handle_rx-request F re find_ok sent input (new_request command)
                (slot-pending sent slot) refl) in
          rw (is_open, accepted, reads)
            (
              ap result_of kept
                  ∙ reply-answer F re command (lines_of F re responses) (acks_of F re responses),
              refl,
            )

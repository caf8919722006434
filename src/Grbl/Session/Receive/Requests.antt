-- ===== src/Grbl/Session/Receive/Requests.antt =====
-- src/grbl/session.rs: what the request that waits gets of a batch of responses.
use raydriver.Base.{
  ℕ, ◌≡◌, refl, ap, ◌∙◌, is_some, inl, inr, Bool, true, false, not, Option, none, some, List, [],
  ◌∷◌, if◌then◌else◌, Option-cases,
}
use raydriver.Device.{F64, TransportStatus}
use raydriver.Flow.{GrblResponse, GrblResponseType, PendingCommand}
use raydriver.Flow.Incoming.{parse_incoming}
use raydriver.Grbl.Errors.{error_code_to_device_error}
use raydriver.Grbl.Session.{
  RequestShared, add_line, finish, SessionCore, emit, note_device_response, pending_request,
  set_request,
}
use raydriver.Grbl.Session.Receive.{
  second_part, finish_request, set_first_error, handle_error, collect_line, handle_line, handle_ok,
  handle_responses, handle_as, is_fragment, op_index_of, lines_first, handle_rx,
}
use raydriver.Grbl.Session.Receive.FirstError.{is_report}
use raydriver.Grbl.Session.Receive.Reply.{
  completed, extended, answer_line, answer_by, answer_all, lines_of, acks_of, reply,
  answer_all-finished, answer_all-lines_first,
}
use raydriver.Session.{Event}
use raydriver.Text.Affix.{split}
use raydriver.Text.Regex.{Regex}
use raydriver.Text.Trim.{trim}
use raydriver.Text.Utf8.{Bytes, Text, codes}
use raydriver.Grbl.Session.Receive.Apart.{
  branch-Apart, Apart, same_slots, then-Apart, Apart-pending, report_progress-Apart,
  set_first_error-Apart, handle_status_report-Apart, handle_other_line-Apart,
}

module _ (F : F64) where
  set_request-pending :
      (s : SessionCore F) (r : RequestShared) → pending_request F (set_request F s r) ≡ some r
  unfolding pending_request set_request
  set_request-pending s r = elim (Option-cases s.interactive_request) [
    | inl e ↦ rw (e, set_request) (rw e refl)
    | inr (q, e) ↦ rw (e, set_request) refl
  ]

  set_request-slot :
      (s : SessionCore F) (r : RequestShared)
      → is_some (set_request F s r).interactive_request ≡ is_some s.interactive_request
  unfolding set_request
  set_request-slot s r = elim (Option-cases s.interactive_request) [
    | inl e ↦ rw (e, set_request) (ap is_some e)
    | inr (q, e) ↦ rw (e, set_request) refl
  ]

module _ (F : F64) (in_slot : Bool) where
  -- The request that waits, in the interactive slot or not.
  record Waits (s : SessionCore F) (r : RequestShared) : Type 0 where
    waits : pending_request F s ≡ some r
    place : is_some s.interactive_request ≡ in_slot

  Apart-Waits : {s t : SessionCore F} {r : RequestShared} → Apart F s t → Waits s r → Waits t r
  Apart-Waits a w = record {
    waits = Apart-pending F a ∙ w.waits;
    place = ap is_some a.interactive ∙ w.place;
  }

  branch-Waits :
      {x y : SessionCore F} {a c : RequestShared} (b : Bool)
      → Waits x a
      → Waits y c
      → Waits (if b then x else y) (if b then a else c)
  branch-Waits true p q = p
  branch-Waits false p q = q

  set_request-Waits :
      (s : SessionCore F) (r q : RequestShared) → Waits s q → Waits (set_request F s r) r
  set_request-Waits s r q w = record {
    waits = set_request-pending F s r;
    place = set_request-slot F s r ∙ w.place;
  }

  finish_request-Waits :
      (s : SessionCore F) (r : RequestShared) (line : Text) (status : TransportStatus)
      (message : Option Text)
      → Waits s r
      → Waits (finish_request F s line status message) (completed r line)
  unfolding finish_request
  finish_request-Waits s r line status message w =
      rw (w.waits, finish_request)
        (branch-Waits (not r.finished)
          (Apart-Waits (same_slots F refl refl)
            (set_request-Waits s (finish (add_line r line)) r w))
          w)

  collect_line-Waits :
      (s : SessionCore F) (r : RequestShared) (line : Text)
      → Waits s r
      → Waits (collect_line F s line) (extended r line)
  unfolding collect_line
  collect_line-Waits s r line w =
      rw (w.waits, collect_line)
        (branch-Waits (not r.finished) (set_request-Waits s (add_line r line) r w) w)

  handle_ok-Waits :
      (s : SessionCore F) (r : RequestShared) (pending : Option PendingCommand)
      → Waits s r
      → Waits (handle_ok F s pending) (completed r (codes "ok"))
  unfolding handle_ok note_device_response
  handle_ok-Waits s r pending w =
      let noted = note_device_response F s in
      let answered = finish_request F noted (codes "ok") TransportStatus.idle none in
      let done : Waits answered (completed r (codes "ok")) =
        finish_request-Waits noted r (codes "ok") TransportStatus.idle none
          (Apart-Waits (same_slots F refl refl) w) in
      Apart-Waits
        (branch-Apart F answered.job_running
          (report_progress-Apart F answered (op_index_of pending)) (same_slots F refl refl))
        done

  handle_error-Waits :
      (s : SessionCore F) (r : RequestShared) (text : Text)
      → Waits s r
      → Waits (handle_error F s text) (completed r text)
  unfolding handle_error note_device_response
  handle_error-Waits s r text w =
      let error = error_code_to_device_error (trim (second_part (split b':' text))) in
      let noted = note_device_response F s in
      let failed = set_first_error F noted error in
      let answered = finish_request F failed text TransportStatus.error (some text) in
      let done : Waits answered (completed r text) =
        finish_request-Waits failed r text TransportStatus.error (some text) (
          Apart-Waits
            (then-Apart F (same_slots F {s = s} {t = noted} refl refl)
              (set_first_error-Apart F noted error))
            w) in
      Apart-Waits
        (branch-Apart F answered.job_running (same_slots F refl refl) (same_slots F refl refl)) done

  module _ (re : Regex) where
    handle_line-Waits :
        (s : SessionCore F) (r : RequestShared) (line : Text)
        → Waits s r
        → Waits (handle_line F re s line) (answer_line F re r line)
    unfolding handle_line answer_line
    handle_line-Waits s r line w = branch-Waits (is_fragment F re line) w (
        branch-Waits (is_report F re line)
          (Apart-Waits
            (then-Apart F
              (same_slots F {s = s} {t = record s { handshake_received = true }} refl refl)
              (handle_status_report-Apart F re (record s { handshake_received = true })
                (trim line)))
            w)
          (Apart-Waits (handle_other_line-Apart F re (collect_line F s line) line)
            (collect_line-Waits s r line w)))

    handle_as-Waits :
        (k : GrblResponseType) (s : SessionCore F) (r : RequestShared) (x : GrblResponse)
        → Waits s r
        → Waits (handle_as F re k s x) (answer_by F re k r x)
    handle_as-Waits GrblResponseType.ok s r x w =
        handle_ok-Waits (emit F s (Event.raw_rx (codes "ok"))) r x.pending
          (Apart-Waits (same_slots F refl refl) w)
    handle_as-Waits GrblResponseType.error s r x w =
        handle_error-Waits (emit F s (Event.raw_rx x.text)) r x.text
          (Apart-Waits (same_slots F refl refl) w)
    handle_as-Waits GrblResponseType.line s r x w =
        handle_line-Waits (emit F s (Event.raw_rx x.text)) r x.text
          (Apart-Waits (same_slots F refl refl) w)

    handle_responses-Waits :
        (xs : List GrblResponse) (s : SessionCore F) (r : RequestShared)
        → Waits s r
        → Waits (handle_responses F re s xs) (answer_all F re r xs)
    unfolding handle_responses
    handle_responses-Waits [] s r w = w
    handle_responses-Waits (x ∷ rest) s r w =
        handle_responses-Waits rest (handle_as F re x.rtype s x) (answer_by F re x.rtype r x)
          (handle_as-Waits x.rtype s r x w)

    handle_rx-Waits :
        (find_ok : Bytes → Option (ℕ × ℕ)) (s : SessionCore F) (input : Bytes) (r : RequestShared)
        → Waits s r
        → Waits
            (handle_rx F re find_ok s input)
            (answer_all F re r (lines_first (parse_incoming find_ok s.flow.inner input).responses))
    unfolding handle_rx
    handle_rx-Waits find_ok s input r w =
        let parsed = parse_incoming find_ok s.flow.inner input in
        Apart-Waits (same_slots F refl refl) (
          handle_responses-Waits (lines_first parsed.responses)
            (record s { flow = record (s.flow) { inner = parsed.inner } }) r
            (Apart-Waits (same_slots F refl refl) w))

module _ (F : F64) (re : Regex) where
  -- A read leaves a request in the interactive slot in it.
  pub handle_rx-slot :
      (find_ok : Bytes → Option (ℕ × ℕ)) (s : SessionCore F) (input : Bytes) (r : RequestShared)
      → s.interactive_request ≡ some r
      → is_some (handle_rx F re find_ok s input).interactive_request ≡ true
  unfolding pending_request
  handle_rx-slot find_ok s input r e =
      (handle_rx-Waits F true re find_ok s input r
        (record { waits = rw e refl; place = rw e refl })).place

  -- A read while a request waits: the request collects the lines of the read that are neither
  -- status reports nor fragments of one, in order and before any acknowledgement, even where an
  -- acknowledgement came first; the first acknowledgement follows them and finishes the request,
  -- and nothing else of the read reaches it. Without an acknowledgement it stays open.
  pub handle_rx-request :
      (find_ok : Bytes → Option (ℕ × ℕ)) (s : SessionCore F) (input : Bytes) (r : RequestShared)
      → pending_request F s ≡ some r
      → r.finished ≡ false
      → let responses = (parse_incoming find_ok s.flow.inner input).responses in
        pending_request F (handle_rx F re find_ok s input)
        ≡ some (reply F re r (lines_of F re responses) (acks_of F re responses))
  handle_rx-request find_ok s input r w waiting =
      let responses = (parse_incoming find_ok s.flow.inner input).responses in
      rw (answer_all-lines_first F re responses r waiting) at
        (handle_rx-Waits F (is_some s.interactive_request) re find_ok s input r
          (record { waits = w; place = refl })).waits

  -- A request that is finished is not changed by any read.
  pub handle_rx-finished :
      (find_ok : Bytes → Option (ℕ × ℕ)) (s : SessionCore F) (input : Bytes) (r : RequestShared)
      → pending_request F s ≡ some r
      → r.finished ≡ true
      → pending_request F (handle_rx F re find_ok s input) ≡ some r
  handle_rx-finished find_ok s input r w done =
      let responses = (parse_incoming find_ok s.flow.inner input).responses in
      rw (answer_all-finished F re (lines_first responses) r done) at
        (handle_rx-Waits F (is_some s.interactive_request) re find_ok s input r
          (record { waits = w; place = refl })).waits

-- ===== src/Grbl/Session/Receive/Account.antt =====
-- src/grbl/session.rs: the byte account through a whole read of the session.
use raydriver.Base.{
  ℕ, ◌≡◌, refl, ap, ◌∙◌, inl, inr, List, [], ◌∷◌, Option, none, some, Bool-cases, arith, drop,
}
use raydriver.Base.Int.{ℤ}
use raydriver.Device.{F64, TransportStatus}
use raydriver.Flow.{
  FlowControl, GrblResponse, GrblResponseType, PendingCommand, flush_notifications,
}
use raydriver.Flow.Account.{IsAccounted}
use raydriver.Flow.Account.Incoming.{ack_count, parse_incoming-Tracks}
use raydriver.Flow.Incoming.{parse_incoming}
use raydriver.Grbl.Session.{SessionCore, emit, note_device_response}
use raydriver.Grbl.Session.Receive.{
  successor, count_up, span, emit_done, op_index_of, report_progress, finish_request, handle_ok,
  handle_as, handle_responses, lines_first, handle_rx,
}
use raydriver.Grbl.Session.Receive.Quiet.{
  Quiet, finish_request-Quiet, handle_error-Quiet, handle_line-Quiet,
}
use raydriver.Session.{Event}
use raydriver.Text.Regex.{Regex}
use raydriver.Text.Utf8.{Bytes, codes}

flush_notifications-account :
    (f : FlowControl)
    → ((flush_notifications f).inner.pending ≡ f.inner.pending)
      × ((flush_notifications f).inner.rx_count ≡ f.inner.rx_count)
unfolding flush_notifications
flush_notifications-account f = (ground arith, ground arith)

module _ (F : F64) where
  -- The queue and the counter, which no handler of a response touches.
  record SameAccount (s t : SessionCore F) : Type 0 where
    queue : t.flow.inner.pending ≡ s.flow.inner.pending
    count : t.flow.inner.rx_count ≡ s.flow.inner.rx_count

  Quiet-SameAccount : {s t : SessionCore F} → Quiet F s t → SameAccount s t
  Quiet-SameAccount q = record { queue = q.queue; count = q.count }

  emit_done-flow : (is : List ℤ) (s : SessionCore F) → (emit_done F s is).flow ≡ s.flow
  unfolding emit_done
  emit_done-flow [] s = refl
  emit_done-flow (i ∷ rest) s = emit_done-flow rest (emit F s (Event.command_done i))

  report_progress-flow : (s : SessionCore F) (o : Option ℤ) → (report_progress F s o).flow ≡ s.flow
  unfolding report_progress
  report_progress-flow s none = refl
  report_progress-flow s (some i) =
      emit_done-flow
        (count_up (successor s.last_reported_op_index) (span s.last_reported_op_index i)) s

  handle_ok-SameAccount :
      (s : SessionCore F) (pending : Option PendingCommand) → SameAccount s (handle_ok F s pending)
  unfolding handle_ok note_device_response
  handle_ok-SameAccount s pending =
      let noted = note_device_response F s in
      let answered = finish_request F noted (codes "ok") TransportStatus.idle none in
      let quiet = finish_request-Quiet F noted (codes "ok") TransportStatus.idle none in
      let flow = report_progress-flow answered (op_index_of pending) in
      elim (Bool-cases answered.job_running) [
        | inl e ↦
            rw (e, handle_ok)
              (record {
                queue = ap (λ f. f.inner.pending) flow ∙ quiet.queue;
                count = ap (λ f. f.inner.rx_count) flow ∙ quiet.count;
              })
        | inr e ↦ rw (e, handle_ok) (record { queue = quiet.queue; count = quiet.count })
      ]

  module _ (re : Regex) where
    handle_as-SameAccount :
        (k : GrblResponseType) (s : SessionCore F) (r : GrblResponse)
        → SameAccount s (handle_as F re k s r)
    handle_as-SameAccount GrblResponseType.ok s r =
        let a = handle_ok-SameAccount (emit F s (Event.raw_rx (codes "ok"))) r.pending in
        record { queue = a.queue; count = a.count }
    handle_as-SameAccount GrblResponseType.error s r =
        let a = Quiet-SameAccount (handle_error-Quiet F (emit F s (Event.raw_rx r.text)) r.text) in
        record { queue = a.queue; count = a.count }
    handle_as-SameAccount GrblResponseType.line s r =
        let a =
          Quiet-SameAccount (handle_line-Quiet F re (emit F s (Event.raw_rx r.text)) r.text) in
        record { queue = a.queue; count = a.count }

    handle_responses-SameAccount :
        (rs : List GrblResponse) (s : SessionCore F) → SameAccount s (handle_responses F re s rs)
    unfolding handle_responses
    handle_responses-SameAccount [] s = record { queue = refl; count = refl }
    handle_responses-SameAccount (r ∷ rest) s =
        let a = handle_as-SameAccount r.rtype s r in
        let b = handle_responses-SameAccount rest (handle_as F re r.rtype s r) in
        record { queue = b.queue ∙ a.queue; count = b.count ∙ a.count }

    -- A whole read of a session, handlers and notifications included: for each acknowledgement in it
    -- one command leaves the pending queue, from the front, and the byte counter stays the sum over
    -- the queue.
    pub handle_rx-IsAccounted :
        (find_ok : Bytes → Option (ℕ × ℕ)) (s : SessionCore F) (input : Bytes)
        → IsAccounted s.flow.inner
        → let responses = (parse_incoming find_ok s.flow.inner input).responses in
          let t = handle_rx F re find_ok s input in
          (t.flow.inner.pending ≡ drop (ack_count responses) s.flow.inner.pending)
          × IsAccounted t.flow.inner
    unfolding handle_rx
    handle_rx-IsAccounted find_ok s input h =
        let parsed = parse_incoming find_ok s.flow.inner input in
        let tracks = parse_incoming-Tracks find_ok s.flow.inner input h in
        let before = record s { flow = record (s.flow) { inner = parsed.inner } } in
        let handled = handle_responses F re before (lines_first parsed.responses) in
        let kept = handle_responses-SameAccount (lines_first parsed.responses) before in
        let (flushed_queue, flushed_count) = flush_notifications-account handled.flow in
        let queue = flushed_queue ∙ kept.queue in
        let count = flushed_count ∙ kept.count in
        (queue ∙ tracks.dropped, rw (queue, count) tracks.accounted)

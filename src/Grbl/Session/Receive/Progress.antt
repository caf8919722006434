-- ===== src/Grbl/Session/Receive/Progress.antt =====
-- src/grbl/session.rs: the progress that a job reports through `command_done`.
use raydriver.Grbl.Session.Receive.Span.{count_up-span}
use raydriver.Base.{
  ++_assoc, ++_nil, ◌≡◌, refl, sym, ap, ◌∙◌, true, List, [], ◌∷◌, ◌++◌, Option, none, some, arith,
}
use raydriver.Base.Int.{ℤ, ◌≤ℤ◌}
use raydriver.Device.{F64, TransportStatus}
use raydriver.Flow.{GrblResponse, GrblResponseType, PendingCommand}
use raydriver.Grbl.Session.{SessionCore, emit, note_device_response}
use raydriver.Grbl.Session.Receive.{
  successor, count_up, span, emit_done, op_index_of, report_progress, finish_request, handle_ok,
  handle_responses, handle_as,
}
use raydriver.Session.{Event}
use raydriver.Text.Regex.{Regex}
use raydriver.Text.Utf8.{codes}
use raydriver.Grbl.Session.Receive.Quiet.{
  note_device_response-Quiet, finish_request-Quiet, handle_error-Quiet, handle_line-Quiet, done_ops,
  done_ops-append, Quiet, still, and_then, emit-Quiet,
}

-- The operations that a batch of responses acknowledges.
abbrev pub listed : Option ℤ → List ℤ
listed none = []
listed (some i) = i ∷ []

abbrev pub acked_by : GrblResponseType → GrblResponse → List ℤ
acked_by GrblResponseType.ok r = listed (op_index_of r.pending)
acked_by GrblResponseType.error r = []
acked_by GrblResponseType.line r = []

abbrev pub acked_ops : List GrblResponse → List ℤ
acked_ops [] = []
acked_ops (r ∷ rest) = acked_by r.rtype r ++ acked_ops rest

-- The device answers in the order of the job's operations.
abbrev pub Ascending : ℤ → List ℤ → Type 0
Ascending last [] = Unit
Ascending last (i ∷ rest) = (last ≤ℤ i) × Ascending i rest

abbrev pub latest : ℤ → List ℤ → ℤ
latest last [] = last
latest last (i ∷ rest) = latest i rest

Ascending-first : (a : ℤ) (is js : List ℤ) → Ascending a (is ++ js) → Ascending a is
Ascending-first a [] js up = tt
Ascending-first a (i ∷ is) js (le, up) = (le, Ascending-first i is js up)

Ascending-rest : (a : ℤ) (is js : List ℤ) → Ascending a (is ++ js) → Ascending (latest a is) js
Ascending-rest a [] js up = up
Ascending-rest a (i ∷ is) js (le, up) = Ascending-rest i is js up

latest-append : (a : ℤ) (is js : List ℤ) → latest a (is ++ js) ≡ latest (latest a is) js
latest-append a [] js = refl
latest-append a (i ∷ is) js = latest-append i is js

module _ (F : F64) where
  emit_done-events :
      (is : List ℤ) (s : SessionCore F)
      → done_ops (emit_done F s is).events ≡ done_ops s.events ++ is
  unfolding emit_done
  emit_done-events [] s = sym (++_nil (done_ops s.events))
  emit_done-events (i ∷ rest) s =
      rw
        (
          emit_done-events rest (emit F s (Event.command_done i)),
          done_ops-append s.events (Event.command_done i ∷ []),
        )
        (++_assoc (done_ops s.events) (i ∷ []) rest)

  emit_done-running :
      (is : List ℤ) (s : SessionCore F) → (emit_done F s is).job_running ≡ s.job_running
  unfolding emit_done
  emit_done-running [] s = refl
  emit_done-running (i ∷ rest) s = emit_done-running rest (emit F s (Event.command_done i))

  -- Every operation behind the last one of `s` is reported, up to the last one of `t`.
  record Progressed (s t : SessionCore F) : Type 0 where
    le : s.last_reported_op_index ≤ℤ t.last_reported_op_index
    running : t.job_running ≡ s.job_running
    done :
        done_ops t.events
        ≡ done_ops s.events
          ++ count_up
              (successor s.last_reported_op_index)
              (span s.last_reported_op_index t.last_reported_op_index)

  Quiet-Progressed : {s t : SessionCore F} → Quiet F s t → Progressed s t
  unfolding count_up
  Quiet-Progressed {s} {t} q =
      let none_between : span s.last_reported_op_index s.last_reported_op_index ≡ 0 = omega arith in
      record {
        le = rw q.last (omega arith);
        running = q.running;
        done = rw (q.last, none_between, q.done) (sym (++_nil (done_ops s.events)));
      }

  Progressed-trans : {s t u : SessionCore F} → Progressed s t → Progressed t u → Progressed s u
  Progressed-trans {s} {t} {u} p q =
      let a = s.last_reported_op_index in
      let b = t.last_reported_op_index in
      let c = u.last_reported_op_index in
      record {
        le = omega (arith, p.le, q.le);
        running = q.running ∙ p.running;
        done =
            q.done
            ∙ rw p.done (
                ++_assoc (done_ops s.events) (count_up (successor a) (span a b))
                  (count_up (successor b) (span b c)))
            ∙ ap (◌++◌ (done_ops s.events)) (sym (count_up-span a b c p.le q.le));
      }

  report_progress-Progressed :
      (s : SessionCore F) (i : ℤ)
      → s.last_reported_op_index ≤ℤ i
      → Progressed s (report_progress F s (some i))
  unfolding report_progress
  report_progress-Progressed s i le =
      let between =
        count_up (successor s.last_reported_op_index) (span s.last_reported_op_index i) in
      record { le = le; running = emit_done-running between s; done = emit_done-events between s }

  -- The result of an acknowledgement.
  record Acknowledged (s t : SessionCore F) (ops : List ℤ) : Type 0 where
    progressed : Progressed s t
    reached : t.last_reported_op_index ≡ latest s.last_reported_op_index ops

  handle_ok-Acknowledged :
      (s : SessionCore F) (pending : Option PendingCommand) (o : Option ℤ)
      → op_index_of pending ≡ o
      → s.job_running ≡ true
      → Ascending s.last_reported_op_index (listed o)
      → Acknowledged s (handle_ok F s pending) (listed o)
  unfolding handle_ok report_progress
  handle_ok-Acknowledged s pending none e run up =
      let noted = note_device_response F s in
      let quiet =
        and_then F (note_device_response-Quiet F s)
          (finish_request-Quiet F noted (codes "ok") TransportStatus.idle none) in
      rw (quiet.running ∙ run, e)
        (record { progressed = Quiet-Progressed quiet; reached = quiet.last })
  handle_ok-Acknowledged s pending (some i) e run (le, _) =
      let noted = note_device_response F s in
      let answered = finish_request F noted (codes "ok") TransportStatus.idle none in
      let quiet =
        and_then F (note_device_response-Quiet F s)
          (finish_request-Quiet F noted (codes "ok") TransportStatus.idle none) in
      let there : answered.last_reported_op_index ≤ℤ i = rw quiet.last le in
      rw (quiet.running ∙ run, e)
        (record {
          progressed =
              Progressed-trans (Quiet-Progressed quiet)
                (report_progress-Progressed answered i there);
          reached = refl;
        })

  after-Quiet :
      {s t u : SessionCore F} {ops : List ℤ}
      → Quiet F s t
      → Acknowledged t u ops
      → Acknowledged s u ops
  after-Quiet q a = record {
    progressed = Progressed-trans (Quiet-Progressed q) a.progressed;
    reached = rw⁻¹ q.last a.reached;
  }

  Quiet-Acknowledged : {s t : SessionCore F} → Quiet F s t → Acknowledged s t []
  Quiet-Acknowledged q = record { progressed = Quiet-Progressed q; reached = q.last }

  module _ (re : Regex) where
    handle_as-Acknowledged :
        (k : GrblResponseType) (s : SessionCore F) (r : GrblResponse)
        → s.job_running ≡ true
        → Ascending s.last_reported_op_index (acked_by k r)
        → Acknowledged s (handle_as F re k s r) (acked_by k r)
    handle_as-Acknowledged GrblResponseType.ok s r run up =
        let told = emit-Quiet F s (Event.raw_rx (codes "ok")) refl in
        after-Quiet told (
          handle_ok-Acknowledged (emit F s (Event.raw_rx (codes "ok"))) r.pending
            (op_index_of r.pending) refl run up)
    handle_as-Acknowledged GrblResponseType.error s r run up = Quiet-Acknowledged (
        and_then F (emit-Quiet F s (Event.raw_rx r.text) refl)
          (handle_error-Quiet F (emit F s (Event.raw_rx r.text)) r.text))
    handle_as-Acknowledged GrblResponseType.line s r run up = Quiet-Acknowledged (
        and_then F (emit-Quiet F s (Event.raw_rx r.text) refl)
          (handle_line-Quiet F re (emit F s (Event.raw_rx r.text)) r.text))

    handle_responses-Acknowledged :
        (rs : List GrblResponse) (s : SessionCore F)
        → s.job_running ≡ true
        → Ascending s.last_reported_op_index (acked_ops rs)
        → Acknowledged s (handle_responses F re s rs) (acked_ops rs)
    unfolding handle_responses
    handle_responses-Acknowledged [] s run up = Quiet-Acknowledged (still F s)
    handle_responses-Acknowledged (r ∷ rest) s run up =
        let is = acked_by r.rtype r in
        let js = acked_ops rest in
        let a = s.last_reported_op_index in
        let one = handle_as-Acknowledged r.rtype s r run (Ascending-first a is js up) in
        let more =
          handle_responses-Acknowledged rest (handle_as F re r.rtype s r)
            (one.progressed.running ∙ run) (rw one.reached (Ascending-rest a is js up)) in
        record {
          progressed = Progressed-trans one.progressed more.progressed;
          reached = more.reached ∙ rw (one.reached, latest-append a is js) refl;
        }

    -- During a job whose operations the device acknowledges in order, a batch of responses reports
    -- exactly the operations behind the last reported one, up to the last acknowledged one: each
    -- once, in order and without a gap, whatever errors, alarms and reports stand between.
    pub handle_responses-progress :
        (rs : List GrblResponse) (s : SessionCore F)
        → s.job_running ≡ true
        → let last = s.last_reported_op_index in
          Ascending last (acked_ops rs)
          → let upto = latest last (acked_ops rs) in
            let t = handle_responses F re s rs in
            (t.last_reported_op_index ≡ upto)
            × (done_ops t.events ≡ done_ops s.events ++ count_up (successor last) (span last upto))
    handle_responses-progress rs s run up =
        let a = handle_responses-Acknowledged rs s run up in
        (a.reached, rw a.reached at a.progressed.done)

-- ===== src/Grbl/Session/Receive/Quiet.antt =====
-- src/grbl/session.rs: what the handlers leave alone, but for the progress of a job.
use raydriver.Base.{
  arith, ℕ, ++_assoc, ++_nil, ◌≡◌, refl, ap, ◌∙◌, inl, inr, Bool, true, false, List, [], ◌∷◌, ◌++◌,
  Option, none, some, if◌then◌else◌, Option-cases, not, ◌&&◌, ◌||◌, ltb, ◌==◌,
}
use raydriver.Base.Int.{ℤ}
use raydriver.Device.{F64, DeviceState, TransportStatus, DeviceError}
use raydriver.Device.Equal.{state_equal}
use raydriver.Flow.{set_rx_buffer_size, rx_buffer_size}
use raydriver.Grbl.Errors.{error_code_to_device_error, alarm_code_to_device_error}
use raydriver.Grbl.Parser.Report.{parse_state}
use raydriver.Grbl.Parser.Settings.{parse_opt_info}
use raydriver.Grbl.Session.{
  SessionCore, emit, note_device_response, pending_request, set_request, RequestShared, is_positive,
  as_usize, add_line, finish,
}
use raydriver.Grbl.Session.Receive.{
  resize, shown_status, finish_request, handle_error, handle_line, set_first_error, collect_line,
  handle_alarm, handle_opt, adopt_size, show_state, handle_status_report, handle_other_line,
  is_fragment, cache_rx_buffer_size, second_part, is_idle,
}
use raydriver.Session.{Event}
use raydriver.Text.Affix.{split, strip_prefix, starts_with, ends_with}
use raydriver.Text.Regex.{Regex}
use raydriver.Text.Trim.{trim}
use raydriver.Text.Utf8.{Text, codes}

-- The operations that a log reports as done.
abbrev pub done_op : {F : F64} → Event F → List ℤ
done_op (Event.command_done i) = i ∷ []
done_op _ = []

abbrev pub done_ops : {F : F64} → List (Event F) → List ℤ
done_ops [] = []
done_ops (e ∷ es) = done_op e ++ done_ops es

pub done_ops-append :
    {F : F64} (es fs : List (Event F)) → done_ops (es ++ fs) ≡ done_ops es ++ done_ops fs
done_ops-append [] fs = refl
done_ops-append (e ∷ es) fs =
    rw (done_ops-append es fs, ++_assoc (done_op e) (done_ops es) (done_ops fs)) refl

module _ (F : F64) where
  -- What no answer but an acknowledgement changes.
  pub record Quiet (s t : SessionCore F) : Type 0 where
    pub done : done_ops t.events ≡ done_ops s.events
    pub running : t.job_running ≡ s.job_running
    pub last : t.last_reported_op_index ≡ s.last_reported_op_index
    pub holding : t.is_holding ≡ s.is_holding
    pub queue : t.flow.inner.pending ≡ s.flow.inner.pending
    pub count : t.flow.inner.rx_count ≡ s.flow.inner.rx_count

  pub still : (s : SessionCore F) → Quiet s s
  still s = record {
    done = refl;
    running = refl;
    last = refl;
    holding = refl;
    queue = refl;
    count = refl;
  }

  pub and_then : {s t u : SessionCore F} → Quiet s t → Quiet t u → Quiet s u
  and_then p q = record {
    done = q.done ∙ p.done;
    running = q.running ∙ p.running;
    last = q.last ∙ p.last;
    holding = q.holding ∙ p.holding;
    queue = q.queue ∙ p.queue;
    count = q.count ∙ p.count;
  }

  pub emit-Quiet : (s : SessionCore F) (e : Event F) → done_op e ≡ [] → Quiet s (emit F s e)
  emit-Quiet s e quiet = record {
    done = rw (done_ops-append s.events (e ∷ []), quiet, ++_nil (done_ops s.events)) refl;
    running = refl;
    last = refl;
    holding = refl;
    queue = refl;
    count = refl;
  }

  pub same-Quiet :
      {s t : SessionCore F}
      → t.events ≡ s.events
      → t.job_running ≡ s.job_running
      → t.last_reported_op_index ≡ s.last_reported_op_index
      → t.is_holding ≡ s.is_holding
      → t.flow.inner.pending ≡ s.flow.inner.pending
      → t.flow.inner.rx_count ≡ s.flow.inner.rx_count
      → Quiet s t
  same-Quiet e r l h q c = record {
    done = ap done_ops e;
    running = r;
    last = l;
    holding = h;
    queue = q;
    count = c;
  }

  -- A change of the buffer's size leaves the account alone.
  resize-Quiet : (s : SessionCore F) (size : ℕ) → Quiet s (resize F s size)
  unfolding set_rx_buffer_size
  resize-Quiet s size = same-Quiet refl refl refl refl (ground arith) (ground arith)

  set_request-Quiet : (s : SessionCore F) (r : RequestShared) → Quiet s (set_request F s r)
  unfolding set_request
  set_request-Quiet s r = elim (Option-cases s.interactive_request) [
    | inl e ↦ rw e (same-Quiet refl refl refl refl refl refl)
    | inr (q, e) ↦ rw e (same-Quiet refl refl refl refl refl refl)
  ]

  pub note_device_response-Quiet : (s : SessionCore F) → Quiet s (note_device_response F s)
  unfolding note_device_response
  note_device_response-Quiet s = same-Quiet refl refl refl refl refl refl

  -- Both branches of a test.
  pub branch-Quiet :
      {s x y : SessionCore F} (b : Bool) → Quiet s x → Quiet s y → Quiet s (if b then x else y)
  branch-Quiet true p q = p
  branch-Quiet false p q = q

  pub finish_request-Quiet :
      (s : SessionCore F) (line : Text) (status : TransportStatus) (message : Option Text)
      → Quiet s (finish_request F s line status message)
  unfolding finish_request
  finish_request-Quiet s line status message = elim (Option-cases (pending_request F s)) [
    | inl e ↦ rw (e, finish_request) (still s)
    | inr (r, e) ↦
        rw (e, finish_request)
          (branch-Quiet (not r.finished)
            (and_then (set_request-Quiet s (finish (add_line r line))) (
              emit-Quiet (set_request F s (finish (add_line r line)))
                (Event.command_status status message) refl))
            (still s))
  ]

  set_first_error-Quiet : (s : SessionCore F) (e : DeviceError) → Quiet s (set_first_error F s e)
  unfolding set_first_error
  set_first_error-Quiet s error = elim (Option-cases s.state.error) [
    | inl e ↦
        let changed = record (s.state) { error = some error } in
        rw (e, set_first_error)
          (and_then (same-Quiet refl refl refl refl refl refl)
            (emit-Quiet (record s { state = changed }) (Event.state_changed changed) refl))
    | inr (old, e) ↦ rw (e, set_first_error) (same-Quiet refl refl refl refl refl refl)
  ]

  pub collect_line-Quiet : (s : SessionCore F) (line : Text) → Quiet s (collect_line F s line)
  unfolding collect_line
  collect_line-Quiet s line = elim (Option-cases (pending_request F s)) [
    | inl e ↦ rw (e, collect_line) (still s)
    | inr (r, e) ↦
        rw (e, collect_line)
          (branch-Quiet (not r.finished) (set_request-Quiet s (add_line r line)) (still s))
  ]

  pub handle_error-Quiet : (s : SessionCore F) (text : Text) → Quiet s (handle_error F s text)
  unfolding handle_error
  handle_error-Quiet s text =
      let error = error_code_to_device_error (trim (second_part (split b':' text))) in
      let noted = note_device_response F s in
      let failed = set_first_error F noted error in
      let answered = finish_request F failed text TransportStatus.error (some text) in
      let quiet : Quiet s answered = and_then (note_device_response-Quiet s) (
        and_then (set_first_error-Quiet noted error)
          (finish_request-Quiet failed text TransportStatus.error (some text))) in
      let told =
        emit-Quiet answered (Event.command_status TransportStatus.error (some text)) refl in
      branch-Quiet answered.job_running
        (and_then quiet (and_then told (same-Quiet refl refl refl refl refl refl))) quiet

  handle_alarm-Quiet : (s : SessionCore F) (code line : Text) → Quiet s (handle_alarm F s code line)
  unfolding handle_alarm
  handle_alarm-Quiet s code line =
      let error = alarm_code_to_device_error (trim code) in
      let failed = set_first_error F s error in
      let event : Event F = Event.command_status TransportStatus.error (some line) in
      let quiet : Quiet s (emit F failed event) =
        and_then (set_first_error-Quiet s error) (emit-Quiet failed event refl) in
      branch-Quiet failed.job_running (and_then quiet (same-Quiet refl refl refl refl refl refl))
        quiet

  cache_rx_buffer_size-Quiet :
      (s : SessionCore F) (size : ℤ) → Quiet s (cache_rx_buffer_size F s size)
  unfolding cache_rx_buffer_size
  cache_rx_buffer_size-Quiet s size =
      emit-Quiet s (Event.config_changed (codes "rx_buffer_size") size) refl

  handle_opt-Quiet : (s : SessionCore F) (o : Option ℤ) → Quiet s (handle_opt F s o)
  unfolding handle_opt
  handle_opt-Quiet s none = still s
  handle_opt-Quiet s (some size) =
      let cached = cache_rx_buffer_size-Quiet s size in
      branch-Quiet (not (is_positive s.config.rx_buffer_size_override))
        (and_then cached (resize-Quiet (cache_rx_buffer_size F s size) (as_usize size))) cached

  pub adopt_size-Quiet : (s : SessionCore F) (o : Option ℤ) → Quiet s (adopt_size F s o)
  unfolding adopt_size
  adopt_size-Quiet s none = still s
  adopt_size-Quiet s (some total) =
      branch-Quiet (ltb 0 (as_usize total) && not (as_usize total == rx_buffer_size s.flow.inner))
        (and_then (resize-Quiet s (as_usize total))
          (cache_rx_buffer_size-Quiet (resize F s (as_usize total)) total))
        (still s)

  show_state-Quiet : (s : SessionCore F) (shown : DeviceState F) → Quiet s (show_state F s shown)
  unfolding show_state
  show_state-Quiet s shown = branch-Quiet (state_equal F shown s.state) (still s) (
      and_then (same-Quiet refl refl refl refl refl refl)
        (emit-Quiet (record s { state = shown }) (Event.state_changed shown) refl))

  module _ (re : Regex) where
    pub handle_status_report-Quiet :
        (s : SessionCore F) (report : Text) → Quiet s (handle_status_report F re s report)
    unfolding handle_status_report
    handle_status_report-Quiet s report =
        let noted = note_device_response F s in
        let parsed = parse_state F re report noted.state noted.report_in_inches in
        let seen = record noted { raw_grbl_status = parsed.status } in
        let adopts =
          is_idle F parsed.status && not (is_positive seen.config.rx_buffer_size_override) in
        let sized = if adopts then adopt_size F seen parsed.buffer_rx_available else seen in
        let before : Quiet s seen =
          and_then (note_device_response-Quiet s) (same-Quiet refl refl refl refl refl refl) in
        and_then before (
          and_then
            (branch-Quiet adopts (adopt_size-Quiet seen parsed.buffer_rx_available) (still seen))
            (show_state-Quiet sized (record parsed {
              status = shown_status F sized.job_running sized.is_holding parsed.status;
            })))

    pub handle_other_line-Quiet :
        (s : SessionCore F) (line : Text) → Quiet s (handle_other_line F re s line)
    unfolding handle_other_line
    handle_other_line-Quiet s line = elim (Option-cases (strip_prefix (codes "ALARM:") line)) [
      | inr (code, e) ↦ rw (e, handle_other_line) (handle_alarm-Quiet s code line)
      | inl e ↦
          rw (e, handle_other_line)
            (branch-Quiet (starts_with (codes "[VER:") line) (still s) (
              branch-Quiet (starts_with (codes "[OPT:") line)
                (handle_opt-Quiet s (parse_opt_info F re line))
                (branch-Quiet
                  (starts_with (codes "Grbl ") line || starts_with (codes "GrblHAL ") line)
                  (same-Quiet refl refl refl refl refl refl) (still s))))
    ]

    pub handle_line-Quiet : (s : SessionCore F) (line : Text) → Quiet s (handle_line F re s line)
    unfolding handle_line
    handle_line-Quiet s line = branch-Quiet (is_fragment F re line) (still s) (
        branch-Quiet (starts_with (codes "<") line && ends_with b'>' line)
          (and_then (same-Quiet refl refl refl refl refl refl)
            (handle_status_report-Quiet (record s { handshake_received = true }) (trim line)))
          (and_then (collect_line-Quiet s line)
            (handle_other_line-Quiet (collect_line F s line) line)))

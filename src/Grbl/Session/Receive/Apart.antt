-- ===== src/Grbl/Session/Receive/Apart.antt =====
-- src/grbl/session.rs: what does not touch the requests.
use raydriver.Base.{
  ◌≡◌, refl, ◌∙◌, inl, inr, Bool, true, false, not, ◌&&◌, ◌||◌, Option, none, some, List, [], ◌∷◌,
  if◌then◌else◌, Option-cases, ltb, ◌==◌,
}
use raydriver.Base.Int.{ℤ}
use raydriver.Device.{F64, DeviceError, DeviceState}
use raydriver.Device.Equal.{state_equal}
use raydriver.Flow.{rx_buffer_size}
use raydriver.Grbl.Errors.{alarm_code_to_device_error}
use raydriver.Grbl.Parser.Report.{parse_state}
use raydriver.Grbl.Parser.Settings.{parse_opt_info}
use raydriver.Grbl.Session.{
  SessionCore, emit, note_device_response, pending_request, is_positive, as_usize,
}
use raydriver.Grbl.Session.Receive.{
  set_first_error, handle_alarm, handle_opt, handle_other_line, report_progress, emit_done,
  adopt_size, show_state, shown_status, is_idle, handle_status_report, cache_rx_buffer_size,
  successor, count_up, span,
}
use raydriver.Session.{Event}
use raydriver.Text.Affix.{strip_prefix, starts_with}
use raydriver.Text.Regex.{Regex}
use raydriver.Text.Trim.{trim}
use raydriver.Text.Utf8.{Text, codes}

module _ (F : F64) where
  -- What does not touch the requests.
  pub record Apart (s t : SessionCore F) : Type 0 where
    pub current : t.current_request ≡ s.current_request
    pub interactive : t.interactive_request ≡ s.interactive_request

  pub same_slots :
      {s t : SessionCore F}
      → t.current_request ≡ s.current_request
      → t.interactive_request ≡ s.interactive_request
      → Apart s t
  same_slots c i = record { current = c; interactive = i }

  pub then-Apart : {s t u : SessionCore F} → Apart s t → Apart t u → Apart s u
  then-Apart p q = record {
    current = q.current ∙ p.current;
    interactive = q.interactive ∙ p.interactive;
  }

  pub branch-Apart :
      {s x y : SessionCore F} (b : Bool) → Apart s x → Apart s y → Apart s (if b then x else y)
  branch-Apart true p q = p
  branch-Apart false p q = q

  pub Apart-pending : {s t : SessionCore F} → Apart s t → pending_request F t ≡ pending_request F s
  unfolding pending_request
  Apart-pending p = rw (p.current, p.interactive) refl

  emit_done-Apart : (is : List ℤ) (s : SessionCore F) → Apart s (emit_done F s is)
  unfolding emit_done
  emit_done-Apart [] s = same_slots refl refl
  emit_done-Apart (i ∷ rest) s =
      then-Apart (same_slots refl refl) (emit_done-Apart rest (emit F s (Event.command_done i)))

  pub report_progress-Apart : (s : SessionCore F) (o : Option ℤ) → Apart s (report_progress F s o)
  unfolding report_progress
  report_progress-Apart s none = same_slots refl refl
  report_progress-Apart s (some i) =
      let done = count_up (successor s.last_reported_op_index) (span s.last_reported_op_index i) in
      then-Apart (emit_done-Apart done s) (same_slots refl refl)

  pub set_first_error-Apart :
      (s : SessionCore F) (e : DeviceError) → Apart s (set_first_error F s e)
  unfolding set_first_error
  set_first_error-Apart s error = elim (Option-cases s.state.error) [
    | inl e ↦ rw (e, set_first_error) (same_slots refl refl)
    | inr (old, e) ↦ rw (e, set_first_error) (same_slots refl refl)
  ]

  handle_alarm-Apart : (s : SessionCore F) (code line : Text) → Apart s (handle_alarm F s code line)
  unfolding handle_alarm
  handle_alarm-Apart s code line =
      let error = alarm_code_to_device_error (trim code) in
      let failed = set_first_error F s error in
      let a = set_first_error-Apart s error in
      branch-Apart failed.job_running (record { current = a.current; interactive = a.interactive })
        (record { current = a.current; interactive = a.interactive })

  handle_opt-Apart : (s : SessionCore F) (o : Option ℤ) → Apart s (handle_opt F s o)
  unfolding handle_opt cache_rx_buffer_size
  handle_opt-Apart s none = same_slots refl refl
  handle_opt-Apart s (some size) =
      branch-Apart (not (is_positive s.config.rx_buffer_size_override)) (same_slots refl refl)
        (same_slots refl refl)

  adopt_size-Apart : (s : SessionCore F) (o : Option ℤ) → Apart s (adopt_size F s o)
  unfolding adopt_size cache_rx_buffer_size
  adopt_size-Apart s none = same_slots refl refl
  adopt_size-Apart s (some total) =
      branch-Apart (ltb 0 (as_usize total) && not (as_usize total == rx_buffer_size s.flow.inner))
        (same_slots refl refl) (same_slots refl refl)

  show_state-Apart : (s : SessionCore F) (shown : DeviceState F) → Apart s (show_state F s shown)
  unfolding show_state
  show_state-Apart s shown =
      branch-Apart (state_equal F shown s.state) (same_slots refl refl) (same_slots refl refl)

  module _ (re : Regex) where
    pub handle_status_report-Apart :
        (s : SessionCore F) (report : Text) → Apart s (handle_status_report F re s report)
    unfolding handle_status_report note_device_response
    handle_status_report-Apart s report =
        let noted = note_device_response F s in
        let parsed = parse_state F re report noted.state noted.report_in_inches in
        let seen = record noted { raw_grbl_status = parsed.status } in
        let adopts =
          is_idle F parsed.status && not (is_positive seen.config.rx_buffer_size_override) in
        let adopted = adopt_size F seen parsed.buffer_rx_available in
        let a : Apart seen (if adopts then adopted else seen) =
          branch-Apart adopts (adopt_size-Apart seen parsed.buffer_rx_available)
            (same_slots refl refl) in
        let b = show_state-Apart (if adopts then adopted else seen) (record parsed {
          status =
              shown_status F (if adopts then adopted else seen).job_running
                (if adopts then adopted else seen).is_holding parsed.status;
        }) in
        record { current = b.current ∙ a.current; interactive = b.interactive ∙ a.interactive }

    pub handle_other_line-Apart :
        (s : SessionCore F) (line : Text) → Apart s (handle_other_line F re s line)
    unfolding handle_other_line
    handle_other_line-Apart s line = elim (Option-cases (strip_prefix (codes "ALARM:") line)) [
      | inr (code, e) ↦ rw (e, handle_other_line) (handle_alarm-Apart s code line)
      | inl e ↦
          rw (e, handle_other_line)
            (branch-Apart (starts_with (codes "[VER:") line) (same_slots refl refl) (
              branch-Apart (starts_with (codes "[OPT:") line)
                (handle_opt-Apart s (parse_opt_info F re line))
                (branch-Apart
                  (starts_with (codes "Grbl ") line || starts_with (codes "GrblHAL ") line)
                  (same_slots refl refl) (same_slots refl refl))))
    ]

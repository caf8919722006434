-- ===== src/Grbl/Session/Receive/FirstError.antt =====
-- src/grbl/session.rs: the first error stays.
use raydriver.Base.{
  ◌≡◌, refl, ap, ◌∙◌, inl, inr, Bool, true, false, ◌&&◌, ◌||◌, Option, none, some, List, [], ◌∷◌,
  if◌then◌else◌, Bool-cases, Option-cases, All, arith,
}
use raydriver.Base.Int.{ℤ}
use raydriver.Device.{F64, DeviceError, TransportStatus}
use raydriver.Flow.{PendingCommand, GrblResponse, GrblResponseType}
use raydriver.Grbl.Errors.{alarm_code_to_device_error}
use raydriver.Grbl.Parser.Settings.{parse_opt_info}
use raydriver.Grbl.Session.{SessionCore, emit, note_device_response}
use raydriver.Grbl.Session.Receive.{
  count_up, successor, span, finish_request, collect_line, handle_opt, handle_other_line,
  handle_line, handle_ok, report_progress, emit_done, handle_responses, handle_as, is_fragment,
  cache_rx_buffer_size, op_index_of,
}
use raydriver.Session.{Event}
use raydriver.Text.Affix.{strip_prefix, starts_with, ends_with}
use raydriver.Text.Regex.{Regex}
use raydriver.Text.Trim.{trim}
use raydriver.Text.Utf8.{Text, codes}
use raydriver.Grbl.Session.Receive.Outcome.{
  finish_request-SameJob, collect_line-SameJob, first, handle_error-outcome, handle_alarm-outcome,
}

module _ (F : F64) where
  emit_done-state : (is : List ℤ) (s : SessionCore F) → (emit_done F s is).state ≡ s.state
  unfolding emit_done
  emit_done-state [] s = refl
  emit_done-state (i ∷ rest) s = emit_done-state rest (emit F s (Event.command_done i))

  report_progress-state :
      (s : SessionCore F) (o : Option ℤ) → (report_progress F s o).state ≡ s.state
  unfolding report_progress
  report_progress-state s none = refl
  report_progress-state s (some i) =
      emit_done-state
        (count_up (successor s.last_reported_op_index) (span s.last_reported_op_index i)) s

  pub handle_ok-state :
      (s : SessionCore F) (pending : Option PendingCommand)
      → (handle_ok F s pending).state ≡ s.state
  unfolding handle_ok note_device_response
  handle_ok-state s pending =
      let noted = note_device_response F s in
      let answered = finish_request F noted (codes "ok") TransportStatus.idle none in
      let kept = (finish_request-SameJob F noted (codes "ok") TransportStatus.idle none).state in
      elim (Bool-cases answered.job_running) [
        | inl e ↦ rw (e, handle_ok) (report_progress-state answered (op_index_of pending) ∙ kept)
        | inr e ↦ rw (e, handle_ok) kept
      ]

  pub handle_opt-state : (s : SessionCore F) (o : Option ℤ) → (handle_opt F s o).state ≡ s.state
  unfolding handle_opt cache_rx_buffer_size
  handle_opt-state s none = refl
  handle_opt-state s (some size) = ground arith

  -- An error that is there stays.
  record Stays (s t : SessionCore F) : Type 0 where
    stays : (e : DeviceError) → s.state.error ≡ some e → t.state.error ≡ some e

  Stays-same : {s t : SessionCore F} → t.state ≡ s.state → Stays s t
  Stays-same k = record { stays = λ e h. ap (λ d. d.error) k ∙ h }

  then-Stays : {s t u : SessionCore F} → Stays s t → Stays t u → Stays s u
  then-Stays p q = record { stays = λ e h. q.stays e (p.stays e h) }

  -- A handler that keeps the first error.
  Stays-first :
      {s t : SessionCore F} (error : DeviceError)
      → t.state.error ≡ some (first F s.state.error error)
      → Stays s t
  Stays-first error k = record { stays = λ e h. rw h at k }

  branch-Stays :
      {s x y : SessionCore F} (b : Bool) → Stays s x → Stays s y → Stays s (if b then x else y)
  branch-Stays true p q = p
  branch-Stays false p q = q

  module _ (re : Regex) where
    handle_other_line-Stays :
        (s : SessionCore F) (line : Text) → Stays s (handle_other_line F re s line)
    unfolding handle_other_line
    handle_other_line-Stays s line = elim (Option-cases (strip_prefix (codes "ALARM:") line)) [
      | inr (code, e) ↦
          rw (e, handle_other_line)
            (Stays-first (alarm_code_to_device_error (trim code))
              (handle_alarm-outcome F s code line).0)
      | inl e ↦
          rw (e, handle_other_line)
            (branch-Stays (starts_with (codes "[VER:") line) (Stays-same refl) (
              branch-Stays (starts_with (codes "[OPT:") line)
                (Stays-same (handle_opt-state s (parse_opt_info F re line)))
                (branch-Stays
                  (starts_with (codes "Grbl ") line || starts_with (codes "GrblHAL ") line)
                  (Stays-same refl) (Stays-same refl))))
    ]

    -- A line that is not a status report; a fragment of one does nothing.
    abbrev pub is_report : Text → Bool
    is_report line = starts_with (codes "<") line && ends_with b'>' line

    handle_line-Stays :
        (s : SessionCore F) (line : Text)
        → is_report line ≡ false
        → Stays s (handle_line F re s line)
    unfolding handle_line
    handle_line-Stays s line other = rw other (
        branch-Stays (is_fragment F re line) (Stays-same refl) (
          then-Stays (Stays-same (collect_line-SameJob F s line).state)
            (handle_other_line-Stays (collect_line F s line) line)))

    -- A response that is not a status report.
    abbrev pub is_status : GrblResponseType → GrblResponse → Bool
    is_status GrblResponseType.line r = is_report r.text
    is_status GrblResponseType.ok r = false
    is_status GrblResponseType.error r = false

    handle_as-Stays :
        (k : GrblResponseType) (s : SessionCore F) (r : GrblResponse)
        → is_status k r ≡ false
        → Stays s (handle_as F re k s r)
    handle_as-Stays GrblResponseType.ok s r other =
        Stays-same (handle_ok-state (emit F s (Event.raw_rx (codes "ok"))) r.pending)
    handle_as-Stays GrblResponseType.error s r other =
        Stays-first _ (handle_error-outcome F (emit F s (Event.raw_rx r.text)) r.text).0
    handle_as-Stays GrblResponseType.line s r other =
        then-Stays (Stays-same refl)
          (handle_line-Stays (emit F s (Event.raw_rx r.text)) r.text other)

    handle_responses-Stays :
        (rs : List GrblResponse) (s : SessionCore F)
        → All (λ r. is_status r.rtype r ≡ false) rs
        → Stays s (handle_responses F re s rs)
    unfolding handle_responses
    handle_responses-Stays [] s others = Stays-same refl
    handle_responses-Stays (r ∷ rest) s (other, others) =
        then-Stays (handle_as-Stays r.rtype s r other)
          (handle_responses-Stays rest (handle_as F re r.rtype s r) others)

    -- The first error wins: once the session has an error, no batch of acknowledgements, errors,
    -- alarms and other lines without a status report replaces it.
    pub handle_responses-first_error :
        (rs : List GrblResponse) (s : SessionCore F) (e : DeviceError)
        → All (λ r. is_status r.rtype r ≡ false) rs
        → s.state.error ≡ some e
        → (handle_responses F re s rs).state.error ≡ some e
    handle_responses-first_error rs s e others h = (handle_responses-Stays rs s others).stays e h

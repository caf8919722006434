-- ===== src/Grbl/Session/Job/Held.antt =====
-- src/grbl/session.rs: the driver owns the pause state: a hold stays shown whatever the device sends.
use raydriver.Base.{
  ℕ, ◌≡◌, refl, ap, ◌∙◌, ◌⊎◌, inl, inr, Bool, true, false, not, ◌&&◌, List, [], ◌∷◌, Option, none,
  some, if◌then◌else◌, Bool-cases, Option-cases, arith,
}
use raydriver.Base.Int.{ℤ}
use raydriver.Device.{F64, DeviceStatus, TransportStatus}
use raydriver.Device.Equal.{status_equal}
use raydriver.Flow.{PendingCommand, GrblResponse, GrblResponseType}
use raydriver.Flow.Incoming.{parse_incoming}
use raydriver.Grbl.Parser.Settings.{parse_opt_info}
use raydriver.Grbl.Session.{SessionCore, emit, note_device_response}
use raydriver.Grbl.Session.Job.{Transport, Outcome, written, set_status, set_hold, send_realtime}
use raydriver.Grbl.Session.Receive.{
  emit_done, report_progress, count_up, span, successor, finish_request, op_index_of,
  handle_other_line, handle_line, handle_as, handle_responses, handle_rx, handle_ok, collect_line,
  is_fragment, lines_first, handle_status_report,
}
use raydriver.Grbl.Session.Receive.FirstError.{handle_ok-state, handle_opt-state}
use raydriver.Grbl.Session.Receive.Outcome.{
  collect_line-SameJob, handle_error-status, handle_alarm-status,
}
use raydriver.Grbl.Session.Receive.Quiet.{
  handle_other_line-Quiet, collect_line-Quiet, handle_status_report-Quiet, handle_error-Quiet,
  finish_request-Quiet,
}
use raydriver.Grbl.Session.Receive.Status.{handle_status_report-holding, status_equal_sound}
use raydriver.Session.{Event}
use raydriver.Text.Affix.{strip_prefix, starts_with, ends_with}
use raydriver.Text.Regex.{Regex}
use raydriver.Text.Trim.{trim}
use raydriver.Text.Utf8.{Bytes, Text, codes, as_bytes}

module _ (F : F64) where
  -- A hold was asked for and is shown, but for an alarm.
  pub record IsHeld (s : SessionCore F) : Type 0 where
    pub holding : s.is_holding ≡ true
    pub shown : (s.state.status ≡ DeviceStatus.hold) ⊎ (s.state.status ≡ DeviceStatus.alarm)

  same-IsHeld :
      {s t : SessionCore F}
      → t.is_holding ≡ s.is_holding
      → t.state.status ≡ s.state.status
      → IsHeld s
      → IsHeld t
  same-IsHeld h e held = record { holding = h ∙ held.holding; shown = rw e held.shown }

  branch-IsHeld :
      {x y : SessionCore F} (b : Bool) → IsHeld x → IsHeld y → IsHeld (if b then x else y)
  branch-IsHeld true p q = p
  branch-IsHeld false p q = q

  emit_done-holding :
      (is : List ℤ) (s : SessionCore F) → (emit_done F s is).is_holding ≡ s.is_holding
  unfolding emit_done
  emit_done-holding [] s = refl
  emit_done-holding (i ∷ rest) s = emit_done-holding rest (emit F s (Event.command_done i))

  report_progress-holding :
      (s : SessionCore F) (o : Option ℤ) → (report_progress F s o).is_holding ≡ s.is_holding
  unfolding report_progress
  report_progress-holding s none = refl
  report_progress-holding s (some i) =
      emit_done-holding
        (count_up (successor s.last_reported_op_index) (span s.last_reported_op_index i)) s

  handle_ok-holding :
      (s : SessionCore F) (pending : Option PendingCommand)
      → (handle_ok F s pending).is_holding ≡ s.is_holding
  unfolding handle_ok note_device_response
  handle_ok-holding s pending =
      let noted = note_device_response F s in
      let answered = finish_request F noted (codes "ok") TransportStatus.idle none in
      let kept = (finish_request-Quiet F noted (codes "ok") TransportStatus.idle none).holding in
      elim (Bool-cases answered.job_running) [
        | inl e ↦ rw (e, handle_ok) (report_progress-holding answered (op_index_of pending) ∙ kept)
        | inr e ↦ rw (e, handle_ok) kept
      ]

  set_status-IsHeld :
      (s : SessionCore F) → s.is_holding ≡ true → IsHeld (set_status F s DeviceStatus.hold)
  unfolding set_status
  set_status-IsHeld s h = elim (Bool-cases (status_equal s.state.status DeviceStatus.hold)) [
    | inl e ↦
        rw (e, set_status)
          (record {
            holding = h;
            shown = inl (status_equal_sound s.state.status DeviceStatus.hold e);
          })
    | inr e ↦ rw (e, set_status) (record { holding = h; shown = inl refl })
  ]

  module _ (re : Regex) where
    handle_other_line-status :
        (s : SessionCore F) (line : Text)
        → (handle_other_line F re s line).state.status ≡ s.state.status
    unfolding handle_other_line
    handle_other_line-status s line = elim (Option-cases (strip_prefix (codes "ALARM:") line)) [
      | inr (code, e) ↦ rw (e, handle_other_line) (handle_alarm-status F s code line)
      | inl e ↦
          let opt = handle_opt-state F s (parse_opt_info F re line) in
          rw (e, handle_other_line) (ground (arith, opt))
    ]

    handle_line-IsHeld :
        (s : SessionCore F) (line : Text) → IsHeld s → IsHeld (handle_line F re s line)
    unfolding handle_line
    handle_line-IsHeld s line held =
        let greeted = record s { handshake_received = true } in
        let collected = collect_line F s line in
        branch-IsHeld (is_fragment F re line) held (
          branch-IsHeld (starts_with (codes "<") line && ends_with b'>' line)
            (report-IsHeld greeted (trim line) held.holding)
            (same-IsHeld
              ((handle_other_line-Quiet F re collected line).holding
                ∙ (collect_line-Quiet F s line).holding)
              (handle_other_line-status collected line
                ∙ ap (λ d. d.status) (collect_line-SameJob F s line).state)
              held))
      where
        report-IsHeld :
            (s : SessionCore F) (report : Text)
            → s.is_holding ≡ true
            → IsHeld (handle_status_report F re s report)
        report-IsHeld s report h = record {
          holding = (handle_status_report-Quiet F re s report).holding ∙ h;
          shown = elim (handle_status_report-holding F re s report h) [
            | inl e ↦ inl e
            | inr (e, _) ↦ inr e
          ];
        }

    handle_as-IsHeld :
        (k : GrblResponseType) (s : SessionCore F) (r : GrblResponse)
        → IsHeld s
        → IsHeld (handle_as F re k s r)
    handle_as-IsHeld GrblResponseType.ok s r held =
        let told = emit F s (Event.raw_rx (codes "ok")) in
        same-IsHeld (handle_ok-holding told r.pending)
          (ap (λ d. d.status) (handle_ok-state F told r.pending)) held
    handle_as-IsHeld GrblResponseType.error s r held =
        let told = emit F s (Event.raw_rx r.text) in
        same-IsHeld (handle_error-Quiet F told r.text).holding (handle_error-status F told r.text)
          held
    handle_as-IsHeld GrblResponseType.line s r held =
        handle_line-IsHeld (emit F s (Event.raw_rx r.text)) r.text (same-IsHeld refl refl held)

    handle_responses-IsHeld :
        (rs : List GrblResponse) (s : SessionCore F)
        → IsHeld s
        → IsHeld (handle_responses F re s rs)
    unfolding handle_responses
    handle_responses-IsHeld [] s held = held
    handle_responses-IsHeld (r ∷ rest) s held =
        handle_responses-IsHeld rest (handle_as F re r.rtype s r)
          (handle_as-IsHeld r.rtype s r held)

    handle_rx-IsHeld :
        (find_ok : Bytes → Option (ℕ × ℕ)) (s : SessionCore F) (input : Bytes)
        → IsHeld s
        → IsHeld (handle_rx F re find_ok s input)
    unfolding handle_rx
    handle_rx-IsHeld find_ok s input held =
        let parsed = parse_incoming find_ok s.flow.inner input in
        same-IsHeld refl refl (
          handle_responses-IsHeld (lines_first parsed.responses)
            (record s { flow = record (s.flow) { inner = parsed.inner } })
            (same-IsHeld refl refl held))

    -- Any number of reads.
    unfoldable pub read_all : (Bytes → Option (ℕ × ℕ)) → SessionCore F → List Bytes → SessionCore F
    unfolding handle_rx
    read_all find_ok s [] = s
    read_all find_ok s (input ∷ rest) = read_all find_ok (handle_rx F re find_ok s input) rest

    read_all-IsHeld :
        (find_ok : Bytes → Option (ℕ × ℕ)) (inputs : List Bytes) (s : SessionCore F)
        → IsHeld s
        → IsHeld (read_all find_ok s inputs)
    unfolding read_all
    read_all-IsHeld find_ok [] s held = held
    read_all-IsHeld find_ok (input ∷ rest) s held =
        read_all-IsHeld find_ok rest (handle_rx F re find_ok s input)
          (handle_rx-IsHeld find_ok s input held)

    send_realtime-written :
        (transport : Transport) (meanwhile : SessionCore F → SessionCore F) (s : SessionCore F)
        (command : Text)
        → transport.is_open ≡ true
        → ((b : Bytes) → transport.write b ≡ none)
        → send_realtime F transport meanwhile s command false
          ≡ (meanwhile (emit F s (Event.raw_tx command)), Outcome.done)
    unfolding send_realtime
    send_realtime-written transport meanwhile s command is_open writes =
        rw (is_open, send_realtime)
          (ap (λ w. (meanwhile (emit F s (Event.raw_tx command)), written w))
            (writes (as_bytes command)))

    -- Where a hold is written to an open transport, and no other task ends the hold meanwhile, the
    -- call succeeds, and from then on no bytes that the device sends make the session show anything
    -- but `Hold` or `Alarm`.
    pub set_hold-IsHeld :
        (find_ok : Bytes → Option (ℕ × ℕ)) (transport : Transport)
        (meanwhile : SessionCore F → SessionCore F) (s : SessionCore F) (stream_done : Bool)
        (inputs : List Bytes)
        → transport.is_open ≡ true
        → ((b : Bytes) → transport.write b ≡ none)
        → ((t : SessionCore F) → t.is_holding ≡ true → (meanwhile t).is_holding ≡ true)
        → let (held, outcome) = set_hold F transport meanwhile s stream_done true in
          (outcome ≡ Outcome.done) × IsHeld (read_all find_ok held inputs)
    unfolding set_hold
    set_hold-IsHeld find_ok transport meanwhile s stream_done inputs is_open writes keeps =
        let asked = record s {
          is_holding = true;
          is_cancelled = if not s.job_running && stream_done then false else s.is_cancelled;
        } in
        let sent = send_realtime-written transport meanwhile asked (codes "!") is_open writes in
        let after = (send_realtime F transport meanwhile asked (codes "!") false).0 in
        let kept : after.is_holding ≡ true =
          ap (λ p. p.0.is_holding) sent ∙ keeps (emit F asked (Event.raw_tx (codes "!"))) refl in
        rw (sent, set_hold)
          (
            refl,
            read_all-IsHeld find_ok inputs (set_status F after DeviceStatus.hold)
                (set_status-IsHeld after kept),
          )

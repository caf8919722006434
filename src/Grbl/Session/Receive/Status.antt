-- ===== src/Grbl/Session/Receive/Status.antt =====
-- src/grbl/session.rs: which status the session shows after a status report.
use raydriver.Base.{
  ◌≡◌, ◌≢◌, refl, sym, ap, ◌∙◌, ◌⊎◌, inl, inr, Bool, true, false, not, ◌&&◌, Option, none, some, [],
  ◌∷◌, if◌then◌else◌, Bool-cases, ==_iff, arith,
}
use raydriver.Base.Int.{ℤ}
use raydriver.Device.{F64, DeviceStatus, DeviceState}
use raydriver.Device.Equal.{state_equal, status_equal}
use raydriver.Device.Status.{name, from_name, from_name-name}
use raydriver.Grbl.Parser.Report.{parse_state}
use raydriver.Grbl.Session.{SessionCore, is_positive, note_device_response}
use raydriver.Grbl.Session.Receive.{
  is_idle, adopt_size, shown_status, show_state, handle_status_report, cache_rx_buffer_size,
}
use raydriver.Grbl.Session.Receive.Quiet.{Quiet, still, branch-Quiet, adopt_size-Quiet}
use raydriver.Text.Affix.{equal}
use raydriver.Text.Regex.{Regex}
use raydriver.Text.Utf8.{Text}

equal_sound : (s t : Text) → equal s t ≡ true → s ≡ t
unfolding equal
equal_sound [] [] e = refl
equal_sound [] (b ∷ t) e = ground arith
equal_sound (a ∷ s) [] e = ground arith
equal_sound (a ∷ s) (b ∷ t) e = let i = ==_iff a b in ground (arith, i, equal_sound s t)

-- Two statuses with the same name are the same.
pub status_equal_sound : (a b : DeviceStatus) → status_equal a b ≡ true → a ≡ b
unfolding status_equal
status_equal_sound a b e =
    sym (from_name-name a) ∙ ap from_name (equal_sound (name a) (name b) e) ∙ from_name-name b

module _ (F : F64) where
  -- A state that is equal is not replaced, but has the same status.
  show_state-status :
      (s : SessionCore F) (shown : DeviceState F)
      → (show_state F s shown).state.status ≡ shown.status
  unfolding show_state state_equal
  show_state-status s shown = elim (Bool-cases (state_equal F shown s.state)) [
    | inl e ↦
        rw (e, show_state)
          (let same : status_equal shown.status s.state.status ≡ true = ground arith in
            sym (status_equal_sound shown.status s.state.status same))
    | inr e ↦ rw (e, show_state) refl
  ]

  adopt_size-raw :
      (s : SessionCore F) (o : Option ℤ) → (adopt_size F s o).raw_grbl_status ≡ s.raw_grbl_status
  unfolding adopt_size cache_rx_buffer_size
  adopt_size-raw s none = refl
  adopt_size-raw s (some total) = ground arith

  show_state-raw :
      (s : SessionCore F) (shown : DeviceState F)
      → (show_state F s shown).raw_grbl_status ≡ s.raw_grbl_status
  unfolding show_state
  show_state-raw s shown = ground arith

  shown_status-running :
      (holding : Bool) (status : DeviceStatus)
      → shown_status F true holding status ≢ DeviceStatus.idle
  unfolding shown_status
  shown_status-running holding status = ground arith

  shown_status-holding :
      (running : Bool) (status : DeviceStatus)
      → (shown_status F running true status ≡ DeviceStatus.hold)
        ⊎ ((shown_status F running true status ≡ DeviceStatus.alarm)
            × (status ≡ DeviceStatus.alarm))
  unfolding shown_status
  shown_status-holding running status = ground arith

  branch-raw :
      (b : Bool) (x y : SessionCore F)
      → x.raw_grbl_status ≡ y.raw_grbl_status
      → (if b then x else y).raw_grbl_status ≡ y.raw_grbl_status
  branch-raw true x y e = e
  branch-raw false x y e = refl

  module _ (re : Regex) where
    -- A status report keeps the status it names as the raw one; the status shown, in the state and
    -- whether or not the state is replaced, is that one adjusted by `shown_status`.
    pub handle_status_report-status :
        (s : SessionCore F) (report : Text)
        → let raw = (parse_state F re report s.state s.report_in_inches).status in
          let t = handle_status_report F re s report in
          (t.raw_grbl_status ≡ raw)
          × (t.state.status ≡ shown_status F s.job_running s.is_holding raw)
    unfolding handle_status_report note_device_response
    handle_status_report-status s report =
        let noted = note_device_response F s in
        let parsed = parse_state F re report noted.state noted.report_in_inches in
        let seen = record noted { raw_grbl_status = parsed.status } in
        let adopts =
          is_idle F parsed.status && not (is_positive seen.config.rx_buffer_size_override) in
        let adopted = adopt_size F seen parsed.buffer_rx_available in
        let sized = if adopts then adopted else seen in
        let quiet : Quiet F seen sized =
          branch-Quiet F adopts (adopt_size-Quiet F seen parsed.buffer_rx_available)
            (still F seen) in
        let shown = record parsed {
          status = shown_status F sized.job_running sized.is_holding parsed.status;
        } in
        let status : (show_state F sized shown).state.status
            ≡ shown_status F s.job_running s.is_holding parsed.status =
          show_state-status sized shown
          ∙ ap (λ b. shown_status F b sized.is_holding parsed.status) quiet.running
          ∙ ap (λ b. shown_status F s.job_running b parsed.status) quiet.holding in
        (
          show_state-raw sized shown
              ∙ branch-raw adopts adopted seen (adopt_size-raw seen parsed.buffer_rx_available),
          status,
        )

    -- After a status report during a job the shown status is never `Idle`.
    pub handle_status_report-running :
        (s : SessionCore F) (report : Text)
        → s.job_running ≡ true
        → (handle_status_report F re s report).state.status ≢ DeviceStatus.idle
    handle_status_report-running s report run =
        let raw = (parse_state F re report s.state s.report_in_inches).status in
        let (kept, status) = handle_status_report-status s report in
        rw (status, run) (shown_status-running s.is_holding raw)

    -- After a status report while a hold was asked for the shown status is `Hold`, or `Alarm` where
    -- the report says so.
    pub handle_status_report-holding :
        (s : SessionCore F) (report : Text)
        → s.is_holding ≡ true
        → let t = handle_status_report F re s report in
          (t.state.status ≡ DeviceStatus.hold)
          ⊎ ((t.state.status ≡ DeviceStatus.alarm) × (t.raw_grbl_status ≡ DeviceStatus.alarm))
    handle_status_report-holding s report hold =
        let raw = (parse_state F re report s.state s.report_in_inches).status in
        let (kept, status) = handle_status_report-status s report in
        rw (kept, status, hold) (shown_status-holding s.job_running raw)

-- ===== src/Grbl/Session/Receive/Outcome.antt =====
-- src/grbl/session.rs: what an error or an alarm does to the session's error and its job.
use raydriver.Base.{
  ◌≡◌, refl, ap, ◌∙◌, inl, inr, Bool, true, false, not, Option, none, some, ◌++◌, if◌then◌else◌,
  Option-cases,
}
use raydriver.Device.{F64, DeviceError, TransportStatus}
use raydriver.Flow.{signal_space_available}
use raydriver.Grbl.Errors.{error_code_to_device_error, alarm_code_to_device_error}
use raydriver.Grbl.Session.{
  RequestShared, add_line, finish, SessionCore, emit, note_device_response, pending_request,
  set_request,
}
use raydriver.Grbl.Session.Receive.{
  second_part, finish_request, set_first_error, handle_error, collect_line, handle_alarm,
}
use raydriver.Session.{SessionError, Event}
use raydriver.Text.Affix.{split}
use raydriver.Text.Trim.{trim}
use raydriver.Text.Utf8.{Text, codes}

module _ (F : F64) where
  -- The device's state and what a job needs, which a request's answer does not touch.
  pub record SameJob (s t : SessionCore F) : Type 0 where
    pub state : t.state ≡ s.state
    pub running : t.job_running ≡ s.job_running
    pub exception : t.job_exception ≡ s.job_exception
    pub flow : t.flow ≡ s.flow

  same : (s : SessionCore F) → SameJob s s
  same s = record { state = refl; running = refl; exception = refl; flow = refl }

  then_same : {s t u : SessionCore F} → SameJob s t → SameJob t u → SameJob s u
  then_same p q = record {
    state = q.state ∙ p.state;
    running = q.running ∙ p.running;
    exception = q.exception ∙ p.exception;
    flow = q.flow ∙ p.flow;
  }

  branch-SameJob :
      {s x y : SessionCore F} (b : Bool)
      → SameJob s x
      → SameJob s y
      → SameJob s (if b then x else y)
  branch-SameJob true p q = p
  branch-SameJob false p q = q

  set_request-SameJob : (s : SessionCore F) (r : RequestShared) → SameJob s (set_request F s r)
  unfolding set_request
  set_request-SameJob s r = elim (Option-cases s.interactive_request) [
    | inl e ↦ rw e (record { state = refl; running = refl; exception = refl; flow = refl })
    | inr (q, e) ↦ rw e (record { state = refl; running = refl; exception = refl; flow = refl })
  ]

  pub finish_request-SameJob :
      (s : SessionCore F) (line : Text) (status : TransportStatus) (message : Option Text)
      → SameJob s (finish_request F s line status message)
  unfolding finish_request
  finish_request-SameJob s line status message = elim (Option-cases (pending_request F s)) [
    | inl e ↦ rw (e, finish_request) (same s)
    | inr (r, e) ↦
        rw (e, finish_request)
          (branch-SameJob (not r.finished)
            (then_same (set_request-SameJob s (finish (add_line r line)))
              (record { state = refl; running = refl; exception = refl; flow = refl }))
            (same s))
  ]

  pub collect_line-SameJob : (s : SessionCore F) (line : Text) → SameJob s (collect_line F s line)
  unfolding collect_line
  collect_line-SameJob s line = elim (Option-cases (pending_request F s)) [
    | inl e ↦ rw (e, collect_line) (same s)
    | inr (r, e) ↦
        rw (e, collect_line)
          (branch-SameJob (not r.finished) (set_request-SameJob s (add_line r line)) (same s))
  ]

  -- The error that is kept when another one comes.
  abbrev pub first : Option DeviceError → DeviceError → DeviceError
  first none e = e
  first (some old) e = old

  set_first_error-first :
      (s : SessionCore F) (e : DeviceError)
      → (set_first_error F s e).state.error ≡ some (first s.state.error e)
  unfolding set_first_error
  set_first_error-first s error = elim (Option-cases s.state.error) [
    | inl e ↦ rw (e, set_first_error) refl
    | inr (old, e) ↦ rw (e, set_first_error) e
  ]

  -- What keeping an error leaves alone.
  set_first_error-rest :
      (s : SessionCore F) (e : DeviceError)
      → let t = set_first_error F s e in
        (t.job_running ≡ s.job_running) × (t.job_exception ≡ s.job_exception) × (t.flow ≡ s.flow)
  unfolding set_first_error
  set_first_error-rest s error = elim (Option-cases s.state.error) [
    | inl e ↦ rw (e, set_first_error) (refl, refl, refl)
    | inr (old, e) ↦ rw (e, set_first_error) (refl, refl, refl)
  ]

  -- What an error does with a job: it is kept as the job's exception and the senders that wait for
  -- space are woken; without a job nothing happens.
  pub record IsHalted (s t : SessionCore F) (message : Text) : Type 0 where
    pub exception :
        t.job_exception
        ≡ (if s.job_running then some (SessionError.device message) else s.job_exception)
    pub flow : t.flow ≡ (if s.job_running then signal_space_available s.flow else s.flow)

  -- The two ends of a handler: with a job, and without.
  judged :
      (s a y : SessionCore F) (message : Text) (b : Bool)
      → b ≡ s.job_running
      → y.state ≡ a.state
      → y.job_exception ≡ some (SessionError.device message)
      → y.flow ≡ signal_space_available a.flow
      → a.job_exception ≡ s.job_exception
      → a.flow ≡ s.flow
      → let t = if b then y else a in (t.state ≡ a.state) × IsHalted s t message
  judged s a y message true e st ex fl ex' fl' = (
    st,
    record {
      exception =
          ex ∙ ap (λ c. if c then some (SessionError.device message) else s.job_exception) e;
      flow =
          fl
          ∙ ap signal_space_available fl'
          ∙ ap (λ c. if c then signal_space_available s.flow else s.flow) e;
    },
  )
  judged s a y message false e st ex fl ex' fl' = (
    refl,
    record {
      exception =
          ex' ∙ ap (λ c. if c then some (SessionError.device message) else s.job_exception) e;
      flow = fl' ∙ ap (λ c. if c then signal_space_available s.flow else s.flow) e;
    },
  )

  handle_error-kept :
      (s : SessionCore F) (text : Text)
      → let t = handle_error F s text in
        let error = error_code_to_device_error (trim (second_part (split b':' text))) in
        (t.state ≡ (set_first_error F (note_device_response F s) error).state)
        × IsHalted s t (codes "GRBL error: " ++ text)
  unfolding handle_error note_device_response
  handle_error-kept s text =
      let error = error_code_to_device_error (trim (second_part (split b':' text))) in
      let noted = note_device_response F s in
      let failed = set_first_error F noted error in
      let answered = finish_request F failed text TransportStatus.error (some text) in
      let told = finish_request-SameJob failed text TransportStatus.error (some text) in
      let (running, exception, flow) = set_first_error-rest noted error in
      let (state, halted) =
        judged s answered _ (codes "GRBL error: " ++ text) answered.job_running
          (told.running ∙ running) refl refl refl (told.exception ∙ exception) (told.flow ∙ flow) in
      (state ∙ told.state, halted)

  -- An `error:` reply: the error is the first one if there was none, an earlier one stays; a running
  -- job gets the reply as its exception and its sender is woken, and without a job neither changes.
  pub handle_error-outcome :
      (s : SessionCore F) (text : Text)
      → let t = handle_error F s text in
        let error = error_code_to_device_error (trim (second_part (split b':' text))) in
        (t.state.error ≡ some (first s.state.error error))
        × IsHalted s t (codes "GRBL error: " ++ text)
  unfolding note_device_response
  handle_error-outcome s text =
      let error = error_code_to_device_error (trim (second_part (split b':' text))) in
      let (state, halted) = handle_error-kept s text in
      (ap (λ d. d.error) state ∙ set_first_error-first (note_device_response F s) error, halted)

  set_first_error-status :
      (s : SessionCore F) (e : DeviceError) → (set_first_error F s e).state.status ≡ s.state.status
  unfolding set_first_error
  set_first_error-status s error = elim (Option-cases s.state.error) [
    | inl e ↦ rw (e, set_first_error) refl
    | inr (old, e) ↦ rw (e, set_first_error) refl
  ]

  pub handle_error-status :
      (s : SessionCore F) (text : Text) → (handle_error F s text).state.status ≡ s.state.status
  unfolding note_device_response
  handle_error-status s text =
      let error = error_code_to_device_error (trim (second_part (split b':' text))) in
      ap (λ d. d.status) (handle_error-kept s text).0
      ∙ set_first_error-status (note_device_response F s) error

  handle_alarm-kept :
      (s : SessionCore F) (code line : Text)
      → let t = handle_alarm F s code line in
        (t.state ≡ (set_first_error F s (alarm_code_to_device_error (trim code))).state)
        × IsHalted s t (codes "GRBL ALARM: " ++ line)
  unfolding handle_alarm
  handle_alarm-kept s code line =
      let error = alarm_code_to_device_error (trim code) in
      let failed = set_first_error F s error in
      let (running, exception, flow) = set_first_error-rest s error in
      let told = emit F failed (Event.command_status TransportStatus.error (some line)) in
      let (state, halted) =
        judged s told _ (codes "GRBL ALARM: " ++ line) told.job_running running refl refl refl
          exception flow in
      (state, halted)

  -- An `ALARM:` line does the same, with the error of the alarm's code.
  pub handle_alarm-outcome :
      (s : SessionCore F) (code line : Text)
      → let t = handle_alarm F s code line in
        (t.state.error ≡ some (first s.state.error (alarm_code_to_device_error (trim code))))
        × IsHalted s t (codes "GRBL ALARM: " ++ line)
  handle_alarm-outcome s code line =
      let (state, halted) = handle_alarm-kept s code line in
      (
        ap (λ d. d.error) state ∙ set_first_error-first s (alarm_code_to_device_error (trim code)),
        halted,
      )

  pub handle_alarm-status :
      (s : SessionCore F) (code line : Text)
      → (handle_alarm F s code line).state.status ≡ s.state.status
  handle_alarm-status s code line =
      ap (λ d. d.status) (handle_alarm-kept s code line).0
      ∙ set_first_error-status s (alarm_code_to_device_error (trim code))

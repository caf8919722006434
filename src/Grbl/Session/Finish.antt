-- ===== src/Grbl/Session/Finish.antt =====
-- src/grbl/session.rs: the end of `stream_gcode`, behind the loop over the lines.
use raydriver.Base.{
  ℕ, ◌+◌, ◌≡◌, ◌∙◌, refl, inl, inr, Bool, true, false, not, List, [], ◌∷◌, ◌++◌, some,
  if◌then◌else◌, is_some, Bool-cases, arith,
}
use raydriver.Base.Int.{negsuc}
use raydriver.Device.{F64, DeviceStatus}
use raydriver.Dialect.{Dialect}
use raydriver.Grbl.Session.{RequestShared, SessionCore, emit}
use raydriver.Grbl.Session.Cancel.{During, cancel}
use raydriver.Grbl.Session.Job.{Transport, Outcome}
use raydriver.Session.{SessionError, Event}
use raydriver.Text.Utf8.{Text, codes}

-- `Display` of `SessionError`.
unfoldable pub error_text : SessionError → Text
error_text (SessionError.connection message) = message
error_text SessionError.timeout = codes "operation timed out"
error_text (SessionError.device message) = message
error_text (SessionError.buffer_stall message) = codes "buffer stall: " ++ message
error_text (SessionError.other message) = message

module _ (F : F64) where
  -- The job's error becomes the device's, if it has none.
  unfoldable pub surface_error : SessionCore F → SessionError → SessionCore F
  unfolding error_text
  surface_error s error =
      let shown = record (s.state) {
        error =
            some (record {
              code = negsuc 0;
              title = codes "Job Error";
              description = error_text error;
            });
      } in
      if is_some s.state.error
      then s
      else emit F (record s { state = shown }) (Event.state_changed shown)

  abbrev pub settled : SessionCore F → SessionCore F
  settled s = record s {
    raw_grbl_status = DeviceStatus.unknown;
    job_running = false;
    is_holding = false;
  }

  module _ (transport : Transport) (env : During F) (dialect : Dialect) where
    unfoldable pub interrupt : SessionCore F → Outcome → SessionCore F
    unfolding surface_error cancel
    interrupt s Outcome.done = s
    interrupt s (Outcome.failed error) =
        let cancelled = (cancel F transport env dialect (surface_error s error) true).0 in
        if s.is_cancelled then s else cancelled

    unfoldable pub report_finished : SessionCore F → Outcome → SessionCore F
    report_finished s (Outcome.failed error) = s
    report_finished s Outcome.done = if s.is_cancelled then s else emit F s Event.job_finished

    unfoldable pub finish_stream : SessionCore F → Outcome → SessionCore F
    unfolding interrupt report_finished
    finish_stream s outcome = report_finished (settled (interrupt s outcome)) outcome

abbrev pub is_job_finished : {F : F64} → Event F → ℕ
is_job_finished Event.job_finished = 1
is_job_finished _ = 0

-- How often a log tells that a job has finished.
abbrev pub finished_count : {F : F64} → List (Event F) → ℕ
finished_count [] = 0
finished_count (e ∷ es) = is_job_finished e + finished_count es

finished_count-append :
    {F : F64} (es fs : List (Event F))
    → finished_count (es ++ fs) ≡ finished_count es + finished_count fs
finished_count-append [] fs = omega arith
finished_count-append (e ∷ es) fs = omega (arith, finished_count-append es fs)

other_event :
    {F : F64} (es : List (Event F)) (e : Event F)
    → is_job_finished e ≡ 0
    → finished_count (es ++ e ∷ []) ≡ finished_count es
other_event es e other = omega (arith, finished_count-append es (e ∷ []), other)

module _ (F : F64) where
  surface_error-finished :
      (s : SessionCore F) (error : SessionError)
      → finished_count (surface_error F s error).events ≡ finished_count s.events
  unfolding surface_error
  surface_error-finished s error = elim (Bool-cases (is_some s.state.error)) [
    | inl e ↦ rw (e, surface_error) refl
    | inr e ↦ rw (e, surface_error) (other_event s.events _ refl)
  ]

  -- The first branch, where the transport is closed.
  closed_branch :
      (is_open : Bool) (n : ℕ) (x y : SessionCore F × List RequestShared × Outcome)
      → is_open ≡ false
      → finished_count x.0.events ≡ n
      → finished_count (if not is_open then x else y).0.events ≡ n
  closed_branch false n x y e h = h
  closed_branch true n x y e h = ground arith

  both_branches :
      (b : Bool) (n : ℕ) (x y : SessionCore F)
      → finished_count x.events ≡ n
      → finished_count y.events ≡ n
      → finished_count (if b then x else y).events ≡ n
  both_branches true n x y p q = p
  both_branches false n x y p q = q

  module _ (transport : Transport) (env : During F) (dialect : Dialect) where
    cancel-closed :
        (s : SessionCore F) (emergency : Bool)
        → transport.is_open ≡ false
        → finished_count (cancel F transport env dialect s emergency).0.events
          ≡ finished_count s.events
    unfolding cancel
    cancel-closed s emergency closed =
        closed_branch transport.is_open (finished_count s.events) _ _ closed refl

    interrupt-closed :
        (s : SessionCore F) (outcome : Outcome)
        → transport.is_open ≡ false
        → finished_count (interrupt F transport env dialect s outcome).events
          ≡ finished_count s.events
    unfolding interrupt
    interrupt-closed s Outcome.done closed = refl
    interrupt-closed s (Outcome.failed error) closed =
        let surfaced = surface_error F s error in
        both_branches s.is_cancelled (finished_count s.events) s
          (cancel F transport env dialect surfaced true).0 refl
          (cancel-closed surfaced true closed ∙ surface_error-finished s error)

    -- A job that ends over a closed transport tells once that it has finished where the streaming of
    -- its lines ended without an error and the job was not cancelled, and never else: after an error,
    -- the lost connection included, there is no `job_finished`.
    pub finish_stream-closed :
        (s : SessionCore F) (outcome : Outcome)
        → transport.is_open ≡ false
        → finished_count (finish_stream F transport env dialect s outcome).events
          ≡ finished_count s.events + elim outcome [
            | Outcome.done ↦ if s.is_cancelled then 0 else 1
            | Outcome.failed error ↦ 0
          ]
    unfolding finish_stream interrupt report_finished
    finish_stream-closed s Outcome.done closed = elim (Bool-cases s.is_cancelled) [
      | inl e ↦ rw e (omega arith)
      | inr e ↦ rw e (finished_count-append s.events (Event.job_finished ∷ []))
    ]
    finish_stream-closed s (Outcome.failed error) closed =
        let h = interrupt-closed s (Outcome.failed error) closed in omega (arith, h)

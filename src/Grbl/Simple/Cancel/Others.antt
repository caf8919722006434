-- ===== src/Grbl/Simple/Cancel/Others.antt =====
-- src/grbl/simple.rs: what the other tasks do while a cancellation waits, and a command that is
-- finished and out of the slot.
use raydriver.Base.{
  ℕ, ◌≡◌, ◌≢◌, refl, ap, ◌∙◌, sym, inl, inr, arith, Bool, true, false, ◌&&◌, ◌||◌, List, [], ◌∷◌,
  ◌++◌, Option, none, some, Option-cases, if◌then◌else◌, length, get_elem?, get_elem?-modify-other,
  get_elem?-kept, get_elem?-below,
}
use raydriver.Device.{F64, DeviceError, DeviceStatus}
use raydriver.Device.Equal.{state_equal}
use raydriver.Grbl.Errors.{error_code_to_device_error, alarm_code_to_device_error}
use raydriver.Grbl.Session.Receive.{second_part}
use raydriver.Grbl.Simple.{
  PendingCmd, new_pending, add_line, finish, SimpleCore, emit, emit_state_if_changed, mutate,
}
use raydriver.Grbl.Simple.Exchange.{World, begin_exchange}
use raydriver.Grbl.Simple.Receive.{
  with_last_line, change_found, change_open, finish_pending, resolve_slot, resolve_pending,
  collect_line, set_device_error, fail_job, or_error, handle_error_line, handle_alarm, shown_state,
  handle_status_report, handle_line, handle_lines, drain_lines, handle_rx,
}
use raydriver.Session.{Event}
use raydriver.Text.Affix.{equal, strip_prefix, starts_with, ends_with, split}
use raydriver.Text.Regex.{Regex}
use raydriver.Text.Trim.{trim}
use raydriver.Text.Utf8.{Bytes, Text, codes}

module _ {F : F64} (re : Regex) where
  -- A task reads, begins an exchange, ends one or cancels, or changes what is neither a command nor the
  -- slot, such as the reset of the cancellation by `execute_command`, but starts no job.
  pub data Step (s : SimpleCore F) : SimpleCore F → Type 0 where
    reads : (input : Bytes) → Step s (handle_rx F re s input)
    begins : (command : Text) → Step s (begin_exchange F s command)
    ends : Step s (resolve_pending F s)
    changes :
        (t : SimpleCore F)
        → t.pending ≡ s.pending
        → t.commands ≡ s.commands
        → t.job_running ≡ s.job_running
        → Step s t

  pub data Others (s : SimpleCore F) : SimpleCore F → Type 0 where
    none_acts : Others s s
    acts : {t u : SimpleCore F} → Others s t → Step t u → Others s u

  -- All that happens while a task waits are steps of the others.
  pub record IsShared (world : World F) : Type 0 where
    pub writing : (s : SimpleCore F) → Others s (world.writing s)
    pub waiting : (s : SimpleCore F) → Others s (world.waiting s)

module _ {F : F64} (i : ℕ) (p : PendingCmd) where
  -- The command `i`, which was `p`, is finished and not in the slot, and no job is running.
  pub record IsReleased (s : SimpleCore F) : Type 0 where
    pub object : get_elem? s.commands i ≡ some (finish p)
    pub slot : s.pending ≢ some i
    pub no_job : s.job_running ≡ false

  pub IsReleased-if :
      (b : Bool) {s t : SimpleCore F}
      → IsReleased s
      → IsReleased t
      → IsReleased (if b then s else t)
  IsReleased-if true h k = h
  IsReleased-if false h k = k

  -- What changes neither a command nor the slot nor the job.
  pub IsReleased-same :
      (s t : SimpleCore F)
      → t.pending ≡ s.pending
      → t.commands ≡ s.commands
      → t.job_running ≡ s.job_running
      → IsReleased s
      → IsReleased t
  IsReleased-same s t slot_is commands_are job_is h = record {
    object = ap (λ l. get_elem? l i) commands_are ∙ h.object;
    slot = λ e. h.slot (sym slot_is ∙ e);
    no_job = job_is ∙ h.no_job;
  }

  mutate-IsReleased :
      (s : SimpleCore F) (j : ℕ) (change : PendingCmd → PendingCmd)
      → i ≢ j
      → IsReleased s
      → IsReleased (mutate F s j change)
  mutate-IsReleased s j change other h = record {
    object = get_elem?-modify-other j i change s.commands other ∙ h.object;
    slot = h.slot;
    no_job = h.no_job;
  }

  change_found-IsReleased :
      (s : SimpleCore F) (j : ℕ) (found : Option PendingCmd) (change : PendingCmd → PendingCmd)
      → i ≢ j
      → IsReleased s
      → IsReleased (change_found F s j found change)
  change_found-IsReleased s j none change other h = h
  change_found-IsReleased s j (some q) change other h =
      IsReleased-if q.finished h (mutate-IsReleased s j change other h)

  change_open-IsReleased :
      (s : SimpleCore F) (change : PendingCmd → PendingCmd)
      → IsReleased s
      → IsReleased (change_open F s s.pending change)
  unfolding change_open
  change_open-IsReleased s change h = elim (Option-cases s.pending) [
    | inl e ↦ rw (e, change_open) h
    | inr (j, e) ↦
        rw (e, change_open)
          (change_found-IsReleased s j (get_elem? s.commands j) change
            (λ same. h.slot (e ∙ sym (ap some same))) h)
  ]

  finish_pending-IsReleased :
      (s : SimpleCore F) (last_line : Option Text)
      → IsReleased s
      → IsReleased (finish_pending F s last_line)
  unfolding finish_pending
  finish_pending-IsReleased s last_line h =
      change_open-IsReleased s (λ q. finish (with_last_line F last_line q)) h

  set_device_error-IsReleased :
      (s : SimpleCore F) (error : DeviceError)
      → IsReleased s
      → IsReleased (set_device_error F s error)
  unfolding set_device_error
  set_device_error-IsReleased s error h = elim (Option-cases s.state.error) [
    | inl e ↦ rw (e, set_device_error) (IsReleased-same s _ refl refl refl h)
    | inr (first, e) ↦ rw (e, set_device_error) h
  ]

  failing-IsReleased :
      (s : SimpleCore F) (text : Text)
      → IsReleased s
      → IsReleased (if s.job_running then fail_job F s text else s)
  failing-IsReleased s text h = IsReleased-if s.job_running (IsReleased-same s _ refl refl refl h) h

  handle_error_line-IsReleased :
      (s : SimpleCore F) (line : Text) → IsReleased s → IsReleased (handle_error_line F s line)
  unfolding handle_error_line
  handle_error_line-IsReleased s line h =
      let error = error_code_to_device_error (trim (second_part (split b':' line))) in
      failing-IsReleased (finish_pending F (set_device_error F s error) (some line))
        (codes "GRBL error: " ++ line)
        (finish_pending-IsReleased (set_device_error F s error) (some line)
          (set_device_error-IsReleased s error h))

  handle_alarm-IsReleased :
      (s : SimpleCore F) (code line : Text) → IsReleased s → IsReleased (handle_alarm F s code line)
  unfolding handle_alarm
  handle_alarm-IsReleased s code line h =
      let alarmed = record (s.state) {
        error = or_error F s.state.error (alarm_code_to_device_error code);
        status = DeviceStatus.alarm;
      } in
      let told = emit F (record s { state = alarmed }) (Event.state_changed alarmed) in
      failing-IsReleased (finish_pending F told (some line)) (codes "GRBL ALARM: " ++ line)
        (finish_pending-IsReleased told (some line) (IsReleased-same s told refl refl refl h))

  module _ (re : Regex) where
    handle_status_report-IsReleased :
        (s : SimpleCore F) (report : Text)
        → IsReleased s
        → IsReleased (handle_status_report F re s report)
    unfolding handle_status_report emit_state_if_changed
    handle_status_report-IsReleased s report h =
        IsReleased-if (state_equal F s.state (shown_state F re s report))
          (IsReleased-same s _ refl refl refl h) (IsReleased-same s _ refl refl refl h)

    IsReleased-code :
        (x : Text → SimpleCore F) {s : SimpleCore F} (code : Option Text)
        → ((c : Text) → IsReleased (x c))
        → IsReleased s
        → IsReleased (elim code as (λ _. SimpleCore F) [ some c ↦ x c | none ↦ s ])
    IsReleased-code x none h k = k
    IsReleased-code x (some c) h k = h c

    handle_line-IsReleased :
        (s : SimpleCore F) (line : Text) → IsReleased s → IsReleased (handle_line F re s line)
    unfolding handle_line collect_line
    handle_line-IsReleased s line h =
        let told = emit F s (Event.raw_rx line) in
        let heard = IsReleased-same s told refl refl refl h in
        IsReleased-if (equal line (codes "ok")) (finish_pending-IsReleased told none heard) (
          IsReleased-if (starts_with (codes "error:") line)
            (handle_error_line-IsReleased told line heard)
            (IsReleased-if (starts_with (codes "<") line && ends_with b'>' line)
              (handle_status_report-IsReleased s line h)
              (IsReleased-code (λ code. handle_alarm F told (trim code) line)
                (strip_prefix (codes "ALARM:") line)
                (λ code. handle_alarm-IsReleased told (trim code) line heard)
                (IsReleased-if
                  (starts_with (codes "Grbl ") line || starts_with (codes "GrblHAL ") line)
                  (IsReleased-same told (record told { handshake_received = true }) refl refl refl
                    heard)
                  (change_open-IsReleased told (add_line line) heard)))))

    handle_lines-IsReleased :
        (lines : List Text) (s : SimpleCore F)
        → IsReleased s
        → IsReleased (handle_lines F re s lines)
    unfolding handle_lines
    handle_lines-IsReleased [] s h = h
    handle_lines-IsReleased (line ∷ rest) s h =
        handle_lines-IsReleased rest (handle_line F re s line) (handle_line-IsReleased s line h)

  begins-IsReleased :
      (s : SimpleCore F) (command : Text) → IsReleased s → IsReleased (begin_exchange F s command)
  begins-IsReleased s command h = record {
    object = get_elem?-kept s.commands (new_pending ∷ []) i h.object;
    slot = λ e.
        let last : length s.commands ≡ i = cc in
        let below = get_elem?-below s.commands i h.object in absurd (omega arith);
    no_job = h.no_job;
  }

  resolve_slot-IsReleased :
      (s : SimpleCore F) (slot : Option ℕ)
      → s.pending ≡ slot
      → IsReleased s
      → IsReleased (resolve_slot F s slot)
  resolve_slot-IsReleased s none e h = h
  resolve_slot-IsReleased s (some j) e h =
      mutate-IsReleased (record s { pending = none }) j (λ q. finish q)
        (λ same. h.slot (e ∙ sym (ap some same)))
        (record { object = h.object; slot = λ d. cc; no_job = h.no_job })

  Step-IsReleased : (re : Regex) {s t : SimpleCore F} → Step re s t → IsReleased s → IsReleased t
  unfolding handle_rx resolve_pending
  Step-IsReleased re {s} (Step.reads input) h =
      let buffer = s.line_buffer ++ input in
      let (new_lines, left) = drain_lines (length buffer) buffer in
      handle_lines-IsReleased re new_lines (record s { line_buffer = left })
        (IsReleased-same s _ refl refl refl h)
  Step-IsReleased re {s} (Step.begins command) h = begins-IsReleased s command h
  Step-IsReleased re {s} Step.ends h = resolve_slot-IsReleased s s.pending refl h
  Step-IsReleased re {s} (Step.changes t slot_is commands_are job_is) h =
      IsReleased-same s t slot_is commands_are job_is h

  -- Whatever the others do, a command that is finished and out of the slot stays so.
  pub Others-IsReleased :
      (re : Regex) {s t : SimpleCore F} → Others re s t → IsReleased s → IsReleased t
  Others-IsReleased re Others.none_acts h = h
  Others-IsReleased re (Others.acts before step) h =
      Step-IsReleased re step (Others-IsReleased re before h)

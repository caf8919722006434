-- ===== src/Grbl/Simple/Receive/Reply.antt =====
-- src/grbl/simple.rs: the handler of a line, and the command in the slot.
use raydriver.Base.{
  ℕ, modify, ◌≡◌, refl, inl, inr, Bool, true, false, ◌&&◌, ◌||◌, List, [], ◌∷◌, Option, none, some,
  Option-cases, if◌then◌else◌, get_elem?, get_elem?-modify,
}
use raydriver.Device.{F64, DeviceError, DeviceState}
use raydriver.Grbl.Simple.{PendingCmd, add_line, finish, SimpleCore, emit, mutate}
use raydriver.Grbl.Simple.Receive.{
  with_last_line, change_found, change_open, finish_pending, collect_line, set_device_error,
  handle_error_line, handle_alarm, shown_state, handle_status_report, handle_line, handle_lines,
  fail_job,
}
use raydriver.Device.Equal.{state_equal}
use raydriver.Grbl.Simple.{emit_state_if_changed}
use raydriver.Session.{Event}
use raydriver.Text.Affix.{equal, strip_prefix, starts_with, ends_with}
use raydriver.Text.Regex.{Regex}
use raydriver.Text.Trim.{trim}
use raydriver.Text.Utf8.{Text, codes}
use raydriver.Grbl.Simple.Receive.Kind.{Kind, kind, unless_finished, hear, hear_all}

module _ {F : F64} where
  -- The slot points to the object `p`.
  pub record Holds (s : SimpleCore F) (i : ℕ) (p : PendingCmd) : Type 0 where
    pub slot : s.pending ≡ some i
    pub object : get_elem? s.commands i ≡ some p

  Holds-branch :
      {i : ℕ} {p : PendingCmd} {x y : SimpleCore F} (b : Bool)
      → Holds x i p
      → Holds y i p
      → Holds (if b then x else y) i p
  Holds-branch true h k = h
  Holds-branch false h k = k

  Holds-if :
      {i : ℕ} {p q : PendingCmd} {x y : SimpleCore F} (b : Bool)
      → Holds x i p
      → Holds y i q
      → Holds (if b then x else y) i (if b then p else q)
  Holds-if true h k = h
  Holds-if false h k = k

  -- A change of the command in the slot leaves the rest of the state as it is.
  pub change_open-commands :
      (s : SimpleCore F) (slot : Option ℕ) (change : PendingCmd → PendingCmd)
      → (commands : List PendingCmd) × (change_open F s slot change
          ≡ record s { commands = commands })
  unfolding change_open
  change_open-commands s none change = (s.commands, refl)
  change_open-commands s (some i) change = by_found (get_elem? s.commands i)
    where
      by_test :
          (b : Bool)
          → (commands : List PendingCmd) × ((if b then s else mutate F s i change)
              ≡ record s { commands = commands })
      by_test true = (s.commands, refl)
      by_test false = (modify i change s.commands, refl)

      by_found :
          (found : Option PendingCmd)
          → (commands : List PendingCmd) × (change_found F s i found change
              ≡ record s { commands = commands })
      by_found none = (s.commands, refl)
      by_found (some p) = by_test p.finished

  Holds-change_found :
      {s : SimpleCore F} {i : ℕ} {p : PendingCmd} (change : PendingCmd → PendingCmd)
      → Holds s i p
      → Holds (change_found F s i (some p) change) i (unless_finished p (change p))
  Holds-change_found {s} {i} {p} change h =
      Holds-if p.finished h
        (record { slot = h.slot; object = get_elem?-modify i change s.commands h.object })

  Holds-change_open :
      {s : SimpleCore F} {i : ℕ} {p : PendingCmd} (change : PendingCmd → PendingCmd)
      (slot : Option ℕ)
      → slot ≡ some i
      → get_elem? s.commands i ≡ some p
      → Holds s i p
      → Holds (change_open F s slot change) i (unless_finished p (change p))
  unfolding change_open
  Holds-change_open change slot e d h = rw (e, d) (Holds-change_found change h)

  Holds-finish_pending :
      {s : SimpleCore F} {i : ℕ} {p : PendingCmd} (last_line : Option Text)
      → Holds s i p
      → Holds
          (finish_pending F s last_line)
          i
          (unless_finished p (finish (with_last_line F last_line p)))
  unfolding finish_pending
  Holds-finish_pending {s} last_line h =
      Holds-change_open (λ p. finish (with_last_line F last_line p)) s.pending h.slot h.object h

  Holds-collect_line :
      {s : SimpleCore F} {i : ℕ} {p : PendingCmd} (line : Text)
      → Holds s i p
      → Holds (collect_line F s line) i (unless_finished p (add_line line p))
  unfolding collect_line
  Holds-collect_line {s} line h = Holds-change_open (add_line line) s.pending h.slot h.object h

  Holds-set_device_error :
      {s : SimpleCore F} {i : ℕ} {p : PendingCmd} (error : DeviceError)
      → Holds s i p
      → Holds (set_device_error F s error) i p
  unfolding set_device_error
  Holds-set_device_error {s} error h = elim (Option-cases s.state.error) [
    | inl e ↦ rw (e, set_device_error) (record { slot = h.slot; object = h.object })
    | inr (first, e) ↦ rw (e, set_device_error) h
  ]

  Holds-failed :
      {s : SimpleCore F} {i : ℕ} {p : PendingCmd} (text : Text)
      → Holds s i p
      → Holds (if s.job_running then fail_job F s text else s) i p
  Holds-failed {s} text h =
      Holds-branch s.job_running (record { slot = h.slot; object = h.object }) h

  -- A change of the state and of the log leaves the slot as it is.
  Holds-told :
      {s : SimpleCore F} {i : ℕ} {p : PendingCmd} (e : Event F)
      → Holds s i p
      → Holds (emit F s e) i p
  Holds-told e h = record { slot = h.slot; object = h.object }

  Holds-handle_error_line :
      {s : SimpleCore F} {i : ℕ} {p : PendingCmd} (line : Text)
      → Holds s i p
      → Holds (handle_error_line F s line) i (unless_finished p (finish (add_line line p)))
  unfolding handle_error_line
  Holds-handle_error_line line h =
      Holds-failed _ (Holds-finish_pending (some line) (Holds-set_device_error _ h))

  Holds-handle_alarm :
      {s : SimpleCore F} {i : ℕ} {p : PendingCmd} (code line : Text)
      → Holds s i p
      → Holds (handle_alarm F s code line) i (unless_finished p (finish (add_line line p)))
  unfolding handle_alarm
  Holds-handle_alarm code line h =
      Holds-failed _
        (Holds-finish_pending (some line) (record { slot = h.slot; object = h.object }))

  Holds-emit_state_if_changed :
      (s : SimpleCore F) {i : ℕ} {p : PendingCmd} (state : DeviceState F)
      → Holds s i p
      → Holds (emit_state_if_changed F s state) i p
  unfolding emit_state_if_changed
  Holds-emit_state_if_changed s state h =
      Holds-branch (state_equal F s.state state) h (record { slot = h.slot; object = h.object })

  module _ (re : Regex) where
    Holds-handle_status_report :
        {s : SimpleCore F} {i : ℕ} {p : PendingCmd} (report : Text)
        → Holds s i p
        → Holds (handle_status_report F re s report) i p
    unfolding handle_status_report
    Holds-handle_status_report {s} report h =
        Holds-emit_state_if_changed (record s { handshake_received = true })
          (shown_state F re s report) (record { slot = h.slot; object = h.object })

    -- A line of the kind `k` came in.
    record Heard (line : Text) (p : PendingCmd) (i : ℕ) (s : SimpleCore F) (k : Kind) : Type 0 where
      after : Holds s i (hear k line p)

    Heard-if :
        {line : Text} {p : PendingCmd} {i : ℕ} {x y : SimpleCore F} {j k : Kind} (b : Bool)
        → Heard line p i x j
        → Heard line p i y k
        → Heard line p i (if b then x else y) (if b then j else k)
    Heard-if true h k = h
    Heard-if false h k = k

    Heard-code :
        {line : Text} {p : PendingCmd} {i : ℕ} {y : SimpleCore F} {j k : Kind}
        (x : Text → SimpleCore F) (code : Option Text)
        → ((c : Text) → Heard line p i (x c) j)
        → Heard line p i y k
        → Heard line p i
            (elim code as (λ _. SimpleCore F) [ some c ↦ x c | none ↦ y ])
            (elim code as (λ _. Kind) [ some c ↦ j | none ↦ k ])
    Heard-code x none h k = k
    Heard-code x (some c) h k = h c

    -- A line does to the command in the slot what its kind says.
    Heard-handle_line :
        {s : SimpleCore F} {i : ℕ} {p : PendingCmd} (line : Text)
        → Holds s i p
        → Heard line p i (handle_line F re s line) (kind line)
    unfolding handle_line kind
    Heard-handle_line {s} line h =
        let told = Holds-told (Event.raw_rx line) h in
        Heard-if (equal line (codes "ok")) (record { after = Holds-finish_pending none told })
          (Heard-if (starts_with (codes "error:") line)
            (record { after = Holds-handle_error_line line told })
            (Heard-if (starts_with (codes "<") line && ends_with b'>' line)
              (record { after = Holds-handle_status_report line h })
              (Heard-code (λ code. handle_alarm F (emit F s (Event.raw_rx line)) (trim code) line)
                (strip_prefix (codes "ALARM:") line)
                (λ code. record { after = Holds-handle_alarm (trim code) line told })
                (Heard-if (starts_with (codes "Grbl ") line || starts_with (codes "GrblHAL ") line)
                  (record { after = record { slot = told.slot; object = told.object } })
                  (record { after = Holds-collect_line line told })))))

    pub Holds-handle_lines :
        (lines : List Text) {s : SimpleCore F} {i : ℕ} {p : PendingCmd}
        → Holds s i p
        → Holds (handle_lines F re s lines) i (hear_all lines p)
    unfolding handle_lines hear_all
    Holds-handle_lines [] h = h
    Holds-handle_lines (line ∷ rest) h = Holds-handle_lines rest (Heard-handle_line line h).after

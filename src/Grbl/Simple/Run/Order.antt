-- ===== src/Grbl/Simple/Run/Order.antt =====
-- src/grbl/simple.rs: what a job sends and tells, in which order.
use raydriver.Base.{
  ℕ, ◌+◌, ◌≡◌, ◌⊎◌, refl, sym, ap, ◌∙◌, inl, inr, Bool, true, false, Bool-cases, List, [], ◌∷◌,
  ◌++◌, ++_nil, Option, none, some, Option-cases, if◌then◌else◌, is_empty,
}
use raydriver.Base.Int.{ℤ}
use raydriver.Device.{F64}
use raydriver.Device.Equal.{int_equal}
use raydriver.Grbl.Simple.{SimpleCore, emit, hand_over}
use raydriver.Grbl.Simple.Exchange.{World, begin_exchange, end_exchange, ping_pong}
use raydriver.Grbl.Simple.Receive.{resolve_slot, resolve_pending}
use raydriver.Grbl.Simple.Run.{Progress, code_of, report_op}
use raydriver.Session.{SessionError, Result, Event}
use raydriver.Text.Regex.{Regex}
use raydriver.Text.Utf8.{Text, as_bytes}

-- The part of a log that a job writes.
pub data Said : Type 0 where
  sent : Text → Said
  done : ℤ → Said
  finished : Said

unfoldable pub said : {F : F64} → List (Event F) → List Said
said [] = []
said (Event.raw_tx text ∷ es) = Said.sent text ∷ said es
said (Event.command_done i ∷ es) = Said.done i ∷ said es
said (Event.job_finished ∷ es) = Said.finished ∷ said es
said (_ ∷ es) = said es

pub said-append : {F : F64} (es fs : List (Event F)) → said (es ++ fs) ≡ said es ++ said fs
unfolding said
said-append [] fs = refl
said-append (Event.raw_tx text ∷ es) fs = ap (◌∷◌ (Said.sent text)) (said-append es fs)
said-append (Event.command_done i ∷ es) fs = ap (◌∷◌ (Said.done i)) (said-append es fs)
said-append (Event.job_finished ∷ es) fs = ap (◌∷◌ Said.finished) (said-append es fs)
said-append (Event.state_changed a ∷ es) fs = said-append es fs
said-append (Event.connection_status a b ∷ es) fs = said-append es fs
said-append (Event.command_status a b ∷ es) fs = said-append es fs
said-append (Event.probe_status a ∷ es) fs = said-append es fs
said-append (Event.wcs_updated a ∷ es) fs = said-append es fs
said-append (Event.config_changed a b ∷ es) fs = said-append es fs
said-append (Event.raw_rx a ∷ es) fs = said-append es fs

-- The operation of a line, where it is another than the last one.
unfoldable pub news : ℤ → Option ℤ → List Said
unfolding int_equal
news last none = []
news last (some op_index) = if int_equal op_index last then [] else Said.done op_index ∷ []

unfoldable pub next_last : ℤ → Option ℤ → ℤ
unfolding int_equal
next_last last none = last
next_last last (some op_index) = if int_equal op_index last then last else op_index

-- The whole job: each line with code, behind its operation where that is new.
unfoldable pub script : Regex → (ℕ → Option ℤ) → ℕ → ℤ → List Text → List Said
unfolding code_of news next_last
script re op_map line_idx last [] = []
script re op_map line_idx last (raw_line ∷ rest) =
    let line = code_of re raw_line in
    let skipped = script re op_map (line_idx + 1) last rest in
    let others = script re op_map (line_idx + 1) (next_last last (op_map line_idx)) rest in
    if is_empty line then skipped else news last (op_map line_idx) ++ Said.sent line ∷ others

module _ {F : F64} where
  -- What was said before, and the operation that was told last.
  pub record Says (s : SimpleCore F) (log : List Said) (last : ℤ) : Type 0 where
    pub log_is : said s.events ≡ log
    pub last_is : s.last_reported_op_index ≡ last

  -- The other tasks send nothing, tell no operation and no end of a job, in a write or a wait.
  pub record IsQuiet (world : World F) : Type 0 where
    pub writing :
        (s : SimpleCore F) (log : List Said) (last : ℤ)
        → Says s log last
        → Says (world.writing s) log last
    pub waiting :
        (s : SimpleCore F) (log : List Said) (last : ℤ)
        → Says s log last
        → Says (world.waiting s) log last

  Says-resolve_slot :
      {s : SimpleCore F} {log : List Said} {last : ℤ} (slot : Option ℕ)
      → Says s log last
      → Says (resolve_slot F s slot) log last
  Says-resolve_slot none h = h
  Says-resolve_slot (some i) h = record { log_is = h.log_is; last_is = h.last_is }

  Says-resolve_pending :
      {s : SimpleCore F} {log : List Said} {last : ℤ}
      → Says s log last
      → Says (resolve_pending F s) log last
  unfolding resolve_pending
  Says-resolve_pending {s} h = Says-resolve_slot s.pending h

  told_branch :
      {s : SimpleCore F} {log : List Said} {last : ℤ} (op_index : ℤ) (same : Bool)
      → Says s log last
      → Says
          (if same
            then s
            else emit F
                (record s { last_reported_op_index = op_index })
                (Event.command_done op_index))
          (log ++ (if same then [] else Said.done op_index ∷ []))
          (if same then last else op_index)
  unfolding said
  told_branch {log = log} op_index true h = record {
    log_is = h.log_is ∙ sym (++_nil log);
    last_is = h.last_is;
  }
  told_branch {s = s} op_index false h = record {
    log_is = said-append s.events _ ∙ ap (λ l. l ++ Said.done op_index ∷ []) h.log_is;
    last_is = refl;
  }

  pub Says-report_op :
      {s : SimpleCore F} {log : List Said} {last : ℤ} (op : Option ℤ)
      → Says s log last
      → Says (report_op F s op) (log ++ news last op) (next_last last op)
  unfolding report_op news next_last
  Says-report_op {log = log} none h = record {
    log_is = h.log_is ∙ sym (++_nil log);
    last_is = h.last_is;
  }
  Says-report_op {s} (some op_index) h = rw⁻¹ h.last_is (
      told_branch op_index (int_equal op_index s.last_reported_op_index)
        (record { log_is = h.log_is; last_is = refl }))

  pub Says-begin :
      {s : SimpleCore F} {log : List Said} {last : ℤ} (command : Text)
      → Says s log last
      → Says
          (hand_over F (begin_exchange F s command) (as_bytes (command ++ b'\n' ∷ [])))
          (log ++ Said.sent command ∷ [])
          last
  unfolding said
  Says-begin {s} command h = record {
    log_is = said-append s.events _ ∙ ap (λ l. l ++ Said.sent command ∷ []) h.log_is;
    last_is = h.last_is;
  }

  module _ (world : World F) (quiet : IsQuiet world) where
    -- Nothing was sent, or the command was.
    pub Says-ping_pong :
        {s : SimpleCore F} {log : List Said} {last : ℤ} (command : Text)
        → Says s log last
        → (Says (ping_pong F world s command).0 log last
            × ((error : SessionError) × ((ping_pong F world s command).1 ≡ Result.err error)))
          ⊎ Says (ping_pong F world s command).0 (log ++ Said.sent command ∷ []) last
    unfolding ping_pong end_exchange
    Says-ping_pong {s} {log} {last} command h =
        let written = quiet.writing _ _ _ (Says-begin command h) in
        elim (Bool-cases (world.is_open s)) [
          | inl e ↦
              inr
                (elim (Option-cases
                  (world.write (begin_exchange F s command) (as_bytes (command ++ b'\n' ∷ [])))) [
                    | inl d ↦ rw (e, d) (Says-resolve_pending (quiet.waiting _ _ _ written))
                    | inr (error, d) ↦ rw (e, d) (Says-resolve_pending written)
                  ])
          | inr e ↦ inl (rw e (h, (_, refl)))
        ]

  -- What the loop does with a line, by its tests.
  pub line_cases {κ} :
      (P : Progress F → Type κ) (stop blank : Bool) (result : Result (List Text)) (failed : Bool)
      {at_stop at_blank at_error at_failure goes_on : Progress F}
      → (stop ≡ true → P at_stop)
      → (blank ≡ true → P at_blank)
      → (blank ≡ false → (error : SessionError) → result ≡ Result.err error → P at_error)
      → (blank ≡ false → failed ≡ true → P at_failure)
      → (blank ≡ false → (reply : List Text) → result ≡ Result.ok reply → P goes_on)
      → P (elim stop as (λ _. Progress F) [
        | true ↦ at_stop
        | false ↦ elim blank as (λ _. Progress F) [
          | true ↦ at_blank
          | false ↦ elim result as (λ _. Progress F) [
            | Result.err error ↦ at_error
            | Result.ok reply ↦ elim failed as (λ _. Progress F) [
              | true ↦ at_failure
              | false ↦ goes_on
            ]
          ]
        ]
      ])
  line_cases P true blank result failed a b c d e = a refl
  line_cases P false true result failed a b c d e = b refl
  line_cases P false false (Result.err error) failed a b c d e = c refl error refl
  line_cases P false false (Result.ok reply) true a b c d e = d refl refl
  line_cases P false false (Result.ok reply) false a b c d e = e refl reply refl

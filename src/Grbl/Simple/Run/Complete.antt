-- ===== src/Grbl/Simple/Run/Complete.antt =====
-- src/grbl/simple.rs: a job whose commands are all acknowledged.
use raydriver.Base.{
  ℕ, suc, ◌+◌, ◌≡◌, refl, ap, ◌∙◌, sym, inl, inr, arith, Bool, true, false, not, ◌||◌, List, [],
  ◌∷◌, ◌++◌, ++_assoc, ++_nil, Option, none, some, if◌then◌else◌, is_empty, is_some, length,
  get_elem?-last, true_not_false,
}
use raydriver.Base.Int.{ℤ, negsuc}
use raydriver.Device.{F64, DeviceStatus}
use raydriver.Device.Equal.{status_equal, int_equal}
use raydriver.Dialect.{Dialect}
use raydriver.Grbl.Simple.{PendingCmd, new_pending, SimpleCore, emit, hand_over}
use raydriver.Grbl.Simple.Exchange.{World, begin_exchange, end_exchange, waited_for, ping_pong}
use raydriver.Grbl.Simple.Receive.{resolve_slot, resolve_pending}
use raydriver.Grbl.Simple.Receive.Reply.{Holds}
use raydriver.Grbl.Simple.Run.{
  Progress, start_job, must_stop, code_of, report_op, run_lines, finish_run, run,
}
use raydriver.Grbl.Simple.Run.Order.{
  Said, said, said-append, script, news, next_last, Says, IsQuiet, Says-report_op, Says-ping_pong,
  line_cases,
}
use raydriver.Grbl.Simple.Run.Prefix.{regroup}
use raydriver.Session.{Result, Event, ok_not_err}
use raydriver.Text.Regex.{Regex}
use raydriver.Text.Trim.{lines as text_lines}
use raydriver.Text.Utf8.{Bytes, Text, as_bytes}

-- How many lines have code.
unfoldable pub code_lines : Regex → List Text → ℕ
unfolding code_of
code_lines re [] = 0
code_lines re (raw_line ∷ rest) =
    let others = code_lines re rest in if is_empty (code_of re raw_line) then others else suc others

module _ {F : F64} where
  -- Nothing stops the job.
  pub record IsGoing (s : SimpleCore F) : Type 0 where
    pub not_cancelled : s.is_cancelled ≡ false
    pub not_alarmed : status_equal s.state.status DeviceStatus.alarm ≡ false
    pub no_exception : s.job_exception ≡ none

  -- The transport takes every command, the command in the slot is finished in time, and nothing stops
  -- the job meanwhile.
  pub record IsAnswering (world : World F) : Type 0 where
    pub is_open : (s : SimpleCore F) → world.is_open s ≡ true
    pub accepts : (s : SimpleCore F) (payload : Bytes) → world.write s payload ≡ none
    pub answers :
        (s : SimpleCore F) (i : ℕ) (p : PendingCmd)
        → Holds s i p
        → (q : PendingCmd) × Holds (world.waiting (world.writing s)) i q × (q.finished ≡ true)
    pub writing : (s : SimpleCore F) → IsGoing s → IsGoing (world.writing s)
    pub waiting : (s : SimpleCore F) → IsGoing s → IsGoing (world.waiting s)

  IsGoing-resolve_slot :
      {s : SimpleCore F} (slot : Option ℕ) → IsGoing s → IsGoing (resolve_slot F s slot)
  IsGoing-resolve_slot none h = h
  IsGoing-resolve_slot (some i) h = record {
    not_cancelled = h.not_cancelled;
    not_alarmed = h.not_alarmed;
    no_exception = h.no_exception;
  }

  IsGoing-resolve_pending : {s : SimpleCore F} → IsGoing s → IsGoing (resolve_pending F s)
  unfolding resolve_pending
  IsGoing-resolve_pending {s} h = IsGoing-resolve_slot s.pending h

  IsGoing-if :
      {s t : SimpleCore F} (b : Bool) → IsGoing s → IsGoing t → IsGoing (if b then s else t)
  IsGoing-if true h k = h
  IsGoing-if false h k = k

  IsGoing-report_op : {s : SimpleCore F} (op : Option ℤ) → IsGoing s → IsGoing (report_op F s op)
  unfolding report_op
  IsGoing-report_op none h = h
  IsGoing-report_op {s} (some op_index) h =
      IsGoing-if (int_equal op_index s.last_reported_op_index) h (record {
        not_cancelled = h.not_cancelled;
        not_alarmed = h.not_alarmed;
        no_exception = h.no_exception;
      })

  module _ (world : World F) (answering : IsAnswering world) where
    IsGoing-ping_pong :
        {s : SimpleCore F} (command : Text) → IsGoing s → IsGoing (ping_pong F world s command).0
    unfolding ping_pong end_exchange
    IsGoing-ping_pong {s} command h =
        rw
          (
            answering.is_open s,
            answering.accepts (begin_exchange F s command) (as_bytes (command ++ b'\n' ∷ [])),
          )
          (IsGoing-resolve_pending (
            answering.waiting _ (
              answering.writing _ (record {
                not_cancelled = h.not_cancelled;
                not_alarmed = h.not_alarmed;
                no_exception = h.no_exception;
              }))))

    waited_finished :
        (found : Option PendingCmd) (q : PendingCmd)
        → found ≡ some q
        → q.finished ≡ true
        → (reply : List Text) × (waited_for F found ≡ Result.ok reply)
    waited_finished found q e finished = rw (e, finished) (q.lines, refl)

    ping_pong-ok :
        (s : SimpleCore F) (command : Text)
        → (reply : List Text) × ((ping_pong F world s command).1 ≡ Result.ok reply)
    unfolding ping_pong end_exchange
    ping_pong-ok s command =
        let begun = hand_over F (begin_exchange F s command) (as_bytes (command ++ b'\n' ∷ [])) in
        let held : Holds begun (length s.commands) new_pending = record {
          slot = refl;
          object = get_elem?-last s.commands new_pending;
        } in
        let (q, after, finished) = answering.answers begun (length s.commands) new_pending held in
        rw
          (
            answering.is_open s,
            answering.accepts (begin_exchange F s command) (as_bytes (command ++ b'\n' ∷ [])),
          )
          (waited_finished _ q after.object finished)

    -- A loop that has come to its end.
    record IsComplete (q : Progress F) (log : List Said) (count : ℕ) : Type 0 where
      log_is : said q.core.events ≡ log
      going : IsGoing q.core
      sent_is : q.sent ≡ count
      uninterrupted : q.interrupted ≡ false

    must_stop-going : {s : SimpleCore F} → IsGoing s → must_stop F s ≡ false
    unfolding must_stop
    must_stop-going h = rw (h.not_cancelled, h.not_alarmed) refl

    module _ (re : Regex) (quiet : IsQuiet world) where
      run_lines-IsComplete :
          (lines : List Text) (op_map : ℕ → Option ℤ) (line_idx : ℕ) (p : Progress F)
          (log : List Said) (last : ℤ)
          → Says p.core log last
          → IsGoing p.core
          → p.interrupted ≡ false
          → IsComplete
              (run_lines F re world op_map line_idx p lines)
              (log ++ script re op_map line_idx last lines)
              (p.sent + code_lines re lines)
      unfolding run_lines script code_lines
      run_lines-IsComplete [] op_map line_idx p log last h going fine = record {
        log_is = h.log_is ∙ sym (++_nil log);
        going = going;
        sent_is = omega arith;
        uninterrupted = fine;
      }
      run_lines-IsComplete (raw_line ∷ rest) op_map line_idx p log last h going fine =
          let line = code_of re raw_line in
          let op = op_map line_idx in
          let told = Says-report_op op h in
          let exchange = ping_pong F world (report_op F p.core op) line in
          let whole = log ++ script re op_map line_idx last (raw_line ∷ rest) in
          let others = script re op_map (line_idx + 1) (next_last last op) rest in
          let acked = ping_pong-ok (report_op F p.core op) line in
          let exchanged = IsGoing-ping_pong line (IsGoing-report_op op going) in
          line_cases (λ q. IsComplete q whole (p.sent + code_lines re (raw_line ∷ rest)))
            (must_stop F p.core) (is_empty line) exchange.1 (is_some exchange.0.job_exception)
            (λ stop. true_not_false stop (must_stop-going going))
            (λ e. rw e (run_lines-IsComplete rest op_map (line_idx + 1) p log last h going fine))
            (λ e error failed. ok_not_err acked.1 failed)
            (λ e failed. true_not_false failed (ap is_some exchanged.no_exception))
            (λ e reply granted. elim (Says-ping_pong world quiet line told) [
              | inl (unsent, (error, failed)) ↦ ok_not_err granted failed
              | inr sent ↦
                  let count : p.sent + suc (code_lines re rest) ≡ p.sent + 1 + code_lines re rest =
                    omega arith in
                  rw (e, count, sym (regroup log (news last op) (Said.sent line) others))
                    (run_lines-IsComplete rest op_map (line_idx + 1) _ _ (next_last last op)
                      (quiet.waiting _ _ _ sent) (answering.waiting _ exchanged) fine)
            ])

      finished_branch :
          (shut skip : Bool) (x y : SimpleCore F)
          → shut ≡ false
          → skip ≡ false
          → (if not skip
              then emit F (if shut then x else y) Event.job_finished
              else (if shut then x else y))
            ≡ emit F y Event.job_finished
      finished_branch false false x y e d = refl
      finished_branch true skip x y e d = true_not_false refl e
      finished_branch false true x y e d = true_not_false refl d

      finish_run-going :
          (dialect : Dialect) (q : Progress F)
          → IsGoing q.core
          → q.interrupted ≡ false
          → finish_run F re world dialect q
            ≡ emit F
                (record (q.core) { job_exception = none; job_running = false; is_holding = false })
                Event.job_finished
      unfolding finish_run
      finish_run-going dialect q going fine =
          let calm : (is_some q.core.job_exception || q.interrupted) ≡ false =
            rw (going.no_exception, fine) refl in
          finished_branch (is_some q.core.job_exception || q.interrupted) q.core.is_cancelled _ _
            calm going.not_cancelled

      -- A job whose commands are all acknowledged, over an open transport and without a cancellation,
      -- sends each line with code in order, tells each operation before its first line where it
      -- differs from the one told before, tells at the end, once, that it has finished, and leaves
      -- no job running.
      pub run-said :
          (dialect : Dialect) (s : SimpleCore F) (gcode : Text) (op_map : ℕ → Option ℤ)
          → (said (run F re world dialect s gcode op_map).events
              ≡ said s.events
                ++ (script re op_map 0 (negsuc 0) (text_lines gcode) ++ Said.finished ∷ []))
            × ((run F re world dialect s gcode op_map).job_running ≡ false)
      unfolding run start_job said
      run-said dialect s gcode op_map =
          let begun : Progress F = record { core = start_job F s; sent = 0; interrupted = false } in
          let done =
            run_lines-IsComplete (text_lines gcode) op_map 0 begun (said s.events) (negsuc 0)
              (record { log_is = said-append s.events _ ∙ ++_nil (said s.events); last_is = refl })
              (record { not_cancelled = refl; not_alarmed = refl; no_exception = refl }) refl in
          let looped = run_lines F re world op_map 0 begun (text_lines gcode) in
          let ended = finish_run-going dialect looped done.going done.uninterrupted in
          (
            ap (λ t. said t.events) ended
                ∙ said-append looped.core.events (Event.job_finished ∷ [])
                ∙ ap (λ l. l ++ Said.finished ∷ []) done.log_is
                ∙ ++_assoc (said s.events) (script re op_map 0 (negsuc 0) (text_lines gcode))
                    (Said.finished ∷ []),
            ap (λ t. t.job_running) ended,
          )

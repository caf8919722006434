-- ===== src/Grbl/Simple/Tests.antt =====
-- src/grbl/simple.rs: exchanges, jobs and cancellations, with the theorems at them.
use raydriver.Base.{
  ℕ, ◌≡◌, refl, Bool, true, false, List, [], ◌∷◌, ◌++◌, Option, none, some, if◌then◌else◌, ++_nil,
  is_some, map, ◌||◌, ◌∙◌,
}
use raydriver.Base.Int.{ℤ, pos, negsuc}
use raydriver.Device.Equal.{int_equal}
use raydriver.Device.Sample.{whole_numbers, comma_engine}
use raydriver.Dialect.{Dialect, default_dialect}
use raydriver.Grbl.Session.Cancel.{shutdown_commands}
use raydriver.Grbl.Parser.Commands.{strip_gcode_comments}
use raydriver.Grbl.Simple.{PendingCmd, new_pending, finish, SimpleCore, new, emit}
use raydriver.Grbl.Simple.Exchange.{World, begin_exchange, ping_pong}
use raydriver.Grbl.Simple.Exchange.Answers.{ping_pong-response}
use raydriver.Grbl.Simple.Cancel.{send_safety_shutdown, cancel}
use raydriver.Grbl.Simple.Receive.Chunks.{handle_rx-append}
use raydriver.Grbl.Simple.Run.Ends.{run-transport}
use raydriver.Grbl.Simple.Cancel.Others.{Step, Others, IsShared, IsReleased}
use raydriver.Grbl.Simple.Cancel.Released.{IsAlone, payload_of, cancel-IsReleased}
use raydriver.Grbl.Simple.Receive.{finish_pending, handle_line, handle_lines, handle_rx}
use raydriver.Grbl.Simple.Receive.Kind.{response, kind, hear_all}
use raydriver.Grbl.Simple.Receive.Reply.{change_open-commands, Holds, Holds-handle_lines}
use raydriver.Grbl.Simple.Run.{Progress, code_of, start_job, run_lines, finish_run, run}
use raydriver.Grbl.Simple.Run.Order.{Said, said, said-append, IsQuiet, script, news, next_last}
use raydriver.Grbl.Simple.Run.Prefix.{Start, run_lines-Start}
use raydriver.Grbl.Simple.Run.Complete.{IsAnswering, run-said}
use raydriver.Session.{Result, Event}
use raydriver.Text.Affix.{equal, starts_with, ends_with, strip_prefix}
use raydriver.Text.Trim.{trim, lines as text_lines}
use raydriver.Text.Utf8.{Text, codes, as_bytes}

abbrev Core : Type 0
Core = SimpleCore whole_numbers

abbrev idle : Core
idle = new whole_numbers (record { poll_status_while_running = false })

-- A device that answers every command with these lines.
abbrev replying : List Text → World whole_numbers
replying answer = record {
  is_open = λ s. true;
  write = λ s payload. none;
  writing = λ s. s;
  waiting = λ s. handle_lines whole_numbers comma_engine s answer;
}

abbrev build_info : List Text
build_info = codes "Grbl 1.1f" ∷ codes "[VER:1.1f]" ∷ codes "ok" ∷ codes "[OPT:V]" ∷ []

ping_pong-response_example :
    (ping_pong whole_numbers (replying build_info) idle (codes "$I")).1
    ≡ Result.ok (codes "[VER:1.1f]" ∷ [])
unfolding response kind equal starts_with ends_with strip_prefix
ping_pong-response_example =
    ping_pong-response whole_numbers comma_engine (replying build_info) idle (codes "$I") build_info
      refl refl (λ t. refl)

abbrev acked : List Text
acked = codes "ok" ∷ []

-- What an acknowledgement does to the state.
acked-commands :
    (s : Core)
    → (commands : List PendingCmd) × (handle_lines whole_numbers comma_engine s acked
        ≡ record s { commands = commands; events = s.events ++ Event.raw_rx (codes "ok") ∷ [] })
unfolding handle_lines handle_line finish_pending equal
acked-commands s =
    change_open-commands (emit whole_numbers s (Event.raw_rx (codes "ok"))) s.pending
      (λ p. finish p)

replying-IsQuiet : IsQuiet (replying acked)
unfolding said
replying-IsQuiet = record {
  writing = λ s log last h. h;
  waiting = λ s log last h.
      let (commands, e) = acked-commands s in
      rw e (record {
        log_is = said-append s.events _ ∙ ++_nil (said s.events) ∙ h.log_is;
        last_is = h.last_is;
      });
}

replying-answers :
    (s : Core) (i : ℕ) (p : PendingCmd)
    → Holds s i p
    → (q : PendingCmd) × Holds (handle_lines whole_numbers comma_engine s acked) i q
      × (q.finished ≡ true)
unfolding hear_all kind equal
replying-answers s i p h =
    (hear_all acked p, Holds-handle_lines comma_engine acked h, by_test p.finished refl)
  where
    by_test : (b : Bool) → p.finished ≡ b → (if b then p else finish p).finished ≡ true
    by_test true e = e
    by_test false e = refl

replying-IsAnswering : IsAnswering (replying acked)
replying-IsAnswering = record {
  is_open = λ s. refl;
  accepts = λ s payload. refl;
  answers = replying-answers;
  writing = λ s h. h;
  waiting = λ s h.
      let (commands, e) = acked-commands s in
      rw e (record {
        not_cancelled = h.not_cancelled;
        not_alarmed = h.not_alarmed;
        no_exception = h.no_exception;
      });
}

-- Two operations, a line without code between.
abbrev job : Text
job = codes "G0X1" ++ b'\n' ∷ codes "; next" ++ b'\n' ∷ codes "G0X2"

abbrev ops : ℕ → Option ℤ
ops i = some (pos i)

run-said_example :
    let t = run whole_numbers comma_engine (replying acked) default_dialect idle job ops in
    (said t.events
      ≡ said idle.events
        ++ (script comma_engine ops 0 (negsuc 0) (text_lines job) ++ Said.finished ∷ []))
    × (t.job_running ≡ false)
run-said_example =
    run-said (replying acked) replying-IsAnswering comma_engine replying-IsQuiet default_dialect
      idle job ops

script_run :
    script comma_engine ops 0 (negsuc 0) (text_lines job)
    ≡ Said.done (pos 0)
      ∷ Said.sent (codes "G0X1")
      ∷ Said.done (pos 2)
      ∷ Said.sent (codes "G0X2")
      ∷ []
unfolding script code_of news next_last int_equal text_lines strip_gcode_comments trim
script_run = refl

abbrev begun : Progress whole_numbers
begun = record { core = idle; sent = 0; interrupted = false }

run_lines-Start_example :
    Start
      (said
        (run_lines whole_numbers comma_engine
          (replying acked)
          ops
          0
          begun
          (text_lines job)).core.events)
      ([] ++ script comma_engine ops 0 (negsuc 0) (text_lines job))
unfolding said new
run_lines-Start_example =
    run_lines-Start comma_engine (replying acked) replying-IsQuiet (text_lines job) ops 0 begun []
      (negsuc 0) (record { log_is = refl; last_is = refl })

abbrev silent : World whole_numbers
silent = record {
  is_open = λ s. true;
  write = λ s payload. none;
  writing = λ s. s;
  waiting = λ s. s;
}

silent-IsAlone : IsAlone silent
silent-IsAlone = record { is_open = λ s. refl; writing = λ s. refl; waiting = λ s. refl }

abbrev stopping : Dialect
stopping = record default_dialect { emergency_stop = some (codes "M112") }

-- A command that is waited for, in a job.
abbrev waiting : Core
waiting = record idle { commands = new_pending ∷ []; pending = some 0; job_running = true }

-- No answer comes, the first command times out.
run-transport_example :
    let begun : Progress whole_numbers = record {
      core = start_job whole_numbers idle;
      sent = 0;
      interrupted = false;
    } in
    let p = run_lines whole_numbers comma_engine silent ops 0 begun (text_lines job) in
    (run whole_numbers comma_engine silent stopping idle job ops).transport
    ≡ p.core.transport
      ++ (if is_some p.core.job_exception || p.interrupted
          then map payload_of (shutdown_commands whole_numbers stopping true)
          else [])
run-transport_example = run-transport comma_engine silent silent-IsAlone stopping idle job ops

run-silent :
    (run whole_numbers comma_engine silent stopping idle job ops).transport
    ≡ (codes "G0X1" ++ b'\n' ∷ []) ∷ (codes "M5" ++ b'\n' ∷ []) ∷ (codes "M112" ++ b'\n' ∷ []) ∷ []
unfolding run start_job run_lines code_of text_lines strip_gcode_comments trim payload_of as_bytes
    shutdown_commands new finish_run send_safety_shutdown ping_pong
run-silent = refl

-- The answer to `$I` in two reads, cut inside its second line.
handle_rx-append_example :
    handle_rx whole_numbers comma_engine
      (handle_rx whole_numbers comma_engine waiting
        (as_bytes (codes "[VER:1.1f]" ++ b'\n' ∷ codes "o")))
      (as_bytes (codes "k" ++ b'\n' ∷ []))
    ≡ handle_rx whole_numbers comma_engine waiting
        (as_bytes (codes "[VER:1.1f]" ++ b'\n' ∷ codes "o") ++ as_bytes (codes "k" ++ b'\n' ∷ []))
handle_rx-append_example =
    handle_rx-append comma_engine waiting (as_bytes (codes "[VER:1.1f]" ++ b'\n' ∷ codes "o"))
      (as_bytes (codes "k" ++ b'\n' ∷ []))

-- While the cancellation writes, another task asks; while it waits, the answer comes.
abbrev busy : World whole_numbers
busy = record {
  is_open = λ s. true;
  write = λ s payload. none;
  writing = λ s. begin_exchange whole_numbers s (codes "$G");
  waiting = λ s. handle_rx whole_numbers comma_engine s (as_bytes (codes "ok" ++ b'\n' ∷ []));
}

busy-IsShared : IsShared comma_engine busy
busy-IsShared = record {
  writing = λ s. Others.acts Others.none_acts (Step.begins (codes "$G"));
  waiting = λ s. Others.acts Others.none_acts (Step.reads (as_bytes (codes "ok" ++ b'\n' ∷ [])));
}

cancel-IsReleased_example :
    IsReleased 0 new_pending (cancel whole_numbers busy default_dialect waiting true).0
cancel-IsReleased_example =
    cancel-IsReleased comma_engine busy busy-IsShared 0 new_pending default_dialect waiting true
      refl refl

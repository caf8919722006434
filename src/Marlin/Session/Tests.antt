-- ===== src/Marlin/Session/Tests.antt =====
-- src/marlin/session.rs: commands in flight, with the theorems at them.
use raydriver.Base.{◌++◌}
use raydriver.Base.{◌≡◌, refl, arith, true, false, List, [], ◌∷◌, modify}
use raydriver.Device.Sample.{whole_numbers, comma_engine}
use raydriver.Marlin.Parser.{is_ok, is_error}
use raydriver.Marlin.Session.{MarlinConfig, new_pending, MarlinCore, new}
use raydriver.Marlin.Session.Exchange.Entries.{occurs, count}
use raydriver.Marlin.Session.Exchange.Ownership.{
  Act, begins, ends, receives, resolves, IsQueued, act_all, in_flight, act_all-IsQueued,
}
use raydriver.Marlin.Session.Exchange.Turns.{Answered, turns, turns-Answered}
use raydriver.Marlin.Session.Receive.{handle_lines}
use raydriver.Marlin.Session.Receive.Front.{hear, hear_all}
use raydriver.Marlin.Session.Receive.Queue.{handle_lines-commands}
use raydriver.Text.Unicode.{Unicode}
use raydriver.Text.Utf8.{Text, codes}

-- No character beyond ASCII is a letter or has another case.
abbrev ascii_only : Unicode
ascii_only = record {
  upper = λ c. c ∷ [];
  lower = λ before c behind. c ∷ [];
  alphanumeric = λ c. false;
}

abbrev config : MarlinConfig
config = record { poll_status_while_running = true }

-- A poll and a command of the user, both in flight.
abbrev two_waiting : MarlinCore whole_numbers
two_waiting = record (new whole_numbers config) {
  commands = new_pending ∷ new_pending ∷ [];
  pending_queue = 0 ∷ 1 ∷ [];
}

abbrev two_acks : List Text
two_acks = codes "ok" ∷ codes "ok T:20" ∷ []

handle_lines-commands_example :
    let t = handle_lines whole_numbers ascii_only comma_engine two_waiting two_acks in
    (t.commands ≡ modify 0 (hear_all ascii_only two_acks) two_waiting.commands)
    × (t.pending_queue ≡ 0 ∷ 1 ∷ [])
handle_lines-commands_example =
    handle_lines-commands ascii_only comma_engine two_acks two_waiting 0 (1 ∷ []) refl

-- The second acknowledgement of the read is lost.
second_lost :
    modify 0 (hear_all ascii_only two_acks) two_waiting.commands
    ≡ record { lines = codes "ok" ∷ []; finished = true } ∷ new_pending ∷ []
unfolding hear_all hear is_ok is_error
second_lost = refl

abbrev acts : List Act
acts =
    begins (codes "M114")
    ∷ begins (codes "M5")
    ∷ receives two_acks
    ∷ ends 0
    ∷ receives two_acks
    ∷ ends 1
    ∷ begins (codes "M5")
    ∷ resolves
    ∷ []

-- The first two commands have ended, and the third was resolved; a fourth begins.
abbrev more_acts : List Act
more_acts = acts ++ begins (codes "M3") ∷ []

act_all-IsQueued_example :
    let queue =
      (act_all ascii_only comma_engine (new whole_numbers config) more_acts).pending_queue in
    (occurs 3 queue ≡ count (in_flight 3 0 false more_acts))
    × IsQueued (act_all ascii_only comma_engine (new whole_numbers config) more_acts)
act_all-IsQueued_example = act_all-IsQueued ascii_only comma_engine config more_acts 3

in_flight_runs : in_flight 3 0 false more_acts ≡ true
in_flight_runs = refl

abbrev replies : List (List Text)
replies = (codes "X:1 Y:2" ∷ codes "ok" ∷ []) ∷ (codes "Error:cold" ∷ []) ∷ []

turns-Answered_example :
    Answered ascii_only
      (0 ∷ 1 ∷ [])
      replies
      two_waiting.commands
      (turns ascii_only comma_engine (0 ∷ 1 ∷ []) two_waiting replies).commands
turns-Answered_example =
    turns-Answered ascii_only comma_engine (0 ∷ 1 ∷ []) two_waiting replies refl
      ((λ e. omega (arith, e), tt), (tt, tt))

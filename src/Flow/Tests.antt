-- ===== src/Flow/Tests.antt =====
-- src/grbl/flow.rs: runs of the model on concrete input, with the theorems at it. `ok_find` is one
-- function that the regex may be.
pub mod OkFind
use raydriver.Base.{
  ℕ, ◌+◌, ◌<◌, ◌≤◌, ◌^◌, ◌≡◌, ◌≢◌, refl, inl, inr, Bool, true, false, List, [], ◌∷◌, ◌++◌, Option,
  none, some, arith,
}
use raydriver.Base.Int.{ℤ, pos}
use raydriver.Flow.{
  FlowInner, PendingCommand, GrblResponseType, GrblResponse, track_command, needs_space,
  rx_buffer_size,
}
use raydriver.Flow.Account.{IsAccounted}
use raydriver.Flow.Account.Incoming.{Tracks, parse_incoming-Tracks}
use raydriver.Flow.Account.Window.{IsWindowed, Step, Reach, Reach-IsWindowed}
use raydriver.Flow.Incoming.{parse_incoming}
use raydriver.Flow.Incoming.Framing.{parse_incoming-no_newline}
use raydriver.Flow.Incoming.OkAck.{IsOkAckFind, parse_incoming-split}
use raydriver.Flow.Scan.{position, find_subslice, find_null_corrupted_ok}
use raydriver.Flow.Scan.Sound.{IsFirst, find_subslice-IsFirst}
use raydriver.Flow.Scan.Corrupted.{IsFirstCorrupted, find_null_corrupted_ok-IsFirst}
use raydriver.Flow.Wait.{
  Round, WaitResult, ready, timed_out, wait_for_space, wait_pending_empty, Agrees, has_pending,
  wait_for_space-Agrees, wait_pending_empty-Agrees, wait_pending_empty-patient,
}
use raydriver.Flow.Wait.Deadline.{IsTimed, wait_for_space-ends}
use raydriver.Text.Utf8.{Bytes, Text, codes}
use OkFind.{ok_find, ok_find-IsOkAckFind}

abbrev first_move : PendingCommand
first_move = record { length = 10; op_index = some (pos 0); command = codes "G1 X1 F10" }

abbrev second_move : PendingCommand
second_move = record { length = 5; op_index = some (pos 1); command = codes "G1X2" }

abbrev two_moves : FlowInner
two_moves = record {
  rx_count = 15;
  rx_size = some 20;
  status_buffer = [];
  pending = first_move ∷ second_move ∷ [];
  acked_since_flush = false;
  drained_since_flush = false;
}

-- An `ok` in front of a status report and an error behind it.
abbrev mixed : Bytes
mixed =
    codes "<Idok" ++ b'\r' ∷ b'\n' ∷ codes "le>" ++ b'\n' ∷ codes "error:9" ++ b'\n' ∷ codes "rest"

mixed_runs :
    (parse_incoming ok_find two_moves mixed).responses
    ≡ record { rtype = GrblResponseType.ok; text = codes "ok"; pending = some first_move }
      ∷ record { rtype = GrblResponseType.error; text = codes "error:9"; pending = none }
      ∷ record { rtype = GrblResponseType.line; text = codes "<Idle>"; pending = none }
      ∷ []
unfolding parse_incoming ok_find
mixed_runs = refl

parse_incoming-Tracks_example : Tracks two_moves (parse_incoming ok_find two_moves mixed)
parse_incoming-Tracks_example = parse_incoming-Tracks ok_find two_moves mixed refl

parse_incoming-no_newline_example :
    position b'\n' (parse_incoming ok_find two_moves mixed).inner.status_buffer ≡ none
parse_incoming-no_newline_example = parse_incoming-no_newline ok_find two_moves mixed

parse_incoming-split_example :
    ((parse_incoming ok_find two_moves (codes "o")).responses ≡ [])
    × (parse_incoming ok_find
          (parse_incoming ok_find two_moves (codes "o")).inner
          (b'k' ∷ b'\n' ∷ [])
        ≡ parse_incoming ok_find two_moves (codes "o" ++ b'k' ∷ b'\n' ∷ []))
unfolding position
parse_incoming-split_example =
    parse_incoming-split ok_find ok_find-IsOkAckFind two_moves (codes "o") (b'k' ∷ b'\n' ∷ []) refl

abbrev corrupted : Bytes
corrupted = b'o' ∷ b'o' ∷ 0 ∷ b'k' ∷ b'\r' ∷ b'\n' ∷ []

corrupted_found : find_null_corrupted_ok corrupted ≡ some (1, 6)
unfolding find_null_corrupted_ok
corrupted_found = refl

find_null_corrupted_ok-IsFirst_example :
    IsFirstCorrupted corrupted (find_null_corrupted_ok corrupted)
find_null_corrupted_ok-IsFirst_example = find_null_corrupted_ok-IsFirst corrupted

two_moves-IsWindowed : IsWindowed two_moves
unfolding rx_buffer_size
two_moves-IsWindowed = omega arith

third_send : Reach ok_find two_moves (track_command two_moves 5 none (codes "G1X3"))
unfolding needs_space
third_send = Reach.next Reach.start (Step.sends 5 none (codes "G1X3") (omega arith) refl)

Reach-IsWindowed_example : IsWindowed (track_command two_moves 5 none (codes "G1X3"))
Reach-IsWindowed_example = Reach-IsWindowed ok_find third_send two_moves-IsWindowed

-- A waiter for six bytes, from tick 100 on and for 2 ticks at most: it is woken once with nothing
-- freed, and reads the clock behind its deadline then.
abbrev round_of : ℕ → Option ℕ → Round
round_of now notice = record {
  now = now;
  recheck = two_moves;
  late = two_moves;
  notice = notice;
  notice_first = true;
  after = two_moves;
}

abbrev schedule : List Round
schedule = round_of 101 (some 102) ∷ round_of 103 (some 103) ∷ round_of 104 none ∷ []

wait_for_space_runs : wait_for_space 100 2 6 two_moves schedule ≡ some (timed_out, two_moves, 103)
unfolding wait_for_space needs_space
wait_for_space_runs = refl

wait_for_space-Agrees_example : needs_space two_moves 6 ≡ true
wait_for_space-Agrees_example =
    wait_for_space-Agrees 100 2 6 schedule two_moves timed_out two_moves 103 wait_for_space_runs

wait_for_space-ends_example :
    (result : WaitResult) × (seen : FlowInner) × (time : ℕ) × (wait_for_space 100 2 6 two_moves
        schedule
      ≡ some (result, seen, time))
    × (time ≤ 100 + 2 + 1)
wait_for_space-ends_example =
    wait_for_space-ends 1 100 2 6 schedule two_moves
      (
        omega arith,
        omega arith,
        omega arith,
        (omega arith, omega arith, omega arith, (omega arith, omega arith, tt, tt)),
      )
      (omega arith)

wait_pending_empty_runs :
    wait_pending_empty 100 (some 2) two_moves schedule ≡ some (timed_out, two_moves, 103)
unfolding wait_pending_empty
wait_pending_empty_runs = refl

wait_pending_empty-Agrees_example : has_pending two_moves ≡ true
wait_pending_empty-Agrees_example =
    wait_pending_empty-Agrees 100 (some 2) schedule two_moves timed_out two_moves 103
      wait_pending_empty_runs

wait_pending_empty-patient_example :
    wait_pending_empty 100 none two_moves schedule ≢ some (timed_out, two_moves, 103)
wait_pending_empty-patient_example = wait_pending_empty-patient 100 schedule two_moves two_moves 103

-- ===== src/Grbl/Parser/Tests.antt =====
-- src/grbl/parser.rs, src/grbl/errors.rs and src/core/types.rs: runs of the model on concrete
-- input, with the theorems at it.
use raydriver.Base.{arith}
use raydriver.Base.{◌≡◌, ◌⊎◌, refl, true, false, not, List, [], ◌∷◌, Option, some}
use raydriver.Base.Int.{ℤ, pos, ◌-ℤ◌}
use raydriver.Device.{DeviceStatus, default_state}
use raydriver.Device.Sample.{whole_numbers, comma_groups, comma_engine}
use raydriver.Device.Status.{from_name, name, from_name-name}
use raydriver.Grbl.Parser.Commands.{
  is_realtime, split_realtime_commands, strip_gcode_comments, parse_ver, extract_device_name,
}
use raydriver.Grbl.Parser.Commands.Laws.{select, split_realtime_commands-select}
use raydriver.Grbl.Parser.Report.{parse_state, all_known, recalculate_positions, inner_part}
use raydriver.Grbl.Parser.Report.Aligned.{IsAligned, parse_state-IsAligned}
use raydriver.Grbl.Parser.Report.Frame.{parse_state_frame}
use raydriver.Grbl.Parser.Report.Axes.{IsAt, recalculate_positions-resolve}
use raydriver.Text.Number.{parse_i64}
use raydriver.Text.Utf8.{Text, codes}

from_name-name_example : from_name (name DeviceStatus.hold) ≡ DeviceStatus.hold
from_name-name_example = from_name-name DeviceStatus.hold

abbrev commands : List Text
commands = codes "G1 X1" ∷ codes "?" ∷ codes "M5" ∷ codes "!" ∷ []

split_runs :
    split_realtime_commands commands ≡ (codes "G1 X1" ∷ codes "M5" ∷ [], codes "?" ∷ codes "!" ∷ [])
unfolding split_realtime_commands
split_runs = refl

split_realtime_commands-select_example :
    split_realtime_commands commands
    ≡ (select (λ l. not (is_realtime l)) commands, select is_realtime commands)
split_realtime_commands-select_example = split_realtime_commands-select commands

strip_runs : strip_gcode_comments comma_engine (codes " G1 X1 ; home") ≡ codes "G1 X1"
unfolding strip_gcode_comments
strip_runs = refl

ver_runs : parse_ver (codes "[VER:1.1h.ORTUR:]") ≡ some (codes "1.1h", some (codes "ORTUR"))
unfolding parse_ver
ver_runs = refl

device_name_runs :
    extract_device_name (codes "[VER:1.1h.ORTUR:]" ∷ codes "[MSG:Machine: A5 ]" ∷ []) ≡ codes "A5"
unfolding extract_device_name
device_name_runs = refl

abbrev report : Text
report = codes "<Hold:1|MPos:10,20,30|FS:500,8000|WCO:1,2,3>"

report_runs :
    parse_state whole_numbers comma_engine report (default_state whole_numbers) false
    ≡ record (default_state whole_numbers) {
      status = DeviceStatus.hold;
      machine_pos = some (pos 10) ∷ some (pos 20) ∷ some (pos 30) ∷ [];
      work_pos = some (pos 9) ∷ some (pos 18) ∷ some (pos 27) ∷ [];
      wco = some (pos 1) ∷ some (pos 2) ∷ some (pos 3) ∷ [];
      feed_rate = some (pos 500);
    }
unfolding parse_state default_state comma_groups ◌-ℤ◌ parse_i64
report_runs = refl

parse_state_frame_example :
    (((parse_state whole_numbers comma_engine report (default_state whole_numbers) false).error
        ≡ (default_state whole_numbers).error)
      ⊎ ((parse_state whole_numbers comma_engine report (default_state whole_numbers) false).status
          ≡ DeviceStatus.alarm))
    × ((parse_state whole_numbers comma_engine report
          (default_state whole_numbers)
          false).spindle_speed
        ≡ (default_state whole_numbers).spindle_speed)
parse_state_frame_example =
    parse_state_frame whole_numbers comma_engine report (default_state whole_numbers) false

parse_state-IsAligned_example :
    IsAligned whole_numbers
      (parse_state whole_numbers comma_engine report (default_state whole_numbers) false)
unfolding inner_part
parse_state-IsAligned_example =
    parse_state-IsAligned whole_numbers comma_engine report (default_state whole_numbers) false refl

abbrev xyz : List (Option ℤ)
xyz = some (pos 10) ∷ some (pos 20) ∷ some (pos 30) ∷ []

abbrev offset : List (Option ℤ)
offset = some (pos 1) ∷ some (pos 2) ∷ some (pos 3) ∷ []

abbrev difference : List (Option ℤ)
difference = some (pos 9) ∷ some (pos 18) ∷ some (pos 27) ∷ []

abbrev sum : List (Option ℤ)
sum = some (pos 11) ∷ some (pos 22) ∷ some (pos 33) ∷ []

-- Both positions are reported, the first with an axis more, and no offset.
recalculate_positions-resolve_example :
    IsAt whole_numbers 2
      (recalculate_positions whole_numbers xyz
        (some (pos 1) ∷ some (pos 2) ∷ [])
        []
        true
        true
        false)
      (pos 30, pos 30 -ℤ (pos 30 -ℤ pos 0), pos 30 -ℤ pos 0)
unfolding all_known
recalculate_positions-resolve_example =
    recalculate_positions-resolve whole_numbers xyz (some (pos 1) ∷ some (pos 2) ∷ []) [] 2 refl
      refl refl (omega arith) true true false

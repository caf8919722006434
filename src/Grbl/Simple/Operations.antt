-- ===== src/Grbl/Simple/Operations.antt =====
-- src/grbl/simple.rs: the operations of a device, each a chain of commands. What a refused template's
-- error says, which quotes the template as `Debug` prints it, is the parameter `message`.
use raydriver.Base.{List, [], ◌∷◌, ◌++◌, Option, none, some, if◌then◌else◌, is_empty}
use raydriver.Base.Int.{ℤ}
use raydriver.Device.{F64, UnitSystem}
use raydriver.Dialect.{Dialect, format_wcs_offset}
use raydriver.Dialect.Template.{Arg, TemplateError, Formatted, format_template, python_float_repr}
use raydriver.Grbl.Parser.Commands.{gcode_to_p_number}
use raydriver.Grbl.Parser.Settings.{
  is_report_in_inches, parse_setting_pairs, parse_grbl_parser_state,
  detect_unit_system_from_settings,
}
use raydriver.Grbl.Readings.{in_mm, probed, collect_offsets, first_success}
use raydriver.Grbl.Simple.{SimpleCore, emit}
use raydriver.Grbl.Simple.Exchange.{World, execute_command, execute_interactive_command}
use raydriver.Session.{SessionError, Result, and_then, Event}
use raydriver.Text.Affix.{equal, join}
use raydriver.Text.Regex.{Regex}
use raydriver.Text.Unicode.{Unicode, to_uppercase}
use raydriver.Text.Utf8.{Text, codes}

module _ (F : F64) (world : World F) (message : TemplateError → Text) (dialect : Dialect) where
  open F use {Float, zero_point_zero, less, display}

  abbrev Answer : Type 0 → Type 0
  Answer A = SimpleCore F × Result A

  abbrev execute : SimpleCore F → Text → Answer Unit
  execute s command = and_then (execute_command F world s command) (λ t reply. (t, Result.ok tt))

  -- A command from a template: nothing is sent where the template is refused.
  unfoldable pub execute_formatted : SimpleCore F → Formatted → Answer Unit
  unfolding execute_command
  execute_formatted s (Formatted.formatted command) = execute s command
  execute_formatted s (Formatted.refused error) =
      (s, Result.err (SessionError.other (message error)))

  unfoldable pub home_axes : SimpleCore F → List Text → Answer Unit
  unfolding execute_formatted format_template
  home_axes s [] = (s, Result.ok tt)
  home_axes s (axis ∷ rest) =
      and_then
        (execute_formatted s
          (format_template F dialect.home_axis ((codes "axis_letter", Arg.str axis) ∷ [])))
        (λ t done. home_axes t rest)

  abbrev clear_error : SimpleCore F → SimpleCore F
  clear_error s =
      let state = record (s.state) { error = none } in
      emit F (record s { state = state }) (Event.state_changed state)

  unfoldable pub home : SimpleCore F → Option (List Text) → Text → Answer Unit
  unfolding execute_command home_axes equal
  home s axes active_wcs =
      let homed : Answer Unit = elim axes [
        | none ↦ execute s dialect.home_all
        | some letters ↦ home_axes s letters
      ] in
      let temp_wcs = if equal active_wcs (codes "G54") then codes "G55" else codes "G54" in
      and_then homed (λ t done. and_then (execute t (codes "G4 P0.01")) (λ u done.
        and_then (execute u temp_wcs)
          (λ v done. and_then (execute v active_wcs) (λ w done. (clear_error w, Result.ok tt)))))

  unfoldable pub move_to : SimpleCore F → Float → Float → Float → Answer Unit
  unfolding execute_formatted format_template
  move_to s speed pos_x pos_y = execute_formatted s (
      format_template F dialect.move_to (
        (codes "speed", Arg.speed speed)
        ∷ (codes "x", Arg.length pos_x)
        ∷ (codes "y", Arg.length pos_y)
        ∷ []))

  unfoldable pub jog_parts : Unicode → List (Text × Float) → List Text
  unfolding to_uppercase python_float_repr
  jog_parts unicode [] = []
  jog_parts unicode ((axis_name, distance) ∷ rest) =
      (to_uppercase unicode axis_name ++ python_float_repr F distance) ∷ jog_parts unicode rest

  -- Without an axis nothing is sent.
  unfoldable pub jog : Unicode → SimpleCore F → Float → List (Text × Float) → Answer Unit
  unfolding execute_command format_template jog_parts join
  jog unicode s speed deltas =
      elim (format_template F dialect.jog ((codes "speed", Arg.speed speed) ∷ [])) [
        | Formatted.refused error ↦ (s, Result.err (SessionError.other (message error)))
        | Formatted.formatted head ↦
            if is_empty deltas
            then (s, Result.ok tt)
            else execute s (join (codes " ") (head ∷ jog_parts unicode deltas))
      ]

  unfoldable pub select_tool : SimpleCore F → ℤ → Answer Unit
  unfolding execute_formatted format_template
  select_tool s tool_number =
      execute_formatted s
        (format_template F dialect.tool_change ((codes "tool_number", Arg.int tool_number) ∷ []))

  -- A power above zero is a template's, anything else is off.
  unfoldable pub power_command : Text → Option Float → Formatted
  unfolding format_template
  power_command template none = Formatted.formatted dialect.laser_off
  power_command template (some p) =
      if less zero_point_zero p
      then format_template F template ((codes "power", Arg.length p) ∷ [])
      else Formatted.formatted dialect.laser_off

  unfoldable pub set_power : SimpleCore F → Option Float → Answer Unit
  unfolding execute_formatted power_command
  set_power s power = execute_formatted s (power_command dialect.laser_on power)

  unfoldable pub set_focus_power : SimpleCore F → Option Float → Answer Unit
  unfolding execute_formatted power_command
  set_focus_power s power = execute_formatted s (power_command dialect.focus_laser_on power)

  unfoldable pub write_setting : SimpleCore F → Text → Text → Answer Unit
  unfolding execute_command
  write_setting s key value = execute s (codes "$" ++ key ++ codes "=" ++ value)

  -- `none` where the dialect's template makes `format_wcs_offset` panic.
  unfoldable pub set_wcs_offset :
      SimpleCore F → Text → Float → Float → Option Float → Option (Answer Unit)
  unfolding execute_command gcode_to_p_number format_wcs_offset
  set_wcs_offset s wcs_slot x y z = elim (gcode_to_p_number wcs_slot) [
    | none ↦ some (s, Result.err (SessionError.other (codes "Invalid WCS slot: " ++ wcs_slot)))
    | some p_num ↦ elim (format_wcs_offset F dialect p_num x y z) [
      | Formatted.refused error ↦ none
      | Formatted.formatted command ↦ some (execute s command)
    ]
  ]

  module _ (re : Regex) where
    abbrev note_units : SimpleCore F → List Text → SimpleCore F
    note_units s lines = record s { report_in_inches = is_report_in_inches F re lines }

    unfoldable pub read_settings : SimpleCore F → Answer (List (Text × Text))
    unfolding execute_interactive_command is_report_in_inches parse_setting_pairs
    read_settings s =
        and_then (execute_interactive_command F world s (codes "$$"))
          (λ t lines. (note_units t lines, Result.ok (parse_setting_pairs F re lines)))

    unfoldable pub read_wcs_offsets : SimpleCore F → Answer (List (Text × (Float × Float × Float)))
    unfolding execute_interactive_command collect_offsets
    read_wcs_offsets s = and_then (execute_interactive_command F world s (codes "$#")) (λ t lines.
        let offsets = collect_offsets F re t.report_in_inches [] lines in
        (emit F t (Event.wcs_updated offsets), Result.ok offsets))

    unfoldable pub read_parser_state : SimpleCore F → Answer (Option Text)
    unfolding execute_interactive_command parse_grbl_parser_state
    read_parser_state s =
        and_then (execute_interactive_command F world s (codes "$G"))
          (λ t lines. (t, Result.ok (parse_grbl_parser_state F re lines)))

    -- A cycle that is not answered is no error.
    unfoldable pub run_probe_cycle :
        Unicode → SimpleCore F → Text → Float → Float → Answer (Option (Float × Float × Float))
    unfolding execute_interactive_command format_template to_uppercase first_success in_mm
    run_probe_cycle unicode s axis max_travel feed_rate =
        let axis_letter = to_uppercase unicode axis in
        elim (format_template F dialect.probe_cycle (
          (codes "axis_letter", Arg.str axis_letter)
          ∷ (codes "max_travel", Arg.length max_travel)
          ∷ (codes "feed_rate", Arg.speed feed_rate)
          ∷ [])) [
            | Formatted.refused error ↦ (s, Result.err (SessionError.other (message error)))
            | Formatted.formatted command ↦
                let probing =
                  emit F s (Event.probe_status (codes "Probing " ++ axis_letter ++ codes "...")) in
                let (t, reply) = execute_interactive_command F world probing command in
                elim reply [
                  | Result.err error ↦ (
                    emit F t (Event.probe_status (codes "Probe failed: Timed out")),
                    Result.ok none,
                  )
                  | Result.ok lines ↦ elim (first_success F re lines) [
                    | none ↦ (emit F t (Event.probe_status (codes "Probe failed")), Result.ok none)
                    | some touched ↦
                        let position = in_mm F t.report_in_inches touched in
                        (
                          emit F t (Event.probe_status (probed F position)),
                          Result.ok (some position),
                        )
                  ]
                ]
          ]

    unfoldable pub detect_unit_system : SimpleCore F → Answer (Option UnitSystem)
    unfolding execute_interactive_command is_report_in_inches detect_unit_system_from_settings
    detect_unit_system s =
        let (t, reply) = execute_interactive_command F world s (codes "$$") in
        elim reply [
          | Result.err error ↦ (t, Result.ok none)
          | Result.ok lines ↦
              (note_units t lines, Result.ok (detect_unit_system_from_settings F re lines))
        ]

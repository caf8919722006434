-- ===== src/Smoothie/Operations.antt =====
-- src/smoothie/session.rs: the operations of a device, each a chain of commands. What a refused
-- template's error says, which quotes the template as `Debug` prints it, is the parameter `message`.
use raydriver.Base.{
  Bool, false, ◌||◌, List, [], ◌∷◌, ◌++◌, Option, none, some, if◌then◌else◌, is_empty,
}
use raydriver.Base.Int.{ℤ}
use raydriver.Device.{F64}
use raydriver.Dialect.{Dialect, format_wcs_offset}
use raydriver.Dialect.Template.{Arg, TemplateError, Formatted, format_template, python_float_repr}
use raydriver.Grbl.Parser.Commands.{gcode_to_p_number}
use raydriver.Smoothie.{SmoothieCore, emit}
use raydriver.Smoothie.Exchange.{World, execute_command}
use raydriver.Session.{SessionError, Result, and_then, Event}
use raydriver.Text.Affix.{join, starts_with}
use raydriver.Text.Unicode.{Unicode, to_uppercase}
use raydriver.Text.Utf8.{Text, codes}

module _ (F : F64) (world : World F) (message : TemplateError → Text) (dialect : Dialect) where
  open F use {Float, zero_point_zero, less, display}

  abbrev Answer : Type 0 → Type 0
  Answer A = SmoothieCore F × Result A

  abbrev execute : SmoothieCore F → Text → Answer Unit
  execute s command = and_then (execute_command F world s command) (λ t reply. (t, Result.ok tt))

  -- A command from a template: nothing is sent where the template is refused.
  unfoldable pub execute_formatted : SmoothieCore F → Formatted → Answer Unit
  unfolding execute_command
  execute_formatted s (Formatted.formatted command) = execute s command
  execute_formatted s (Formatted.refused error) =
      (s, Result.err (SessionError.other (message error)))

  unfoldable pub home_axes : SmoothieCore F → List Text → Answer Unit
  unfolding execute_formatted format_template
  home_axes s [] = (s, Result.ok tt)
  home_axes s (axis ∷ rest) =
      and_then
        (execute_formatted s
          (format_template F dialect.home_axis ((codes "axis_letter", Arg.str axis) ∷ [])))
        (λ t done. home_axes t rest)

  abbrev clear_error : SmoothieCore F → SmoothieCore F
  clear_error s =
      let state = record (s.state) { error = none } in
      emit F (record s { state = state }) (Event.state_changed state)

  unfoldable pub home : SmoothieCore F → Option (List Text) → Answer Unit
  unfolding execute_command home_axes
  home s axes =
      let homed : Answer Unit = elim axes [
        | none ↦ execute s dialect.home_all
        | some letters ↦ home_axes s letters
      ] in
      and_then homed (λ t done. (clear_error t, Result.ok tt))

  unfoldable pub move_to : SmoothieCore F → Float → Float → Float → Answer Unit
  unfolding execute_formatted format_template
  move_to s speed pos_x pos_y = execute_formatted s (
      format_template F dialect.move_to (
        (codes "speed", Arg.speed speed)
        ∷ (codes "x", Arg.length pos_x)
        ∷ (codes "y", Arg.length pos_y)
        ∷ []))

  unfoldable pub jog_parts : Unicode → List (Text × Float) → List Text
  unfolding to_uppercase python_float_repr
  jog_parts unicode [] = []
  jog_parts unicode ((axis_name, distance) ∷ rest) =
      (to_uppercase unicode axis_name ++ python_float_repr F distance) ∷ jog_parts unicode rest

  -- Without an axis nothing is sent.
  unfoldable pub jog : Unicode → SmoothieCore F → Float → List (Text × Float) → Answer Unit
  unfolding execute_command format_template jog_parts join
  jog unicode s speed deltas =
      elim (format_template F dialect.jog ((codes "speed", Arg.speed speed) ∷ [])) [
        | Formatted.refused error ↦ (s, Result.err (SessionError.other (message error)))
        | Formatted.formatted head ↦
            if is_empty deltas
            then (s, Result.ok tt)
            else execute s (join (codes " ") (head ∷ jog_parts unicode deltas))
      ]

  unfoldable pub select_tool : SmoothieCore F → ℤ → Answer Unit
  unfolding execute_formatted format_template
  select_tool s tool_number =
      execute_formatted s
        (format_template F dialect.tool_change ((codes "tool_number", Arg.int tool_number) ∷ []))

  unfoldable pub has_error : List Text → Bool
  unfolding starts_with
  has_error [] = false
  has_error (line ∷ rest) = starts_with (codes "error:") line || has_error rest

  -- The alarm's error goes, unless the answer has an error.
  unfoldable pub clear_alarm : SmoothieCore F → Answer Unit
  unfolding execute_command has_error
  clear_alarm s =
      and_then (execute_command F world s dialect.clear_alarm)
        (λ t response. (if has_error response then t else clear_error t, Result.ok tt))

  -- A power above zero is a template's, anything else is off.
  unfoldable pub power_command : Text → Option Float → Formatted
  unfolding format_template
  power_command template none = Formatted.formatted dialect.laser_off
  power_command template (some p) =
      if less zero_point_zero p
      then format_template F template ((codes "power", Arg.length p) ∷ [])
      else Formatted.formatted dialect.laser_off

  unfoldable pub set_power : SmoothieCore F → Option Float → Answer Unit
  unfolding execute_formatted power_command
  set_power s power = execute_formatted s (power_command dialect.laser_on power)

  unfoldable pub set_focus_power : SmoothieCore F → Option Float → Answer Unit
  unfolding execute_formatted power_command
  set_focus_power s power = execute_formatted s (power_command dialect.focus_laser_on power)

  -- `none` where the dialect's template makes `format_wcs_offset` panic.
  unfoldable pub set_wcs_offset :
      SmoothieCore F → Text → Float → Float → Option Float → Option (Answer Unit)
  unfolding execute_command gcode_to_p_number format_wcs_offset
  set_wcs_offset s wcs_slot x y z = elim (gcode_to_p_number wcs_slot) [
    | none ↦ some (s, Result.err (SessionError.other (codes "Invalid WCS slot: " ++ wcs_slot)))
    | some p_num ↦ elim (format_wcs_offset F dialect p_num x y z) [
      | Formatted.refused error ↦ none
      | Formatted.formatted command ↦ some (execute s command)
    ]
  ]

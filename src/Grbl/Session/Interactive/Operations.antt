-- ===== src/Grbl/Session/Interactive/Operations.antt =====
-- src/grbl/session.rs: the operations that read from the device by an interactive command. They take
-- the answers apart as the minimal session does.
use raydriver.Base.{List, [], ◌∷◌, ◌++◌, Option, none, some}
use raydriver.Device.{F64, UnitSystem}
use raydriver.Dialect.{Dialect}
use raydriver.Dialect.Template.{Arg, TemplateError, Formatted, format_template}
use raydriver.Grbl.Parser.Settings.{
  is_report_in_inches, parse_setting_pairs, parse_grbl_parser_state,
  detect_unit_system_from_settings,
}
use raydriver.Grbl.Session.{SessionCore, emit}
use raydriver.Grbl.Session.Interactive.{Turns, execute_interactive_command}
use raydriver.Grbl.Session.Job.{Transport}
use raydriver.Grbl.Readings.{in_mm, collect_offsets, probed, first_success}
use raydriver.Session.{SessionError, Result, and_then, Event}
use raydriver.Text.Regex.{Regex}
use raydriver.Text.Unicode.{Unicode, to_uppercase}
use raydriver.Text.Utf8.{Text, codes}

module _ (F : F64) (transport : Transport) (env : Turns F) (re : Regex) where
  open F use {Float}

  abbrev Answer : Type 0 → Type 0
  Answer A = SessionCore F × Result A

  abbrev note_units : SessionCore F → List Text → SessionCore F
  note_units s lines = record s { report_in_inches = is_report_in_inches F re lines }

  unfoldable pub read_settings : SessionCore F → Answer (List (Text × Text))
  unfolding execute_interactive_command is_report_in_inches parse_setting_pairs
  read_settings s =
      and_then (execute_interactive_command F transport env s (codes "$$"))
        (λ t lines. (note_units t lines, Result.ok (parse_setting_pairs F re lines)))

  unfoldable pub read_wcs_offsets : SessionCore F → Answer (List (Text × (Float × Float × Float)))
  unfolding execute_interactive_command collect_offsets
  read_wcs_offsets s =
      and_then (execute_interactive_command F transport env s (codes "$#")) (λ t lines.
        let offsets = collect_offsets F re t.report_in_inches [] lines in
        (emit F t (Event.wcs_updated offsets), Result.ok offsets))

  unfoldable pub read_parser_state : SessionCore F → Answer (Option Text)
  unfolding execute_interactive_command parse_grbl_parser_state
  read_parser_state s =
      and_then (execute_interactive_command F transport env s (codes "$G"))
        (λ t lines. (t, Result.ok (parse_grbl_parser_state F re lines)))

  -- A cycle that is not answered is no error.
  unfoldable pub run_probe_cycle :
      (TemplateError → Text)
      → Dialect
      → Unicode
      → SessionCore F
      → Text
      → Float
      → Float
      → Answer (Option (Float × Float × Float))
  unfolding execute_interactive_command format_template to_uppercase first_success in_mm
  run_probe_cycle message dialect unicode s axis max_travel feed_rate =
      let axis_letter = to_uppercase unicode axis in
      elim (format_template F dialect.probe_cycle (
        (codes "axis_letter", Arg.str axis_letter)
        ∷ (codes "max_travel", Arg.length max_travel)
        ∷ (codes "feed_rate", Arg.speed feed_rate)
        ∷ [])) [
          | Formatted.refused error ↦ (s, Result.err (SessionError.other (message error)))
          | Formatted.formatted command ↦
              let probing =
                emit F s (Event.probe_status (codes "Probing " ++ axis_letter ++ codes "...")) in
              let (t, reply) = execute_interactive_command F transport env probing command in
              elim reply [
                | Result.err error ↦ (
                  emit F t (Event.probe_status (codes "Probe failed: Timed out")),
                  Result.ok none,
                )
                | Result.ok lines ↦ elim (first_success F re lines) [
                  | none ↦ (emit F t (Event.probe_status (codes "Probe failed")), Result.ok none)
                  | some touched ↦
                      let position = in_mm F t.report_in_inches touched in
                      (emit F t (Event.probe_status (probed F position)), Result.ok (some position))
                ]
              ]
        ]

  -- Without an answer the unit system stays unknown.
  unfoldable pub detect_unit_system : SessionCore F → Answer (Option UnitSystem)
  unfolding execute_interactive_command is_report_in_inches detect_unit_system_from_settings
  detect_unit_system s =
      let (t, reply) = execute_interactive_command F transport env s (codes "$$") in
      elim reply [
        | Result.err error ↦ (t, Result.ok none)
        | Result.ok lines ↦
            (note_units t lines, Result.ok (detect_unit_system_from_settings F re lines))
      ]

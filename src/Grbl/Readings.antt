-- ===== src/Grbl/Readings.antt =====
-- src/grbl/simple.rs, and the same in src/grbl/session.rs: what the operations make of the lines of an
-- answer.
use raydriver.Base.{Bool, true, false, List, [], ◌∷◌, ◌++◌, Option, none, some, if◌then◌else◌}
use raydriver.Device.{F64, inches_to_mm}
use raydriver.Grbl.Parser.Settings.{parse_wcs_line, parse_probe_line}
use raydriver.Text.Dict.{insert}
use raydriver.Text.Regex.{Regex}
use raydriver.Text.Utf8.{Text, codes}

module _ (F : F64) where
  open F use {Float, display}

  -- A position in millimetres.
  unfoldable pub in_mm : Bool → Float × Float × Float → Float × Float × Float
  unfolding inches_to_mm
  in_mm report_in_inches (x, y, z) =
      if report_in_inches then (inches_to_mm F x, inches_to_mm F y, inches_to_mm F z) else (x, y, z)

  abbrev pub probed : Float × Float × Float → Text
  probed (x, y, z) =
      codes "Probe triggered at ("
      ++ display x
      ++ codes ", "
      ++ display y
      ++ codes ", "
      ++ display z
      ++ codes ")"

  module _ (re : Regex) where
    unfoldable pub collect_offsets :
        Bool
        → List (Text × (Float × Float × Float))
        → List Text
        → List (Text × (Float × Float × Float))
    unfolding parse_wcs_line in_mm insert
    collect_offsets inches offsets [] = offsets
    collect_offsets inches offsets (line ∷ rest) = elim (parse_wcs_line F re line) [
      | none ↦ collect_offsets inches offsets rest
      | some (slot, at_slot) ↦
          collect_offsets inches (insert slot (in_mm inches at_slot) offsets) rest
    ]

    -- The first line that reports a success.
    unfoldable pub first_success : List Text → Option (Float × Float × Float)
    unfolding parse_probe_line
    first_success [] = none
    first_success (line ∷ rest) = elim (parse_probe_line F re line) [
      | none ↦ first_success rest
      | some (touched, success) ↦ elim success [ true ↦ some touched | false ↦ first_success rest ]
    ]

-- ===== src/Marlin/Parser.antt =====
-- src/marlin/parser.rs: the parsers of Marlin's answers. A `HashMap` is not used here: the answers
-- are lists of pairs in the order of the lines.
use Prim.Native.String.{String}
use raydriver.Base.{
  Bool, true, false, not, ◌||◌, List, [], ◌∷◌, ◌++◌, Option, none, some, if◌then◌else◌, is_empty,
  take,
}
use raydriver.Device.{F64, UnitSystem}
use raydriver.Text.Affix.{equal, strip_prefix, starts_with}
use raydriver.Text.Regex.{Regex, group}
use raydriver.Text.Trim.{trim, lines as text_lines}
use raydriver.Text.Unicode.{Unicode, to_lowercase, is_alphanumeric}
use raydriver.Text.Utf8.{Bytes, Text, codes, from_utf8_lossy}

-- What follows the `ok` of an acknowledgement: nothing, or no letter and no digit.
abbrev pub is_ok_tail : Unicode → Text → Bool
is_ok_tail unicode [] = true
is_ok_tail unicode (c ∷ t) = not (is_alphanumeric unicode c)

unfoldable pub is_ok : Unicode → Text → Bool
unfolding strip_prefix trim is_alphanumeric
is_ok unicode line = elim (strip_prefix (codes "ok") (trim line)) [
  | none ↦ false
  | some tail ↦ is_ok_tail unicode tail
]

unfoldable pub is_error : Text → Bool
unfolding starts_with trim
is_error line = starts_with (codes "Error:") (trim line)

unfoldable pub is_boot_message : Text → Bool
unfolding starts_with trim
is_boot_message line =
    let stripped = trim line in
    starts_with (codes "start") stripped
    || starts_with (codes "Marlin") stripped
    || starts_with (codes "echo:") stripped
    || starts_with (codes "External Reset") stripped

abbrev pub any_line : (Text → Bool) → List Text → Bool
any_line test [] = false
any_line test (line ∷ rest) = test line || any_line test rest

unfoldable pub is_marlin_output : Bytes → Bool
unfolding from_utf8_lossy is_boot_message text_lines
is_marlin_output data_in = any_line is_boot_message (text_lines (from_utf8_lossy data_in))

-- The first 80 characters of the first boot message.
unfoldable pub banner_of_lines : Unicode → List Text → Option Text
unfolding is_ok is_error is_boot_message trim
banner_of_lines unicode [] = none
banner_of_lines unicode (raw ∷ rest) =
    let line = trim raw in
    let later = banner_of_lines unicode rest in
    if is_empty line || is_ok unicode line || is_error line
    then later
    else if is_boot_message line
    then some (take 80 line)
    else later

unfoldable pub extract_marlin_banner_from_output : Unicode → Bytes → Option Text
unfolding from_utf8_lossy banner_of_lines text_lines
extract_marlin_banner_from_output unicode data_in =
    banner_of_lines unicode (text_lines (from_utf8_lossy data_in))

module _ (F : F64) (re : Regex) where
  open F use {Float, parse}

  abbrev parse_3 : Text → Text → Text → Option (Float × Float × Float)
  parse_3 a b c = elim (parse a) [
    | none ↦ none
    | some x ↦ elim (parse b) [
      | none ↦ none
      | some y ↦ elim (parse c) [ none ↦ none | some z ↦ some (x, y, z) ]
    ]
  ]

  abbrev parse_2 : Text → Text → Option (Float × Float)
  parse_2 a b = elim (parse a) [
    | none ↦ none
    | some x ↦ elim (parse b) [ none ↦ none | some y ↦ some (x, y) ]
  ]

  unfoldable pub is_m114_position : Text → Bool
  is_m114_position line =
      elim (re.captures "X:([+-]?\\d+\\.?\\d*)\\s+Y:([+-]?\\d+\\.?\\d*)\\s+Z:([+-]?\\d+\\.?\\d*)"
        line) [ none ↦ false | some caps ↦ true ]

  unfoldable pub parse_m114_line : Text → Option (Float × Float × Float)
  parse_m114_line line =
      elim (re.captures "X:([+-]?\\d+\\.?\\d*)\\s+Y:([+-]?\\d+\\.?\\d*)\\s+Z:([+-]?\\d+\\.?\\d*)"
        line) [ none ↦ none | some caps ↦ parse_3 (group caps 1) (group caps 2) (group caps 3) ]

  unfoldable pub parse_m114_position : List Text → Option (Float × Float × Float)
  unfolding parse_m114_line
  parse_m114_position [] = none
  parse_m114_position (line ∷ rest) = elim (parse_m114_line line) [
    | none ↦ parse_m114_position rest
    | some position ↦ some position
  ]

  unfoldable pub parse_marlin_version : Text → Option Text
  parse_marlin_version line = elim (re.captures "Marlin\\s+([\\d.]+)" line) [
    | none ↦ none
    | some caps ↦ some (group caps 1)
  ]

  unfoldable pub parse_error_message : Text → Text
  unfolding trim
  parse_error_message line = elim (re.captures "Error:(.+)" line) [
    | none ↦ []
    | some caps ↦ trim (group caps 1)
  ]

  abbrev named : String → Option (List (Option Text)) → List (Text × Text)
  named key none = []
  named key (some caps) = (codes key, trim (group caps 1)) ∷ []

  unfoldable pub parse_m115_firmware_info : List Text → List (Text × Text)
  unfolding trim
  parse_m115_firmware_info [] = []
  parse_m115_firmware_info (line ∷ rest) =
      named "firmware_name" (re.captures "FIRMWARE_NAME:\\s*(\\S+)" line)
      ++ named "machine_type" (re.captures "MACHINE_TYPE:(.+?)(?:\\s+[A-Z_]+:|$)" line)
      ++ parse_m115_firmware_info rest

  -- The first line that matches decides: numbers that do not parse end the search.
  unfoldable pub parse_m211_endstops : List Text → Option (Float × Float)
  parse_m211_endstops [] = none
  parse_m211_endstops (line ∷ rest) =
      elim (re.captures "X:?\\s*([+-]?\\d+\\.?\\d*)\\s+Y:?\\s*([+-]?\\d+\\.?\\d*)" line) [
        | none ↦ parse_m211_endstops rest
        | some caps ↦ parse_2 (group caps 1) (group caps 2)
      ]

  unfoldable pub feedrates : Text → List (Text × Float)
  feedrates line =
      elim (re.captures "echo:\\s*M203\\s+X([+-]?\\d+\\.?\\d*)\\s+Y([+-]?\\d+\\.?\\d*)" line) [
        | none ↦ []
        | some caps ↦ elim (parse_2 (group caps 1) (group caps 2)) [
          | none ↦ []
          | some (x, y) ↦ (codes "max_feedrate_x", x) ∷ (codes "max_feedrate_y", y) ∷ []
        ]
      ]

  unfoldable pub acceleration : Text → List (Text × Float)
  acceleration line = elim (re.captures "echo:\\s*M204\\s*S([+-]?\\d+\\.?\\d*)" line) [
    | none ↦ []
    | some caps ↦ elim (parse (group caps 1)) [
      | none ↦ []
      | some accel ↦ (codes "acceleration", accel) ∷ []
    ]
  ]

  unfoldable pub parse_m503_settings : List Text → List (Text × Float)
  unfolding feedrates acceleration
  parse_m503_settings [] = []
  parse_m503_settings (line ∷ rest) =
      feedrates line ++ acceleration line ++ parse_m503_settings rest

  -- `find` on the key of a pair.
  unfoldable pub find_value : Text → List (Text × Text) → Option Text
  unfolding equal
  find_value key [] = none
  find_value key ((k, value) ∷ rest) =
      let later = find_value key rest in if equal k key then some value else later

  unfoldable pub first_version : List Text → Text
  unfolding parse_marlin_version
  first_version [] = codes "Unknown Marlin Device"
  first_version (line ∷ rest) = elim (parse_marlin_version line) [
    | none ↦ first_version rest
    | some version ↦ codes "Marlin " ++ version
  ]

  unfoldable pub firmware_or_version : Option Text → List Text → Text
  unfolding first_version
  firmware_or_version none boot_lines = first_version boot_lines
  firmware_or_version (some name) boot_lines =
      if is_empty name then first_version boot_lines else name

  unfoldable pub extract_marlin_device_name : Unicode → List Text → List Text → Text
  unfolding parse_m115_firmware_info find_value firmware_or_version to_lowercase equal
  extract_marlin_device_name unicode m115_lines boot_lines =
      let info = parse_m115_firmware_info m115_lines in
      let otherwise = firmware_or_version (find_value (codes "firmware_name") info) boot_lines in
      elim (find_value (codes "machine_type") info) [
        | none ↦ otherwise
        | some name ↦
            if equal (to_lowercase unicode name) (codes "3d printer")
              || equal (to_lowercase unicode name) (codes "default")
            then otherwise
            else name
      ]

  abbrev unit_of : Text → UnitSystem
  unit_of unit =
      if equal unit (codes "inches") || equal unit (codes "inch") || equal unit (codes "in")
      then UnitSystem.imperial
      else UnitSystem.metric

  unfoldable pub detect_unit_system_from_m149 : Unicode → List Text → Option UnitSystem
  unfolding to_lowercase equal
  detect_unit_system_from_m149 unicode [] = none
  detect_unit_system_from_m149 unicode (line ∷ rest) =
      elim (re.captures "(?i)M149\\s+Units\\s+in\\s+(inches|inch|in|mm|millimeters|millimetres)"
        line) [
          | none ↦ detect_unit_system_from_m149 unicode rest
          | some caps ↦ some (unit_of (to_lowercase unicode (group caps 1)))
        ]

-- ===== src/Grbl/Parser/Commands.antt =====
-- src/grbl/parser.rs: command lines, build info, device names.
pub mod Laws
use Prim.Native.String.{String}
use raydriver.Base.{
  ℕ, zero, suc, ◌+◌, ◌-◌, Bool, true, false, not, ◌&&◌, ◌||◌, List, [], ◌∷◌, ◌++◌, Option, none,
  some, ◌==◌, leb, if◌then◌else◌, is_empty, take,
}
use raydriver.Base.Int.{ℤ, pos, negsuc}
use raydriver.Text.Affix.{
  equal, strip_prefix, starts_with, ends_with, split_once, split, ascii_lower,
}
use raydriver.Text.Number.{parse_i64}
use raydriver.Text.Regex.{Regex}
use raydriver.Text.Trim.{trim, drop_while, drop_while_end, lines}
use raydriver.Text.Utf8.{Bytes, Text, codes, from_utf8_lossy}

-- `GRBL_REALTIME_COMMANDS.contains`.
unfoldable pub is_realtime : Text → Bool
unfolding equal
is_realtime line = equal line (codes "?") || equal line (codes "~") || equal line (codes "!")

-- The loop, with the two vectors so far.
unfoldable pub split_realtime_from : List Text → List Text → List Text → List Text × List Text
unfolding is_realtime
split_realtime_from gcode realtime [] = (gcode, realtime)
split_realtime_from gcode realtime (line ∷ rest) = elim (is_realtime line) [
  | true ↦ split_realtime_from gcode (realtime ++ line ∷ []) rest
  | false ↦ split_realtime_from (gcode ++ line ∷ []) realtime rest
]

unfoldable pub split_realtime_commands : List Text → List Text × List Text
unfolding split_realtime_from
split_realtime_commands = split_realtime_from [] []

-- `find(';')` and `truncate`.
unfoldable pub until_semicolon : Text → Text
until_semicolon [] = []
until_semicolon (c ∷ t) = if c == b';' then [] else c ∷ until_semicolon t

unfoldable pub strip_gcode_comments : Regex → Text → Text
unfolding until_semicolon trim
strip_gcode_comments re line = trim (until_semicolon (re.remove_all "\\([^)]*\\)" line))

-- `num - 53` lies in 1 to 6 for 54 to 59 only; an underflow that wraps lands far above.
abbrev pub p_number_of : ℤ → Option ℤ
p_number_of (pos n) = if leb 54 n && leb n 59 then some (pos (n - 53)) else none
p_number_of (negsuc n) = none

unfoldable pub gcode_to_p_number : Text → Option ℤ
unfolding strip_prefix parse_i64
gcode_to_p_number wcs_slot = elim (strip_prefix (codes "G") wcs_slot) [
  | none ↦ none
  | some rest ↦ elim (parse_i64 rest) [ none ↦ none | some num ↦ p_number_of num ]
]

abbrev version_parts : Text → List Text → Option (Text × Option Text)
version_parts content (a ∷ b ∷ c ∷ _) = some (a ++ (codes "." ++ b), some c)
version_parts content (a ∷ b ∷ []) = some (a ++ (codes "." ++ b), none)
version_parts content _ = some (content, none)

unfoldable pub parse_ver : Text → Option (Text × Option Text)
unfolding strip_prefix drop_while_end split_once split
parse_ver line = elim (strip_prefix (codes "[VER:") line) [
  | none ↦ none
  | some rest ↦
      let content = drop_while_end (λ c. c == b':' || c == b']') rest in
      if is_empty content then none else elim (split_once b',' content) [
        | some (version, _) ↦ some (version, none)
        | none ↦ version_parts content (split b'.' content)
      ]
]

unfoldable pub parse_version : List Text → Option Text
unfolding parse_ver
parse_version [] = none
parse_version (line ∷ rest) = elim (parse_ver line) [
  | some (version, _) ↦ some version
  | none ↦ parse_version rest
]

unfoldable pub parse_msg : Text → Option (Text × Text)
unfolding strip_prefix drop_while_end split_once trim
parse_msg line = elim (strip_prefix (codes "[MSG:") line) [
  | none ↦ none
  | some rest ↦ elim (split_once b':' (drop_while_end (λ c. c == b']') rest)) [
    | none ↦ none
    | some (key, value) ↦ some (trim key, trim value)
  ]
]

-- The machine name that a line gives.
unfoldable pub machine_name : Text → Option Text
unfolding parse_msg ascii_lower equal
machine_name line = elim (parse_msg line) [
  | none ↦ none
  | some (key, value) ↦
      if equal (ascii_lower key) (codes "machine") || equal (ascii_lower key) (codes "mechine")
      then some value
      else none
]

-- The build name that a line gives.
unfoldable pub build_name : Text → Option Text
unfolding parse_ver
build_name line = elim (parse_ver line) [ none ↦ none | some (_, name) ↦ name ]

-- A `for` loop that returns at the first line with an answer.
unfoldable pub first_of_lines : (Text → Option Text) → List Text → Option Text
first_of_lines f [] = none
first_of_lines f (line ∷ rest) = elim (f line) [
  | some answer ↦ some answer
  | none ↦ first_of_lines f rest
]

abbrev pub unknown_device : Text
unknown_device = codes "Unknown Grbl Device"

unfoldable pub extract_device_name : List Text → Text
unfolding first_of_lines machine_name build_name
extract_device_name build_info = elim (first_of_lines machine_name build_info) [
  | some name ↦ name
  | none ↦ elim (first_of_lines build_name build_info) [ some name ↦ name | none ↦ unknown_device ]
]

unfoldable pub is_grbl_ack : Text → Bool
unfolding drop_while equal starts_with
is_grbl_ack line =
    let stripped = drop_while (λ c. c == 0) (drop_while (λ c. c == 0xFFFD) line) in
    equal stripped (codes "ok") || starts_with (codes "error:") stripped

-- What the loop over banner lines answers for one line.
unfoldable pub banner_line : Text → Option Text
unfolding is_grbl_ack trim starts_with ends_with
banner_line raw =
    let line = trim raw in
    if is_empty line || is_grbl_ack line
    then none
    else if starts_with (codes "<") line && ends_with b'>' line
    then none
    else some (take 80 line)

unfoldable pub extract_grbl_banner : List Text → Option Text
unfolding first_of_lines banner_line
extract_grbl_banner = first_of_lines banner_line

unfoldable pub extract_device_name_from_output : Bytes → Option Text
unfolding extract_device_name extract_grbl_banner from_utf8_lossy lines equal
extract_device_name_from_output input =
    let text_lines = lines (from_utf8_lossy input) in
    let name = extract_device_name text_lines in
    if equal name unknown_device then extract_grbl_banner text_lines else some name

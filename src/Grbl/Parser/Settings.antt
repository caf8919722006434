-- ===== src/Grbl/Parser/Settings.antt =====
-- src/grbl/parser.rs: settings, options, offsets, probe results. A `HashMap` is a `Dict`.
use Prim.Native.String.{String}
use raydriver.Base.{
  Bool, true, false, not, ◌&&◌, ◌≡◌, ◌⊎◌, arith, List, [], ◌∷◌, Option, none, some, ◌==◌, ltb,
  if◌then◌else◌, is_empty,
}
use raydriver.Base.Int.{ℤ, pos, negsuc}
use raydriver.Device.{F64, UnitSystem}
use raydriver.Text.Affix.{equal, ascii_lower}
use raydriver.Text.Dict.{lookup, insert}
use raydriver.Text.Number.{parse_i64}
use raydriver.Text.Regex.{Regex, group, group?}
use raydriver.Text.Utf8.{Bytes, Text, codes}

-- The order of `str`, byte by byte; both sides are ASCII where it is used.
unfoldable pub text_le : Text → Text → Bool
text_le [] t = true
text_le (a ∷ s) [] = false
text_le (a ∷ s) (b ∷ t) = if ltb a b then true else if ltb b a then false else text_le s t

module _ (F : F64) (re : Regex) where
  open F use {Float, zero_point_zero, one_point_one, epsilon, sub, abs, less, as_i64, parse}

  unfoldable pub is_grbl_output : Bytes → Bool
  is_grbl_output =
      re.is_match_bytes
        "(?i)\\bgrbl(?:hal)?\\b|<(?:Idle|Run|Hold|Alarm|Home)[,|>]|\\[(?:VER|OPT|MSG|GC):"

  abbrev setting_pair : Text → Option (Text × Text)
  setting_pair line = elim (re.captures "\\$(\\d+)=([\\d\\.-]+)" line) [
    | none ↦ none
    | some caps ↦ some (group caps 1, group caps 2)
  ]

  unfoldable pub parse_setting_pairs : List Text → List (Text × Text)
  parse_setting_pairs [] = []
  parse_setting_pairs (line ∷ rest) = elim (setting_pair line) [
    | none ↦ parse_setting_pairs rest
    | some pair ↦ pair ∷ parse_setting_pairs rest
  ]

  unfoldable pub collect_settings : List (Text × Float) → List (Text × Text) → List (Text × Float)
  unfolding insert
  collect_settings settings [] = settings
  collect_settings settings ((key, value) ∷ rest) = elim (parse value) [
    | none ↦ collect_settings settings rest
    | some v ↦ collect_settings (insert key v settings) rest
  ]

  unfoldable pub parse_grbl_settings : List Text → List (Text × Float)
  unfolding collect_settings parse_setting_pairs
  parse_grbl_settings settings_lines = collect_settings [] (parse_setting_pairs settings_lines)

  abbrev is_zero : ℤ → Bool
  is_zero (pos n) = n == 0
  is_zero (negsuc n) = false

  unfoldable pub detect_unit_system_from_settings : List Text → Option UnitSystem
  unfolding parse_grbl_settings lookup
  detect_unit_system_from_settings settings_lines =
      elim (lookup (codes "13") (parse_grbl_settings settings_lines)) [
        | none ↦ none
        | some v ↦
            if not (is_zero (as_i64 v)) then some UnitSystem.imperial else some UnitSystem.metric
      ]

  unfoldable pub is_report_in_inches : List Text → Bool
  unfolding parse_grbl_settings lookup
  is_report_in_inches settings_lines =
      elim (lookup (codes "13") (parse_grbl_settings settings_lines)) [
        | none ↦ false
        | some v ↦ not (is_zero (as_i64 v))
      ]

  unfoldable pub version_supports_single_axis_homing : Float → Text → Bool
  unfolding text_le ascii_lower
  version_supports_single_axis_homing version_num version_letter =
      if less one_point_one version_num
      then true
      else if less (abs (sub version_num one_point_one)) epsilon
      then not (is_empty version_letter) && text_le (codes "g") (ascii_lower version_letter)
      else false

  abbrev opt_pattern : String
  opt_pattern = "\\[OPT:([A-Z]+),(\\d+),(\\d+)\\]"

  unfoldable pub parse_opt_info : Text → Option ℤ
  unfolding parse_i64
  parse_opt_info line = elim (re.captures opt_pattern line) [
    | none ↦ none
    | some caps ↦ parse_i64 (group caps 3)
  ]

  unfoldable pub parse_opt_flags : Text → Option Text
  parse_opt_flags line = elim (re.captures opt_pattern line) [
    | none ↦ none
    | some caps ↦ some (group caps 1)
  ]

  unfoldable pub parse_grbl_parser_state : List Text → Option Text
  parse_grbl_parser_state [] = none
  parse_grbl_parser_state (line ∷ rest) = elim (re.captures ".*(G5[4-9]).*" line) [
    | none ↦ parse_grbl_parser_state rest
    | some caps ↦ some (group caps 1)
  ]

  -- A third coordinate that does not take part is 0.0; one that does not parse spoils the line.
  abbrev third_or_zero : Option Text → Option Float
  third_or_zero none = some zero_point_zero
  third_or_zero (some text) = parse text

  infixl 5 ◌>>=◌
  abbrev ◌>>=◌ {ℓ κ} : {A : Type ℓ} {B : Type κ} → Option A → (A → Option B) → Option B
  none >>= f = none
  some a >>= f = f a

  unfoldable pub parse_wcs_line : Text → Option (Text × (Float × Float × Float))
  parse_wcs_line line = do
    caps ← re.captures "\\[(G5[4-9]):([\\d\\.-]+),([\\d\\.-]+)(?:,([\\d\\.-]+))?\\]" line
    x ← parse (group caps 2)
    y ← parse (group caps 3)
    z ← third_or_zero (group? caps 4)
    some (group caps 1, (x, y, z))

  unfoldable pub parse_probe_line : Text → Option ((Float × Float × Float) × Bool)
  unfolding equal
  parse_probe_line line = do
    caps ← re.captures "\\[PRB:([\\d\\.-]+),([\\d\\.-]+),([\\d\\.-]+):(\\d)\\]" line
    x ← parse (group caps 1)
    y ← parse (group caps 2)
    z ← parse (group caps 3)
    some ((x, y, z), equal (group caps 4) (codes "1"))

  -- `$13`, read by the two functions, says the same: no unit where it is missing, imperial exactly
  -- where the report is in inches.
  pub unit_system-eq-report :
      (settings_lines : List Text)
      → (detect_unit_system_from_settings settings_lines ≡ none)
        ⊎ (detect_unit_system_from_settings settings_lines
            ≡ some (
                if is_report_in_inches settings_lines
                then UnitSystem.imperial
                else UnitSystem.metric))
  unfolding detect_unit_system_from_settings is_report_in_inches
  unit_system-eq-report settings_lines = ground arith

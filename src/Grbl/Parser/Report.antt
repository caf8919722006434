-- ===== src/Grbl/Parser/Report.antt =====
-- src/grbl/parser.rs: status reports. Positions are vectors of known or unknown coordinates.
pub mod Positions
pub mod Axes
pub mod Frame
pub mod Aligned
use Prim.Native.Nat.{max}
use Prim.Native.String.{String}
use raydriver.Base.{
  ℕ, zero, suc, ◌-◌, Bool, true, false, not, ◌&&◌, List, [], ◌∷◌, ◌++◌, Option, none, some, map,
  ◌==◌, if◌then◌else◌, is_empty, is_some, length, replicate,
}
use raydriver.Base.Int.{ℤ}
use raydriver.Device.{F64, DeviceStatus, DeviceError, DeviceState, inches_to_mm}
use raydriver.Device.Status.{from_name}
use raydriver.Grbl.Errors.{error_code_to_device_error, alarm_code_to_device_error}
use raydriver.Text.Affix.{strip_prefix, strip_suffix, starts_with, split_once, split}
use raydriver.Text.Number.{parse_i64}
use raydriver.Text.Regex.{Regex, Captures, group, group?}
use raydriver.Text.Utf8.{Text, codes}

abbrev pub is_alarm : DeviceStatus → Bool
is_alarm DeviceStatus.alarm = true
is_alarm _ = false

-- `splitn(2, ':')`: the name, and the rest behind the first colon.
abbrev pub splitn_2 : Text → Text × Option Text
splitn_2 text = elim (split_once b':' text) [ none ↦ (text, none) | some (a, b) ↦ (a, some b) ]

unfoldable pub parse_status_part : Text → DeviceStatus × Option Text
unfolding from_name split_once
parse_status_part status_part =
    let (status_name, suffix) = splitn_2 status_part in
    let status = from_name status_name in (status, if is_alarm status then suffix else none)

-- The parts between `|` that are not empty: the first is the status, the others are attributes.
abbrev pub non_empty : List Text → List Text
non_empty [] = []
non_empty (part ∷ rest) = if is_empty part then non_empty rest else part ∷ non_empty rest

module _ (F : F64) where
  open F use {Float, zero_point_zero, add, sub, parse}

  abbrev Positions : Type 0
  Positions = List (Option Float)

  unfoldable pub pos_from_inches : Positions → Positions
  unfolding inches_to_mm
  pos_from_inches = map (λ v. elim v [ none ↦ none | some x ↦ some (inches_to_mm F x) ])

  -- `while result.len() < n { push }`.
  unfoldable pub pad_pos : Positions → ℕ → Float → Positions
  pad_pos p n default = p ++ replicate (n - length p) (some default)

  unfoldable pub all_known : Positions → Bool
  all_known [] = true
  all_known (v ∷ rest) = is_some v && all_known rest

  -- `(0..n).map(|i| Some(a[i].unwrap() op b[i].unwrap()))`, for known vectors of length n.
  unfoldable pub combine : (Float → Float → Float) → Positions → Positions → Positions
  combine op (some a ∷ as') (some b ∷ bs') = some (op a b) ∷ combine op as' bs'
  combine op _ _ = []

  unfoldable pub recalculate_positions :
      Positions → Positions → Positions → Bool → Bool → Bool → Positions × Positions × Positions
  unfolding pad_pos all_known combine
  recalculate_positions machine_pos work_pos wco mpos_found wpos_found wco_found =
      let n = max (max (max (length machine_pos) (length work_pos)) (length wco)) 3 in
      let m = pad_pos machine_pos n zero_point_zero in
      let w = pad_pos work_pos n zero_point_zero in
      let given = pad_pos wco n zero_point_zero in
      let infer = mpos_found && wpos_found && not wco_found && all_known m && all_known w in
      let c = if infer then combine sub m w else given in
      if mpos_found && all_known m && all_known c
      then (m, combine sub m c, c)
      else if wpos_found && all_known w && all_known c
      then (combine add w c, w, c)
      else (m, w, c)

  module _ (re : Regex) where
    -- One of the groups 1 to 4: one that does not take part is 0.0.
    abbrev coordinate : Captures → ℕ → Option Float
    coordinate caps i = elim (group? caps i) [
      | none ↦ some zero_point_zero
      | some text ↦ parse text
    ]

    infixl 5 ◌>>=◌
    abbrev ◌>>=◌ {ℓ κ} : {A : Type ℓ} {B : Type κ} → Option A → (A → Option B) → Option B
    none >>= f = none
    some a >>= f = f a

    -- All four coordinates must parse; the fourth is cut off if it was not there.
    unfoldable pub parse_position_attribute : Text → Text → Option Positions
    unfolding starts_with
    parse_position_attribute attrib pos_type =
        if not (starts_with (pos_type ++ codes ":") attrib) then none else (do
          caps ←
              re.captures
                ":(-?\\d+\\.?\\d*),(-?\\d+\\.?\\d*)(?:,(-?\\d+\\.?\\d*))?(?:,(-?\\d+\\.?\\d*))?"
                attrib
          x ← coordinate caps 1
          y ← coordinate caps 2
          z ← coordinate caps 3
          a ← coordinate caps 4
          some (some x ∷ some y ∷ some z ∷ (if is_some (group? caps 4) then some a ∷ [] else [])))

    unfoldable pub parse_feed_rate : Text → Option ℤ
    unfolding parse_i64
    parse_feed_rate attrib = do
      caps ← re.captures "FS:(\\d+),(\\d+)" attrib
      parse_i64 (group caps 1)

    unfoldable pub parse_buffer_state : Text → Option (ℤ × ℤ)
    unfolding parse_i64
    parse_buffer_state attrib = do
      caps ← re.captures "Bf:(\\d+),(\\d+)" attrib
      available ← parse_i64 (group caps 1)
      rx_available ← parse_i64 (group caps 2)
      some (available, rx_available)

    -- The state with the three flags of the loop over the attributes.
    pub record Scan : Type 0 where
      pub state : DeviceState F
      pub mpos_found : Bool
      pub wpos_found : Bool
      pub wco_found : Bool

    -- `parsed.first().is_some_and(|v| v.is_some())`.
    abbrev first_known : Positions → Bool
    first_known [] = false
    first_known (v ∷ rest) = is_some v

    abbrev set_feed : Scan → Option ℤ → Scan
    set_feed s none = s
    set_feed s (some rate) = record s { state = record (s.state) { feed_rate = some rate } }

    abbrev set_buffers : Scan → Option (ℤ × ℤ) → Scan
    set_buffers s none = s
    set_buffers s (some (available, rx_available)) = record s {
      state = record (s.state) {
        buffer_available = some available;
        buffer_rx_available = some rx_available;
      };
    }

    unfoldable pub read_attribute : Scan → Text → Scan
    unfolding parse_position_attribute parse_feed_rate parse_buffer_state starts_with
    read_attribute s attrib = elim (parse_position_attribute attrib (codes "MPos")) [
      | some p ↦ record s {
        state = record (s.state) { machine_pos = p };
        mpos_found = first_known p;
      }
      | none ↦ elim (parse_position_attribute attrib (codes "WPos")) [
        | some p ↦ record s {
          state = record (s.state) { work_pos = p };
          wpos_found = first_known p;
        }
        | none ↦ elim (parse_position_attribute attrib (codes "WCO")) [
          | some p ↦ record s { state = record (s.state) { wco = p }; wco_found = true }
          | none ↦
              if starts_with (codes "FS:") attrib
              then set_feed s (parse_feed_rate attrib)
              else if starts_with (codes "Bf:") attrib
              then set_buffers s (parse_buffer_state attrib)
              else s
        ]
      ]
    ]

    unfoldable pub read_attributes : Scan → List Text → Scan
    unfolding read_attribute
    read_attributes s [] = s
    read_attributes s (attrib ∷ rest) = read_attributes (read_attribute s attrib) rest

    abbrev error_for : DeviceStatus → Text → DeviceError
    error_for status code =
        if is_alarm status then alarm_code_to_device_error code else error_code_to_device_error code

    unfoldable pub read_status : DeviceState F → Text → DeviceState F
    unfolding parse_status_part alarm_code_to_device_error error_code_to_device_error
    read_status state status_part =
        let (status, error_code) = parse_status_part status_part in
        elim error_code [
          | none ↦ record state { status = status }
          | some code ↦ record state { status = status; error = some (error_for status code) }
        ]

    abbrev in_mm : Bool → Positions → Positions
    in_mm found p = if found then pos_from_inches p else p

    abbrev to_mm : Bool → Scan → Scan
    to_mm inches s =
        if inches
        then record s {
          state = record (s.state) {
            machine_pos = in_mm s.mpos_found s.state.machine_pos;
            work_pos = in_mm s.wpos_found s.state.work_pos;
            wco = in_mm s.wco_found s.state.wco;
          };
        }
        else s

    unfoldable pub recalculated : Scan → DeviceState F
    unfolding recalculate_positions
    recalculated s =
        let (mpos, wpos, wco) =
          recalculate_positions s.state.machine_pos s.state.work_pos s.state.wco s.mpos_found
            s.wpos_found s.wco_found in
        record (s.state) { machine_pos = mpos; work_pos = wpos; wco = wco }

    abbrev scanning : DeviceState F → Scan
    scanning state = record {
      state = state;
      mpos_found = false;
      wpos_found = false;
      wco_found = false;
    }

    unfoldable pub read_parts : DeviceState F → Bool → List Text → DeviceState F
    unfolding read_status read_attributes recalculated pos_from_inches
    read_parts state inches [] = recalculated (to_mm inches (scanning state))
    read_parts state inches (status_part ∷ attribs) =
        recalculated
          (to_mm inches (read_attributes (scanning (read_status state status_part)) attribs))

    -- What stands between `<` and `>`.
    unfoldable pub inner_part : Text → Option Text
    unfolding strip_prefix strip_suffix
    inner_part state_str = elim (strip_prefix (codes "<") state_str) [
      | none ↦ none
      | some rest ↦ strip_suffix b'>' rest
    ]

    unfoldable pub parse_state : Text → DeviceState F → Bool → DeviceState F
    unfolding inner_part read_parts split
    parse_state state_str default report_in_inches = elim (inner_part state_str) [
      | none ↦ default
      | some inner ↦ read_parts default report_in_inches (non_empty (split b'|' inner))
    ]

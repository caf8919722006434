-- ===== src/Grbl/Parser/Report/Aligned.antt =====
-- src/grbl/parser.rs: the three positions of a parsed report have the same axes.
use raydriver.Base.{◌≤◌, ◌≡◌, refl, sym, ◌∙◌, Bool, List, [], ◌∷◌, some, arith, length}
use raydriver.Device.{F64, DeviceState}
use raydriver.Grbl.Parser.Report.{
  Scan, recalculated, read_parts, read_attributes, read_status, scanning, to_mm, inner_part,
  parse_state, non_empty,
}
use raydriver.Grbl.Parser.Report.Positions.{recalculate_positions-length}
use raydriver.Text.Affix.{split}
use raydriver.Text.Regex.{Regex}
use raydriver.Text.Utf8.{Text}

module _ (F : F64) where
  -- One length for all three, 3 at least.
  pub record IsAligned (s : DeviceState F) : Type 0 where
    pub work : length s.work_pos ≡ length s.machine_pos
    pub offset : length s.wco ≡ length s.machine_pos
    pub three : 3 ≤ length s.machine_pos

module _ (F : F64) (re : Regex) where
  recalculated-IsAligned : (s : Scan F re) → IsAligned F (recalculated F re s)
  unfolding recalculated
  recalculated-IsAligned s =
      let (m, w, c) =
        recalculate_positions-length F s.state.machine_pos s.state.work_pos s.state.wco s.mpos_found
          s.wpos_found s.wco_found refl in
      record { work = w ∙ sym m; offset = c ∙ sym m; three = omega (arith, m) }

  read_parts-IsAligned :
      (s : DeviceState F) (inches : Bool) (parts : List Text)
      → IsAligned F (read_parts F re s inches parts)
  unfolding read_parts
  read_parts-IsAligned s inches [] = recalculated-IsAligned (to_mm F re inches (scanning F re s))
  read_parts-IsAligned s inches (part ∷ attribs) =
      recalculated-IsAligned
        (to_mm F re inches (read_attributes F re (scanning F re (read_status F re s part)) attribs))

  -- After a text in angle brackets, whatever stands between them, the machine position, the work
  -- position and the offset have the same number of axes, three at least.
  pub parse_state-IsAligned :
      (report : Text) (default : DeviceState F) (inches : Bool) {inner : Text}
      → inner_part F re report ≡ some inner
      → IsAligned F (parse_state F re report default inches)
  unfolding parse_state
  parse_state-IsAligned report default inches {inner} e =
      rw (e, parse_state) (read_parts-IsAligned default inches (non_empty (split b'|' inner)))

-- ===== src/Dialect.antt =====
-- src/core/dialect.rs: the command templates of a machine's dialect.
pub mod Template
pub mod Wcs
mod Tests
use raydriver.Base.{ℕ, List, [], ◌∷◌, Option, none, some}
use raydriver.Base.Int.{ℤ}
use raydriver.Device.{F64}
use raydriver.Dialect.Template.{Arg, Formatted, format_template}
use raydriver.Text.Affix.{replace}
use raydriver.Text.Dict.{lookup}
use raydriver.Text.Trim.{trim}
use raydriver.Text.Utf8.{Text, codes}

pub record Dialect : Type 0 where
  pub home_all : Text
  pub home_axis : Text
  pub move_to : Text
  pub jog : Text
  pub clear_alarm : Text
  pub laser_on : Text
  pub laser_off : Text
  pub focus_laser_on : Text
  pub tool_change : Text
  pub set_wcs_offset : Text
  pub probe_cycle : Text
  pub safety_off_commands : List Text
  pub emergency_stop : Option Text

abbrev pub default_dialect : Dialect
default_dialect = record {
  home_all = codes "$H";
  home_axis = codes "$H{axis_letter}";
  move_to = codes "$J=G90 G21 F{speed} X{x} Y{y}";
  jog = codes "$J=G91 G21 F{speed}";
  clear_alarm = codes "$X";
  laser_on = codes "M4 S{power:.0f}";
  laser_off = codes "M5";
  focus_laser_on = codes "M3 S{power:.0f}";
  tool_change = codes "T{tool_number}";
  set_wcs_offset = codes "G10 L2 P{p_num} X{x} Y{y} Z{z}";
  probe_cycle = codes "G38.2 {axis_letter}{max_travel} F{feed_rate}";
  safety_off_commands = codes "M5" ∷ [];
  emergency_stop = none;
}

abbrev or_default : Option Text → Text → Text
or_default none d = d
or_default (some v) d = v

-- The safety commands have no key.
unfoldable pub from_map : List (Text × Text) → Dialect
unfolding lookup
from_map templates = record {
  home_all = or_default (lookup (codes "home_all") templates) default_dialect.home_all;
  home_axis = or_default (lookup (codes "home_axis") templates) default_dialect.home_axis;
  move_to = or_default (lookup (codes "move_to") templates) default_dialect.move_to;
  jog = or_default (lookup (codes "jog") templates) default_dialect.jog;
  clear_alarm = or_default (lookup (codes "clear_alarm") templates) default_dialect.clear_alarm;
  laser_on = or_default (lookup (codes "laser_on") templates) default_dialect.laser_on;
  laser_off = or_default (lookup (codes "laser_off") templates) default_dialect.laser_off;
  focus_laser_on =
      or_default (lookup (codes "focus_laser_on") templates) default_dialect.focus_laser_on;
  tool_change = or_default (lookup (codes "tool_change") templates) default_dialect.tool_change;
  set_wcs_offset =
      or_default (lookup (codes "set_wcs_offset") templates) default_dialect.set_wcs_offset;
  probe_cycle = or_default (lookup (codes "probe_cycle") templates) default_dialect.probe_cycle;
  safety_off_commands = default_dialect.safety_off_commands;
  emergency_stop = lookup (codes "emergency_stop") templates;
}

module _ (F : F64) where
  open F use {Float, zero_point_zero}

  abbrev coordinate : Option Float → Float
  coordinate none = zero_point_zero
  coordinate (some z) = z

  -- Without a Z axis the Z word is dropped.
  unfoldable pub wcs_template : Dialect → Option Float → Text
  unfolding replace trim
  wcs_template dialect (some z) = dialect.set_wcs_offset
  wcs_template dialect none =
      trim (replace (codes "Z{z}") (codes " ") (replace (codes " Z{z}") [] dialect.set_wcs_offset))

  -- `expect` panics where this is not `formatted`.
  unfoldable pub format_wcs_offset : Dialect → ℤ → Float → Float → Option Float → Formatted
  unfolding wcs_template format_template
  format_wcs_offset dialect p_num x y z = format_template F (wcs_template dialect z) (
      (codes "p_num", Arg.int p_num)
      ∷ (codes "x", Arg.length x)
      ∷ (codes "y", Arg.length y)
      ∷ (codes "z", Arg.length (coordinate z))
      ∷ [])

-- ===== src/Dialect/Wcs.antt =====
-- src/core/dialect.rs: the WCS command of the default dialect.
use raydriver.Base.{◌≡◌, ap, ◌++◌, Option, none, some, ++_nil}
use raydriver.Base.Int.{ℤ}
use raydriver.Device.{F64}
use raydriver.Dialect.{default_dialect, wcs_template, format_wcs_offset}
use raydriver.Dialect.Template.{
  Formatted, python_float_repr, render, render_plain, name_and_spec, format_loop, format_template,
}
use raydriver.Text.Affix.{replace, split_once}
use raydriver.Text.Dict.{lookup}
use raydriver.Text.Number.{display_i64}
use raydriver.Text.Trim.{trim}
use raydriver.Text.Utf8.{Text, codes}

module _ (F : F64) where
  open F use {Float}

  -- The Z word.
  abbrev pub z_word : Option Float → Text → Text
  z_word none line = line
  z_word (some z) line = (line ++ codes " Z") ++ python_float_repr F z

  -- The command that is meant, built from left to right.
  abbrev pub wcs_command : ℤ → Float → Float → Option Float → Text
  wcs_command p_num x y z =
      let slot = codes "G10 L2 P" ++ display_i64 p_num in
      let with_x = (slot ++ codes " X") ++ python_float_repr F x in
      let with_y = (with_x ++ codes " Y") ++ python_float_repr F y in z_word z with_y

  -- With the default dialect the WCS command never fails to format, whatever the values: it has the
  -- slot and the coordinates, and a Z word exactly where there is a Z coordinate.
  pub format_wcs_offset-default :
      (p_num : ℤ) (x y : Float) (z : Option Float)
      → format_wcs_offset F default_dialect p_num x y z
        ≡ Formatted.formatted (wcs_command p_num x y z)
  unfolding format_wcs_offset wcs_template format_template format_loop name_and_spec lookup render
      render_plain split_once replace trim
  format_wcs_offset-default p_num x y none =
      ap Formatted.formatted (++_nil (wcs_command p_num x y none))
  format_wcs_offset-default p_num x y (some z) =
      ap Formatted.formatted (++_nil (wcs_command p_num x y (some z)))

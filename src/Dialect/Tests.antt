-- ===== src/Dialect/Tests.antt =====
-- src/core/dialect.rs: templates filled in with whole numbers for `f64`.
use raydriver.Base.{◌≡◌, refl, List, [], ◌∷◌, none, some}
use raydriver.Base.Int.{pos, negsuc}
use raydriver.Device.Sample.{whole_numbers}
use raydriver.Dialect.{default_dialect, from_map, format_wcs_offset}
use raydriver.Dialect.Template.{TemplateError, Formatted, Arg, format_template}
use raydriver.Dialect.Template.Pieces.{Piece, show, fill, format_template-fill}
use raydriver.Dialect.Wcs.{wcs_command, format_wcs_offset-default}
use raydriver.Text.Affix.{contains_char}
use raydriver.Text.Utf8.{Text, codes}

abbrev tool_args : List (Text × Arg whole_numbers)
tool_args = (codes "tool_number", Arg.int (pos 12)) ∷ (codes "axis", Arg.str (codes "X")) ∷ []

tool_change_runs :
    format_template whole_numbers default_dialect.tool_change tool_args
    ≡ Formatted.formatted (codes "T12")
unfolding format_template
tool_change_runs = refl

negative_runs :
    format_template whole_numbers (codes "P{p}") ((codes "p", Arg.int (negsuc 9)) ∷ [])
    ≡ Formatted.formatted (codes "P-10")
unfolding format_template
negative_runs = refl

missing_runs :
    format_template whole_numbers (codes "T{tool}") tool_args
    ≡ Formatted.refused (TemplateError.no_value (codes "tool"))
unfolding format_template
missing_runs = refl

unterminated_runs :
    format_template whole_numbers (codes "T{tool_number} {") tool_args
    ≡ Formatted.refused (TemplateError.unterminated_placeholder (codes "T{tool_number} {"))
unfolding format_template
unterminated_runs = refl

from_map_runs : from_map [] ≡ default_dialect
unfolding from_map
from_map_runs = refl

abbrev pieces : List Piece
pieces =
    Piece.literal (codes "M6 T")
    ∷ Piece.placeholder (codes "tool_number") none
    ∷ Piece.placeholder (codes "axis") none
    ∷ Piece.placeholder (codes "speed") (some (codes ".0f"))
    ∷ []

format_template-fill_example :
    format_template whole_numbers (show pieces) tool_args ≡ fill whole_numbers tool_args [] pieces
unfolding contains_char
format_template-fill_example =
    format_template-fill whole_numbers tool_args pieces
      (refl, ((refl, refl), ((refl, refl), ((refl, refl), tt))))

format_wcs_offset-default_example :
    format_wcs_offset whole_numbers default_dialect (pos 1) (pos 10) (negsuc 4) none
    ≡ Formatted.formatted (wcs_command whole_numbers (pos 1) (pos 10) (negsuc 4) none)
format_wcs_offset-default_example =
    format_wcs_offset-default whole_numbers (pos 1) (pos 10) (negsuc 4) none

-- ===== src/Dialect/Template.antt =====
-- src/core/dialect.rs: the arguments of a template and `format_template`.
pub mod Pieces
use raydriver.Base.{
  ℕ, zero, suc, Bool, true, false, List, [], ◌∷◌, ◌++◌, Option, none, some, if◌then◌else◌,
  length as text_length,
}
use raydriver.Base.Int.{ℤ}
use raydriver.Device.{F64}
use raydriver.Text.Affix.{split_once, strip_prefix, strip_suffix}
use raydriver.Text.Dict.{lookup}
use raydriver.Text.Number.{parse_usize, display_i64}
use raydriver.Text.Utf8.{Text, codes}

-- `Result<String, String>`. An error stands for its message: it holds what the message quotes.
pub data TemplateError : Type 0 where
  unterminated_placeholder : Text → TemplateError
  no_value : Text → TemplateError

pub data Formatted : Type 0 where
  formatted : Text → Formatted
  refused : TemplateError → Formatted

module _ (F : F64) where
  open F use {Float, is_whole_below_1e16, display, display_digits, as_i64, of_i64}

  pub data Arg : Type 0 where
    length : Float → Arg
    speed : Float → Arg
    int : ℤ → Arg
    str : Text → Arg

  unfoldable pub python_float_repr : Float → Text
  python_float_repr v = if is_whole_below_1e16 v then display_digits 1 v else display v

  unfoldable pub render_plain : Arg → Text
  unfolding python_float_repr display_i64
  render_plain (Arg.length v) = python_float_repr v
  render_plain (Arg.speed v) = if is_whole_below_1e16 v then display_i64 (as_i64 v) else display v
  render_plain (Arg.int v) = display_i64 v
  render_plain (Arg.str v) = v

  -- A number by a format spec: `.Nf`, and anything else as the plain number.
  unfoldable pub render_number : Float → Text → Text
  unfolding strip_prefix strip_suffix parse_usize
  render_number num spec = elim (strip_prefix (codes ".") spec) [
    | none ↦ display num
    | some digits_f ↦ elim (strip_suffix b'f' digits_f) [
      | none ↦ display num
      | some digits ↦ elim (parse_usize digits) [
        | none ↦ display num
        | some n ↦ display_digits n num
      ]
    ]
  ]

  unfoldable pub render : Arg → Option Text → Text
  unfolding render_plain render_number
  render arg none = render_plain arg
  render (Arg.length v) (some spec) = render_number v spec
  render (Arg.speed v) (some spec) = render_number v spec
  render (Arg.int v) (some spec) = render_number (of_i64 v) spec
  render (Arg.str v) (some spec) = []

  -- Name and spec of a placeholder.
  unfoldable pub name_and_spec : Text → Text × Option Text
  unfolding split_once
  name_and_spec placeholder = elim (split_once b':' placeholder) [
    | none ↦ (placeholder, none)
    | some (name, spec) ↦ (name, some spec)
  ]

  -- The loop, over what is left of the template and behind what was put out.
  unfoldable pub format_loop : Text → List (Text × Arg) → ℕ → Text → Text → Formatted
  unfolding split_once name_and_spec lookup render
  format_loop template args zero out rest = formatted (out ++ rest)
  format_loop template args (suc fuel) out rest = elim (split_once b'{' rest) [
    | none ↦ formatted (out ++ rest)
    | some (before, after) ↦ elim (split_once b'}' after) [
      | none ↦ refused (unterminated_placeholder template)
      | some (placeholder, behind) ↦
          let (name, spec) = name_and_spec placeholder in
          elim (lookup name args) [
            | none ↦ refused (no_value name)
            | some arg ↦ format_loop template args fuel ((out ++ before) ++ render arg spec) behind
          ]
    ]
  ]

  -- Each round takes a brace out of the template.
  unfoldable pub format_template : Text → List (Text × Arg) → Formatted
  unfolding format_loop
  format_template template args = format_loop template args (suc (text_length template)) [] template

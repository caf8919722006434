-- ===== src/Device/Sample.antt =====
-- Values for the parameters of the model, at which the theorems are applied: whole numbers for
-- `f64`, and a regex engine that takes the groups to be what commas part behind the first colon.
use raydriver.Base.{true, false, [], ◌∷◌, Option, none, some, map, if◌then◌else◌}
use raydriver.Base.Int.{ℤ, pos, ◌+ℤ◌, ◌-ℤ◌, ◌*ℤ◌, ltb_ℤ}
use raydriver.Device.{F64}
use raydriver.Device.Equal.{int_equal}
use raydriver.Text.Affix.{split_once, split}
use raydriver.Text.Number.{parse_i64}
use raydriver.Text.Regex.{Regex, Captures}
use raydriver.Text.Utf8.{Text}

abbrev pub whole_numbers : F64
whole_numbers = record {
  Float = ℤ;
  zero_point_zero = pos 0;
  one_point_one = pos 1;
  epsilon = pos 1;
  mm_per_inch = pos 25;
  add = ◌+ℤ◌;
  sub = ◌-ℤ◌;
  mul = ◌*ℤ◌;
  abs = λ a. if ltb_ℤ a (pos 0) then pos 0 -ℤ a else a;
  less = ltb_ℤ;
  equals = int_equal;
  is_whole_below_1e16 = λ a. true;
  as_i64 = λ a. a;
  of_i64 = λ a. a;
  parse = parse_i64;
  display = λ a. [];
  display_digits = λ n a. [];
}

unfoldable pub comma_groups : Text → Option Captures
unfolding split_once split
comma_groups t = elim (split_once b':' t) [
  | none ↦ none
  | some (name, values) ↦ some (some t ∷ map some (split b',' values))
]

abbrev pub comma_engine : Regex
comma_engine = record {
  captures = λ pattern t. comma_groups t;
  remove_all = λ pattern t. t;
  is_match_bytes = λ pattern b. false;
}

-- ===== src/Text/Number.antt =====
-- Rust's `parse` of a text into a signed machine integer: an optional sign, then decimal digits, at
-- least one; out of range is an error.
use raydriver.Base.{
  ℕ, zero, suc, ◌+◌, ◌-◌, ◌/◌, ◌%◌, ◌*◌, ◌^◌, Bool, ◌&&◌, [], ◌∷◌, Option, none, some, ltb, leb,
  ◌==◌, if◌then◌else◌,
}
use raydriver.Base.Int.{ℤ, pos, negsuc}
use raydriver.Text.Utf8.{Text}

abbrev pub is_digit : ℕ → Bool
is_digit c = leb b'0' c && leb c b'9'

-- The value of a run of digits behind those that make up `acc`.
unfoldable pub digits_from : ℕ → Text → Option ℕ
digits_from acc [] = some acc
digits_from acc (c ∷ t) = if is_digit c then digits_from (acc * 10 + (c - b'0')) t else none

unfoldable pub parse_digits : Text → Option ℕ
unfolding digits_from
parse_digits [] = none
parse_digits (c ∷ t) = digits_from 0 (c ∷ t)

-- `limit` is 2 ^ (w - 1) for a width w.
abbrev non_negative : ℕ → Option ℕ → Option ℤ
non_negative limit none = none
non_negative limit (some n) = if ltb n limit then some (pos n) else none

abbrev negative : ℕ → Option ℕ → Option ℤ
negative limit none = none
negative limit (some n) =
    if n == 0 then some (pos 0) else if leb n limit then some (negsuc (n - 1)) else none

unfoldable pub parse_signed : ℕ → Text → Option ℤ
unfolding parse_digits
parse_signed limit [] = none
parse_signed limit (c ∷ t) =
    if c == b'-'
    then negative limit (parse_digits t)
    else if c == b'+'
    then non_negative limit (parse_digits t)
    else non_negative limit (parse_digits (c ∷ t))

unfoldable pub parse_i64 : Text → Option ℤ
unfolding parse_signed
parse_i64 = parse_signed (2 ^ 63)

unfoldable pub parse_i32 : Text → Option ℤ
unfolding parse_signed
parse_i32 = parse_signed (2 ^ 31)

unfoldable pub parse_usize : Text → Option ℕ
unfolding parse_digits
parse_usize [] = none
parse_usize (c ∷ t) =
    let digits = if c == b'+' then parse_digits t else parse_digits (c ∷ t) in
    elim digits [ none ↦ none | some n ↦ if ltb n (2 ^ 64) then some n else none ]

-- `Display` of an integer: the decimal digits in front of `rest`. A number has at most as many
-- digits as it is large, and one.
unfoldable pub decimal_from : ℕ → ℕ → Text → Text
decimal_from zero n rest = rest
decimal_from (suc fuel) n rest =
    let more = decimal_from fuel (n / 10) ((b'0' + n % 10) ∷ rest) in
    if ltb n 10 then (b'0' + n) ∷ rest else more

unfoldable pub decimal : ℕ → Text
unfolding decimal_from
decimal n = decimal_from (suc n) n []

unfoldable pub display_i64 : ℤ → Text
unfolding decimal
display_i64 (pos n) = decimal n
display_i64 (negsuc n) = b'-' ∷ decimal (suc n)

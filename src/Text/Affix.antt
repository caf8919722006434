-- ===== src/Text/Affix.antt =====
-- Rust's tests and cuts of a text at a prefix, a suffix or a separator.
use raydriver.Base.{
  ℕ, zero, suc, length, ◌+◌, ◌-◌, Bool, true, false, ◌&&◌, List, [], ◌∷◌, ◌++◌, Option, none, some,
  map, leb, ◌==◌, if◌then◌else◌,
}
use raydriver.Text.Utf8.{Text}

unfoldable pub equal : Text → Text → Bool
equal [] [] = true
equal (a ∷ s) (b ∷ t) = a == b && equal s t
equal _ _ = false

unfoldable pub strip_prefix : Text → Text → Option Text
strip_prefix [] t = some t
strip_prefix (a ∷ p) [] = none
strip_prefix (a ∷ p) (c ∷ t) = if a == c then strip_prefix p t else none

unfoldable pub starts_with : Text → Text → Bool
starts_with [] t = true
starts_with (a ∷ p) [] = false
starts_with (a ∷ p) (c ∷ t) = a == c && starts_with p t

-- The source strips and tests suffixes of one character only.
unfoldable pub strip_suffix : ℕ → Text → Option Text
strip_suffix s [] = none
strip_suffix s (c ∷ []) = if c == s then some [] else none
strip_suffix s (c ∷ d ∷ t) = elim (strip_suffix s (d ∷ t)) [ none ↦ none | some r ↦ some (c ∷ r) ]

unfoldable pub ends_with : ℕ → Text → Bool
ends_with s [] = false
ends_with s (c ∷ []) = c == s
ends_with s (c ∷ d ∷ t) = ends_with s (d ∷ t)

-- `split_once`, at the first separator.
unfoldable pub split_once : ℕ → Text → Option (Text × Text)
split_once s [] = none
split_once s (c ∷ t) = elim (c == s) [
  | true ↦ some ([], t)
  | false ↦ elim (split_once s t) [ none ↦ none | some (a, b) ↦ some (c ∷ a, b) ]
]

-- `split`, which has one part more than there are separators.
unfoldable pub split_from : Text → ℕ → Text → List Text
split_from current s [] = current ∷ []
split_from current s (c ∷ t) = elim (c == s) [
  | true ↦ current ∷ split_from [] s t
  | false ↦ split_from (current ++ c ∷ []) s t
]

unfoldable pub split : ℕ → Text → List Text
unfolding split_from
split = split_from []

unfoldable pub contains_char : ℕ → Text → Bool
contains_char s [] = false
contains_char s (c ∷ t) = if c == s then true else contains_char s t

-- `contains` with a text.
unfoldable pub contains : Text → Text → Bool
unfolding starts_with
contains p [] = starts_with p []
contains p (c ∷ t) = if starts_with p (c ∷ t) then true else contains p t

-- `to_ascii_uppercase` and `to_ascii_lowercase`, for one character and for a text.
unfoldable pub upper_char : ℕ → ℕ
upper_char c = if leb b'a' c && leb c b'z' then c - 32 else c

unfoldable pub lower_char : ℕ → ℕ
lower_char c = if leb b'A' c && leb c b'Z' then c + 32 else c

unfoldable pub ascii_upper : Text → Text
unfolding upper_char
ascii_upper = map upper_char

unfoldable pub ascii_lower : Text → Text
unfolding lower_char
ascii_lower = map lower_char

-- `replace` of a pattern that is not empty, behind `skip` characters that were replaced already.
unfoldable pub replace_from : Text → Text → ℕ → Text → Text
unfolding starts_with
replace_from pattern by skip [] = []
replace_from pattern by (suc skip) (c ∷ t) = replace_from pattern by skip t
replace_from pattern by zero (c ∷ t) =
    let found = by ++ replace_from pattern by (length pattern - 1) t in
    let other = c ∷ replace_from pattern by 0 t in
    if starts_with pattern (c ∷ t) then found else other

unfoldable pub replace : Text → Text → Text → Text
unfolding replace_from
replace pattern by t = replace_from pattern by 0 t

-- `join` of texts with a separator between them.
unfoldable pub join : Text → List Text → Text
join separator [] = []
join separator (t ∷ []) = t
join separator (t ∷ u ∷ rest) = t ++ separator ++ join separator (u ∷ rest)

-- ===== src/Text/Unicode.antt =====
-- Rust's `str::to_uppercase`, `str::to_lowercase` and `char::is_alphanumeric`. What they do to a
-- character that is not ASCII stands in tables of the Unicode standard, which are a parameter; the
-- lower case of one may depend on the text before and behind it.
use raydriver.Base.{ℕ, Bool, ◌||◌, ◌&&◌, [], ◌∷◌, ◌++◌, ltb, leb, if◌then◌else◌}
use raydriver.Text.Affix.{upper_char, lower_char}
use raydriver.Text.Number.{is_digit}
use raydriver.Text.Utf8.{Text}

pub record Unicode : Type 0 where
  pub upper : ℕ → Text
  pub lower : Text → ℕ → Text → Text
  pub alphanumeric : ℕ → Bool

module _ (unicode : Unicode) where
  unfoldable pub to_uppercase : Text → Text
  unfolding upper_char
  to_uppercase [] = []
  to_uppercase (c ∷ t) =
      (if ltb c 128 then upper_char c ∷ [] else unicode.upper c) ++ to_uppercase t

  unfoldable pub lowercase_from : Text → Text → Text
  unfolding lower_char
  lowercase_from before [] = []
  lowercase_from before (c ∷ t) =
      (if ltb c 128 then lower_char c ∷ [] else unicode.lower before c t)
      ++ lowercase_from (before ++ c ∷ []) t

  unfoldable pub to_lowercase : Text → Text
  unfolding lowercase_from
  to_lowercase t = lowercase_from [] t

  unfoldable pub is_alphanumeric : ℕ → Bool
  is_alphanumeric c =
      if ltb c 128
      then is_digit c || (leb b'A' c && leb c b'Z') || (leb b'a' c && leb c b'z')
      else unicode.alphanumeric c

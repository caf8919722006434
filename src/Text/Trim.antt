-- ===== src/Text/Trim.antt =====
-- Rust's `trim`, `trim_end`, `lines`, over texts.
pub mod Laws
use raydriver.Base.{
  ℕ, Bool, true, false, ◌&&◌, ◌||◌, List, [], ◌∷◌, ◌++◌, leb, ◌==◌, if◌then◌else◌, is_empty,
}
use raydriver.Text.Utf8.{Text}

-- Unicode White_Space.
unfoldable pub is_whitespace : ℕ → Bool
is_whitespace c =
    leb 9 c && leb c 13
    || c == 0x20
    || c == 0x85
    || c == 0xA0
    || c == 0x1680
    || leb 0x2000 c && leb c 0x200A
    || c == 0x2028
    || c == 0x2029
    || c == 0x202F
    || c == 0x205F
    || c == 0x3000

-- `trim_start_matches` with a test on characters.
unfoldable pub drop_while : (ℕ → Bool) → Text → Text
drop_while p [] = []
drop_while p (c ∷ t) = if p c then drop_while p t else c ∷ t

-- A character stays if something stays behind it, or if the test fails on it.
unfoldable pub drop_while_end : (ℕ → Bool) → Text → Text
drop_while_end p [] = []
drop_while_end p (c ∷ t) = let t' = drop_while_end p t in if p c && is_empty t' then [] else c ∷ t'

unfoldable pub trim_start : Text → Text
unfolding drop_while is_whitespace
trim_start = drop_while is_whitespace

unfoldable pub trim_end : Text → Text
unfolding drop_while_end is_whitespace
trim_end = drop_while_end is_whitespace

unfoldable pub trim : Text → Text
unfolding trim_start trim_end
trim t = trim_end (trim_start t)

-- What `lines` takes off a line that a newline ends: one carriage return before it.
unfoldable pub strip_cr : Text → Text
strip_cr [] = []
strip_cr (c ∷ []) = if c == b'\r' then [] else c ∷ []
strip_cr (c ∷ d ∷ t) = c ∷ strip_cr (d ∷ t)

-- `lines`: `current` is the line read so far. A last line with no newline keeps its `\r`.
unfoldable pub lines_from : Text → Text → List Text
unfolding strip_cr
lines_from current [] = if is_empty current then [] else current ∷ []
lines_from current (c ∷ t) = elim (c == b'\n') [
  | true ↦ strip_cr current ∷ lines_from [] t
  | false ↦ lines_from (current ++ c ∷ []) t
]

unfoldable pub lines : Text → List Text
unfolding lines_from
lines = lines_from []

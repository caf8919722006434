-- ===== src/Text/Regex.antt =====
-- The regex crate over texts: an engine gives, for a pattern and a text, the groups of the first
-- match, the whole match being group 0, and a text with every match replaced. The patterns are
-- those of the source, written as there.
use Prim.Native.String.{String}
use raydriver.Base.{ℕ, Bool, List, Option, none, some, get_elem?}
use raydriver.Text.Utf8.{Bytes, Text}

abbrev pub Captures : Type 0
Captures = List (Option Text)

pub record Regex : Type 0 where
  pub captures : String → Text → Option Captures
  pub remove_all : String → Text → Text
  pub is_match_bytes : String → Bytes → Bool

-- `caps.get(i)`.
abbrev pub group? : Captures → ℕ → Option Text
group? caps i = elim (get_elem? caps i) [ none ↦ none | some g ↦ g ]

-- `caps[i]`, for a group that takes part in every match.
abbrev pub group : Captures → ℕ → Text
group caps i = elim (group? caps i) [ none ↦ List.[] | some g ↦ g ]

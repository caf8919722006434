-- ===== src/Text/Utf8.antt =====
-- Rust's `String::from_utf8` and the byte length of a text.
pub mod RoundTrip
use Prim.Native.Char.{code}
use Prim.Native.String.{String}
use raydriver.Base.{
  ℕ, zero, suc, ◌+◌, ◌-◌, ◌*◌, ◌/◌, ◌%◌, Bool, true, false, ◌&&◌, List, [], ◌∷◌, ◌++◌, Option, none,
  some, ltb, leb, ◌==◌, if◌then◌else◌, length,
}

abbrev pub Bytes : Type 0
Bytes = List ℕ

abbrev pub Text : Type 0
Text = List ℕ

-- The code points of a literal.
abbrev pub codes : String → Text
codes String.[] = []
codes (String.◌∷◌ c s) = code c ∷ codes s

-- A decoder's state: the continuation bytes still needed, the bits read so far, and the range
-- that the next byte must lie in.
pub record Decoder : Type 0 where
  pub need : ℕ
  pub bits : ℕ
  pub low : ℕ
  pub high : ℕ

abbrev pub idle : Decoder
idle = record { need = 0; bits = 0; low = 0x80; high = 0xBF }

abbrev pub lead : ℕ → ℕ → ℕ → ℕ → Option (Decoder × Option ℕ)
lead need bits low high = some (record { need = need; bits = bits; low = low; high = high }, none)

-- The first byte of a character. Leads that are too short or too long never occur; four leads
-- narrow the byte behind them, which rules out overlong forms, surrogates and what is no character.
unfoldable pub first_byte : ℕ → Option (Decoder × Option ℕ)
first_byte b =
    if ltb b 0x80
    then some (idle, some b)
    else if ltb b 0xC2
    then none
    else if ltb b 0xE0
    then lead 1 (b - 0xC0) 0x80 0xBF
    else if b == 0xE0
    then lead 2 0 0xA0 0xBF
    else if b == 0xED
    then lead 2 0xD 0x80 0x9F
    else if ltb b 0xF0
    then lead 2 (b - 0xE0) 0x80 0xBF
    else if b == 0xF0
    then lead 3 0 0x90 0xBF
    else if ltb b 0xF4
    then lead 3 (b - 0xF0) 0x80 0xBF
    else if b == 0xF4
    then lead 3 4 0x80 0x8F
    else none

unfoldable pub next_byte : Decoder → ℕ → Option (Decoder × Option ℕ)
unfolding first_byte
next_byte d b =
    if d.need == 0
    then first_byte b
    else if leb d.low b && leb b d.high
    then if d.need == 1
      then some (idle, some (d.bits * 64 + (b - 0x80)))
      else lead (d.need - 1) (d.bits * 64 + (b - 0x80)) 0x80 0xBF
    else none

abbrev pub emit : Option ℕ → Text → Text
emit none t = t
emit (some c) t = c ∷ t

-- One call at the tail, whatever the byte is.
unfoldable pub decode : Decoder → Bytes → Option Text
unfolding next_byte
decode d [] = if d.need == 0 then some [] else none
decode d (b ∷ bs) = elim (next_byte d b) [
  | none ↦ none
  | some (d', c) ↦ elim (decode d' bs) [ none ↦ none | some t ↦ some (emit c t) ]
]

unfoldable pub from_utf8 : Bytes → Option Text
unfolding decode
from_utf8 = decode idle

-- The bytes of one character.
unfoldable pub encode_char : ℕ → Bytes
encode_char c =
    if ltb c 0x80
    then c ∷ []
    else if ltb c 0x800
    then (0xC0 + c / 64) ∷ (0x80 + c % 64) ∷ []
    else if ltb c 0x10000
    then (0xE0 + c / 4096) ∷ (0x80 + c / 64 % 64) ∷ (0x80 + c % 64) ∷ []
    else (0xF0 + c / 262144) ∷ (0x80 + c / 4096 % 64) ∷ (0x80 + c / 64 % 64) ∷ (0x80 + c % 64) ∷ []

unfoldable pub as_bytes : Text → Bytes
unfolding encode_char
as_bytes [] = []
as_bytes (c ∷ t) = encode_char c ++ as_bytes t

abbrev replacement : ℕ
replacement = 0xFFFD

-- `from_utf8_lossy`: a replacement character stands for each maximal piece that is not UTF-8.
unfoldable pub decode_lossy : Decoder → Bytes → Text
unfolding next_byte first_byte
decode_lossy d [] = if d.need == 0 then [] else replacement ∷ []
decode_lossy d (b ∷ bs) = elim (next_byte d b) [
  | some (d', c) ↦ emit c (decode_lossy d' bs)
  | none ↦ elim (d.need == 0) [
    | true ↦ replacement ∷ decode_lossy idle bs
    | false ↦ elim (first_byte b) [
      | some (d', c) ↦ replacement ∷ emit c (decode_lossy d' bs)
      | none ↦ replacement ∷ replacement ∷ decode_lossy idle bs
    ]
  ]
]

unfoldable pub from_utf8_lossy : Bytes → Text
unfolding decode_lossy
from_utf8_lossy = decode_lossy idle

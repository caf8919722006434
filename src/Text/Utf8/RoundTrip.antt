-- ===== src/Text/Utf8/RoundTrip.antt =====
-- Decoding what was encoded.
use raydriver.Base.{ℕ, ◌≤◌, ◌<◌, ◌≡◌, ◌⊎◌, refl, [], ◌∷◌, ◌++◌, some, arith, All}
use raydriver.Text.Utf8.{Bytes, Text, idle, decode, from_utf8, encode_char, as_bytes}

-- A Unicode scalar value, as a `char` is.
abbrev pub IsScalar : ℕ → Type 0
IsScalar c = (c < 0xD800) ⊎ ((0xE000 ≤ c) × (c < 0x110000))

decode-encode_char :
    (c : ℕ) (bs : Bytes) {t : Text}
    → IsScalar c
    → decode idle bs ≡ some t
    → decode idle (encode_char c ++ bs) ≡ some (c ∷ t)
unfolding decode encode_char
decode-encode_char c bs h e = ground arith

pub from_utf8-as_bytes : (t : Text) → All IsScalar t → from_utf8 (as_bytes t) ≡ some t
unfolding from_utf8 as_bytes
from_utf8-as_bytes [] h = unfold decode in refl
from_utf8-as_bytes (c ∷ t) h = decode-encode_char c (as_bytes t) h.0 (from_utf8-as_bytes t h.1)

-- ===== src/Flow/Scan.antt =====
-- src/grbl/flow.rs: the searches in the byte buffer.
pub mod Sound
pub mod Corrupted
pub mod Extent
use raydriver.Base.{
  ℕ, zero, suc, ◌+◌, ◌-◌, Bool, true, false, ◌&&◌, not, List, [], ◌∷◌, ◌++◌, Option, none, some,
  ◌==◌, ltb, if◌then◌else◌, is_empty, take, drop, length,
}
use raydriver.Text.Affix.{starts_with}
use raydriver.Text.Utf8.{Bytes}

abbrev pub shift : Option ℕ → Option ℕ
shift none = none
shift (some i) = some (suc i)

-- `iter().position(|b| *b == byte)`.
unfoldable pub position : ℕ → Bytes → Option ℕ
position byte [] = none
position byte (b ∷ bs) = if b == byte then some 0 else shift (position byte bs)

-- `windows(n).position(|w| w == needle)`: a window stands at every index with `n` bytes from it on.
unfoldable pub first_window : Bytes → Bytes → Option ℕ
unfolding starts_with
first_window needle [] = none
first_window needle (b ∷ bs) =
    if starts_with needle (b ∷ bs) then some 0 else shift (first_window needle bs)

unfoldable pub find_subslice : Bytes → Bytes → Option ℕ
unfolding first_window
find_subslice haystack needle =
    if is_empty needle
    then none
    else if ltb (length haystack) (length needle)
    then none
    else first_window needle haystack

-- `while j < len && buf[j] == byte { j += 1; }`: how far the run goes, with what follows it.
unfoldable pub skip_run : ℕ → Bytes → ℕ × Bytes
skip_run byte [] = (0, [])
skip_run byte (b ∷ bs) =
    let (n, rest) = skip_run byte bs in if b == byte then (suc n, rest) else (0, b ∷ bs)

abbrev pub next_is : ℕ → Bytes → Bool
next_is byte [] = false
next_is byte (b ∷ bs) = b == byte

abbrev pub tail : Bytes → Bytes
tail [] = []
tail (b ∷ bs) = bs

-- The body of the loop at an `o`, over the bytes behind it: the length of a corrupted `ok` there.
unfoldable pub null_ok_behind : Bytes → Option ℕ
unfolding skip_run
null_ok_behind bs =
    let (nulls, at_j) = skip_run 0 bs in
    if next_is b'k' at_j && ltb 0 nulls
    then (let (returns, at_k) = skip_run b'\r' (tail at_j) in
        if next_is b'\n' at_k then some (1 + nulls + 1 + returns + 1) else none)
    else none

-- Start and end of a corrupted `ok`, as indices into the bytes from index `i` on.
unfoldable pub null_ok_from : ℕ → Bytes → Option (ℕ × ℕ)
unfolding null_ok_behind
null_ok_from i [] = none
null_ok_from i (b ∷ bs) =
    let rest = null_ok_from (i + 1) bs in
    if not (b == b'o')
    then rest
    else elim (null_ok_behind bs) [ none ↦ rest | some n ↦ some (i, i + n) ]

unfoldable pub find_null_corrupted_ok : Bytes → Option (ℕ × ℕ)
unfolding null_ok_from
find_null_corrupted_ok = null_ok_from 0

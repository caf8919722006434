-- ===== src/Flow/Scan/Extent.antt =====
-- src/grbl/flow.rs: how far a corrupted `ok` reaches, and what its last byte is.
use mathlib.Core.List.{append_assoc}
use raydriver.Base.{
  ℕ, zero, suc, ◌+◌, ◌-◌, ◌≤◌, ◌≡◌, refl, sym, ap, ◌∙◌, List, [], ◌∷◌, ◌++◌, some, arith, drop,
  length, get_elem?, replicate, length-drop, length-append, length-replicate,
}
use raydriver.Flow.Scan.{find_null_corrupted_ok}
use raydriver.Text.Utf8.{Bytes}
use raydriver.Flow.Scan.Corrupted.{NullOkBehind, IsFirstCorrupted, find_null_corrupted_ok-IsFirst}

-- It takes at least four bytes, all in the buffer.
pub find_null_corrupted_ok-bounds :
    (bs : Bytes) {start stop : ℕ}
    → find_null_corrupted_ok bs ≡ some (start, stop)
    → (start + 4 ≤ stop) × (stop ≤ length bs)
find_null_corrupted_ok-bounds bs {start} {stop} e =
    let (size, stop_is, c, _) : IsFirstCorrupted bs (some (start, stop)) =
      rw e at (find_null_corrupted_ok-IsFirst bs) in
    let behind : NullOkBehind (drop (suc start) bs) size = c.1 in
    let run : Bytes = replicate behind.returns b'\r' in
    let measured = ap length behind.shape in
    (
      omega (arith, behind.size_is),
      omega (
        arith,
        behind.size_is,
        measured,
        length-drop (suc start) bs,
        length-append {A = ℕ} (replicate (suc behind.nulls) 0)
            (b'k' ∷ (run ++ b'\n' ∷ behind.rest)),
        length-append run (b'\n' ∷ behind.rest),
        length-replicate {A = ℕ} (suc behind.nulls) 0,
        length-replicate {A = ℕ} behind.returns b'\r',
      ),
    )

pub get_elem?-newline :
    (xs rest : Bytes) (n : ℕ) → n ≡ length xs → get_elem? (xs ++ b'\n' ∷ rest) n ≡ some b'\n'
get_elem?-newline [] rest n e = rw e refl
get_elem?-newline (x ∷ xs) rest zero e = absurd (omega arith)
get_elem?-newline (x ∷ xs) rest (suc n) e = get_elem?-newline xs rest n (omega arith)

get_elem?-drop {ℓ} :
    {A : Type ℓ} (n i : ℕ) (xs : List A) → get_elem? (drop n xs) i ≡ get_elem? xs (n + i)
get_elem?-drop zero i xs = let e : 0 + i ≡ i = omega arith in rw e refl
get_elem?-drop (suc n) i [] = refl
get_elem?-drop (suc n) i (x ∷ xs) =
    let e : suc n + i ≡ suc (n + i) = omega arith in rw e (get_elem?-drop n i xs)

-- Its last byte is a newline.
pub find_null_corrupted_ok-newline :
    (bs : Bytes) {start stop : ℕ}
    → find_null_corrupted_ok bs ≡ some (start, stop)
    → get_elem? bs (stop - 1) ≡ some b'\n'
find_null_corrupted_ok-newline bs {start} {stop} e =
    let (size, stop_is, c, _) : IsFirstCorrupted bs (some (start, stop)) =
      rw e at (find_null_corrupted_ok-IsFirst bs) in
    let behind : NullOkBehind (drop (suc start) bs) size = c.1 in
    let head : Bytes = replicate (suc behind.nulls) 0 ++ b'k' ∷ replicate behind.returns b'\r' in
    let shape : drop (suc start) bs ≡ head ++ b'\n' ∷ behind.rest =
      behind.shape
      ∙ sym (
          append_assoc (replicate (suc behind.nulls) 0) (b'k' ∷ replicate behind.returns b'\r')
            (b'\n' ∷ behind.rest)) in
    let place : stop - 1 ≡ suc start + length head = omega (
      arith,
      behind.size_is,
      length-append {A = ℕ} (replicate (suc behind.nulls) 0)
          (b'k' ∷ replicate behind.returns b'\r'),
      length-replicate {A = ℕ} (suc behind.nulls) 0,
      length-replicate {A = ℕ} behind.returns b'\r',
    ) in
    ap (get_elem? bs) place
    ∙ sym (get_elem?-drop (suc start) (length head) bs)
    ∙ ap (λ t. get_elem? t (length head)) shape
    ∙ get_elem?-newline head behind.rest (length head) refl

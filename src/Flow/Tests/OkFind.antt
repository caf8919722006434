-- ===== src/Flow/Tests/OkFind.antt =====
-- A search for `ok\r*\n` that meets what the parser relies on.
use raydriver.Base.{
  ℕ, suc, ◌+◌, ◌-◌, ◌≤◌, ◌<◌, ◌≡◌, ap, ◌∙◌, inl, inr, true, [], ◌∷◌, ◌++◌, Option, none, some,
  arith, ◌==◌, if◌then◌else◌, length, length-append, length-replicate, get_elem?, replicate,
  Option-cases, Bool-cases,
}
use raydriver.Flow.Incoming.OkAck.{IsOkAckFind}
use raydriver.Flow.Scan.{skip_run, next_is, tail}
use raydriver.Flow.Scan.Corrupted.{skip_run_lem, next_is-cons}
use raydriver.Flow.Scan.Extent.{get_elem?-newline}
use raydriver.Text.Utf8.{Bytes}

-- The size of an `ok\r*\n` whose first byte stands before these.
ok_behind : Bytes → Option ℕ
unfolding skip_run
ok_behind bs =
    let (returns, at_k) = skip_run b'\r' (tail bs) in
    if next_is b'k' bs then (if next_is b'\n' at_k then some (returns + 3) else none) else none

ok_from : ℕ → Bytes → Option (ℕ × ℕ)
unfolding ok_behind
ok_from base [] = none
ok_from base (b ∷ bs) =
    let rest = ok_from (base + 1) bs in
    if b == b'o' then elim (ok_behind bs) [ none ↦ rest | some n ↦ some (base, base + n) ] else rest

unfoldable pub ok_find : Bytes → Option (ℕ × ℕ)
unfolding ok_from
ok_find = ok_from 0

record IsMatch (base : ℕ) (bs : Bytes) (i j : ℕ) : Type 0 where
  low : base ≤ i
  order : i < j
  high : j ≤ base + length bs
  last : get_elem? bs (j - 1 - base) ≡ some b'\n'

ok_behind_lem :
    (b : ℕ) (bs : Bytes) {n : ℕ}
    → ok_behind bs ≡ some n
    → (3 ≤ n) × (n ≤ suc (length bs)) × (get_elem? (b ∷ bs) (n - 1) ≡ some b'\n')
unfolding ok_behind
ok_behind_lem b bs {n} e =
    from_run (skip_run b'\r' (tail bs)).0 (skip_run b'\r' (tail bs)).1
      (skip_run_lem b'\r' (tail bs)).0 e
  where
    from_run :
        (r : ℕ) (at_k : Bytes)
        → tail bs ≡ replicate r b'\r' ++ at_k
        → (if next_is b'k' bs then (if next_is b'\n' at_k then some (r + 3) else none) else none)
          ≡ some n
        → (3 ≤ n) × (n ≤ suc (length bs)) × (get_elem? (b ∷ bs) (n - 1) ≡ some b'\n')
    from_run r at_k run h =
        let tests : (next_is b'k' bs ≡ true) × (next_is b'\n' at_k ≡ true) × (r + 3 ≡ n) =
          ground arith in
        let shape : bs ≡ b'k' ∷ (replicate r b'\r' ++ b'\n' ∷ tail at_k) =
          next_is-cons b'k' bs tests.0
          ∙ ap (◌∷◌ b'k')
              (run ∙ ap (λ t. replicate r b'\r' ++ t) (next_is-cons b'\n' at_k tests.1)) in
        let place : n - 1 ≡ suc (suc r) = omega arith in
        (
          omega arith,
          omega (
            arith,
            ap length shape,
            length-append (replicate r b'\r') (b'\n' ∷ tail at_k),
            length-replicate {A = ℕ} r b'\r',
          ),
          ap (get_elem? (b ∷ bs)) place
              ∙ ap (λ t. get_elem? t (suc r)) shape
              ∙ get_elem?-newline (replicate r b'\r') (tail at_k) r
                  (omega (arith, length-replicate {A = ℕ} r b'\r')),
        )

IsMatch-cons :
    (base b : ℕ) (bs : Bytes) {i j : ℕ} → IsMatch (base + 1) bs i j → IsMatch base (b ∷ bs) i j
IsMatch-cons base b bs {i} {j} m = record {
  low = omega (arith, m.low);
  order = m.order;
  high = omega (arith, m.high);
  last =
      let place : j - 1 - base ≡ suc (j - 1 - (base + 1)) = omega (arith, m.low, m.order) in
      rw place m.last;
}

IsMatch-here :
    (base b : ℕ) (bs : Bytes) {n : ℕ}
    → ok_behind bs ≡ some n
    → IsMatch base (b ∷ bs) base (base + n)
IsMatch-here base b bs {n} e =
    let (least, most, newline) = ok_behind_lem b bs e in
    record {
      low = omega arith;
      order = omega (arith, least);
      high = omega (arith, most);
      last = let place : base + n - 1 - base ≡ n - 1 = omega (arith, least) in rw place newline;
    }

ok_from-IsMatch :
    (base : ℕ) (bs : Bytes) {i j : ℕ} → ok_from base bs ≡ some (i, j) → IsMatch base bs i j
unfolding ok_from
ok_from-IsMatch base [] e = cc
ok_from-IsMatch base (b ∷ bs) {i} {j} e = elim (Bool-cases (b == b'o')) [
  | inr other ↦ IsMatch-cons base b bs (ok_from-IsMatch (base + 1) bs (ground arith))
  | inl o ↦ elim (Option-cases (ok_behind bs)) [
    | inl none_here ↦ IsMatch-cons base b bs (ok_from-IsMatch (base + 1) bs (ground arith))
    | inr (n, found) ↦
        let ends : (i ≡ base) × (j ≡ base + n) = ground arith in
        rw (ends.0, ends.1) (IsMatch-here base b bs found)
  ]
]

pub ok_find-IsOkAckFind : IsOkAckFind ok_find
unfolding ok_find
ok_find-IsOkAckFind = record {
  in_range = λ bs i j e. let m = ok_from-IsMatch 0 bs e in (m.order, omega (arith, m.high));
  newline = λ bs i j e.
      let m = ok_from-IsMatch 0 bs e in
      let place : j - 1 ≡ j - 1 - 0 = omega arith in rw place m.last;
}

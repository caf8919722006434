-- ===== src/Flow/Scan/Corrupted.antt =====
-- src/grbl/flow.rs: `find_null_corrupted_ok` finds the first `ok` with null bytes inside.
use raydriver.Base.{
  ℕ, zero, suc, ◌+◌, ◌<◌, ◌≡◌, inl, inr, refl, ap, ◌∙◌, true, false, ◌&&◌, [], ◌∷◌, ◌++◌, Option,
  none, some, arith, ◌==◌, ltb, if◌then◌else◌, drop, get_elem?, replicate, Option-cases, Bool-cases,
  ==_iff,
}
use raydriver.Flow.Scan.{
  skip_run, next_is, tail, null_ok_behind, null_ok_from, find_null_corrupted_ok,
}
use raydriver.Text.Utf8.{Bytes}

-- What follows the `o` of a corrupted `ok` that has `size` bytes in all: null bytes, at least one,
-- `k`, carriage returns and a newline.
pub record NullOkBehind (bs : Bytes) (size : ℕ) : Type 0 where
  pub nulls : ℕ
  pub returns : ℕ
  pub rest : Bytes
  pub shape : bs ≡ replicate (suc nulls) 0 ++ b'k' ∷ (replicate returns b'\r' ++ b'\n' ∷ rest)
  pub size_is : size ≡ nulls + returns + 4

abbrev pub CorruptedAt : Bytes → ℕ → ℕ → Type 0
CorruptedAt bs i size = (get_elem? bs i ≡ some b'o') × NullOkBehind (drop (suc i) bs) size

pub skip_run_lem :
    (byte : ℕ) (bs : Bytes)
    → (bs ≡ replicate (skip_run byte bs).0 byte ++ (skip_run byte bs).1)
      × (next_is byte (skip_run byte bs).1 ≡ false)
unfolding skip_run
skip_run_lem byte [] = (refl, refl)
skip_run_lem byte (b ∷ bs) = elim (Bool-cases (b == byte)) [
  | inl h ↦ let (shape, ends) = skip_run_lem byte bs in rw h (ground (arith, shape), ends)
  | inr h ↦ rw h (refl, h)
]

skip_run-replicate :
    (byte n : ℕ) (rest : Bytes)
    → next_is byte rest ≡ false
    → skip_run byte (replicate n byte ++ rest) ≡ (n, rest)
unfolding skip_run
skip_run-replicate byte zero [] h = refl
skip_run-replicate byte zero (b ∷ rest) h = rw h
skip_run-replicate byte (suc n) rest h =
    rw (skip_run-replicate byte n rest h, (==_iff byte byte).1 refl) refl

pub next_is-cons : (byte : ℕ) (bs : Bytes) → next_is byte bs ≡ true → bs ≡ byte ∷ tail bs
next_is-cons byte [] h = cc
next_is-cons byte (b ∷ bs) h = ground arith

-- The search behind an `o` finds what is there, with its size.
null_ok_behind_sound :
    (bs : Bytes) {size : ℕ} → null_ok_behind bs ≡ some size → NullOkBehind bs size
unfolding null_ok_behind
null_ok_behind_sound bs e = from_runs (skip_run 0 bs).0 (skip_run 0 bs).1 (skip_run_lem 0 bs).0 e
  where
    finish :
        {size : ℕ} (m : ℕ) (behind : Bytes) (k : ℕ) (at_k : Bytes)
        → bs ≡ replicate (suc m) 0 ++ b'k' ∷ behind
        → behind ≡ replicate k b'\r' ++ at_k
        → (if next_is b'\n' at_k then some (1 + suc m + 1 + k + 1) else none) ≡ some size
        → NullOkBehind bs size
    finish {size} m behind k at_k shape run h = elim (Bool-cases (next_is b'\n' at_k)) [
      | inl nl ↦ record {
        nulls = m;
        returns = k;
        rest = tail at_k;
        shape =
            shape
            ∙ ap (λ t. replicate (suc m) 0 ++ b'k' ∷ t)
                (run ∙ ap (λ t. replicate k b'\r' ++ t) (next_is-cons b'\n' at_k nl));
        size_is = ground arith;
      }
      | inr no_nl ↦ ground arith
    ]

    from_runs :
        {size : ℕ} (n : ℕ) (at_j : Bytes)
        → bs ≡ replicate n 0 ++ at_j
        → (if next_is b'k' at_j && ltb 0 n
            then (let (returns, at_k) = skip_run b'\r' (tail at_j) in
                if next_is b'\n' at_k then some (1 + n + 1 + returns + 1) else none)
            else none)
          ≡ some size
        → NullOkBehind bs size
    from_runs zero at_j shape h = ground arith
    from_runs (suc m) at_j shape h = elim (Bool-cases (next_is b'k' at_j)) [
      | inl k ↦
          finish m (tail at_j) (skip_run b'\r' (tail at_j)).0 (skip_run b'\r' (tail at_j)).1
            (shape ∙ ap (λ t. replicate (suc m) 0 ++ t) (next_is-cons b'k' at_j k))
            (skip_run_lem b'\r' (tail at_j)).0 (ground arith)
      | inr no_k ↦ ground arith
    ]

null_ok_behind-runs :
    (bs behind rest : Bytes) (m k : ℕ)
    → skip_run 0 bs ≡ (suc m, b'k' ∷ behind)
    → skip_run b'\r' behind ≡ (k, b'\n' ∷ rest)
    → null_ok_behind bs ≡ some (1 + suc m + 1 + k + 1)
unfolding null_ok_behind
null_ok_behind-runs bs behind rest m k p q = rw (p, q) (ground arith)

null_ok_behind_complete :
    (bs : Bytes) {size : ℕ} → NullOkBehind bs size → null_ok_behind bs ≡ some size
null_ok_behind_complete bs {size} f =
    let behind = replicate f.returns b'\r' ++ b'\n' ∷ f.rest in
    let total : 1 + suc f.nulls + 1 + f.returns + 1 ≡ size = omega (arith, f.size_is) in
    null_ok_behind-runs bs behind f.rest f.nulls f.returns
      (ap (skip_run 0) f.shape ∙ skip_run-replicate 0 (suc f.nulls) (b'k' ∷ behind) refl)
      (skip_run-replicate b'\r' f.returns (b'\n' ∷ f.rest) refl)
    ∙ ap some total

-- The bytes from `start` to `stop` are the first corrupted `ok`, where `bs` begins at index `base`.
record FirstFrom (base : ℕ) (bs : Bytes) (start stop : ℕ) : Type 0 where
  offset : ℕ
  size : ℕ
  start_is : start ≡ base + offset
  stop_is : stop ≡ base + offset + size
  there : CorruptedAt bs offset size
  first : (j n : ℕ) → j < offset → ¬ (CorruptedAt bs j n)

module _ (base b : ℕ) (bs : Bytes) where
  no_earlier :
      {k : ℕ}
      → ((n : ℕ) → ¬ (CorruptedAt (b ∷ bs) 0 n))
      → ((j n : ℕ) → j < k → ¬ (CorruptedAt bs j n))
      → (j n : ℕ) → j < suc k
      → ¬ (CorruptedAt (b ∷ bs) j n)
  no_earlier none_here first zero n below c = none_here n c
  no_earlier none_here first (suc j) n below c = first j n (omega arith) c

  FirstFrom-cons :
      {start stop : ℕ}
      → ((n : ℕ) → ¬ (CorruptedAt (b ∷ bs) 0 n))
      → FirstFrom (base + 1) bs start stop
      → FirstFrom base (b ∷ bs) start stop
  FirstFrom-cons none_here f = record {
    offset = suc f.offset;
    size = f.size;
    start_is = omega (arith, f.start_is);
    stop_is = omega (arith, f.stop_is);
    there = f.there;
    first = no_earlier none_here f.first;
  }

  FirstFrom-here :
      {size : ℕ}
      → (b == b'o') ≡ true
      → null_ok_behind bs ≡ some size
      → FirstFrom base (b ∷ bs) base (base + size)
  FirstFrom-here {size} o found = record {
    offset = 0;
    size = size;
    start_is = omega arith;
    stop_is = omega arith;
    there = (ground arith, null_ok_behind_sound bs found);
    first = λ j n below c. absurd (omega arith);
  }

  not_an_o : (b == b'o') ≡ false → (n : ℕ) → ¬ (CorruptedAt (b ∷ bs) 0 n)
  not_an_o h n c = ground (arith, c.0)

  nothing_behind : null_ok_behind bs ≡ none → (n : ℕ) → ¬ (CorruptedAt (b ∷ bs) 0 n)
  nothing_behind h n c = cc (h, null_ok_behind_complete bs c.1)

null_ok_from-some :
    (base : ℕ) (bs : Bytes) {start stop : ℕ}
    → null_ok_from base bs ≡ some (start, stop)
    → FirstFrom base bs start stop
unfolding null_ok_from
null_ok_from-some base [] e = cc
null_ok_from-some base (b ∷ bs) {start} {stop} e = elim (Bool-cases (b == b'o')) [
  | inr other ↦
      FirstFrom-cons base b bs (not_an_o base b bs other)
        (null_ok_from-some (base + 1) bs (ground arith))
  | inl o ↦ elim (Option-cases (null_ok_behind bs)) [
    | inl e' ↦
        FirstFrom-cons base b bs (nothing_behind base b bs e')
          (null_ok_from-some (base + 1) bs (ground arith))
    | inr (size, found) ↦
        let ends : (start ≡ base) × (stop ≡ base + size) = ground arith in
        rw (ends.0, ends.1) (FirstFrom-here base b bs o found)
  ]
]

null_ok_from-none :
    (base : ℕ) (bs : Bytes) (j n : ℕ) → null_ok_from base bs ≡ none → ¬ (CorruptedAt bs j n)
unfolding null_ok_from
null_ok_from-none base [] j n e c = cc
null_ok_from-none base (b ∷ bs) zero n e c = ground (arith, c.0, null_ok_behind_complete bs c.1)
null_ok_from-none base (b ∷ bs) (suc j) n e c = elim (Bool-cases (b == b'o')) [
  | inr other ↦ null_ok_from-none (base + 1) bs j n (ground arith) c
  | inl o ↦ elim (Option-cases (null_ok_behind bs)) [
    | inl e' ↦ null_ok_from-none (base + 1) bs j n (ground arith) c
    | inr (size, found) ↦ ground arith
  ]
]

-- The answer of the search: where the first corrupted `ok` starts and ends, or that there is none.
abbrev pub IsFirstCorrupted : Bytes → Option (ℕ × ℕ) → Type 0
IsFirstCorrupted bs none = (j n : ℕ) → ¬ (CorruptedAt bs j n)
IsFirstCorrupted bs (some (start, stop)) =
    (size : ℕ) × (stop ≡ start + size)
    × CorruptedAt bs start size
    × ((j n : ℕ) → j < start → ¬ (CorruptedAt bs j n))

first_corrupted :
    (bs : Bytes) {start stop : ℕ}
    → FirstFrom 0 bs start stop
    → IsFirstCorrupted bs (some (start, stop))
first_corrupted bs {start} f =
    let at_start : start ≡ f.offset = omega (arith, f.start_is) in
    rw at_start (f.size, omega (arith, f.start_is, f.stop_is), f.there, f.first)

-- `find_null_corrupted_ok` finds the first place where an `o` is followed by null bytes (one at
-- least), `k`, any carriage returns and a newline, ends just behind the newline, and fails only if
-- there is no such place.
pub find_null_corrupted_ok-IsFirst : (bs : Bytes) → IsFirstCorrupted bs (find_null_corrupted_ok bs)
unfolding find_null_corrupted_ok
find_null_corrupted_ok-IsFirst bs = elim (Option-cases (null_ok_from 0 bs)) [
  | inl e ↦ rw e (λ j n. null_ok_from-none 0 bs j n e)
  | inr ((start, stop), e) ↦ rw e (first_corrupted bs (null_ok_from-some 0 bs e))
]

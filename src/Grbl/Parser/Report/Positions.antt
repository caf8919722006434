-- ===== src/Grbl/Parser/Report/Positions.antt =====
-- src/grbl/parser.rs: `recalculate_positions` keeps the GRBL equations.
use Prim.Native.Nat.{max}
use raydriver.Base.{
  ℕ, zero, suc, ◌-◌, ◌≤◌, ◌≡◌, refl, ap, Bool, true, List, [], ◌∷◌, ◌++◌, Option, none, some, arith,
  length, length-append, length-replicate, replicate,
}
use raydriver.Device.{F64}
use raydriver.Grbl.Parser.Report.{pad_pos, all_known, combine, recalculate_positions}

module _ (F : F64) where
  open F use {Float, zero_point_zero, add, sub}

  abbrev Positions : Type 0
  Positions = List (Option Float)

  length-pad_pos : (p : Positions) (n : ℕ) (d : Float) → length p ≤ n → length (pad_pos F p n d) ≡ n
  unfolding pad_pos
  length-pad_pos p n d h = omega (
    arith,
    length-append p (replicate (n - length p) (some d)),
    length-replicate (n - length p) (some d),
  )

  all_known-replicate : (n : ℕ) (d : Float) → all_known F (replicate n (some d)) ≡ true
  unfolding all_known
  all_known-replicate zero d = refl
  all_known-replicate (suc n) d = all_known-replicate n d

  all_known-append :
      (p q : Positions) → all_known F p ≡ true → all_known F q ≡ true → all_known F (p ++ q) ≡ true
  unfolding all_known
  all_known-append [] q h k = k
  all_known-append (some a ∷ p) q h k = all_known-append p q h k
  all_known-append (none ∷ p) q h k = cc

  pub all_known-pad_pos :
      (p : Positions) (n : ℕ) (d : Float)
      → all_known F p ≡ true
      → all_known F (pad_pos F p n d) ≡ true
  unfolding pad_pos
  all_known-pad_pos p n d h =
      all_known-append p (replicate (n - length p) (some d)) h
        (all_known-replicate (n - length p) d)

  pub all_known-combine :
      (op : Float → Float → Float) (p q : Positions) → all_known F (combine F op p q) ≡ true
  unfolding all_known combine
  all_known-combine op [] q = refl
  all_known-combine op (none ∷ p) q = refl
  all_known-combine op (some a ∷ p) [] = refl
  all_known-combine op (some a ∷ p) (none ∷ q) = refl
  all_known-combine op (some a ∷ p) (some b ∷ q) = all_known-combine op p q

  length-combine :
      (op : Float → Float → Float) (p q : Positions)
      → all_known F p ≡ true
      → all_known F q ≡ true
      → length p ≡ length q
      → length (combine F op p q) ≡ length p
  unfolding all_known combine
  length-combine op [] q h k e = refl
  length-combine op (none ∷ p) q h k e = cc
  length-combine op (some a ∷ p) [] h k e = absurd (omega arith)
  length-combine op (some a ∷ p) (none ∷ q) h k e = cc
  length-combine op (some a ∷ p) (some b ∷ q) h k e =
      ap suc (length-combine op p q h k (omega arith))

  module _ (machine_pos work_pos wco : Positions) where
    abbrev pub axes : ℕ
    axes = max (max (max (length machine_pos) (length work_pos)) (length wco)) 3

    -- Whatever was found and known, the three vectors come back with one length, which is that of
    -- the longest and 3 at least.
    pub recalculate_positions-length :
        (mpos_found wpos_found wco_found : Bool) {m w c : Positions}
        → recalculate_positions F machine_pos work_pos wco mpos_found wpos_found wco_found
          ≡ (m, w, c)
        → (length m ≡ axes) × (length w ≡ axes) × (length c ≡ axes)
    unfolding recalculate_positions
    recalculate_positions-length mpos_found wpos_found wco_found {m} {w} {c} e =
        let m' = pad_pos F machine_pos axes zero_point_zero in
        let w' = pad_pos F work_pos axes zero_point_zero in
        let c' = pad_pos F wco axes zero_point_zero in
        let inferred = combine F sub m' w' in
        ground (
          arith,
          length-pad_pos machine_pos axes zero_point_zero (omega arith),
          length-pad_pos work_pos axes zero_point_zero (omega arith),
          length-pad_pos wco axes zero_point_zero (omega arith),
          length-combine sub m' w',
          length-combine sub m' inferred,
          length-combine sub m' c',
          length-combine add w' inferred,
          length-combine add w' c',
        )

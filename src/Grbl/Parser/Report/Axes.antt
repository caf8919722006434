-- ===== src/Grbl/Parser/Report/Axes.antt =====
-- src/grbl/parser.rs: `recalculate_positions`, axis by axis.
use raydriver.Base.{
  ℕ, zero, suc, ◌+◌, ◌-◌, ◌<◌, ◌≡◌, get_elem?, refl, ap, Bool, true, false, List, [], ◌∷◌, ◌++◌,
  Option, none, some, arith, length, replicate,
}
use raydriver.Device.{F64}
use raydriver.Grbl.Parser.Report.{pad_pos, all_known, combine, recalculate_positions}
use raydriver.Grbl.Parser.Report.Positions.{all_known-pad_pos, all_known-combine, axes}

module _ (F : F64) where
  open F use {Float, zero_point_zero, add, sub}

  abbrev Positions : Type 0
  Positions = List (Option Float)

  -- The value on an axis, 0 on one that a vector does not have.
  abbrev value : Option (Option Float) → Float
  value none = zero_point_zero
  value (some none) = zero_point_zero
  value (some (some x)) = x

  abbrev pub on_axis : Positions → ℕ → Float
  on_axis p k = value (get_elem? p k)

  replicate-at : (n k : ℕ) (x : Float) → k < n → get_elem? (replicate n (some x)) k ≡ some (some x)
  replicate-at zero k x h = absurd (omega arith)
  replicate-at (suc n) zero x h = refl
  replicate-at (suc n) (suc k) x h = replicate-at n k x (omega arith)

  padded-at :
      (p : Positions) (more k : ℕ)
      → all_known F p ≡ true
      → k < length p + more
      → get_elem? (p ++ replicate more (some zero_point_zero)) k ≡ some (some (on_axis p k))
  unfolding all_known
  padded-at [] more k known h = replicate-at more k zero_point_zero (omega arith)
  padded-at (none ∷ p) more k known h = cc
  padded-at (some x ∷ p) more zero known h = refl
  padded-at (some x ∷ p) more (suc k) known h = padded-at p more k known (omega arith)

  pad_pos-at :
      (p : Positions) (n k : ℕ)
      → all_known F p ≡ true
      → k < n
      → get_elem? (pad_pos F p n zero_point_zero) k ≡ some (some (on_axis p k))
  unfolding pad_pos
  pad_pos-at p n k known h = padded-at p (n - length p) k known (omega arith)

  combine-at :
      (op : Float → Float → Float) (p q : Positions) (k : ℕ) {a b : Float}
      → all_known F p ≡ true
      → all_known F q ≡ true
      → get_elem? p k ≡ some (some a)
      → get_elem? q k ≡ some (some b)
      → get_elem? (combine F op p q) k ≡ some (some (op a b))
  unfolding all_known combine
  combine-at op [] q k known known_q e d = cc
  combine-at op (none ∷ p) q k known known_q e d = cc
  combine-at op (some x ∷ p) [] k known known_q e d = cc
  combine-at op (some x ∷ p) (none ∷ q) k known known_q e d = cc
  combine-at op (some x ∷ p) (some y ∷ q) zero known known_q e d =
      let x_is : x ≡ _ = cc e in
      let y_is : y ≡ _ = cc d in ap (λ v. some (some v)) (λ i. op (x_is i) (y_is i))
  combine-at op (some x ∷ p) (some y ∷ q) (suc k) known known_q e d =
      combine-at op p q k known known_q e d

  -- One axis: what a report makes of its machine position, work position and offset. A machine
  -- position decides; the offset that is missing beside both positions is their difference. A work
  -- position alone is moved by the offset.
  abbrev pub resolve : Bool → Bool → Bool → Float → Float → Float → Float × Float × Float
  resolve true true false m w c = (m, sub m (sub m w), sub m w)
  resolve true true true m w c = (m, sub m c, c)
  resolve true false wco_found m w c = (m, sub m c, c)
  resolve false true wco_found m w c = (add w c, w, c)
  resolve false false wco_found m w c = (m, w, c)

  -- The vectors have these values on an axis.
  abbrev pub IsAt : ℕ → Positions × Positions × Positions → Float × Float × Float → Type 0
  IsAt k (m, w, c) (x, y, z) =
      (get_elem? m k ≡ some (some x))
      × (get_elem? w k ≡ some (some y))
      × (get_elem? c k ≡ some (some z))

  module _ (machine_pos work_pos wco : Positions) where
    abbrev count : ℕ
    count = axes F machine_pos work_pos wco

    abbrev padded : Positions → Positions
    padded p = pad_pos F p count zero_point_zero

    abbrev inferred : Positions
    inferred = combine F sub (padded machine_pos) (padded work_pos)

    inferred_known : all_known F inferred ≡ true
    inferred_known = all_known-combine F sub (padded machine_pos) (padded work_pos)

    module _ (k : ℕ) (known_m : all_known F machine_pos ≡ true)
        (known_w : all_known F work_pos ≡ true) (known_c : all_known F wco ≡ true)
        (below : k < count) where
      m_known : all_known F (padded machine_pos) ≡ true
      m_known = all_known-pad_pos F machine_pos count zero_point_zero known_m

      w_known : all_known F (padded work_pos) ≡ true
      w_known = all_known-pad_pos F work_pos count zero_point_zero known_w

      c_known : all_known F (padded wco) ≡ true
      c_known = all_known-pad_pos F wco count zero_point_zero known_c

      m_at : get_elem? (padded machine_pos) k ≡ some (some (on_axis machine_pos k))
      m_at = pad_pos-at machine_pos count k known_m below

      w_at : get_elem? (padded work_pos) k ≡ some (some (on_axis work_pos k))
      w_at = pad_pos-at work_pos count k known_w below

      c_at : get_elem? (padded wco) k ≡ some (some (on_axis wco k))
      c_at = pad_pos-at wco count k known_c below

      inferred_at :
          get_elem? inferred k ≡ some (some (sub (on_axis machine_pos k) (on_axis work_pos k)))
      inferred_at =
          combine-at sub (padded machine_pos) (padded work_pos) k m_known w_known m_at w_at

      -- The branches of a report with a machine position.
      from_machine :
          (wpos_found wco_found : Bool)
          → IsAt k (recalculate_positions F machine_pos work_pos wco true wpos_found wco_found) (
              resolve true wpos_found wco_found
                (on_axis machine_pos k)
                (on_axis work_pos k)
                (on_axis wco k))
      unfolding recalculate_positions
      from_machine true false =
          rw (m_known, w_known, inferred_known)
            (
              m_at,
              combine-at sub (padded machine_pos) inferred k m_known inferred_known m_at
                  inferred_at,
              inferred_at,
            )
      from_machine true true =
          rw (m_known, c_known)
            (
              m_at,
              combine-at sub (padded machine_pos) (padded wco) k m_known c_known m_at c_at,
              c_at,
            )
      from_machine false wco_found =
          rw (m_known, c_known)
            (
              m_at,
              combine-at sub (padded machine_pos) (padded wco) k m_known c_known m_at c_at,
              c_at,
            )

      -- With known positions and offsets, whatever was found: on each axis the three vectors have what
      -- the axis alone makes of its values, where a value that a shorter vector does not have is 0.
      pub recalculate_positions-resolve :
          (mpos_found wpos_found wco_found : Bool)
          → IsAt k
              (recalculate_positions F machine_pos work_pos wco mpos_found wpos_found wco_found)
              (resolve mpos_found wpos_found wco_found
                (on_axis machine_pos k)
                (on_axis work_pos k)
                (on_axis wco k))
      unfolding recalculate_positions
      recalculate_positions-resolve true wpos_found wco_found = from_machine wpos_found wco_found
      recalculate_positions-resolve false true wco_found =
          rw (w_known, c_known)
            (combine-at add (padded work_pos) (padded wco) k w_known c_known w_at c_at, w_at, c_at)
      recalculate_positions-resolve false false wco_found = (m_at, w_at, c_at)

-- ===== src/Grbl/Session/Receive/Span.antt =====
-- src/grbl/session.rs: the ranges of operations that `handle_ok` reports.
use raydriver.Base.{ℕ, zero, suc, ◌+◌, ◌≡◌, refl, sym, ap, ◌∙◌, ◌∷◌, ◌++◌, arith}
use raydriver.Base.Int.{ℤ, pos, negsuc, pos_part, neg_part, ◌≤ℤ◌, eq_of_parts}
use raydriver.Grbl.Session.Receive.{successor, count_up, span}

-- The number that lies `n` behind `a`.
abbrev advance : ℕ → ℤ → ℤ
advance zero a = a
advance (suc n) a = advance n (successor a)

successor_parts :
    (a : ℤ) → pos_part (successor a) + neg_part a ≡ neg_part (successor a) + pos_part a + 1
successor_parts (pos n) = omega arith
successor_parts (negsuc zero) = omega arith
successor_parts (negsuc (suc n)) = omega arith

advance_parts :
    (n : ℕ) (a : ℤ) → pos_part (advance n a) + neg_part a ≡ neg_part (advance n a) + pos_part a + n
advance_parts zero a = omega arith
advance_parts (suc n) a = omega (arith, advance_parts n (successor a), successor_parts a)

advance-span : (last op_index : ℤ) → last ≤ℤ op_index → advance (span last op_index) last ≡ op_index
advance-span last op_index le =
    eq_of_parts (advance (span last op_index) last) op_index
      (omega (arith, le, advance_parts (span last op_index) last))

span-add : (a b c : ℤ) → a ≤ℤ b → b ≤ℤ c → span a c ≡ span a b + span b c
span-add a b c le le' = omega (arith, le, le')

successor-advance : (n : ℕ) (a : ℤ) → successor (advance n a) ≡ advance n (successor a)
successor-advance zero a = refl
successor-advance (suc n) a = successor-advance n (successor a)

count_up-append : (m n : ℕ) (a : ℤ) → count_up a (m + n) ≡ count_up a m ++ count_up (advance m a) n
unfolding count_up
count_up-append zero n a = let e : 0 + n ≡ n = omega arith in rw e refl
count_up-append (suc m) n a =
    let e : suc m + n ≡ suc (m + n) = omega arith in
    rw e (ap (◌∷◌ a) (count_up-append m n (successor a)))

-- The operations behind `a` up to `c` are those up to `b` and those behind it.
pub count_up-span :
    (a b c : ℤ)
    → a ≤ℤ b
    → b ≤ℤ c
    → count_up (successor a) (span a c)
      ≡ count_up (successor a) (span a b) ++ count_up (successor b) (span b c)
count_up-span a b c le le' =
    let there : advance (span a b) (successor a) ≡ successor b =
      sym (successor-advance (span a b) a) ∙ ap successor (advance-span a b le) in
    rw (span-add a b c le le', count_up-append (span a b) (span b c) (successor a), there) refl

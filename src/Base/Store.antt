-- ===== src/Base/Store.antt =====
-- Shared objects: an `Arc` is an index into the list of all objects made so far, and a mutation
-- through one of them is seen through all.
use Prim.Native.Nat.{ℕ, zero, suc, ◌<◌}
use native.Mathlib.Omega.{arith}
use mathlib.Core.Path.{◌≡◌, refl, ap}
use mathlib.Core.List.{List, [], ◌∷◌, ◌++◌}
use mathlib.Core.Logic.{◌≢◌}
use mathlib.Core.Option.{Option, none, some}
use raydriver.Base.Lists.{length, get_elem?}

module _ {ℓ} {A : Type ℓ} where
  abbrev pub modify : ℕ → (A → A) → List A → List A
  modify i f [] = []
  modify zero f (x ∷ xs) = f x ∷ xs
  modify (suc i) f (x ∷ xs) = x ∷ modify i f xs

  -- What is read through the index behind a mutation.
  pub get_elem?-modify :
      (i : ℕ) (f : A → A) (xs : List A) {x : A}
      → get_elem? xs i ≡ some x
      → get_elem? (modify i f xs) i ≡ some (f x)
  get_elem?-modify i f [] h = ground (arith, h)
  get_elem?-modify zero f (y ∷ xs) h = ground (arith, h)
  get_elem?-modify (suc i) f (y ∷ xs) h = get_elem?-modify i f xs h

  -- The object that was made last.
  pub get_elem?-last : (xs : List A) (x : A) → get_elem? (xs ++ x ∷ []) (length xs) ≡ some x
  get_elem?-last [] x = refl
  get_elem?-last (y ∷ xs) x = get_elem?-last xs x

  pub modify-none : (i : ℕ) (f : A → A) (xs : List A) → get_elem? xs i ≡ none → modify i f xs ≡ xs
  modify-none i f [] h = refl
  modify-none zero f (y ∷ xs) h = ground (arith, h)
  modify-none (suc i) f (y ∷ xs) h = ap (◌∷◌ y) (modify-none i f xs h)

  pub modify-modify :
      (i : ℕ) (f g : A → A) (xs : List A) → modify i g (modify i f xs) ≡ modify i (λ x. g (f x)) xs
  modify-modify i f g [] = refl
  modify-modify zero f g (y ∷ xs) = refl
  modify-modify (suc i) f g (y ∷ xs) = ap (◌∷◌ y) (modify-modify i f g xs)

  -- Mutations that do the same to the object do the same.
  pub modify-same :
      (i : ℕ) (f g : A → A) (xs : List A) (x : A)
      → get_elem? xs i ≡ some x
      → f x ≡ g x
      → modify i f xs ≡ modify i g xs
  modify-same i f g [] x h e = refl
  modify-same zero f g (y ∷ xs) x h e =
      let y_is : y ≡ x = ground (arith, h) in rw y_is (ap (λ z. z ∷ xs) e)
  modify-same (suc i) f g (y ∷ xs) x h e = ap (◌∷◌ y) (modify-same i f g xs x h e)

  pub modify-identity : (i : ℕ) (xs : List A) → modify i (λ x. x) xs ≡ xs
  modify-identity i [] = refl
  modify-identity zero (y ∷ xs) = refl
  modify-identity (suc i) (y ∷ xs) = ap (◌∷◌ y) (modify-identity i xs)

  pub length-modify : (i : ℕ) (f : A → A) (xs : List A) → length (modify i f xs) ≡ length xs
  length-modify i f [] = refl
  length-modify zero f (y ∷ xs) = refl
  length-modify (suc i) f (y ∷ xs) = ap suc (length-modify i f xs)

  -- A change through an index that may be out of range.
  abbrev pub through : (A → A) → Option A → Option A
  through f none = none
  through f (some x) = some (f x)

  pub get_elem?-modify-through :
      (i : ℕ) (f : A → A) (xs : List A) → get_elem? (modify i f xs) i ≡ through f (get_elem? xs i)
  get_elem?-modify-through i f [] = refl
  get_elem?-modify-through zero f (y ∷ xs) = refl
  get_elem?-modify-through (suc i) f (y ∷ xs) = get_elem?-modify-through i f xs

  pub get_elem?-modify-other :
      (i k : ℕ) (f : A → A) (xs : List A) → k ≢ i → get_elem? (modify i f xs) k ≡ get_elem? xs k
  get_elem?-modify-other i k f [] differ = refl
  get_elem?-modify-other zero zero f (y ∷ xs) differ = absurd (differ refl)
  get_elem?-modify-other zero (suc k) f (y ∷ xs) differ = refl
  get_elem?-modify-other (suc i) zero f (y ∷ xs) differ = refl
  get_elem?-modify-other (suc i) (suc k) f (y ∷ xs) differ =
      get_elem?-modify-other i k f xs (λ e. differ (ap suc e))

  -- An object stays where it is when one is made, and the new one is another.
  pub get_elem?-kept :
      (xs ys : List A) (i : ℕ) {x : A} → get_elem? xs i ≡ some x → get_elem? (xs ++ ys) i ≡ some x
  get_elem?-kept [] ys i e = cc
  get_elem?-kept (y ∷ xs) ys zero e = e
  get_elem?-kept (y ∷ xs) ys (suc i) e = get_elem?-kept xs ys i e

  pub get_elem?-below : (xs : List A) (i : ℕ) {x : A} → get_elem? xs i ≡ some x → i < length xs
  get_elem?-below [] i e = cc
  get_elem?-below (y ∷ xs) zero e = omega arith
  get_elem?-below (y ∷ xs) (suc i) e = let h = get_elem?-below xs i e in omega arith

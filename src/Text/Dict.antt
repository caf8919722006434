-- ===== src/Text/Dict.antt =====
-- A map from texts, as a `HashMap` is used: an association list without repetition of keys.
use raydriver.Base.{◌≡◌, ◌↔◌, refl, true, List, [], ◌∷◌, Option, none, some, arith, if◌then◌else◌}
use raydriver.Text.Affix.{equal}
use raydriver.Text.Utf8.{Text}

equal_sound : (s t : Text) → equal s t ≡ true → s ≡ t
unfolding equal
equal_sound [] [] h = refl
equal_sound [] (c ∷ t) h = cc
equal_sound (a ∷ s) [] h = cc
equal_sound (a ∷ s) (c ∷ t) h = ground (arith, equal_sound s t)

pub equal_self : (s : Text) → equal s s ≡ true
unfolding equal
equal_self [] = refl
equal_self (a ∷ s) = ground (arith, equal_self s)

pub equal_iff : (s t : Text) → (equal s t ≡ true) ↔ (s ≡ t)
equal_iff s t = (equal_sound s t, λ e. rw e (equal_self t))

module _ {ℓ} {V : Type ℓ} where
  unfoldable pub lookup : Text → List (Text × V) → Option V
  unfolding equal
  lookup k [] = none
  lookup k ((j, v) ∷ m) = if equal j k then some v else lookup k m

  unfoldable pub insert : Text → V → List (Text × V) → List (Text × V)
  unfolding equal
  insert k v [] = (k, v) ∷ []
  insert k v ((j, w) ∷ m) = if equal j k then (k, v) ∷ m else (j, w) ∷ insert k v m

  pub lookup-insert :
      (k j : Text) (v : V) (m : List (Text × V))
      → lookup j (insert k v m) ≡ (if equal k j then some v else lookup j m)
  unfolding lookup insert
  lookup-insert k j v [] = refl
  lookup-insert k j v ((i, w) ∷ m) =
      ground (arith, equal_iff k j, equal_iff i k, equal_iff i j, lookup-insert k j v m)

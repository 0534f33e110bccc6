-- ===== src/Base/Map.antt =====
-- A Go map with `int32` keys, as an association list with each key at most once.
use mathlib.Core.Path.{◌≡◌, refl}
use mathlib.Core.List.{List, [], ◌∷◌}
use mathlib.Core.Option.{Option, none, some}
use native.Mathlib.Omega.{arith}
use go_libvirt.Base.Tests.{if◌then◌else◌}
use go_libvirt.Base.Int.{ℤ, ◌==ℤ◌, ==ℤ_iff}

module _ {ℓ} {V : Type ℓ} where
  unfoldable pub lookup : ℤ → List (ℤ × V) → Option V
  lookup k [] = none
  lookup k ((j, v) ∷ m) = if j ==ℤ k then some v else lookup k m

  -- `m[k] = v`.
  unfoldable pub insert : ℤ → V → List (ℤ × V) → List (ℤ × V)
  insert k v [] = (k, v) ∷ []
  insert k v ((j, w) ∷ m) = if j ==ℤ k then (k, v) ∷ m else (j, w) ∷ insert k v m

  -- `delete(m, k)`.
  unfoldable pub delete : ℤ → List (ℤ × V) → List (ℤ × V)
  delete k [] = []
  delete k ((j, v) ∷ m) = let rest = delete k m in if j ==ℤ k then rest else (j, v) ∷ rest

  pub lookup-insert :
      (k j : ℤ) (v : V) (m : List (ℤ × V))
      → lookup j (insert k v m) ≡ (if k ==ℤ j then some v else lookup j m)
  unfolding lookup insert
  lookup-insert k j v [] = refl
  lookup-insert k j v ((i, w) ∷ m) =
      ground (arith, ==ℤ_iff k j, ==ℤ_iff i k, ==ℤ_iff i j, lookup-insert k j v m)

  pub lookup-delete :
      (k j : ℤ) (m : List (ℤ × V)) → lookup j (delete k m) ≡ (if k ==ℤ j then none else lookup j m)
  unfolding lookup delete
  lookup-delete k j [] = ground arith
  lookup-delete k j ((i, w) ∷ m) =
      ground (arith, ==ℤ_iff k j, ==ℤ_iff i k, ==ℤ_iff i j, lookup-delete k j m)

  pub lookup-nil : (k : ℤ) → lookup k [] ≡ none
  unfolding lookup
  lookup-nil k = refl

  pub lookup-cons :
      (k j : ℤ) (v : V) (m : List (ℤ × V))
      → lookup j ((k, v) ∷ m) ≡ (if k ==ℤ j then some v else lookup j m)
  unfolding lookup
  lookup-cons k j v m = refl

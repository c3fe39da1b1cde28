-- ===== src/Prelude/Assoc.antt =====
-- A Go map as an association list: `m[k]`, `m[k] = v` and `delete(m, k)`.
use mathlib.Core.Path.{◌≡◌, refl}
use mathlib.Core.Option.{Option, none, some}
use mathlib.Core.List.{List, [], ◌∷◌, map}
use native.Mathlib.Omega.{arith}
use Prim.Native.Nat.{◌+◌, ◌≤◌}
use kratos_demo.Prelude.Lists.{length}
use kratos_demo.Prelude.Tests.{Comparable, ◌==◌, eq_self, if◌then◌else◌}

abbrev pub Map {ℓ κ} : Type ℓ → Type κ → Type (ℓ ⊔ κ)
Map K V = List (K × V)

module _ {ℓ κ} {K : Type ℓ} {V : Type κ} where
  abbrev pub keys : Map K V → List K
  keys = map (λ p. p.0)

  abbrev pub values : Map K V → List V
  values = map (λ p. p.1)

module _ {ℓ κ} {K : Type ℓ} {V : Type κ} ⦃c : Comparable K⦄ where
  unfoldable pub lookup : K → Map K V → Option V
  lookup k [] = none
  lookup k (entry ∷ m) = if entry.0 == k then some entry.1 else lookup k m

  unfoldable pub insert : K → V → Map K V → Map K V
  insert k v [] = (k, v) ∷ []
  insert k v (entry ∷ m) = if entry.0 == k then (k, v) ∷ m else entry ∷ insert k v m

  unfoldable pub delete : K → Map K V → Map K V
  delete k [] = []
  delete k (entry ∷ m) = if entry.0 == k then delete k m else entry ∷ delete k m

  -- What is read at `asked` after a write at `k`.
  pub lookup-insert :
      (k asked : K) (v : V) (m : Map K V)
      → lookup asked (insert k v m) ≡ (if k == asked then some v else lookup asked m)
  unfolding insert lookup
  lookup-insert k asked v ((i, w) ∷ m) =
      let rest = lookup-insert k asked v m in
      ground (arith, rest, c.same_iff i asked, c.same_iff i k, c.same_iff k asked)
  lookup-insert k asked v [] = refl

  pub lookup-delete :
      (k j : K) (m : Map K V) → lookup j (delete k m) ≡ (if k == j then none else lookup j m)
  unfolding lookup delete
  lookup-delete k j [] = ground arith
  lookup-delete k j ((i, w) ∷ m) =
      ground (arith, c.same_iff k j, c.same_iff i k, c.same_iff i j, lookup-delete k j m)

  pub lookup-insert_self : (k : K) (v : V) (m : Map K V) → lookup k (insert k v m) ≡ some v
  lookup-insert_self k v m = rw (lookup-insert, eq_self k)

  pub lookup-delete_self : (k : K) (m : Map K V) → lookup k (delete k m) ≡ none
  lookup-delete_self k m = rw (lookup-delete, eq_self k)

  pub length-insert : (k : K) (v : V) (m : Map K V) → length (insert k v m) ≤ length m + 1
  unfolding insert
  length-insert k v [] = omega arith
  length-insert k v ((i, w) ∷ m) = ground (arith, length-insert k v m)

  length-delete_le : (k : K) (m : Map K V) → length (delete k m) ≤ length m
  unfolding delete
  length-delete_le k [] = omega arith
  length-delete_le k ((i, w) ∷ m) = ground (arith, length-delete_le k m)

  -- To delete a key that is there makes the map smaller.
  pub length-delete :
      (k : K) (v : V) (m : Map K V) → lookup k m ≡ some v → length (delete k m) + 1 ≤ length m
  unfolding lookup delete
  length-delete k v [] h = cc
  length-delete k v ((i, w) ∷ m) h = ground (arith, length-delete k v m, length-delete_le k m)

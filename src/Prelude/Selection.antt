-- ===== src/Prelude/Selection.antt =====
-- The entries that a test selects from a list.
use mathlib.Core.Path.{◌≡◌, refl, sym, subst}
use mathlib.Core.Logic.{◌↔◌, ◌⊎◌, inl, inr}
use mathlib.Core.Bool.{Bool, true, false}
use mathlib.Core.List.{List, [], ◌∷◌}
use kratos_demo.Prelude.Tests.{if◌then◌else◌}
use kratos_demo.Prelude.Lists.{In}

module _ {D : Type 0} where
  pub In-if :
      (b : Bool) (x y : D) (r : List D)
      → In x (if b then y ∷ r else r)
      → ((b ≡ true) × (x ≡ y)) ⊎ In x r
  In-if true x y r (inl p) = inl (refl, p)
  In-if true x y r (inr i) = inr i
  In-if false x y r i = inr i

  pub if-In :
      (b : Bool) (x y : D) (r : List D)
      → ((b ≡ true) × (x ≡ y)) ⊎ In x r
      → In x (if b then y ∷ r else r)
  if-In true x y r (inl (e, p)) = inl p
  if-In false x y r (inl (e, p)) = cc
  if-In true x y r (inr i) = inr i
  if-In false x y r (inr i) = i

module _ {D : Type 0} (matches : D → Bool) where
  unfoldable pub select : List D → List D
  select [] = []
  select (x ∷ xs) = if matches x then x ∷ select xs else select xs

  module _ (Selects : D → Type 0) (decides : (x : D) → (matches x ≡ true) ↔ Selects x) where
    pub In-select : (s : List D) (x : D) → In x (select s) → Selects x × In x s
    unfolding select
    In-select [] x h = absurd h
    In-select (y ∷ s) x h = elim (In-if (matches y) x y (select s) h) [
      | inl (e, p) ↦ (subst Selects (sym p) ((decides y).0 e), inl p)
      | inr i ↦ let (o, j) = In-select s x i in (o, inr j)
    ]

    pub select-In : (s : List D) (x : D) → Selects x → In x s → In x (select s)
    unfolding select
    select-In [] x o h = absurd h
    select-In (y ∷ s) x o h = if-In (matches y) x y (select s) (elim h [
      | inl p ↦ inl ((decides y).1 (subst Selects p o), p)
      | inr i ↦ inr (select-In s x o i)
    ])

-- ===== src/Prelude/Distinct.antt =====
-- Lists of texts in which none stands twice, by evaluation.
use kratos_demo.Prelude.Lists.{In, IsDistinct}
use kratos_demo.Prelude.Tests.{if◌then◌else◌, ◌==◌, string_comparable, Bool-cases}
use Prim.Native.String.{String}
use mathlib.Core.Path.{◌≡◌}
use mathlib.Core.Logic.{inl, inr}
use mathlib.Core.Bool.{Bool, true, false}
use mathlib.Core.List.{List, [], ◌∷◌}
use native.Mathlib.Omega.{arith}
use text.Mathlib.TextEquality.{eq_iff}

abbrev has : String → List String → Bool
has x [] = false
has x (y ∷ ys) = if x == y then true else has x ys

has-not_In : (x : String) (ys : List String) → has x ys ≡ false → In x ys → ⊥
has-not_In x [] h i = absurd i
has-not_In x (y ∷ ys) h i = elim (Bool-cases (x == y)) [
  | inl e ↦ absurd (ground (arith, e, h))
  | inr e ↦ elim i [
    | inl k ↦ absurd (ground (arith, e, (eq_iff x y).1 k))
    | inr j ↦ has-not_In x ys (ground (arith, e, h)) j
  ]
]

abbrev pub all_distinct : List String → Bool
all_distinct [] = true
all_distinct (x ∷ xs) = if has x xs then false else all_distinct xs

pub all_distinct-IsDistinct : (xs : List String) → all_distinct xs ≡ true → IsDistinct xs
all_distinct-IsDistinct [] h = tt
all_distinct-IsDistinct (x ∷ xs) h = elim (Bool-cases (has x xs)) [
  | inl e ↦ absurd (ground (arith, e, h))
  | inr e ↦ (has-not_In x xs e, all_distinct-IsDistinct xs (ground (arith, e, h)))
]

-- ===== src/Generics/Tests.antt =====
-- The generic functions on the values of `main`, and their theorems there.
use kratos_demo.Prelude.{
  true, false, ℕ, ◌+◌, ◌-◌, ◌^◌, ◌≡◌, ◌↔◌, refl, List, [], ◌∷◌, String, arith, ltb, ok,
  nat_comparable,
}
use kratos_demo.Prelude.Int.{pos, negsuc, ◌+ℤ◌}
use kratos_demo.Generics.Slices.{filter, map1, reduce}
use kratos_demo.Generics.Sums.{int, bits32, IsInt, wrap, add, add_t, add_t-IsInt}
use kratos_demo.Generics.TypeSets.{
  GoType, basic, defined, int as go_int, my_int, com3_impl, GoType-discrete, same,
}
use kratos_demo.Generics.TypeSets.Constraints.{
  satisfies, int_excep_int8, int_tilde, common_interface2, com3,
}
use kratos_demo.Generics.TypeSets.Sets.{type_sets}
use kratos_demo.Generics.DemoStruct.{Call, call_set, call_del, call_get, call_exists}

main_filters : filter (1 ∷ 2 ∷ 3 ∷ 4 ∷ 5 ∷ 67 ∷ 7 ∷ []) (λ i. ltb 3 i) ≡ 4 ∷ 5 ∷ 67 ∷ 7 ∷ []
unfolding filter
main_filters = refl

main_maps : map1 {D = ℕ} (1 ∷ 23 ∷ 4 ∷ []) [] (λ i. i + 6) ≡ 7 ∷ 29 ∷ 10 ∷ []
unfolding map1
main_maps = refl

main_reduces : reduce {E = String} (1 ∷ 23 ∷ 4 ∷ []) (λ i v. i + 6) ≡ ok 7
unfolding reduce
main_reduces = refl

overflows : add (pos (2 ^ 63 - 1)) (pos 1) ≡ negsuc (2 ^ 63 - 1)
unfolding add wrap ◌+ℤ◌
overflows = refl

add_t-IsInt_example :
    IsInt (2 ^ 31) (add_t ℕ ◌+◌ (int bits32) (pos (2 ^ 31 - 1)) (negsuc 0))
    × ((add_t ℕ ◌+◌ (int bits32) (pos (2 ^ 31 - 1)) (negsuc 0) ≡ pos (2 ^ 31 - 1) +ℤ negsuc 0)
        ↔ IsInt (2 ^ 31) (pos (2 ^ 31 - 1) +ℤ negsuc 0))
add_t-IsInt_example =
    add_t-IsInt ℕ ◌+◌ bits32 (pos (2 ^ 31 - 1)) (negsuc 0) (omega arith) (omega arith)

-- The texts of `main`, as numbers; the zero value is 0.
abbrev calls : List (Call ℕ ℕ)
calls =
    call_set 1 101
    ∷ call_set 2 102
    ∷ call_set 1 103
    ∷ call_get 1
    ∷ call_del 2
    ∷ call_exists 2
    ∷ call_get 2
    ∷ []

type_sets_example :
    ((satisfies (defined com3_impl) int_excep_int8 ≡ true) ↔ (defined com3_impl ≡ basic go_int))
    × (satisfies (defined com3_impl) common_interface2 ≡ false)
    × ((u : GoType) → satisfies (defined com3_impl) (com3 u) ≡ false)
type_sets_example = type_sets (defined com3_impl)

-- A defined type over int, in Int.
my_int_satisfies : satisfies (defined my_int) int_tilde ≡ true
unfolding satisfies same GoType-discrete
my_int_satisfies = refl

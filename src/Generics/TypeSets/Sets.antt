-- ===== src/Generics/TypeSets/Sets.antt =====
-- The type sets of cmd/fanxing/fanxing.go's constraints.
use kratos_demo.Prelude.{
  ◌≡◌, ◌↔◌, refl, ◌⊎◌, Bool, true, false, ◌&&◌, ◌||◌, string_comparable, arith,
}
use kratos_demo.Generics.TypeSets.{
  Basic, int, string, float32, Defined, GoType, basic, struct_data, struct_empty, pointer, defined,
  same, same-eq_iff, GoType-discrete, my_int, basic_interface2_impl, basic_interface2_impl2,
  basic_interface2_impl3, common_interface2_impl, common_interface2_impl2, common_interface2_impl3,
  com3_impl, com3_impl1, com3_impl2,
}
use kratos_demo.Generics.TypeSets.Constraints.{
  satisfies, int_excep_int8, int_and_float, common_interface2, com3, base_interface2,
}

and_iff : (a b : Bool) → (a && b ≡ true) ↔ ((a ≡ true) × (b ≡ true))
and_iff a b = ground arith

or_iff : (a b : Bool) → (a || b ≡ true) ↔ ((a ≡ true) ⊎ (b ≡ true))
or_iff a b = ground arith

and_false : (a : Bool) → a && false ≡ false
and_false a = ground arith

-- Only `int` satisfies IntExcepInt8.
pub int_excep_int8_iff : (t : GoType) → (satisfies t int_excep_int8 ≡ true) ↔ (t ≡ basic int)
unfolding satisfies
int_excep_int8_iff t = ground (arith, same-eq_iff t (basic int))

no_common : (t : GoType) → satisfies t common_interface2 ≡ false
unfolding satisfies same GoType-discrete
no_common (basic b) = and_false _
no_common (struct_data t) = and_false _
no_common struct_empty = refl
no_common (pointer t) = refl
no_common (defined d) = refl

-- A defined type of the file implements BaseInterface2 at a type exactly if it is the first
-- implementation at `int` or the third one at `float32`.
base_interface2_iff :
    (d : Defined) (t : GoType)
    → (satisfies (defined d) (base_interface2 t) ≡ true) ↔ (
        ((d ≡ basic_interface2_impl) × (t ≡ basic int))
        ⊎ ((d ≡ basic_interface2_impl3) × (t ≡ basic float32)))
unfolding satisfies
base_interface2_iff basic_interface2_impl t = ground (arith, same-eq_iff (basic int) t)
base_interface2_iff basic_interface2_impl2 t =
    ground (arith, same-eq_iff (basic int) t, same-eq_iff (basic string) t)
base_interface2_iff basic_interface2_impl3 t = ground (arith, same-eq_iff (basic float32) t)
base_interface2_iff my_int t = ground arith
base_interface2_iff common_interface2_impl t = ground arith
base_interface2_iff common_interface2_impl2 t = ground arith
base_interface2_iff common_interface2_impl3 t = ground arith
base_interface2_iff com3_impl t = ground arith
base_interface2_iff com3_impl1 t = ground arith
base_interface2_iff com3_impl2 t = ground arith

no_com3 : (u t : GoType) → satisfies t (com3 u) ≡ false
unfolding satisfies same GoType-discrete
no_com3 u (basic b) = and_false _
no_com3 u (struct_data t) = and_false _
no_com3 u struct_empty = refl
no_com3 u (pointer t) = refl
no_com3 u (defined my_int) = refl
no_com3 u (defined basic_interface2_impl) = refl
no_com3 u (defined basic_interface2_impl2) = refl
no_com3 u (defined basic_interface2_impl3) = refl
no_com3 u (defined common_interface2_impl) = refl
no_com3 u (defined common_interface2_impl2) = refl
no_com3 u (defined common_interface2_impl3) = refl
no_com3 u (defined com3_impl) = refl
no_com3 u (defined com3_impl1) = refl
no_com3 u (defined com3_impl2) = and_false _

-- Of the types of GoType (int, int8, int16, int32, int64, string, float32 and float64, MyInt, the three
-- implementations of each of BaseInterface2, CommonInterface2 and Com3, `struct{}`, `struct{ Data T }`
-- and pointers, to any depth), only `int` satisfies IntExcepInt8, and none satisfies CommonInterface2, so DoCf can be
-- called with none of them, or Com3 at any of them.
pub type_sets :
    (t : GoType)
    → ((satisfies t int_excep_int8 ≡ true) ↔ (t ≡ basic int))
      × (satisfies t common_interface2 ≡ false)
      × ((u : GoType) → satisfies t (com3 u) ≡ false)
type_sets t = (int_excep_int8_iff t, no_common t, λ u. no_com3 u t)

-- A type that satisfies IntAndFloat is a predeclared one: the constraint has no `~`. A defined type over
-- `int` satisfies Int.
pub int_and_float-basic :
    (t : GoType) → satisfies t int_and_float ≡ true → (b : Basic) × (t ≡ basic b)
unfolding satisfies same GoType-discrete
int_and_float-basic (basic b) h = (b, refl)
int_and_float-basic (struct_data t) h = absurd (cc h)
int_and_float-basic struct_empty h = absurd (cc h)
int_and_float-basic (pointer t) h = absurd (cc h)
int_and_float-basic (defined d) h = absurd (cc h)

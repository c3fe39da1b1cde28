-- ===== src/Generics/TypeSets.antt =====
-- The type constraints of cmd/fanxing/fanxing.go: which types satisfy them, as Go's specification has
-- it. The types are those of GoType; the file's other types (bool, functions, slices, maps, channels,
-- and Persion, Student, DemoStruct, Mystruct, InterfaceTImpl1, InterfaceTImpl2 and MyInt2, whose methods are
-- none that these constraints ask for) are left out. A type satisfies a constraint if it is in its type set and its method set has
-- the methods.
pub mod Constraints
pub mod Sets
use kratos_demo.Prelude.{
  ◌≡◌, ◌↔◌, refl, ap, sym, Bool, true, false, not, ◌&&◌, ◌||◌, List, [], ◌∷◌, String, ◌==◌,
  string_comparable, if◌then◌else◌, arith,
}

pub data Basic : Type 0 where
  int int8 int16 int32 int64 string float32 float64 : Basic

-- MyInt, and the types that the file gives the methods Func1 and Func2.
pub data Defined : Type 0 where
  my_int basic_interface2_impl basic_interface2_impl2 basic_interface2_impl3 : Defined
  common_interface2_impl common_interface2_impl2 common_interface2_impl3 : Defined
  com3_impl com3_impl1 com3_impl2 : Defined

-- `struct_data T` is `struct { Data T }`.
pub data GoType : Type 0 where
  basic : Basic → GoType
  struct_data : GoType → GoType
  struct_empty : GoType
  pointer : GoType → GoType
  defined : Defined → GoType

Basic-discrete : Discrete Basic
Basic-discrete = hlevel

Defined-discrete : Discrete Defined
Defined-discrete = hlevel

unfoldable pub GoType-discrete : Discrete GoType
GoType-discrete = hlevel

unfoldable pub same : GoType → GoType → Bool
same a b = elim (GoType-discrete a b) [ yes _ ↦ true | no _ ↦ false ]

pub same-eq_iff : (a b : GoType) → (same a b ≡ true) ↔ (a ≡ b)
unfolding same
same-eq_iff a b =
    elim (GoType-discrete a b) as (λ d. (elim d [ yes _ ↦ true | no _ ↦ false ] ≡ true) ↔ (a ≡ b)) [
      | yes e ↦ (λ h. e, λ h. refl)
      | no n ↦ (λ h. absurd (cc h), λ h. absurd (n h))
    ]

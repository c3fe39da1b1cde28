-- ===== src/Generics/TypeSets/Constraints.antt =====
-- The constraints and methods that cmd/fanxing/fanxing.go declares, and when a type satisfies one.
use kratos_demo.Prelude.{
  Bool, true, false, ◌&&◌, ◌||◌, Option, none, some, List, [], ◌∷◌, ◌++◌, String, ◌==◌,
  string_comparable,
}
use kratos_demo.Generics.TypeSets.{
  Basic, int, int8, int16, int32, int64, string, float32, float64, Defined, GoType, basic,
  struct_data, struct_empty, pointer, defined, same, my_int, basic_interface2_impl,
  basic_interface2_impl2, basic_interface2_impl3, common_interface2_impl, common_interface2_impl2,
  common_interface2_impl3, com3_impl, com3_impl1, com3_impl2,
}

-- A method with at most one parameter and one result.
pub record Method : Type 0 where
  pub name : String
  pub input : Option GoType
  pub output : GoType

abbrev pub underlying_of : Defined → GoType
underlying_of my_int = basic int
underlying_of basic_interface2_impl = struct_empty
underlying_of basic_interface2_impl2 = struct_empty
underlying_of basic_interface2_impl3 = struct_empty
underlying_of common_interface2_impl = struct_empty
underlying_of common_interface2_impl2 = basic int
underlying_of common_interface2_impl3 = basic float64
underlying_of com3_impl = basic int
underlying_of com3_impl1 = basic int
underlying_of com3_impl2 = struct_data (basic int)

abbrev pub underlying : GoType → GoType
underlying (defined d) = underlying_of d
underlying t = t

abbrev pub takes : String → Basic → Basic → Method
takes name input output = record { name = name; input = some (basic input); output = basic output }

abbrev pub gives : String → Basic → Method
gives name output = record { name = name; input = none; output = basic output }

-- The methods with a value receiver.
abbrev pub value_methods : Defined → List Method
value_methods basic_interface2_impl = takes "Func1" int int ∷ gives "Func2" int ∷ []
value_methods basic_interface2_impl2 = takes "Func1" string string ∷ gives "Func2" int ∷ []
value_methods basic_interface2_impl3 = takes "Func1" float32 float32 ∷ gives "Func2" float32 ∷ []
value_methods _ = []

-- The methods with a pointer receiver.
abbrev pub pointer_methods : Defined → List Method
pointer_methods common_interface2_impl = gives "Func1" string ∷ []
pointer_methods common_interface2_impl2 = gives "Func1" string ∷ []
pointer_methods common_interface2_impl3 = gives "Func1" float64 ∷ []
pointer_methods com3_impl = gives "Func2" int ∷ []
pointer_methods com3_impl1 = gives "Func2" float32 ∷ []
pointer_methods com3_impl2 = gives "Func2" string ∷ []
pointer_methods _ = []

-- The methods that can be called on a value of the type itself, and through a pointer to it.
abbrev pub method_set : GoType → List Method
method_set (defined d) = value_methods d
method_set (pointer (defined d)) = value_methods d ++ pointer_methods d
method_set _ = []

abbrev pub same_input : Option GoType → Option GoType → Bool
same_input none none = true
same_input (some a) (some b) = same a b
same_input _ _ = false

abbrev pub same_method : Method → Method → Bool
same_method m n = (m.name == n.name) && same_input m.input n.input && same m.output n.output

abbrev pub has_method : Method → List Method → Bool
has_method m [] = false
has_method m (n ∷ methods) = same_method n m || has_method m methods

-- `T`, `~T`, a union, an intersection (the lines of an interface), and a method.
pub data Constraint : Type 0 where
  exactly tilde : GoType → Constraint
  either both : Constraint → Constraint → Constraint
  method : Method → Constraint

unfoldable pub satisfies : GoType → Constraint → Bool
satisfies t (exactly u) = same t u
satisfies t (tilde u) = same (underlying t) u
satisfies t (either c d) = satisfies t c || satisfies t d
satisfies t (both c d) = satisfies t c && satisfies t d
satisfies t (method m) = has_method m (method_set t)

-- `Int`.
abbrev pub int_tilde : Constraint
int_tilde = either (tilde (basic int)) (
    either (tilde (basic int8)) (
      either (tilde (basic int16))
        (either (tilde (basic int32)) (either (tilde (basic float32)) (tilde (basic float64))))))

-- `Comple`.
abbrev pub comple : Constraint
comple = either (exactly (basic int)) (either (exactly (basic int32)) (exactly (basic string)))

-- `IntI`; its second `int32` is left out, since it says the same again.
abbrev pub int_i : Constraint
int_i = either (exactly (basic int)) (
    either (exactly (basic int32))
      (either (exactly (basic int8)) (either (exactly (basic int16)) (exactly (basic int64)))))

-- `FI`.
abbrev pub fi : Constraint
fi = either (exactly (basic float32)) (exactly (basic float64))

abbrev pub int_and_float : Constraint
int_and_float = either int_i fi

abbrev pub int_excep_int8 : Constraint
int_excep_int8 = both int_i (exactly (basic int))

-- `BaseInterface2[T]`, and the constraint on its `T`.
abbrev pub base_interface2 : GoType → Constraint
base_interface2 t =
    both (method (record { name = "Func1"; input = some t; output = t }))
      (method (record { name = "Func2"; input = none; output = t }))

abbrev pub base_interface2_parameter : Constraint
base_interface2_parameter = either comple (exactly (basic float32))

abbrev pub common_interface2 : Constraint
common_interface2 =
    both
      (either (exactly (basic int))
        (either (exactly (basic int32)) (exactly (struct_data (basic string)))))
      (method (gives "Func1" string))

-- `Com3[T]`.
abbrev pub com3 : GoType → Constraint
com3 t =
    both (either (tilde (basic int)) (either (tilde (basic int8)) (tilde (struct_data t))))
      (method (record { name = "Func2"; input = none; output = t }))

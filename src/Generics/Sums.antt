-- ===== src/Generics/Sums.antt =====
-- The additions of cmd/fanxing/fanxing.go, and the interface with type parameter. An `int` has 64 bits
-- here; float32 is a parameter.
use kratos_demo.Prelude.{
  ℕ, ◌-◌, ◌*◌, ◌%◌, ◌^◌, ◌<◌, ◌≡◌, ◌↔◌, String, str_append, arith, if◌then◌else◌, ltb,
}
use kratos_demo.Prelude.Int.{ℤ, pos, negsuc, ◌+ℤ◌}

-- The number that a pattern of bits stands for, where half of the patterns are below zero.
abbrev signed : ℕ → ℕ → ℤ
signed half n = if ltb n half then pos n else negsuc (2 * half - n - 1)

-- An integer cut to its low bits: 2 * half patterns.
unfoldable pub wrap : ℕ → ℤ → ℤ
wrap half (pos n) = signed half (n % (2 * half))
wrap half (negsuc n) = signed half (2 * half - 1 - n % (2 * half))

abbrev pub IsInt : ℕ → ℤ → Type 0
IsInt half (pos n) = n < half
IsInt half (negsuc n) = n < half

-- int32 and int.
pub data Width : Type 0 where
  bits32 bits64 : Width

abbrev pub half : Width → ℕ
half bits32 = 2 ^ 31
half bits64 = 2 ^ 63

-- The types that `AddT` admits; float32's values and addition are parameters.
pub data Ty : Type 0 where
  int : Width → Ty
  string float32 : Ty

-- `Add`, on int.
unfoldable pub add : ℤ → ℤ → ℤ
add a b = wrap (2 ^ 63) (a +ℤ b)

module _ (F : Type 0) (add_float32 : F → F → F) where
  abbrev pub Val : Ty → Type 0
  Val (int w) = ℤ
  Val string = String
  Val float32 = F

  unfoldable pub add_t : (t : Ty) → Val t → Val t → Val t
  add_t (int w) a b = wrap (half w) (a +ℤ b)
  add_t string a b = str_append a b
  add_t float32 a b = add_float32 a b

  -- `Testv1` adds by a closure.
  unfoldable pub testv1 : (t : Ty) → Val t → Val t → Val t
  testv1 t a b = let result : Val t → Val t → Val t = λ x y. add_t t x y in result a b

  -- An addition of two integers of 32 or of 64 bits gives an integer of as many bits, and the true sum
  -- exactly when the true sum has no more.
  pub add_t-IsInt :
      (w : Width) (a b : ℤ)
      → IsInt (half w) a
      → IsInt (half w) b
      → IsInt (half w) (add_t (int w) a b)
        × ((add_t (int w) a b ≡ a +ℤ b) ↔ IsInt (half w) (a +ℤ b))
  unfolding add_t wrap ◌+ℤ◌
  add_t-IsInt bits32 a b h k = (ground arith, (λ e. ground arith, λ i. ground arith))
  add_t-IsInt bits64 a b h k = (ground arith, (λ e. ground arith, λ i. ground arith))

-- The implementations of `InterfaceT` at int and at int32.
pub data Implementation : Type 0 where
  impl1 : (a : ℤ) → Implementation
  impl2 : ℤ → Implementation
  mystruct : (value_of : ℤ) (name : String) → Implementation

-- `Value`: the second implementation answers 32 whatever it is.
abbrev pub value : Implementation → ℤ
value (impl1 a) = a
value (impl2 n) = pos 32
value (mystruct d name) = d

-- ===== src/Payment/Floats.antt =====
-- Go's float64, which the programs compute with, as a parameter: its operations, and `%.2f`.
use kratos_demo.Prelude.{ℕ, ◌<◌, ◌≤◌, ◌*◌, ◌^◌, Bool, true, false, ◌≡◌, String}

pub record Floats : Type 1 where
  pub F : Type 0
  pub of_ℕ : ℕ → F
  pub add : F → F → F
  pub sub : F → F → F
  pub mul : F → F → F
  pub div : F → F → F
  pub lt : F → F → Bool
  pub le : F → F → Bool
  -- `fmt.Sprintf("%.2f", x)`.
  pub fixed2 : F → String

module _ (fl : Floats) where
  open fl use {F, of_ℕ, sub, mul, div, lt, le}

  -- `(amount / 100) * 10`.
  abbrev pub tenth : F → F
  tenth amount = mul (div amount (of_ℕ 100)) (of_ℕ 10)

  -- `x < 0` fails; it also fails for a NaN.
  abbrev pub NonNeg : F → Type 0
  NonNeg x = lt x (of_ℕ 0) ≡ false

  -- What IEEE 754 says of the operations, for any constants: a difference `p - d` with `d <= p` is not
  -- below zero; a NaN, which is not `<=` itself, minus a number is a NaN, and that is not below zero; and
  -- the k-th part of a number that is not below zero, taken m times, is at most the number if m is at
  -- most half of k, so that no rounding, of a normal or of a subnormal number, makes up for the rest.
  pub record IsIeee : Type 0 where
    pub zero_nonneg : NonNeg (of_ℕ 0)
    pub sub_nonneg : (d p : F) → le d p ≡ true → NonNeg (sub p d)
    pub sub-nan : (d p : F) → le p p ≡ false → NonNeg (sub p d)
    pub part_le :
        (a : F) (k m : ℕ)
        → NonNeg a
        → le a a ≡ true
        → 0 < m
        → 2 * m ≤ k
        → k < 2 ^ 53
        → le (mul (div a (of_ℕ k)) (of_ℕ m)) a ≡ true

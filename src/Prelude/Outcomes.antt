-- ===== src/Prelude/Outcomes.antt =====
-- How a Go call ends: with its value, with an error value, or with a panic;
-- `out_of_fuel` is the model's own, for a loop whose fuel is spent.
use mathlib.Core.Path.{◌≡◌, refl}

pub data Outcome {ℓ κ} (E : Type κ) (A : Type ℓ) : Type (ℓ ⊔ κ) where
  ok : A → Outcome E A
  err : E → Outcome E A
  panic out_of_fuel : Outcome E A

infixl 5 ◌>>=◌
abbrev pub ◌>>=◌ {ℓ ℓ' κ} :
    {E : Type κ} {A : Type ℓ} {B : Type ℓ'} → Outcome E A → (A → Outcome E B) → Outcome E B
panic >>= next = panic
err e >>= next = err e
ok a >>= next = next a
out_of_fuel >>= next = out_of_fuel

-- The call returns normally, with a value that satisfies `P`.
pub data Returns {ℓ κ μ} {E : Type κ} {A : Type ℓ} (P : A → Type μ)
    : Outcome E A → Type (ℓ ⊔ κ ⊔ μ) where
  returns : {a : A} → P a → Returns P (ok a)

pub Returns-inv {ℓ κ μ} :
    {E : Type κ} {A : Type ℓ} {P : A → Type μ} {r : Outcome E A}
    → Returns P r
    → (a : A) × (r ≡ ok a) × P a
Returns-inv (returns p) = (_, refl, p)

pub Returns-bind {ℓ ℓ' κ μ ν} :
    {E : Type κ} {A : Type ℓ} {B : Type ℓ'} {P : A → Type μ} {Q : B → Type ν} {r : Outcome E A}
    {f : A → Outcome E B}
    → Returns P r
    → ((a : A) → P a → Returns Q (f a))
    → Returns Q (r >>= f)
Returns-bind (returns p) k = k _ p

pub Returns-map {ℓ κ μ ν} :
    {E : Type κ} {A : Type ℓ} {P : A → Type μ} {Q : A → Type ν} {r : Outcome E A}
    → Returns P r
    → ((a : A) → P a → Q a)
    → Returns Q r
Returns-map (returns p) k = returns (k _ p)

-- A sequence that returned, taken apart.
pub bind-ok {ℓ ℓ' κ} :
    {E : Type κ} {A : Type ℓ} {B : Type ℓ'} (r : Outcome E A) (next : A → Outcome E B) {b : B}
    → (r >>= next) ≡ ok b
    → (a : A) × (r ≡ ok a) × (next a ≡ ok b)
bind-ok (ok a) next h = (a, refl, h)
bind-ok (err e) next h = cc
bind-ok panic next h = cc
bind-ok out_of_fuel next h = cc

pub ok-injective {ℓ κ} :
    {E : Type κ} {A : Type ℓ} {a b : A} → ◌≡◌ {A = Outcome E A} (ok a) (ok b) → a ≡ b
ok-injective h = cc h

-- ===== src/Prelude/Lists.antt =====
-- Lists as Go slices, under native indices.
use Prim.Native.Nat.{ℕ, zero, suc, ◌+◌, ◌≤◌, ◌<◌}
use kratos_demo.Prelude.Tests.{nat_beq, if◌then◌else◌}
use native.Mathlib.Nat.{ℕ_set}
use mathlib.Core.Logic.{◌⊎◌, inl, inr, ∥∥₁_elim}
use mathlib.Core.Path.{◌≡◌, refl, ap}
use mathlib.Core.Option.{Option, none, some}
use mathlib.Core.List.{map, List, [], ◌∷◌, ◌++◌, Perm, Permᴰ, perm_middle, append-nil}
use mathlib.Core.List.Perm
use native.Mathlib.Omega.{arith}

-- Membership, as a choice of a place.
abbrev pub In : {A : Type 0} → A → List A → Type 0
In x [] = ⊥
In x (y ∷ ys) = (x ≡ y) ⊎ In x ys

pub In-append_left : {A : Type 0} (x : A) (xs ys : List A) → In x xs → In x (xs ++ ys)
In-append_left x [] ys i = absurd i
In-append_left x (y ∷ xs) ys (inl e) = inl e
In-append_left x (y ∷ xs) ys (inr i) = inr (In-append_left x xs ys i)

pub In-append_right : {A : Type 0} (x : A) (xs ys : List A) → In x ys → In x (xs ++ ys)
In-append_right x [] ys i = i
In-append_right x (y ∷ xs) ys i = inr (In-append_right x xs ys i)

pub no_In-nil : {A : Type 0} (xs : List A) → ((x : A) → In x xs → ⊥) → xs ≡ []
no_In-nil [] h = refl
no_In-nil (x ∷ xs) h = absurd (h x (inl refl))

pub Sum-cases : {A B : Type 0} (x : A ⊎ B) → ((a : A) × (x ≡ inl a)) ⊎ ((b : B) × (x ≡ inr b))
Sum-cases (inl a) = inl (a, refl)
Sum-cases (inr b) = inr (b, refl)

-- No entry stands twice.
abbrev pub IsDistinct : {A : Type 0} → List A → Type 0
IsDistinct [] = Unit {0}
IsDistinct (x ∷ xs) = (In x xs → ⊥) × IsDistinct xs

module _ {ℓ} {A : Type ℓ} where
  abbrev pub length : List A → ℕ
  length [] = 0
  length (x ∷ xs) = suc (length xs)

  abbrev pub get_elem? : List A → ℕ → Option A
  get_elem? [] i = none
  get_elem? (x ∷ xs) zero = some x
  get_elem? (x ∷ xs) (suc i) = get_elem? xs i

  abbrev pub set : List A → ℕ → A → List A
  set [] i v = []
  set (x ∷ xs) zero v = v ∷ xs
  set (x ∷ xs) (suc i) v = x ∷ set xs i v

  abbrev pub take : ℕ → List A → List A
  take zero xs = []
  take (suc n) [] = []
  take (suc n) (x ∷ xs) = x ∷ take n xs

  pub length-append : (xs ys : List A) → length (xs ++ ys) ≡ length xs + length ys
  length-append [] ys = omega arith
  length-append (x ∷ xs) ys = omega (arith, length-append xs ys)

  pub length-set : (xs : List A) (i : ℕ) (v : A) → length (set xs i v) ≡ length xs
  length-set [] i v = refl
  length-set (x ∷ xs) zero v = refl
  length-set (x ∷ xs) (suc i) v = ap suc (length-set xs i v)

  pub length-take : (n : ℕ) (xs : List A) → n ≤ length xs → length (take n xs) ≡ n
  length-take zero xs h = refl
  length-take (suc n) [] h = absurd (omega arith)
  length-take (suc n) (x ∷ xs) h = ap suc (length-take n xs (omega arith))

  Permᴰ-length : {xs ys : List A} → Permᴰ xs ys → length xs ≡ length ys
  Permᴰ-length (Permᴰ.trans p q) = omega (arith, Permᴰ-length p, Permᴰ-length q)
  Permᴰ-length (Permᴰ.swap x y) = refl
  Permᴰ-length (Permᴰ.cons x p) = omega (arith, Permᴰ-length p)
  Permᴰ-length Permᴰ.nil = refl

  pub length-perm : {xs ys : List A} → Perm xs ys → length xs ≡ length ys
  length-perm {xs} {ys} p = ∥∥₁_elim p (ℕ_set (length xs) (length ys)) (λ q. Permᴰ-length q)

  pub concat-perm : (xs : List A) (x : A) → Perm (xs ++ x ∷ []) (x ∷ xs)
  concat-perm xs x = rw (append-nil xs) at (perm_middle {a = x} xs [])

module _ {ℓ} {A : Type ℓ} where
  pub get_elem?-append :
      (xs ys : List A) (i : ℕ) (x : A) → get_elem? xs i ≡ some x → get_elem? (xs ++ ys) i ≡ some x
  get_elem?-append [] ys i x h = cc
  get_elem?-append (y ∷ xs) ys zero x h = h
  get_elem?-append (y ∷ xs) ys (suc i) x h = get_elem?-append xs ys i x h

  pub get_elem?-append_last : (xs : List A) (x : A) → get_elem? (xs ++ x ∷ []) (length xs) ≡ some x
  get_elem?-append_last [] x = refl
  get_elem?-append_last (y ∷ xs) x = get_elem?-append_last xs x

pub length-map {ℓ κ} :
    {A : Type ℓ} {B : Type κ} (f : A → B) (xs : List A) → length (map f xs) ≡ length xs
length-map f [] = refl
length-map f (x ∷ xs) = ap suc (length-map f xs)

module _ {ℓ} {A : Type ℓ} (d : A) where
  -- `xs[i]`, with a stand-in out of range.
  abbrev pub get_or : List A → ℕ → A
  get_or [] i = d
  get_or (x ∷ xs) zero = x
  get_or (x ∷ xs) (suc i) = get_or xs i

  pub get_elem?-get_or : (xs : List A) (i : ℕ) → i < length xs → get_elem? xs i ≡ some (get_or xs i)
  get_elem?-get_or [] i h = absurd (omega arith)
  get_elem?-get_or (x ∷ xs) zero h = refl
  get_elem?-get_or (x ∷ xs) (suc i) h = get_elem?-get_or xs i (omega arith)

  pub get_elem?_out : (xs : List A) (i : ℕ) → length xs ≤ i → get_elem? xs i ≡ none
  get_elem?_out [] i h = refl
  get_elem?_out (x ∷ xs) zero h = absurd (omega arith)
  get_elem?_out (x ∷ xs) (suc i) h = get_elem?_out xs i (omega arith)

  pub get_or-set :
      (xs : List A) (i j : ℕ) (v : A)
      → i < length xs
      → get_or (set xs i v) j ≡ (if nat_beq i j then v else get_or xs j)
  get_or-set [] i j v h = absurd (omega arith)
  get_or-set (x ∷ xs) zero zero v h = refl
  get_or-set (x ∷ xs) zero (suc j) v h = ground arith
  get_or-set (x ∷ xs) (suc i) zero v h = ground arith
  get_or-set (x ∷ xs) (suc i) (suc j) v h = ground (arith, get_or-set xs i j v)

  pub get_or-append : (xs ys : List A) (i : ℕ) → i < length xs → get_or (xs ++ ys) i ≡ get_or xs i
  get_or-append [] ys i h = absurd (omega arith)
  get_or-append (x ∷ xs) ys zero h = refl
  get_or-append (x ∷ xs) ys (suc i) h = get_or-append xs ys i (omega arith)

  pub get_or-take : (n : ℕ) (xs : List A) (i : ℕ) → i < n → get_or (take n xs) i ≡ get_or xs i
  get_or-take zero xs i h = absurd (omega arith)
  get_or-take (suc n) [] i h = refl
  get_or-take (suc n) (x ∷ xs) zero h = refl
  get_or-take (suc n) (x ∷ xs) (suc i) h = get_or-take n xs i (omega arith)

  pub take-append-last :
      (n : ℕ) (xs : List A) → length xs ≡ suc n → take n xs ++ get_or xs n ∷ [] ≡ xs
  take-append-last n [] h = absurd (omega arith)
  take-append-last zero (x ∷ []) h = refl
  take-append-last zero (x ∷ y ∷ xs) h = absurd (omega arith)
  take-append-last (suc n) (x ∷ xs) h = ap (◌∷◌ x) (take-append-last n xs (omega arith))

  -- A write exchanges the old entry for the new one.
  pub set-perm :
      (xs : List A) (i : ℕ) (v : A) → i < length xs → Perm (get_or xs i ∷ set xs i v) (v ∷ xs)
  set-perm [] i v h = absurd (omega arith)
  set-perm (x ∷ xs) zero v h = Perm.swap v x xs
  set-perm (x ∷ xs) (suc i) v h =
      Perm.trans (Perm.swap x (get_or xs i) (set xs i v))
        (Perm.trans (Perm.cons x (set-perm xs i v (omega arith))) (Perm.swap v x xs))

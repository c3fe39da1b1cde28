-- ===== src/Prelude/Decimal.antt =====
-- strconv.Itoa and strconv.Atoi on 64-bit integers.
use Prim.Native.Nat.{ℕ, zero, suc, ◌+◌, ◌-◌, ◌*◌, ◌/◌, ◌%◌, ◌^◌, ◌<◌}
use Prim.Native.Char.{Char, code}
use Prim.Native.String.{String, [], ◌∷◌, ◌++◌ as str_append}
use native.Mathlib.Omega.{arith}
use mathlib.Core.Path.{◌≡◌, refl, sym, ap, ap₂, subst, ◌∙◌}
use text.Mathlib.TextLemmas.{nil-append, cons-append, tail-eq_of_cons-eq, head-eq_of_cons-eq}
use mathlib.Core.Logic.{◌⊎◌, inl, inr, ◌≢◌}
use mathlib.Core.Bool.{◌&&◌}
use mathlib.Core.Option.{Option, none, some}
use kratos_demo.Prelude.Tests.{ltb, leb, nat_beq, if◌then◌else◌}
use kratos_demo.Prelude.Int.{ℤ, pos, negsuc}

abbrev pub digit : ℕ → Char
digit zero = "0"
digit (suc zero) = "1"
digit (suc (suc zero)) = "2"
digit (suc (suc (suc zero))) = "3"
digit (suc (suc (suc (suc zero)))) = "4"
digit (suc (suc (suc (suc (suc zero))))) = "5"
digit (suc (suc (suc (suc (suc (suc zero)))))) = "6"
digit (suc (suc (suc (suc (suc (suc (suc zero))))))) = "7"
digit (suc (suc (suc (suc (suc (suc (suc (suc zero)))))))) = "8"
digit n = "9"

code-digit : (d : ℕ) → d < 10 → code (digit d) ≡ 48 + d
code-digit zero h = refl
code-digit (suc zero) h = refl
code-digit (suc (suc zero)) h = refl
code-digit (suc (suc (suc zero))) h = refl
code-digit (suc (suc (suc (suc zero)))) h = refl
code-digit (suc (suc (suc (suc (suc zero))))) h = refl
code-digit (suc (suc (suc (suc (suc (suc zero)))))) h = refl
code-digit (suc (suc (suc (suc (suc (suc (suc zero))))))) h = refl
code-digit (suc (suc (suc (suc (suc (suc (suc (suc zero)))))))) h = refl
code-digit (suc (suc (suc (suc (suc (suc (suc (suc (suc zero))))))))) h = refl
code-digit (suc (suc (suc (suc (suc (suc (suc (suc (suc (suc d)))))))))) h = absurd (omega arith)

-- The digits of `n` in front of `acc`; one unit of fuel for a digit.
unfoldable pub emit : ℕ → ℕ → String → String
emit zero n acc = acc
emit (suc fuel) n acc =
    let acc' = digit (n % 10) ∷ acc in
    let rest = emit fuel (n / 10) acc' in if ltb n 10 then acc' else rest

unfoldable pub itoa : ℤ → String
itoa (pos n) = emit (suc n) n []
itoa (negsuc n) = "-" ∷ emit (suc (suc n)) (suc n) []

-- The number that the digits stand for, read on from `v`.
unfoldable pub read : ℕ → String → Option ℕ
read v [] = some v
read v (c ∷ s) =
    let rest = read (10 * v + (code c - 48)) s in
    if leb 48 (code c) && leb (code c) 57 then rest else none

read-digit : (v d : ℕ) (s : String) → d < 10 → read v (digit d ∷ s) ≡ read (10 * v + d) s
unfolding read
read-digit v d s h = let e : 48 + d - 48 ≡ d = omega arith in rw (code-digit d h, e) (ground arith)

pub read-emit : (fuel n : ℕ) (acc : String) → n < fuel → read 0 (emit fuel n acc) ≡ read n acc
unfolding emit
read-emit zero n acc h = absurd (omega arith)
read-emit (suc fuel) n acc h =
    let rest = read-emit fuel (n / 10) (digit (n % 10) ∷ acc) in
    let last = read-digit (n / 10) (n % 10) acc (omega arith) in
    let first = read-digit 0 (n % 10) acc (omega arith) in ground (arith, rest, last, first)

-- No character of the text has the number `k`.
abbrev pub IsFree : ℕ → String → Type 0
IsFree k [] = Unit {0}
IsFree k (c ∷ s) = (code c ≢ k) × IsFree k s

-- The digits are those of "0" to "9" only.
pub emit-IsFree :
    (k fuel n : ℕ) (acc : String) → (k < 48) ⊎ (57 < k) → IsFree k acc → IsFree k (emit fuel n acc)
unfolding emit
emit-IsFree k zero n acc h f = f
emit-IsFree k (suc fuel) n acc h f =
    let e = code-digit (n % 10) (omega arith) in
    let here : IsFree k (digit (n % 10) ∷ acc) = (λ g. omega arith, f) in
    let rest = emit-IsFree k fuel (n / 10) (digit (n % 10) ∷ acc) h here in ground arith

abbrev pub negate : ℕ → ℤ
negate zero = pos 0
negate (suc n) = negsuc n

-- A number needs a digit.
unfoldable pub read_nat : String → Option ℕ
read_nat [] = none
read_nat (c ∷ s) = read 0 (c ∷ s)

-- A sign may stand in front.
unfoldable pub read_int : String → Option ℤ
read_int [] = none
read_int (c ∷ s) =
    if nat_beq (code c) 45
    then elim (read_nat s) [ none ↦ none | some n ↦ some (negate n) ]
    else if nat_beq (code c) 43
    then elim (read_nat s) [ none ↦ none | some n ↦ some (pos n) ]
    else elim (read_nat (c ∷ s)) [ none ↦ none | some n ↦ some (pos n) ]

-- The nearest 64-bit integer.
abbrev pub clamp : ℤ → ℤ
clamp (pos n) = if ltb n (2 ^ 63) then pos n else pos (2 ^ 63 - 1)
clamp (negsuc n) = if ltb n (2 ^ 63) then negsuc n else negsuc (2 ^ 63 - 1)

-- The number that the digits in front of the first other character stand for, read on from `v`.
abbrev leading : ℕ → String → ℕ
leading v [] = v
leading v (c ∷ s) =
    let rest = leading (10 * v + (code c - 48)) s in
    if leb 48 (code c) && leb (code c) 57 then rest else v

-- Of a text that is no number: the digits are read in order, so that they can leave 64 bits before the
-- character that is no digit is met.
abbrev malformed : String → ℤ
malformed [] = pos 0
malformed (c ∷ s) =
    if nat_beq (code c) 45
    then if ltb (leading 0 s) (2 ^ 64) then pos 0 else negsuc (2 ^ 63 - 1)
    else if nat_beq (code c) 43
    then if ltb (leading 0 s) (2 ^ 64) then pos 0 else pos (2 ^ 63 - 1)
    else if ltb (leading 0 (c ∷ s)) (2 ^ 64)
    then pos 0
    else pos (2 ^ 63 - 1)

-- The value that strconv.Atoi returns beside its error: the nearest 64-bit integer for a number out of
-- range; for a text that is no number 0, or a bound where its digits leave 64 bits first.
unfoldable pub atoi : String → ℤ
atoi s = elim (read_int s) [ none ↦ malformed s | some z ↦ clamp z ]

abbrev pub IsInt64 : ℤ → Type 0
IsInt64 (pos n) = n < 2 ^ 63
IsInt64 (negsuc n) = n < 2 ^ 63

IsFree-read_int :
    (s : String) (n : ℕ)
    → IsFree 45 s
    → IsFree 43 s
    → read_nat s ≡ some n
    → read_int s ≡ some (pos n)
unfolding read_int read_nat
IsFree-read_int [] n f g h = cc
IsFree-read_int (c ∷ s) n f g h = ground (arith, f.0, g.0, h)

IsDigits : String → Type 0
IsDigits [] = ⊥
IsDigits (c ∷ s) = Unit {0}

emit-IsDigits : (fuel n : ℕ) (acc : String) → IsDigits acc → IsDigits (emit fuel n acc)
unfolding emit IsDigits
emit-IsDigits zero n acc h = h
emit-IsDigits (suc fuel) n acc h =
    ground (arith, emit-IsDigits fuel (n / 10) (digit (n % 10) ∷ acc) tt)

IsDigits-read_nat : (s : String) → IsDigits s → read_nat s ≡ read 0 s
unfolding read_nat IsDigits
IsDigits-read_nat [] h = absurd h
IsDigits-read_nat (c ∷ s) h = refl

emit-IsDigits_first : (fuel n : ℕ) → IsDigits (emit (suc fuel) n [])
unfolding emit IsDigits
emit-IsDigits_first fuel n = ground (arith, emit-IsDigits fuel (n / 10) (digit (n % 10) ∷ []) tt)

read_nat-emit : (n : ℕ) → read_nat (emit (suc n) n []) ≡ some n
unfolding read
read_nat-emit n =
    IsDigits-read_nat (emit (suc n) n []) (emit-IsDigits_first n n)
    ∙ read-emit (suc n) n [] (omega arith)

pub read_int-itoa : (z : ℤ) → read_int (itoa z) ≡ some z
unfolding itoa read_int
read_int-itoa (pos n) =
    IsFree-read_int (emit (suc n) n []) n (emit-IsFree 45 (suc n) n [] (inl (omega arith)) tt)
      (emit-IsFree 43 (suc n) n [] (inl (omega arith)) tt) (read_nat-emit n)
read_int-itoa (negsuc n) = rw (read_nat-emit (suc n)) refl

pub itoa-injective : (y z : ℤ) → itoa y ≡ itoa z → y ≡ z
itoa-injective y z h = cc (read_int-itoa y, read_int-itoa z, h)

pub atoi-itoa : (z : ℤ) → IsInt64 z → atoi (itoa z) ≡ z
unfolding atoi
atoi-itoa (pos n) h = rw (atoi, read_int-itoa (pos n)) (ground arith)
atoi-itoa (negsuc n) h = rw (atoi, read_int-itoa (negsuc n)) (ground arith)

pub itoa-IsFree : (k : ℕ) (z : ℤ) → 57 < k → IsFree k (itoa z)
unfolding itoa
itoa-IsFree k (pos n) h = emit-IsFree k (suc n) n [] (inr h) tt
itoa-IsFree k (negsuc n) h = (λ e. omega arith, emit-IsFree k (suc (suc n)) (suc n) [] (inr h) tt)

append-IsFree : (c : Char) (s t : String) → IsFree (code c) (str_append s (c ∷ t)) → ⊥
append-IsFree c [] t f = (rw (nil-append (c ∷ t)) at f).0 refl
append-IsFree c (d ∷ s) t f = append-IsFree c s t (rw (cons-append d s (c ∷ t)) at f).1

-- Where a character splits two texts whose right parts are free of it, the parts agree.
pub split-injective :
    (c : Char) (s t u v : String)
    → IsFree (code c) u
    → IsFree (code c) v
    → str_append s (c ∷ u) ≡ str_append t (c ∷ v)
    → (s ≡ t) × (u ≡ v)
split-injective c [] [] u v f g h =
    (refl, tail-eq_of_cons-eq (rw (nil-append (c ∷ u), nil-append (c ∷ v)) at h))
split-injective c [] (d ∷ t) u v f g h = absurd (
    append-IsFree c t v (
      subst (IsFree (code c))
        (tail-eq_of_cons-eq (rw (nil-append (c ∷ u), cons-append d t (c ∷ v)) at h)) f))
split-injective c (d ∷ s) [] u v f g h = absurd (
    append-IsFree c s u (
      subst (IsFree (code c))
        (sym (tail-eq_of_cons-eq (rw (nil-append (c ∷ v), cons-append d s (c ∷ u)) at h))) g))
split-injective c (d ∷ s) (e ∷ t) u v f g h =
    let k = rw (cons-append d s (c ∷ u), cons-append e t (c ∷ v)) at h in
    let (l, r) = split-injective c s t u v f g (tail-eq_of_cons-eq k) in
    (ap₂ ◌∷◌ (head-eq_of_cons-eq k) l, r)

pub split-injective_text :
    (c : Char) (s t u v : String)
    → IsFree (code c) u
    → IsFree (code c) v
    → str_append s (str_append (c ∷ []) u) ≡ str_append t (str_append (c ∷ []) v)
    → (s ≡ t) × (u ≡ v)
split-injective_text c s t u v f g h =
    split-injective c s t u v f g
      (rw (cons-append c [] u, cons-append c [] v, nil-append u, nil-append v) at h)

split_first :
    (c : Char) (s t u v : String)
    → IsFree (code c) s
    → IsFree (code c) t
    → str_append s (c ∷ u) ≡ str_append t (c ∷ v)
    → (s ≡ t) × (u ≡ v)
split_first c [] [] u v f g h =
    (refl, tail-eq_of_cons-eq (rw (nil-append (c ∷ u), nil-append (c ∷ v)) at h))
split_first c [] (d ∷ t) u v f g h = absurd (
    g.0
      (ap code (sym (head-eq_of_cons-eq (rw (nil-append (c ∷ u), cons-append d t (c ∷ v)) at h)))))
split_first c (d ∷ s) [] u v f g h =
    absurd
      (f.0 (ap code (head-eq_of_cons-eq (rw (cons-append d s (c ∷ u), nil-append (c ∷ v)) at h))))
split_first c (d ∷ s) (e ∷ t) u v f g h =
    let k = rw (cons-append d s (c ∷ u), cons-append e t (c ∷ v)) at h in
    let (l, r) = split_first c s t u v f.1 g.1 (tail-eq_of_cons-eq k) in
    (ap₂ ◌∷◌ (head-eq_of_cons-eq k) l, r)

-- Where a character splits two texts whose left parts are free of it, the parts agree.
pub split_first-injective :
    (c : Char) (s t u v : String)
    → IsFree (code c) s
    → IsFree (code c) t
    → str_append s (str_append (c ∷ []) u) ≡ str_append t (str_append (c ∷ []) v)
    → (s ≡ t) × (u ≡ v)
split_first-injective c s t u v f g h =
    split_first c s t u v f g
      (rw (cons-append c [] u, cons-append c [] v, nil-append u, nil-append v) at h)

-- ===== src/Patterns/Flyweight.antt =====
-- cmd/design/flyweight/flyweight.go: the factory that hands out one shared circle for a colour and a
-- radius. A `*Circle` is the index of its cell in a store that only grows.
use kratos_demo.Prelude.{
  ℕ, ◌≡◌, ◌↔◌, refl, sym, ap₂, none, some, List, [], ◌∷◌, ◌++◌, length, get_elem?, get_elem?-append,
  get_elem?-append_last, String, str_append, Option-cases, Bool-cases, string_comparable, arith,
  eq_iff, ◌==◌, inl, inr,
}
use kratos_demo.Prelude.Assoc.{Map, lookup, insert, lookup-insert, lookup-insert_self}
use kratos_demo.Prelude.Int.{ℤ}
use kratos_demo.Prelude.Decimal.{itoa, itoa-injective, itoa-IsFree, split-injective_text}

pub record Circle : Type 0 where
  pub color : String
  pub radius : ℤ

-- The factory's map from keys to pointers, and the circles that the pointers point to.
pub record CircleFactory : Type 0 where
  pub circles : Map String ℕ
  pub cells : List Circle

abbrev circle : String → ℤ → Circle
circle color radius = record { color = color; radius = radius }

abbrev pub new_circle_factory : CircleFactory
new_circle_factory = record { circles = []; cells = [] }

abbrev pub key : String → ℤ → String
key color radius = str_append color (str_append ":" (itoa radius))

abbrev pub add_circle : CircleFactory → String → ℤ → CircleFactory
add_circle f color radius = record {
  circles = insert (key color radius) (length f.cells) f.circles;
  cells = f.cells ++ record { color = color; radius = radius } ∷ [];
}

unfoldable pub get_circle : CircleFactory → String → ℤ → CircleFactory × ℕ
get_circle f color radius = elim (lookup (key color radius) f.circles) [
  | some circle ↦ (f, circle)
  | none ↦ (add_circle f color radius, length f.cells)
]

-- Two colours and radii have one key only if they are the same.
pub key-injective :
    (color color' : String) (radius radius' : ℤ)
    → key color radius ≡ key color' radius'
    → (color ≡ color') × (radius ≡ radius')
key-injective color color' radius radius' h =
    let (c, r) =
      split-injective_text ":" color color' (itoa radius) (itoa radius')
        (itoa-IsFree 58 radius (omega arith)) (itoa-IsFree 58 radius' (omega arith)) h in
    (c, itoa-injective radius radius' r)

-- Every pointer of the map points to a circle, and under that circle's key.
abbrev pub IsShared : CircleFactory → Type 0
IsShared f =
    (k : String) (p : ℕ)
    → lookup k f.circles ≡ some p
    → (c : Circle) × (get_elem? f.cells p ≡ some c) × (k ≡ key c.color c.radius)

new_circle_factory-IsShared : IsShared new_circle_factory
unfolding lookup
new_circle_factory-IsShared k p h = cc

add_circle-IsShared :
    (f : CircleFactory) (color : String) (radius : ℤ)
    → IsShared f
    → IsShared (add_circle f color radius)
add_circle-IsShared f color radius shared k p h =
    let e = lookup-insert (key color radius) k (length f.cells) f.circles in
    elim (Bool-cases (◌==◌ {K = String} (key color radius) k)) [
      | inl t ↦
          let q : length f.cells ≡ p = cc (e, h, t) in
          (
            record { color = color; radius = radius },
            rw (sym q) (get_elem?-append_last f.cells (record { color = color; radius = radius })),
            sym ((eq_iff (key color radius) k).0 t),
          )
      | inr t ↦
          let (c, cell, same) = shared k p (cc (e, h, t)) in
          (c, get_elem?-append f.cells _ p c cell, same)
    ]

-- A circle's pointer stays valid, and stays under its key.
get_circle_keeps :
    (f : CircleFactory) (color : String) (radius : ℤ) (k : String) (p : ℕ)
    → lookup k f.circles ≡ some p
    → lookup k (get_circle f color radius).0.circles ≡ some p
unfolding get_circle
get_circle_keeps f color radius k p h = elim (Option-cases (lookup (key color radius) f.circles)) [
  | inl e ↦
      rw (get_circle, e)
        (ground (
          arith,
          e,
          h,
          lookup-insert (key color radius) k (length f.cells) f.circles,
          eq_iff (key color radius) k,
        ))
  | inr (q, e) ↦ rw (get_circle, e) h
]

get_circle_has :
    (f : CircleFactory) (color : String) (radius : ℤ)
    → lookup (key color radius) (get_circle f color radius).0.circles
      ≡ some (get_circle f color radius).1
unfolding get_circle
get_circle_has f color radius = elim (Option-cases (lookup (key color radius) f.circles)) [
  | inl e ↦ rw (get_circle, e) (lookup-insert_self (key color radius) (length f.cells) f.circles)
  | inr (p, e) ↦ rw (get_circle, e) e
]

get_circle-IsShared :
    (f : CircleFactory) (color : String) (radius : ℤ)
    → IsShared f
    → IsShared (get_circle f color radius).0
unfolding get_circle
get_circle-IsShared f color radius shared =
    elim (Option-cases (lookup (key color radius) f.circles)) [
      | inl e ↦ rw (get_circle, e) (add_circle-IsShared f color radius shared)
      | inr (p, e) ↦ rw (get_circle, e) shared
    ]

-- Some calls in a row.
unfoldable pub get_circles : CircleFactory → List (String × ℤ) → CircleFactory
get_circles f [] = f
get_circles f ((color, radius) ∷ calls) = get_circles (get_circle f color radius).0 calls

get_circles-IsShared :
    (f : CircleFactory) (calls : List (String × ℤ)) → IsShared f → IsShared (get_circles f calls)
unfolding get_circles
get_circles-IsShared f [] h = h
get_circles-IsShared f ((color, radius) ∷ calls) h =
    get_circles-IsShared (get_circle f color radius).0 calls (get_circle-IsShared f color radius h)

get_circles_keeps :
    (f : CircleFactory) (calls : List (String × ℤ)) (k : String) (p : ℕ)
    → lookup k f.circles ≡ some p
    → lookup k (get_circles f calls).circles ≡ some p
unfolding get_circles
get_circles_keeps f [] k p h = h
get_circles_keeps f ((color, radius) ∷ calls) k p h =
    get_circles_keeps (get_circle f color radius).0 calls k p
      (get_circle_keeps f color radius k p h)

-- Pointers under one pointer have one key.
IsShared-same :
    (f : CircleFactory) (color color' : String) (radius radius' : ℤ) (p : ℕ)
    → IsShared f
    → lookup (key color radius) f.circles ≡ some p
    → lookup (key color' radius') f.circles ≡ some p
    → (color ≡ color') × (radius ≡ radius')
IsShared-same f color color' radius radius' p shared h k =
    let (c, cell, same) = shared (key color radius) p h in
    let (c', cell', same') = shared (key color' radius') p k in
    let e : c ≡ c' = cc (cell, cell') in
    key-injective color color' radius radius' (cc (same, same', e))

-- A factory that begins empty gives every call, whatever calls came before, a pointer to a circle of
-- the colour and the radius that were asked for.
pub get_circle_correct :
    (calls : List (String × ℤ)) (color : String) (radius : ℤ)
    → let f = get_circles new_circle_factory calls in
      get_elem? (get_circle f color radius).0.cells (get_circle f color radius).1
      ≡ some (record { color = color; radius = radius })
get_circle_correct calls color radius =
    let f = get_circles new_circle_factory calls in
    let shared : IsShared f =
      get_circles-IsShared new_circle_factory calls new_circle_factory-IsShared in
    let (c, cell, same) =
      get_circle-IsShared f color radius shared (key color radius) (get_circle f color radius).1
        (get_circle_has f color radius) in
    let (e, r) = key-injective color c.color radius c.radius same in
    rw cell (ap₂ (λ x y. some (circle x y)) (sym e) (sym r))

get_circle_known :
    (f : CircleFactory) (color : String) (radius : ℤ) (p : ℕ)
    → lookup (key color radius) f.circles ≡ some p
    → (get_circle f color radius).1 ≡ p
unfolding get_circle
get_circle_known f color radius p h = rw (get_circle, h) refl

get_circle-same :
    (f : CircleFactory) (color color' : String) (radius radius' : ℤ) (p : ℕ)
    → IsShared f
    → lookup (key color radius) f.circles ≡ some p
    → (p ≡ (get_circle f color' radius').1) ↔ ((color ≡ color') × (radius ≡ radius'))
get_circle-same f color color' radius radius' p shared h = (
  λ e.
      IsShared-same (get_circle f color' radius').0 color color' radius radius' p
        (get_circle-IsShared f color' radius' shared)
        (get_circle_keeps f color' radius' (key color radius) p h)
        (rw e (get_circle_has f color' radius')),
  λ (c, r). sym (get_circle_known f color' radius' p (rw (sym c, sym r) h)),
)

-- Two calls, with any calls before and between them, get the same pointer exactly when they ask for
-- the same colour and the same radius.
pub get_circle_shares :
    (before between : List (String × ℤ)) (color color' : String) (radius radius' : ℤ)
    → let f = get_circles new_circle_factory before in
      let g = get_circles (get_circle f color radius).0 between in
      ((get_circle f color radius).1 ≡ (get_circle g color' radius').1)
      ↔ ((color ≡ color') × (radius ≡ radius'))
get_circle_shares before between color color' radius radius' =
    let f = get_circles new_circle_factory before in
    let shared : IsShared f =
      get_circles-IsShared new_circle_factory before new_circle_factory-IsShared in
    let after = (get_circle f color radius).0 in
    let g = get_circles after between in
    let shared' : IsShared g =
      get_circles-IsShared after between (get_circle-IsShared f color radius shared) in
    let h = get_circles_keeps after between _ _ (get_circle_has f color radius) in
    get_circle-same g color color' radius radius' (get_circle f color radius).1 shared' h

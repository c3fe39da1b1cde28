-- ===== src/Heap.antt =====
-- cmd/heapx/heapx.go: a binary min-heap on a slice of `int`.
-- A method returns the new heap. An index out of range panics, as it does in Go. The two loops take
-- fuel; `Heap.Insert` and `Heap.Extract` show that the fuel given is enough. An index stays below
-- twice the length of the slice plus two, so `int` does not overflow on it.
pub mod Order
pub mod Insert
pub mod Extract
pub mod Queue
pub mod Tests
use kratos_demo.Prelude.{
  Bool, ◌&&◌, ℕ, zero, suc, ◌+◌, ◌-◌, ◌*◌, ◌/◌, ◌≡◌, ◌<◌, refl, true, false, List, [], ◌∷◌, ◌++◌,
  arith, ltb, ◌==◌, nat_comparable, if◌then◌else◌, Option, none, some, length, get_elem?, get_or,
  get_elem?-get_or, set, take, Outcome, ok, err, panic, out_of_fuel, ◌>>=◌,
}
use kratos_demo.Prelude.Int.{ℤ, pos, ltb_ℤ}

pub record MinHeap : Type 0 where
  pub items : List ℤ

-- The methods return no error value.
abbrev pub Run : Type 0 → Type 0
Run A = Outcome ⊥ A

-- `h.data[i]` of a slice, for statements.
abbrev pub at : List ℤ → ℕ → ℤ
at = get_or (pos 0)

-- `h.data[i]`.
unfoldable pub load : List ℤ → ℕ → Run ℤ
load a i = elim (get_elem? a i) [ none ↦ panic | some x ↦ ok x ]

unfoldable pub swap : List ℤ → ℕ → ℕ → Run (List ℤ)
swap a i j = do x ← load a i; y ← load a j; ok (set (set a i y) j x)

abbrev pub parent : ℕ → ℕ
parent i = (i - 1) / 2

abbrev pub left_child : ℕ → ℕ
left_child i = 2 * i + 1

abbrev pub right_child : ℕ → ℕ
right_child i = 2 * i + 2

-- `index > 0 && h.data[parent(index)] > h.data[index]`.
unfoldable pub must_rise : List ℤ → ℕ → Run Bool
must_rise a i =
    if ltb 0 i then (do p ← load a (parent i); x ← load a i; ok (ltb_ℤ x p)) else ok false

unfoldable pub bubble_up : ℕ → List ℤ → ℕ → Run (List ℤ)
bubble_up zero a i = out_of_fuel
bubble_up (suc k) a i = do
  rise ← must_rise a i
  elim rise [ true ↦ do b ← swap a (parent i) i; bubble_up k b (parent i) | false ↦ ok a ]

unfoldable pub insert : MinHeap → ℤ → Run MinHeap
insert h value = do
  let a = h.items ++ value ∷ []
  b ← bubble_up (length a) a (length a - 1)
  ok (record { items = b })

-- One of the two tests of `bubbleDown`: `child < n && h.data[child] < h.data[smallest]`.
unfoldable pub smaller : List ℤ → ℕ → ℕ → Run ℕ
smaller a child smallest =
    if ltb child (length a)
    then (do x ← load a child; y ← load a smallest; ok (if ltb_ℤ x y then child else smallest))
    else ok smallest

unfoldable pub smallest : List ℤ → ℕ → Run ℕ
smallest a i = do s ← smaller a (left_child i) i; smaller a (right_child i) s

unfoldable pub bubble_down : ℕ → List ℤ → ℕ → Run (List ℤ)
bubble_down zero a i = out_of_fuel
bubble_down (suc k) a i = do
  s ← smallest a i
  elim (s == i) [ true ↦ ok a | false ↦ do b ← swap a i s; bubble_down k b s ]

unfoldable pub extract_min : MinHeap → Run (ℤ × MinHeap)
extract_min h = if length h.items == 0 then panic else (do
  let last_index = length h.items - 1
  min ← load h.items 0
  x ← load h.items last_index
  let a = take last_index (set h.items 0 x)
  b ← bubble_down (length a + 1) a 0
  ok (min, record { items = b }))

pub load-ok : (a : List ℤ) (i : ℕ) → i < length a → load a i ≡ ok (at a i)
unfolding load
load-ok a i h = rw (get_elem?-get_or (pos 0) a i h, load)

abbrev pub swapped : List ℤ → ℕ → ℕ → List ℤ
swapped a i j = set (set a i (at a j)) j (at a i)

pub swap-ok : (a : List ℤ) (i j : ℕ) → i < length a → j < length a → swap a i j ≡ ok (swapped a i j)
unfolding swap
swap-ok a i j hi hj = rw (load-ok a i hi, load-ok a j hj)

pub must_rise-ok :
    (a : List ℤ) (i : ℕ)
    → i < length a
    → must_rise a i ≡ ok (ltb 0 i && ltb_ℤ (at a i) (at a (parent i)))
unfolding must_rise
must_rise-ok a i h = ground (arith, load-ok a i, load-ok a (parent i))

pub smaller-ok :
    (a : List ℤ) (c s : ℕ)
    → s < length a
    → smaller a c s ≡ ok (if ltb c (length a) && ltb_ℤ (at a c) (at a s) then c else s)
unfolding smaller
smaller-ok a c s h = ground (arith, load-ok a c, load-ok a s)

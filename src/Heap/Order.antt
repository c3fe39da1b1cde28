-- ===== src/Heap/Order.antt =====
-- The heap order, and what an exchange of two entries does to a slice.
use mathlib.Core.List.{Perm}
use mathlib.Core.List.Perm
use kratos_demo.Prelude.{
  ℕ, zero, suc, ◌<◌, ◌≡◌, List, arith, nat_beq, if◌then◌else◌, length, set, length-set, get_or-set,
  set-perm,
}
use kratos_demo.Prelude.Int.{ℤ, pos, ◌≤ℤ◌}
use kratos_demo.Heap.{at, parent, swapped}

-- No entry is below its parent's.
abbrev pub IsHeap : List ℤ → Type 0
IsHeap a = (c : ℕ) → 0 < c → c < length a → at a (parent c) ≤ℤ at a c

module _ (a : List ℤ) (i j : ℕ) where
  pub length-swapped : length (swapped a i j) ≡ length a
  length-swapped = rw (length-set, length-set)

  pub at-swapped :
      i < length a
      → j < length a
      → (c : ℕ)
      → at (swapped a i j) c
        ≡ (if nat_beq j c then at a i else if nat_beq i c then at a j else at a c)
  at-swapped hi hj c = rw (
    get_or-set (pos 0) (set a i (at a j)) j c (at a i) (rw length-set hj),
    get_or-set (pos 0) a i c (at a j) hi,
  )

  pub swapped-perm : i < length a → j < length a → Perm (swapped a i j) a
  swapped-perm hi hj =
      let b = set a i (at a j) in
      let e : at b j ≡ at a j = ground (arith, get_or-set (pos 0) a i j (at a j)) in
      let second = rw e at (set-perm (pos 0) b j (at a i) (rw length-set hj)) in
      Perm.cons_inv (Perm.trans second (set-perm (pos 0) a i (at a j) hi))

root_least_below : (k : ℕ) (a : List ℤ) (i : ℕ) → IsHeap a → i < k → i < length a → at a 0 ≤ℤ at a i
root_least_below zero a i h f p = absurd (omega arith)
root_least_below (suc k) a zero h f p = omega arith
root_least_below (suc k) a (suc i) h f p = omega (
  arith,
  h (suc i) (omega arith) p,
  root_least_below k a (parent (suc i)) h (omega arith) (omega arith),
)

-- The first entry of a heap is a least one.
pub root_least : (a : List ℤ) (i : ℕ) → IsHeap a → i < length a → at a 0 ≤ℤ at a i
root_least a i h p = root_least_below (suc i) a i h (omega arith) p

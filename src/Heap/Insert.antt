-- ===== src/Heap/Insert.antt =====
-- `Insert` and `bubbleUp`.
use mathlib.Core.Logic.{◌≢◌}
use mathlib.Core.List.{Perm}
use mathlib.Core.List.Perm
use kratos_demo.Prelude.{
  ℕ, zero, suc, ◌+◌, ◌-◌, ◌<◌, ◌≡◌, inl, inr, List, [], ◌∷◌, ◌++◌, true, ◌&&◌, arith, ltb,
  Bool-cases, length, length-append, get_or-append, concat-perm, Returns, returns, Returns-inv,
}
use kratos_demo.Prelude.Int.{ℤ, pos, ◌≤ℤ◌, ltb_ℤ}
use kratos_demo.Heap.{MinHeap, at, parent, swapped, bubble_up, insert, must_rise-ok, swap-ok}
use kratos_demo.Heap.Order.{IsHeap, length-swapped, at-swapped, swapped-perm}

-- `b` is in heap order and holds the entries of `a`.
abbrev pub Ordered : List ℤ → List ℤ → Type 0
Ordered a b = IsHeap b × Perm b a

-- Only the edge above `i` may be out of order; the entries below `i` are in order with `i`'s parent.
pub record IsRising (a : List ℤ) (i : ℕ) : Type 0 where
  pub inside : i < length a
  pub edges : (c : ℕ) → 0 < c → c < length a → c ≢ i → at a (parent c) ≤ℤ at a c
  pub below : (c : ℕ) → 0 < c → c < length a → parent c ≡ i → 0 < i → at a (parent i) ≤ℤ at a c

swapped-IsRising :
    (a : List ℤ) (i : ℕ)
    → IsRising a i
    → 0 < i
    → ltb_ℤ (at a i) (at a (parent i)) ≡ true
    → IsRising (swapped a (parent i) i) (parent i)
swapped-IsRising a i v p t =
    let up : parent i < length a = omega (arith, v.inside) in
    let size = length-swapped a (parent i) i in
    let new = at-swapped a (parent i) i up v.inside in
    record {
      inside = omega (arith, size);
      edges = λ c q r s. ground (arith, size, new c, new (parent c), v.edges c, v.below c);
      below = λ c q r s u.
          ground (arith, size, new c, new (parent (parent i)), v.edges c, v.edges (parent i));
    }

bubble_up-Ordered :
    (k : ℕ) (a : List ℤ) (i : ℕ) → i < k → IsRising a i → Returns (Ordered a) (bubble_up k a i)
unfolding bubble_up
bubble_up-Ordered zero a i f v = absurd (omega arith)
bubble_up-Ordered (suc k) a i f v =
    let up : parent i < length a = omega (arith, v.inside) in
    rw (must_rise-ok a i v.inside)
      (elim (Bool-cases (ltb 0 i && ltb_ℤ (at a i) (at a (parent i)))) [
        | inl e ↦
            let pos_i : 0 < i = ground arith in
            let lower : ltb_ℤ (at a i) (at a (parent i)) ≡ true = ground arith in
            let ih = Returns-inv (
              bubble_up-Ordered k (swapped a (parent i) i) (parent i) (omega arith)
                (swapped-IsRising a i v pos_i lower)) in
            rw (e, swap-ok a (parent i) i up v.inside, ih.1)
              (returns (ih.2.0, Perm.trans ih.2.1 (swapped-perm a (parent i) i up v.inside)))
        | inr e ↦ rw e (returns ((λ c p q. ground (arith, v.edges c p q)), Perm.rfl))
      ])

-- `Insert` into a heap returns, without a panic, a heap that holds exactly the old entries and the
-- new one.
pub insert_correct :
    (h : MinHeap) (value : ℤ)
    → IsHeap h.items
    → Returns (λ h'. IsHeap h'.items × Perm h'.items (value ∷ h.items)) (insert h value)
unfolding insert
insert_correct h value v =
    let a = h.items ++ value ∷ [] in
    let size : length a ≡ length h.items + 1 = length-append h.items (value ∷ []) in
    let old = λ (i : ℕ). get_or-append (pos 0) h.items (value ∷ []) i in
    let start : IsRising a (length a - 1) = record {
      inside = omega (arith, size);
      edges = λ c p q r. ground (arith, size, v c, old c, old (parent c));
      below = λ c p q r s. omega (arith, size);
    } in
    let done =
      Returns-inv (bubble_up-Ordered (length a) a (length a - 1) (omega (arith, size)) start) in
    rw done.1 (returns (done.2.0, Perm.trans done.2.1 (concat-perm h.items value)))

-- ===== src/Heap/Extract.antt =====
-- `ExtractMin` and `bubbleDown`.
use mathlib.Core.Logic.{◌≢◌}
use mathlib.Core.List.{Perm}
use mathlib.Core.List.Perm
use native.Mathlib.Decide.{ℕ_discrete}
use kratos_demo.Prelude.{
  ℕ, zero, suc, ◌+◌, ◌-◌, ◌<◌, ◌≡◌, refl, inl, inr, ◌⊎◌, List, [], ◌∷◌, true, false, ◌&&◌, arith,
  ltb, ◌==◌, nat_comparable, if◌then◌else◌, Bool-cases, length, take, set, length-set, get_or-set,
  get_or-take, length-take, take-append-last, concat-perm, Returns, returns, Returns-bind,
  Returns-inv, Returns-map, ◌↔◌, ok, panic,
}
use kratos_demo.Prelude.Int.{ℤ, pos, ◌≤ℤ◌, ltb_ℤ}
use kratos_demo.Heap.{
  MinHeap, at, parent, left_child, right_child, swapped, smaller, smallest, bubble_down,
  extract_min, load-ok, smaller-ok, swap-ok,
}
use kratos_demo.Heap.Order.{IsHeap, length-swapped, at-swapped, swapped-perm, root_least}
use kratos_demo.Heap.Insert.{Ordered}

-- Only the edges below `i` may be out of order; the entries below `i` are in order with `i`'s parent.
pub record IsSinking (a : List ℤ) (i : ℕ) : Type 0 where
  pub edges : (c : ℕ) → 0 < c → c < length a → parent c ≢ i → at a (parent c) ≤ℤ at a c
  pub below : (c : ℕ) → 0 < c → c < length a → parent c ≡ i → 0 < i → at a (parent i) ≤ℤ at a c

-- What `bubbleDown` picks: `i`, or a child of it with a smaller entry, and nothing below `i` is less.
record IsSmallest (a : List ℤ) (i s : ℕ) : Type 0 where
  inside : s < length a
  picked : (s ≡ i) ⊎ ((parent s ≡ i) × (i < s) × (ltb_ℤ (at a s) (at a i) ≡ true))
  least : (c : ℕ) → 0 < c → c < length a → parent c ≡ i → at a s ≤ℤ at a c

-- The outcome of one test of `bubbleDown`.
abbrev pick : List ℤ → ℕ → ℕ → ℕ
pick a c s = if ltb c (length a) && ltb_ℤ (at a c) (at a s) then c else s

record IsPick (a : List ℤ) (c s r : ℕ) : Type 0 where
  inside : r < length a
  either : (r ≡ s) ⊎ ((r ≡ c) × (ltb_ℤ (at a r) (at a s) ≡ true))
  le_old : at a r ≤ℤ at a s
  le_child : c < length a → at a r ≤ℤ at a c

pick-IsPick : (a : List ℤ) (c s : ℕ) → s < length a → IsPick a c s (pick a c s)
pick-IsPick a c s h = record {
  inside = ground arith;
  either = ground arith;
  le_old = ground arith;
  le_child = λ q. ground arith;
}

IsPick-IsSmallest :
    (a : List ℤ) (i s t : ℕ)
    → IsPick a (left_child i) i s
    → IsPick a (right_child i) s t
    → IsSmallest a i t
IsPick-IsSmallest a i s t l r = record {
  inside = r.inside;
  picked = ground (arith, l.either, r.either);
  least = λ c p q e.
      let child : (c ≡ left_child i) ⊎ (c ≡ right_child i) = omega arith in
      ground (arith, child, l.le_child, r.le_child, r.le_old);
}

smallest-IsSmallest : (a : List ℤ) (i : ℕ) → i < length a → Returns (IsSmallest a i) (smallest a i)
unfolding smallest
smallest-IsSmallest a i h =
    let l = pick-IsPick a (left_child i) i h in
    let r = pick-IsPick a (right_child i) (pick a (left_child i) i) l.inside in
    rw
      (
        smaller-ok a (left_child i) i h,
        smaller-ok a (right_child i) (pick a (left_child i) i) l.inside,
      )
      (returns (IsPick-IsSmallest a i _ _ l r))

swapped-IsSinking :
    (a : List ℤ) (i s : ℕ)
    → i < length a
    → IsSinking a i
    → IsSmallest a i s
    → i < s
    → parent s ≡ i
    → IsSinking (swapped a i s) s
swapped-IsSinking a i s hi v m lt e =
    let size = length-swapped a i s in
    let new = at-swapped a i s hi m.inside in
    record {
      edges = λ c q r t. ground (
        arith,
        size,
        new c,
        new (parent c),
        v.edges c,
        v.below c,
        v.below s,
        m.least c,
        m.least s,
      );
      below = λ c q r t u. ground (arith, size, new c, new (parent s), v.edges c);
    }

bubble_down-Ordered :
    (k : ℕ) (a : List ℤ) (i : ℕ)
    → length a - i < k
    → i < length a
    → IsSinking a i
    → Returns (Ordered a) (bubble_down k a i)
unfolding bubble_down
bubble_down-Ordered zero a i f hi v = absurd (omega arith)
bubble_down-Ordered (suc k) a i f hi v = Returns-bind (smallest-IsSmallest a i hi) λ s m.
    elim (Bool-cases (s == i)) [
      | inl e ↦ rw e (returns ((λ c p q. ground (arith, v.edges c p q, m.least c p q)), Perm.rfl))
      | inr e ↦
          let lt : i < s = ground (arith, m.picked) in
          let edge : parent s ≡ i = ground (arith, m.picked) in
          let size = length-swapped a i s in
          rw (e, swap-ok a i s hi m.inside)
            (Returns-map
              (bubble_down-Ordered k (swapped a i s) s (omega (arith, size, m.inside))
                (omega (arith, size, m.inside)) (swapped-IsSinking a i s hi v m lt edge))
              λ b ordered. (ordered.0, Perm.trans ordered.1 (swapped-perm a i s hi m.inside)))
    ]

-- What `ExtractMin` returns: a least entry, and a heap of the others.
pub record IsExtracted (a : List ℤ) (r : ℤ × MinHeap) : Type 0 where
  pub heap : IsHeap r.1.items
  pub same : Perm (r.0 ∷ r.1.items) a
  pub least : (i : ℕ) → i < length a → r.0 ≤ℤ at a i

-- The slice that `ExtractMin` hands to `bubbleDown`.
abbrev cut : List ℤ → ℕ → List ℤ
cut a n = take n (set a 0 (at a n))

cut-perm : (a : List ℤ) (n : ℕ) → length a ≡ suc n → Perm (at a 0 ∷ cut a n) a
cut-perm (x ∷ a) zero e = let none_left : a ≡ [] = grind arith in rw none_left (Perm.refl (x ∷ []))
cut-perm (x ∷ a) (suc n) e =
    let whole = take-append-last (pos 0) n a (omega arith) in
    Perm.cons x (rw whole at (Perm.symm (concat-perm (take n a) (at a n))))
cut-perm [] n e = absurd (omega arith)

cut-IsSinking :
    (a : List ℤ) (n : ℕ)
    → length a ≡ suc n
    → IsHeap a
    → (length (cut a n) ≡ n) × IsSinking (cut a n) 0
cut-IsSinking a n e v =
    let size : length (cut a n) ≡ n =
      length-take n (set a 0 (at a n)) (omega (arith, length-set a 0 (at a n))) in
    let old = λ (i : ℕ). get_or-take (pos 0) n (set a 0 (at a n)) i in
    let new = λ (i : ℕ). get_or-set (pos 0) a 0 i (at a n) (omega arith) in
    (
      size,
      record {
        edges = λ c p q r. ground (arith, size, old c, old (parent c), new c, new (parent c), v c);
        below = λ c p q r s. omega arith;
      },
    )

bubble_down-empty : (a : List ℤ) → length a ≡ 0 → bubble_down (length a + 1) a 0 ≡ ok a
unfolding bubble_down smallest smaller
bubble_down-empty [] e = refl
bubble_down-empty (x ∷ a) e = absurd (omega arith)

bubble_down_root :
    (a : List ℤ) → IsSinking a 0 → Returns (Ordered a) (bubble_down (length a + 1) a 0)
bubble_down_root [] v =
    rw (bubble_down-empty [] refl) (returns ((λ c p q. absurd (omega arith)), Perm.rfl))
bubble_down_root (x ∷ a) v =
    bubble_down-Ordered (length (x ∷ a) + 1) (x ∷ a) 0 (omega arith) (omega arith) v

-- A heap that is not empty gives up a least entry without a panic; the other entries stay, each as
-- often as before, in heap order.
pub extract_min_correct :
    (h : MinHeap)
    → IsHeap h.items
    → 0 < length h.items
    → Returns (IsExtracted h.items) (extract_min h)
unfolding extract_min
extract_min_correct h v p =
    let a = h.items in
    let n = length a - 1 in
    let some_left : (length a == 0) ≡ false = ground arith in
    let sinking = cut-IsSinking a n (omega arith) v in
    rw (some_left, load-ok a 0 p, load-ok a n (omega arith))
      (Returns-bind (bubble_down_root (cut a n) sinking.1) λ b ordered. returns (record {
        heap = ordered.0;
        same = Perm.trans (Perm.cons (at a 0) ordered.1) (cut-perm a n (omega arith));
        least = λ i q. root_least a i v q;
      }))

-- `ExtractMin` panics on an empty heap, and on no heap that is not empty.
pub extract_min-panic_iff :
    (h : MinHeap) → IsHeap h.items → (extract_min h ≡ panic) ↔ (length h.items ≡ 0)
unfolding extract_min
extract_min-panic_iff h v = (
  λ e. elim (ℕ_discrete (length h.items) 0) [
    | yes z ↦ z
    | no z ↦
        let (r, returned, _) = Returns-inv (extract_min_correct h v (omega arith)) in
        absurd (ground (arith, e, returned))
  ],
  λ z. ground arith,
)

-- ===== src/Heap/Queue.antt =====
-- cmd/heapx/heapx.go: the heap as a priority queue. The specification is a sorted list.
use mathlib.Core.List.{Perm, Mem, not-mem-nil, mem-cons_self, eq-or-mem_of_mem-cons}
use mathlib.Core.List.Perm
use mathlib.Core.Logic.Or
use native.Mathlib.Bridge.{le_prop}
use kratos_demo.Prelude.{
  ℕ, suc, ◌<◌, ◌≡◌, refl, sym, subst, inl, inr, List, [], ◌∷◌, arith, if◌then◌else◌, Bool-cases,
  length, length-perm, ok, panic, ◌>>=◌, Returns, Returns-inv, Returns-map,
}
use kratos_demo.Prelude.Int.{ℤ, ◌≤ℤ◌, ltb_ℤ, eq_of_parts}
use kratos_demo.Heap.{MinHeap, Run, at, insert, extract_min}
use kratos_demo.Heap.Order.{IsHeap}
use kratos_demo.Heap.Insert.{insert_correct}
use kratos_demo.Heap.Extract.{extract_min_correct, extract_min-panic_iff}

-- A call of the program.
pub data Call : Type 0 where
  insertion : ℤ → Call
  extraction : Call

-- Calls on a heap, one after another: what the extractions return.
unfoldable pub heap_run : List Call → MinHeap → Run (List ℤ)
heap_run [] h = ok []
heap_run (insertion value ∷ calls) h = do g ← insert h value; heap_run calls g
heap_run (extraction ∷ calls) h = do
  (min, g) ← extract_min h
  rest ← heap_run calls g
  ok (min ∷ rest)

unfoldable pub ordered_insert : ℤ → List ℤ → List ℤ
ordered_insert x [] = x ∷ []
ordered_insert x (y ∷ s) = if ltb_ℤ y x then y ∷ ordered_insert x s else x ∷ y ∷ s

-- The same calls on a sorted list.
unfoldable pub sorted_run : List Call → List ℤ → Run (List ℤ)
sorted_run [] s = ok []
sorted_run (insertion value ∷ calls) s = sorted_run calls (ordered_insert value s)
sorted_run (extraction ∷ calls) [] = panic
sorted_run (extraction ∷ calls) (x ∷ s) = do rest ← sorted_run calls s; ok (x ∷ rest)

IsBelow : ℤ → List ℤ → Type 0
IsBelow x s = (y : ℤ) → Mem y s → x ≤ℤ y

abbrev IsSorted : List ℤ → Type 0
IsSorted [] = Unit {0}
IsSorted (x ∷ s) = IsBelow x s × IsSorted s

≤ℤ-prop : (x y : ℤ) → IsProp (x ≤ℤ y)
≤ℤ-prop x y = le_prop

IsBelow-cons : (x y : ℤ) (s : List ℤ) → x ≤ℤ y → IsBelow x s → IsBelow x (y ∷ s)
unfolding IsBelow
IsBelow-cons x y s h b z m =
    Or.elim (≤ℤ-prop x z) (eq-or-mem_of_mem-cons m) (λ e. subst (λ v. x ≤ℤ v) (sym e) h) (b z)

least-IsBelow : (x : ℤ) (a : List ℤ) → ((i : ℕ) → i < length a → x ≤ℤ at a i) → IsBelow x a
unfolding IsBelow
least-IsBelow x [] h = λ y m. absurd (not-mem-nil m)
least-IsBelow x (z ∷ a) h =
    IsBelow-cons x z a (h 0 (omega arith)) (least-IsBelow x a (λ i l. h (suc i) (omega arith)))

IsBelow-perm : (x : ℤ) (s t : List ℤ) → Perm t s → IsBelow x s → IsBelow x t
unfolding IsBelow
IsBelow-perm x s t p b y m = b y ((Perm.mem_iff p).0 m)

ordered_insert-perm : (x : ℤ) (s : List ℤ) → Perm (ordered_insert x s) (x ∷ s)
unfolding ordered_insert
ordered_insert-perm x [] = Perm.rfl
ordered_insert-perm x (y ∷ s) = elim (Bool-cases (ltb_ℤ y x)) [
  | inl e ↦ rw e (Perm.trans (Perm.cons y (ordered_insert-perm x s)) (Perm.swap x y s))
  | inr e ↦ rw e Perm.rfl
]

ordered_insert-IsSorted : (x : ℤ) (s : List ℤ) → IsSorted s → IsSorted (ordered_insert x s)
unfolding ordered_insert IsBelow
ordered_insert-IsSorted x [] h = (λ y m. absurd (not-mem-nil m), tt)
ordered_insert-IsSorted x (y ∷ s) (b, h) = elim (Bool-cases (ltb_ℤ y x)) [
  | inl e ↦ rw e (
    IsBelow-perm y (x ∷ s) (ordered_insert x s) (ordered_insert-perm x s)
        (IsBelow-cons y x s (ground (arith, e)) b),
    ordered_insert-IsSorted x s h,
  )
  | inr e ↦
      let l : x ≤ℤ y = ground (arith, e) in
      rw e (IsBelow-cons x y s l (λ z m. let q : y ≤ℤ z = b z m in omega arith), (b, h))
]

-- A heap that has the entries of a sorted list.
abbrev Represents : MinHeap → List ℤ → Type 0
Represents h s = IsHeap h.items × Perm h.items s × IsSorted s

insert-Represents :
    (h : MinHeap) (s : List ℤ) (value : ℤ)
    → Represents h s
    → Returns (λ g. Represents g (ordered_insert value s)) (insert h value)
insert-Represents h s value (v, p, o) = Returns-map (insert_correct h value v) λ g (w, q). (
  w,
  Perm.trans q (Perm.trans (Perm.cons value p) (Perm.symm (ordered_insert-perm value s))),
  ordered_insert-IsSorted value s o,
)

-- Two lists with the same entries, each with a least entry in front.
least-eq : (x y : ℤ) (s t : List ℤ) → Perm (x ∷ s) (y ∷ t) → IsBelow x (y ∷ t) → IsBelow y t → x ≡ y
unfolding IsBelow
least-eq x y s t p b c =
    let l : x ≤ℤ y = b y mem-cons_self in
    let g : y ≤ℤ x = IsBelow-cons y y t (omega arith) c x ((Perm.mem_iff p).0 mem-cons_self) in
    eq_of_parts x y (omega arith)

extract-Represents :
    (h : MinHeap) (x : ℤ) (s : List ℤ)
    → Represents h (x ∷ s)
    → Returns (λ (min, g). (min ≡ x) × Represents g s) (extract_min h)
extract-Represents h x s (v, p, (b, o)) =
    let size : length h.items ≡ suc (length s) = length-perm p in
    Returns-map (extract_min_correct h v (omega arith)) λ (min, g) r.
      let q = Perm.trans r.same p in
      let e =
        least-eq min x g.items s q
          (IsBelow-perm min h.items (x ∷ s) (Perm.symm p) (least-IsBelow min h.items r.least)) b in
      (e, (r.heap, Perm.cons_inv (subst (λ z. Perm (z ∷ g.items) (x ∷ s)) e q), o))

heap_run-sorted_run_from :
    (calls : List Call) (h : MinHeap) (s : List ℤ)
    → Represents h s
    → heap_run calls h ≡ sorted_run calls s
unfolding heap_run sorted_run
heap_run-sorted_run_from [] h s r = refl
heap_run-sorted_run_from (insertion value ∷ calls) h s r =
    let (g, e, q) = Returns-inv (insert-Represents h s value r) in
    rw e (heap_run-sorted_run_from calls g (ordered_insert value s) q)
heap_run-sorted_run_from (extraction ∷ calls) h [] (v, p, o) =
    let e = (extract_min-panic_iff h v).1 (length-perm p) in rw e refl
heap_run-sorted_run_from (extraction ∷ calls) h (x ∷ s) r =
    let ((min, g), e, (m, q)) = Returns-inv (extract-Represents h x s r) in
    rw (e, m, heap_run-sorted_run_from calls g s q) refl

-- Whatever calls are made of a new heap, its extractions return what a sorted list gives up from the
-- front, and an extraction panics exactly where the list has run empty.
pub heap_run-sorted_run :
    (calls : List Call) → heap_run calls (record { items = [] }) ≡ sorted_run calls []
heap_run-sorted_run calls =
    heap_run-sorted_run_from calls (record { items = [] }) []
      ((λ c p q. absurd (omega arith)), Perm.rfl, tt)

-- ===== src/Heap/Tests.antt =====
-- The calls of `main` in cmd/heapx/heapx.go, and the theorems at concrete heaps.
use mathlib.Core.List.{Perm}
use kratos_demo.Prelude.{◌≡◌, refl, List, [], ◌∷◌, arith, ok, ◌>>=◌, Returns}
use kratos_demo.Prelude.Int.{ℤ, pos, negsuc}
use kratos_demo.Heap.{
  MinHeap, Run, load, swap, must_rise, bubble_up, insert, smaller, smallest, bubble_down,
  extract_min,
}
use kratos_demo.Heap.Order.{IsHeap}
use kratos_demo.Heap.Insert.{insert_correct}
use kratos_demo.Heap.Queue.{
  Call, insertion, extraction, heap_run, sorted_run, ordered_insert, heap_run-sorted_run,
}
use kratos_demo.Heap.Extract.{IsExtracted, extract_min_correct}

insert_all : MinHeap → List ℤ → Run MinHeap
insert_all h [] = ok h
insert_all h (v ∷ vs) = do g ← insert h v; insert_all g vs

abbrev inputs : List ℤ
inputs = pos 3 ∷ pos 1 ∷ pos 4 ∷ pos 1 ∷ pos 5 ∷ pos 9 ∷ pos 2 ∷ pos 6 ∷ pos 5 ∷ pos 3 ∷ []

session : Run (ℤ × MinHeap)
unfolding insert_all insert bubble_up must_rise swap load extract_min bubble_down smallest smaller
session = do h ← insert_all (record { items = [] }) inputs; extract_min h

session_result :
    session
    ≡ ok (
      pos 1,
      record { items = pos 1 ∷ pos 3 ∷ pos 2 ∷ pos 5 ∷ pos 3 ∷ pos 9 ∷ pos 4 ∷ pos 6 ∷ pos 5 ∷ [] },
    )
unfolding session
session_result = refl

abbrev sample : MinHeap
sample = record { items = negsuc 1 ∷ pos 4 ∷ pos 3 ∷ pos 7 ∷ [] }

sample-IsHeap : IsHeap sample.items
sample-IsHeap = grind arith

insert_correct_example :
    Returns (λ h. IsHeap h.items × Perm h.items (pos 0 ∷ sample.items)) (insert sample (pos 0))
insert_correct_example = insert_correct sample (pos 0) sample-IsHeap

extract_min_correct_example : Returns (IsExtracted sample.items) (extract_min sample)
extract_min_correct_example = extract_min_correct sample sample-IsHeap (omega arith)

-- Some calls as `main` has them.
abbrev calls : List Call
calls = insertion (pos 3) ∷ insertion (negsuc 1) ∷ insertion (pos 1) ∷ extraction ∷ extraction ∷ []

heap_run-sorted_run_example : heap_run calls (record { items = [] }) ≡ ok (negsuc 1 ∷ pos 1 ∷ [])
unfolding sorted_run ordered_insert
heap_run-sorted_run_example = heap_run-sorted_run calls

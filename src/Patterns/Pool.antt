-- ===== src/Patterns/Pool.antt =====
-- cmd/unsafe/unsafe.go: the pool of objects, a slice of pointers that are taken back from its end.
use mathlib.Core.List.{reverse-cons, reverse-reverse}
use kratos_demo.Prelude.{
  ◌+◌, ◌-◌, ◌≡◌, refl, ap, subst, ◌∙◌, Option, none, some, List, [], ◌∷◌, ◌++◌, reverse, length,
  length-append, get_elem?, get_elem?-append_last, take, arith, if◌then◌else◌, ltb,
}

pub data Op {ℓ} (A : Type ℓ) : Type ℓ where
  do_put : A → Op A
  do_get : Op A

module _ {ℓ} {A : Type ℓ} where
  unfoldable pub put : List A → A → List A
  put free_list obj = free_list ++ obj ∷ []

  -- `none` is nil.
  unfoldable pub get : List A → Option A × List A
  get free_list =
      if ltb 0 (length free_list)
      then (get_elem? free_list (length free_list - 1), take (length free_list - 1) free_list)
      else (none, free_list)

  take-append : (xs ys : List A) → take (length xs) (xs ++ ys) ≡ xs
  take-append [] ys = refl
  take-append (x ∷ xs) ys = ap (◌∷◌ x) (take-append xs ys)

  -- `Get` takes back what `Put` has put last, and leaves the rest.
  pub get-put : (free_list : List A) (obj : A) → get (put free_list obj) ≡ (some obj, free_list)
  unfolding get put
  get-put free_list obj =
      let e : length (free_list ++ obj ∷ []) ≡ length free_list + 1 =
        length-append free_list (obj ∷ []) in
      let f : length free_list + 1 - 1 ≡ length free_list = omega arith in
      rw (e, f, get_elem?-append_last free_list obj, take-append free_list (obj ∷ []))
        (ground arith)

  -- Some calls in a row: what the `Get`s returned, and the pool.
  unfoldable pub run : List (Op A) → List A → List (Option A) × List A
  run [] free_list = ([], free_list)
  run (do_put obj ∷ ops) free_list = run ops (put free_list obj)
  run (do_get ∷ ops) free_list =
      let (obj, left) = get free_list in
      let (objs, free_list') = run ops left in (obj ∷ objs, free_list')

  -- The same calls on a stack with its top first.
  abbrev pub run_stack : List (Op A) → List A → List (Option A) × List A
  run_stack [] stack = ([], stack)
  run_stack (do_put obj ∷ ops) stack = run_stack ops (obj ∷ stack)
  run_stack (do_get ∷ ops) [] = let (objs, stack') = run_stack ops [] in (none ∷ objs, stack')
  run_stack (do_get ∷ ops) (obj ∷ stack) =
      let (objs, stack') = run_stack ops stack in (some obj ∷ objs, stack')

  run-reverse :
      (ops : List (Op A)) (stack : List A)
      → run ops (reverse stack) ≡ ((run_stack ops stack).0, reverse (run_stack ops stack).1)
  unfolding run put get
  run-reverse [] stack = refl
  run-reverse (do_put obj ∷ ops) stack =
      subst
        (λ p.
          run ops p ≡ ((run_stack ops (obj ∷ stack)).0, reverse (run_stack ops (obj ∷ stack)).1))
        (reverse-cons obj stack) (run-reverse ops (obj ∷ stack))
  run-reverse (do_get ∷ ops) [] = ap (λ r. (none ∷ r.0, r.1)) (run-reverse ops [])
  run-reverse (do_get ∷ ops) (obj ∷ stack) =
      ap (λ g. (g.0 ∷ (run ops g.1).0, (run ops g.1).1))
        (ap get (reverse-cons obj stack) ∙ get-put (reverse stack) obj)
      ∙ ap (λ r. (some obj ∷ r.0, r.1)) (run-reverse ops stack)

  -- The pool is a stack: for any calls, from any pool, the `Get`s return what they would from a stack
  -- that holds the pool's objects, the last one on top, and the pool is that stack again at the end.
  pub run-run_stack :
      (ops : List (Op A)) (free_list : List A)
      → run ops free_list
        ≡ ((run_stack ops (reverse free_list)).0, reverse (run_stack ops (reverse free_list)).1)
  run-run_stack ops free_list =
      subst
        (λ p.
          run ops p
          ≡ ((run_stack ops (reverse free_list)).0, reverse (run_stack ops (reverse free_list)).1))
        (reverse-reverse free_list) (run-reverse ops (reverse free_list))

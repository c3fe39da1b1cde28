-- ===== src/Patterns/Condition/Runs.antt =====
-- How the runs of cmd/condx/condx.go end.
use kratos_demo.Prelude.{
  ℕ, suc, ◌+◌, ◌*◌, ◌≤◌, ◌<◌, ◌≡◌, refl, sym, ap, subst, ◌∙◌, ◌⊎◌, inl, inr, List, [], ◌∷◌, ◌++◌,
  length, length-append, if◌then◌else◌, ◌==◌, nat_comparable, arith,
}
use kratos_demo.Patterns.Condition.{
  Act, signal, broadcast, Program, started, main_started, wait, wake_one, wake_none, wake_all,
  print, late_after, Step, waits, signals, signals_none, broadcasts, prints, Run, stay, step,
}

-- How often a goroutine stands in a list.
abbrev pub count : ℕ → List ℕ → ℕ
count y [] = 0
count y (x ∷ xs) = (if x == y then 1 else 0) + count y xs

count-append : (y : ℕ) (xs ys : List ℕ) → count y (xs ++ ys) ≡ count y xs + count y ys
count-append y [] ys = omega arith
count-append y (x ∷ xs) ys = omega (arith, count-append y xs ys)

count-middle :
    (y x : ℕ) (xs ys : List ℕ)
    → count y (xs ++ x ∷ ys) ≡ (if x == y then 1 else 0) + count y (xs ++ ys)
count-middle y x xs ys = omega (arith, count-append y xs (x ∷ ys), count-append y xs ys)

length-middle : (x : ℕ) (xs ys : List ℕ) → length (xs ++ x ∷ ys) ≡ suc (length (xs ++ ys))
length-middle x xs ys = omega (arith, length-append xs (x ∷ ys), length-append xs ys)

abbrev pub measure : Program → ℕ
measure s = 3 * length s.starting + 2 * length s.waiting + length s.woken + length s.main_acts

-- Every step brings the program nearer to its end.
Step-measure : (s t : Program) → Step s t → measure t < measure s
Step-measure s t (waits xs ys x h) = omega (arith, ap length h, length-middle x xs ys)
Step-measure s t (signals rest xs ys x g h) =
    omega (arith, ap length g, ap length h, length-middle x xs ys)
Step-measure s t (signals_none rest g h) = omega (arith, ap length g)
Step-measure s t (broadcasts rest g) = omega (arith, ap length g, length-append s.waiting s.woken)
Step-measure s t (prints xs ys x h) = omega (arith, ap length h, length-middle x xs ys)

Run-measure : (s : Program) (n : ℕ) (t : Program) → Run s n t → n + measure t ≤ measure s
Run-measure s n t stay = omega arith
Run-measure s n t (step {n = m} {t = u} r k) =
    omega (arith, Run-measure s m u r, Step-measure u t k)

-- No run of the program has more than 33 steps: three for each of the ten goroutines and three of the
-- main one.
pub main_started-Run : (n : ℕ) (t : Program) → Run main_started n t → n ≤ 33
main_started-Run n t r = omega (arith, Run-measure main_started n t r)

abbrev held : ℕ → Program → ℕ
held y s = count y s.starting + count y s.waiting + count y s.woken + count y s.printed

-- No goroutine is lost, and none is there twice.
Step-held : (y : ℕ) (s t : Program) → Step s t → held y t ≡ held y s
Step-held y s t (waits xs ys x h) = omega (arith, ap (count y) h, count-middle y x xs ys)
Step-held y s t (signals rest xs ys x g h) = omega (arith, ap (count y) h, count-middle y x xs ys)
Step-held y s t (signals_none rest g h) = refl
Step-held y s t (broadcasts rest g) = omega (arith, count-append y s.waiting s.woken)
Step-held y s t (prints xs ys x h) = omega (arith, ap (count y) h, count-middle y x xs ys)

Run-held : (y : ℕ) (s : Program) (n : ℕ) (t : Program) → Run s n t → held y t ≡ held y s
Run-held y s n t stay = refl
Run-held y s n t (step {n = m} {t = u} r k) = Step-held y u t k ∙ Run-held y s m u r

-- What the main goroutine has still to do ends with a broadcast.
EndsInBroadcast : List Act → Type 0
EndsInBroadcast [] = ⊥
EndsInBroadcast (signal ∷ rest) = EndsInBroadcast rest
EndsInBroadcast (broadcast ∷ []) = Unit {0}
EndsInBroadcast (broadcast ∷ act ∷ rest) = EndsInBroadcast (act ∷ rest)

-- Once the main goroutine is done, only the late ones wait.
IsTimed : Program → Type 0
IsTimed s =
    (EndsInBroadcast s.main_acts × (s.late ≡ [])) ⊎ ((s.main_acts ≡ []) × (s.waiting ≡ s.late))

late_after-ends :
    (m : List Act) (x : ℕ) (late : List ℕ) → EndsInBroadcast m → late_after m x late ≡ late
unfolding EndsInBroadcast
late_after-ends [] x late e = absurd e
late_after-ends (act ∷ m) x late e = refl

signal-ends : (m rest : List Act) → m ≡ signal ∷ rest → EndsInBroadcast m → EndsInBroadcast rest
unfolding EndsInBroadcast
signal-ends m rest h e = subst EndsInBroadcast h e

broadcast-ends :
    (m rest : List Act)
    → m ≡ broadcast ∷ rest
    → EndsInBroadcast m
    → EndsInBroadcast rest ⊎ (rest ≡ [])
unfolding EndsInBroadcast
broadcast-ends m [] h e = inr refl
broadcast-ends m (act ∷ rest) h e = inl (subst EndsInBroadcast h e)

Step-IsTimed : (s t : Program) → Step s t → IsTimed s → IsTimed t
unfolding IsTimed
Step-IsTimed s t (waits xs ys x h) (inl (e, l)) =
    inl (e, late_after-ends s.main_acts x s.late e ∙ l)
Step-IsTimed s t (waits xs ys x h) (inr (m, w)) =
    inr (m, ap (λ ws. x ∷ ws) w ∙ sym (ap (λ a. late_after a x s.late) m))
Step-IsTimed s t (signals rest xs ys x g h) (inl (e, l)) = inl (signal-ends s.main_acts rest g e, l)
Step-IsTimed s t (signals rest xs ys x g h) (inr (m, w)) = absurd (cc (g, m))
Step-IsTimed s t (signals_none rest g h) (inl (e, l)) = inl (signal-ends s.main_acts rest g e, l)
Step-IsTimed s t (signals_none rest g h) (inr (m, w)) = absurd (cc (g, m))
Step-IsTimed s t (broadcasts rest g) (inl (e, l)) = elim (broadcast-ends s.main_acts rest g e) [
  | inl e' ↦ inl (e', l)
  | inr m ↦ inr (m, sym l)
]
Step-IsTimed s t (broadcasts rest g) (inr (m, w)) = absurd (cc (g, m))
Step-IsTimed s t (prints xs ys x h) (inl (e, l)) = inl (e, l)
Step-IsTimed s t (prints xs ys x h) (inr (m, w)) = inr (m, w)

started-IsTimed : (goroutines : List ℕ) → IsTimed (started goroutines)
unfolding IsTimed EndsInBroadcast
started-IsTimed goroutines = inl (tt, refl)

Run-IsTimed : (s : Program) (n : ℕ) (t : Program) → Run s n t → IsTimed s → IsTimed t
Run-IsTimed s n t stay h = h
Run-IsTimed s n t (step {n = m} {t = u} r k) h = Step-IsTimed u t k (Run-IsTimed s m u r h)

List-cases : {A : Type 0} (xs : List A) → (xs ≡ []) ⊎ ((x : A) × (rest : List A) × (xs ≡ x ∷ rest))
List-cases [] = inl refl
List-cases (x ∷ xs) = inr (x, xs, refl)

module _ (s : Program) (stuck : (t : Program) → Step s t → ⊥) where
  stuck-starting : s.starting ≡ []
  stuck-starting = elim (List-cases s.starting) [
    | inl h ↦ h
    | inr (x, rest, h) ↦ absurd (stuck (wait rest x s) (waits [] rest x h))
  ]

  stuck-woken : s.woken ≡ []
  stuck-woken = elim (List-cases s.woken) [
    | inl h ↦ h
    | inr (x, rest, h) ↦ absurd (stuck (print rest x s) (prints [] rest x h))
  ]

  no_signal : (rest : List Act) → s.main_acts ≡ signal ∷ rest → ⊥
  no_signal rest g = elim (List-cases s.waiting) [
    | inl h ↦ stuck (wake_none rest s) (signals_none rest g h)
    | inr (x, others, h) ↦ stuck (wake_one rest others x s) (signals rest [] others x g h)
  ]

  no_act : (act : Act) (rest : List Act) → s.main_acts ≡ act ∷ rest → ⊥
  no_act signal rest g = no_signal rest g
  no_act broadcast rest g = stuck (wake_all rest s) (broadcasts rest g)

  stuck-main_acts : s.main_acts ≡ []
  stuck-main_acts = elim (List-cases s.main_acts) [
    | inl h ↦ h
    | inr (act, rest, h) ↦ absurd (no_act act rest h)
  ]

no_EndsInBroadcast : (m : List Act) → m ≡ [] → EndsInBroadcast m → ⊥
unfolding EndsInBroadcast
no_EndsInBroadcast m h e = subst EndsInBroadcast h e

-- Where a run ends, so that no step is left, the goroutines that have printed and those that began to
-- wait after the broadcast are the goroutines that were started, each once: nobody else is left waiting.
pub started-ends :
    (goroutines : List ℕ) (n : ℕ) (s : Program)
    → Run (started goroutines) n s
    → ((t : Program) → Step s t → ⊥)
    → (y : ℕ) → count y s.printed + count y s.late ≡ count y goroutines
unfolding IsTimed
started-ends goroutines n s r stuck y =
    let kept = Run-held y (started goroutines) n s r in
    let none_starts = ap (count y) (stuck-starting s stuck) in
    let none_woken = ap (count y) (stuck-woken s stuck) in
    let waiting_late : count y s.waiting ≡ count y s.late =
      elim (Run-IsTimed (started goroutines) n s r (started-IsTimed goroutines)) [
        | inl (e, l) ↦ absurd (no_EndsInBroadcast s.main_acts (stuck-main_acts s stuck) e)
        | inr (m, w) ↦ ap (count y) w
      ] in
    omega (arith, kept, none_starts, none_woken, waiting_late)

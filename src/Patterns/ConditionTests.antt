-- ===== src/Patterns/ConditionTests.antt =====
-- Runs of the condition variable's program.
use kratos_demo.Prelude.{ℕ, ◌+◌, ◌≡◌, refl, ap, List, [], ◌∷◌, ◌++◌, length, length-append, arith}
use kratos_demo.Patterns.Condition.{
  signal, broadcast, Program, started, Step, waits, signals, signals_none, broadcasts, prints, Run,
  stay, step,
}
use kratos_demo.Patterns.Condition.Runs.{count, started-ends}

-- One goroutine, which waits, is woken by the first signal and prints.
abbrev ended : Program
ended = record {
  main_acts = [];
  starting = [];
  waiting = [];
  woken = [];
  printed = 7 ∷ [];
  late = [];
}

seven_Run : Run (started (7 ∷ [])) 5 ended
seven_Run =
    step
      (step
        (step
          (step (step stay (waits [] [] 7 refl))
            (signals (signal ∷ broadcast ∷ []) [] [] 7 refl refl))
          (signals_none (broadcast ∷ []) refl refl))
        (prints [] [] 7 refl))
      (broadcasts [] refl)

nil-middle : (x : ℕ) (xs ys : List ℕ) → [] ≡ xs ++ x ∷ ys → ⊥
nil-middle x xs ys h = absurd (omega (arith, ap length h, length-append xs (x ∷ ys)))

ended-stuck : (t : Program) → Step ended t → ⊥
ended-stuck t (waits xs ys x h) = nil-middle x xs ys h
ended-stuck t (signals rest xs ys x g h) = nil-middle x xs ys h
ended-stuck t (signals_none rest g h) = absurd (cc g)
ended-stuck t (broadcasts rest g) = absurd (cc g)
ended-stuck t (prints xs ys x h) = nil-middle x xs ys h

started-ends_example : count 7 (7 ∷ []) + count 7 [] ≡ count 7 (7 ∷ [])
started-ends_example = started-ends (7 ∷ []) 5 ended seven_Run ended-stuck 7

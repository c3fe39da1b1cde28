-- ===== src/Patterns/Condition.antt =====
-- cmd/condx/condx.go: goroutines that wait on a sync.Cond, and the main one that wakes them. A goroutine
-- is a number. Its section from Lock to Wait, and the one from the wake-up to Unlock, are one step each,
-- since it holds the lock; the steps interleave freely, so the sleeps between them are left out.
pub mod Runs
use kratos_demo.Prelude.{ℕ, zero, suc, ◌≡◌, List, [], ◌∷◌, ◌++◌}

-- cond.Signal() and cond.Broadcast().
pub data Act : Type 0 where
  signal broadcast : Act

-- `main_acts` is what the main goroutine has still to do. The goroutines have not come to Wait, wait,
-- have been woken, or have printed. `late` records those that came to Wait when main was done.
pub record Program : Type 0 where
  pub main_acts : List Act
  pub starting : List ℕ
  pub waiting : List ℕ
  pub woken : List ℕ
  pub printed : List ℕ
  pub late : List ℕ

abbrev pub upto : ℕ → List ℕ
upto zero = []
upto (suc n) = n ∷ upto n

abbrev pub acts : List Act
acts = signal ∷ signal ∷ broadcast ∷ []

abbrev pub started : List ℕ → Program
started goroutines = record {
  main_acts = acts;
  starting = goroutines;
  waiting = [];
  woken = [];
  printed = [];
  late = [];
}

-- The ten goroutines of `main`.
abbrev pub main_started : Program
main_started = started (upto 10)

abbrev pub late_after : List Act → ℕ → List ℕ → List ℕ
late_after [] x late = x ∷ late
late_after (act ∷ rest) x late = late

abbrev pub wait : List ℕ → ℕ → Program → Program
wait others x s = record s {
  starting = others;
  waiting = x ∷ s.waiting;
  late = late_after s.main_acts x s.late;
}

abbrev pub wake_one : List Act → List ℕ → ℕ → Program → Program
wake_one rest others x s = record s { main_acts = rest; waiting = others; woken = x ∷ s.woken }

abbrev pub wake_none : List Act → Program → Program
wake_none rest s = record s { main_acts = rest }

abbrev pub wake_all : List Act → Program → Program
wake_all rest s = record s { main_acts = rest; waiting = []; woken = s.waiting ++ s.woken }

abbrev pub print : List ℕ → ℕ → Program → Program
print others x s = record s { woken = others; printed = x ∷ s.printed }

-- Signal wakes any one goroutine that waits, if there is one.
pub data Step (s : Program) : Program → Type 0 where
  waits : (xs ys : List ℕ) (x : ℕ) → s.starting ≡ xs ++ x ∷ ys → Step s (wait (xs ++ ys) x s)
  signals :
      (rest : List Act) (xs ys : List ℕ) (x : ℕ)
      → s.main_acts ≡ signal ∷ rest
      → s.waiting ≡ xs ++ x ∷ ys
      → Step s (wake_one rest (xs ++ ys) x s)
  signals_none :
      (rest : List Act) → s.main_acts ≡ signal ∷ rest → s.waiting ≡ [] → Step s (wake_none rest s)
  broadcasts : (rest : List Act) → s.main_acts ≡ broadcast ∷ rest → Step s (wake_all rest s)
  prints : (xs ys : List ℕ) (x : ℕ) → s.woken ≡ xs ++ x ∷ ys → Step s (print (xs ++ ys) x s)

-- Some steps in a row, with their number.
pub data Run (s : Program) : ℕ → Program → Type 0 where
  stay : Run s 0 s
  step : {n : ℕ} {t u : Program} → Run s n t → Step t u → Run s (suc n) u

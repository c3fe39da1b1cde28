-- ===== src/Ws/Echo.antt =====
-- pkg/ws/ws.go: WsHandler echoes until a read or a write fails. gorilla/websocket is a parameter: what
-- the reads and the writes of each round of the loop return.
use kratos_demo.Prelude.{
  ℕ, zero, suc, ◌+◌, ◌<◌, ◌≡◌, refl, ap, subst, ◌⊎◌, inl, inr, Option, none, some, List, [], ◌∷◌,
  String, arith,
}

-- A message with its type.
abbrev pub Message : Type 0
Message = ℕ × String

pub record Connection : Type 1 where
  pub E : Type 0
  pub read : ℕ → E ⊎ Message
  pub write : ℕ → Option E

module _ (conn : Connection) where
  open conn use {E, read, write}

  pub data Ending : Type 0 where
    read_failed write_failed : E → Ending

  abbrev echoed : Message → Option (List Message × Ending) → Option (List Message × Ending)
  echoed m none = none
  echoed m (some (ms, end)) = some (m ∷ ms, end)

  -- The loop from its round `i`: the messages that were written back, and how it ended; `none` if the
  -- fuel is spent.
  unfoldable pub echo_loop : ℕ → ℕ → Option (List Message × Ending)
  echo_loop zero i = none
  echo_loop (suc fuel) i =
      let rest = echo_loop fuel (i + 1) in
      elim (read i) [
        | inl e ↦ some ([], read_failed e)
        | inr m ↦ elim (write i) [ some e ↦ some ([], write_failed e) | none ↦ echoed m rest ]
      ]

  -- Whether the upgrade succeeded, and then the loop; the connection is closed in the end.
  unfoldable pub ws_handler : ℕ → Option E → Option (Option (List Message × Ending))
  ws_handler fuel (some e) = none
  ws_handler fuel none = some (echo_loop fuel 0)

  -- How round `i` ends the loop.
  abbrev pub EndsAt : ℕ → Ending → Type 0
  EndsAt i (read_failed e) = read i ≡ inl e
  EndsAt i (write_failed e) = ((m : Message) × (read i ≡ inr m)) × (write i ≡ some e)

  -- The messages of rounds i, i + 1, … up to `k` of them.
  abbrev pub messages : (ℕ → Message) → ℕ → ℕ → List Message
  messages m i zero = []
  messages m i (suc k) = m i ∷ messages m (i + 1) k

  at_start : (i : ℕ) (end : Ending) → EndsAt (i + 0) end → EndsAt i end
  at_start i end = subst (λ n. EndsAt n end) (omega arith)

  shift : (i j : ℕ) → i + suc j ≡ i + 1 + j
  shift i j = omega arith

  from_zero : (n : ℕ) → n ≡ 0 + n
  from_zero n = omega arith

  echo_loop-EndsAt :
      (k fuel i : ℕ) (m : ℕ → Message) (end : Ending)
      → ((j : ℕ) → j < k → (read (i + j) ≡ inr (m (i + j))) × (write (i + j) ≡ none))
      → EndsAt (i + k) end
      → k < fuel
      → echo_loop fuel i ≡ some (messages m i k, end)
  unfolding echo_loop
  echo_loop-EndsAt k zero i m end h e l = absurd (omega arith)
  echo_loop-EndsAt zero (suc fuel) i m (read_failed e) h r l =
      rw (echo_loop, at_start i (read_failed e) r) refl
  echo_loop-EndsAt zero (suc fuel) i m (write_failed e) h r l =
      let ((x, r'), w) = at_start i (write_failed e) r in rw (echo_loop, r', w) refl
  echo_loop-EndsAt (suc k) (suc fuel) i m end h e l =
      let p : i + 0 ≡ i = omega arith in
      let q : i + suc k ≡ i + 1 + k = omega arith in
      let (r, w) = rw p at (h 0 (omega arith)) in
      let later = λ (j : ℕ) (b : j < k).
        subst (λ n. (read n ≡ inr (m n)) × (write n ≡ none)) (shift i j)
          (h (suc j) (omega arith)) in
      let rest =
        echo_loop-EndsAt k fuel (i + 1) m end later (subst (λ n. EndsAt n end) q e) (omega arith) in
      rw (echo_loop, r, w, rest) refl

  -- The loop ends: if the first `k` rounds read and write a message and round `k` fails, then with any
  -- fuel above `k` it stops at that failure, and it has written back exactly the messages of the
  -- rounds before, in their order and with their types.
  pub ws_handler_ends :
      (k fuel : ℕ) (m : ℕ → Message) (end : Ending)
      → ((j : ℕ) → j < k → (read j ≡ inr (m j)) × (write j ≡ none))
      → EndsAt k end
      → k < fuel
      → ws_handler fuel none ≡ some (some (messages m 0 k, end))
  unfolding ws_handler
  ws_handler_ends k fuel m end h e l =
      let good = λ (j : ℕ) (b : j < k).
        subst (λ n. (read n ≡ inr (m n)) × (write n ≡ none)) (from_zero j) (h j b) in
      ap some (echo_loop-EndsAt k fuel 0 m end good (subst (λ n. EndsAt n end) (from_zero k) e) l)

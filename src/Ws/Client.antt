-- ===== src/Ws/Client.antt =====
-- cmd/client/ws_client.go: the goroutine that reads and the `select` loop of `main`, as a state machine;
-- an event is what one of them meets next.
use kratos_demo.Prelude.{
  ◌≡◌, refl, ◌⊎◌, inl, inr, Bool, true, false, Option, none, some, List, [], ◌∷◌, String, arith,
}

-- `main` runs its loop, waits for the server to close after an interrupt, or has returned.
pub data Phase : Type 0 where
  running waiting returned : Phase

-- A text message, or the close message.
pub data Sent : Type 0 where
  text : String → Sent
  close_message : Sent

-- `done` is closed when the reader returns; `sent` holds what was written, newest first.
pub record Client : Type 0 where
  pub phase : Phase
  pub done : Bool
  pub sent : List Sent

abbrev pub connected : Client
connected = record { phase = running; done = false; sent = [] }

-- The Boolean of a write tells whether it succeeded.
pub data Event : Type 0 where
  read_failed : Event
  done_received : Event
  tick : String → Bool → Event
  interrupted : Bool → Event
  second_passed : Event

-- The client after an event, `none` where the event cannot happen.
unfoldable pub step : Event → Client → Option Client
step read_failed c = elim c.phase [
  | returned ↦ none
  | _ ↦ elim c.done [ true ↦ none | false ↦ some (record c { done = true }) ]
]
step done_received c = elim c.done [
  | false ↦ none
  | true ↦ elim c.phase [ returned ↦ none | _ ↦ some (record c { phase = returned }) ]
]
step (tick t true) c = elim c.phase [
  | running ↦ some (record c { sent = text t ∷ c.sent })
  | _ ↦ none
]
step (tick t false) c = elim c.phase [ running ↦ some (record c { phase = returned }) | _ ↦ none ]
step (interrupted true) c = elim c.phase [
  | running ↦ some (record c { phase = waiting; sent = close_message ∷ c.sent })
  | _ ↦ none
]
step (interrupted false) c = elim c.phase [
  | running ↦ some (record c { phase = returned })
  | _ ↦ none
]
step second_passed c = elim c.phase [ waiting ↦ some (record c { phase = returned }) | _ ↦ none ]

-- What the program can come to.
pub data Reach (x : Client) : Client → Type 0 where
  here : Reach x x
  next : {y z : Client} → Reach x y → (e : Event) → step e y ≡ some z → Reach x z

-- Only texts have been sent.
abbrev pub IsTexts : List Sent → Type 0
IsTexts [] = Unit {0}
IsTexts (text t ∷ sent) = IsTexts sent
IsTexts (close_message ∷ sent) = ⊥

-- At most one close message, and nothing after it.
abbrev pub IsOrderly : List Sent → Type 0
IsOrderly [] = Unit {0}
IsOrderly (text t ∷ sent) = IsTexts sent
IsOrderly (close_message ∷ sent) = IsTexts sent

abbrev Keeps : Client → Type 0
Keeps c = IsOrderly c.sent × (c.phase ≡ running → IsTexts c.sent)

texts_IsOrderly : (sent : List Sent) → IsTexts sent → IsOrderly sent
texts_IsOrderly [] h = tt
texts_IsOrderly (text t ∷ sent) h = h
texts_IsOrderly (close_message ∷ sent) h = absurd h

step-Keeps : (e : Event) (x y : Client) → step e x ≡ some y → Keeps x → Keeps y
unfolding step
step-Keeps read_failed x y h k = ground arith
step-Keeps done_received x y h k = ground arith
step-Keeps (tick t true) x y h k = ground (arith, texts_IsOrderly x.sent)
step-Keeps (tick t false) x y h k = ground arith
step-Keeps (interrupted true) x y h k = ground (arith, texts_IsOrderly x.sent)
step-Keeps (interrupted false) x y h k = ground arith
step-Keeps second_passed x y h k = ground arith

Reach-Keeps : {c : Client} → Reach connected c → Keeps c
Reach-Keeps here = (tt, λ e. tt)
Reach-Keeps (next {y} {z} r e h) = step-Keeps e y z h (Reach-Keeps r)

-- However the events fall, the client sends at most one close message, and nothing after it.
pub Reach-IsOrderly : {c : Client} → Reach connected c → IsOrderly c.sent
Reach-IsOrderly r = (Reach-Keeps r).0

-- No event leads from here to a client that has not returned, but the reader's own end.
step_after_interrupt :
    (c y : Client) (e : Event)
    → c.phase ≡ waiting
    → step e c ≡ some y
    → (e ≡ read_failed) ⊎ (y.phase ≡ returned)
unfolding step
step_after_interrupt c y read_failed p h = inl refl
step_after_interrupt c y done_received p h = inr (ground arith)
step_after_interrupt c y (tick t true) p h = inr (ground arith)
step_after_interrupt c y (tick t false) p h = inr (ground arith)
step_after_interrupt c y (interrupted true) p h = inr (ground arith)
step_after_interrupt c y (interrupted false) p h = inr (ground arith)
step_after_interrupt c y second_passed p h = inr (ground arith)

-- An interrupt ends the client: from a client in its loop, an interrupt leads to one that has
-- returned, or to one that waits; from there one event ends it at the latest when a second has passed, and no other event but the end of the reader can come first.
pub interrupted_ends :
    (c : Client) (written : Bool)
    → c.phase ≡ running
    → (y : Client) × (step (interrupted written) c ≡ some y)
      × ((y.phase ≡ returned)
          ⊎ (((z : Client) × (step second_passed y ≡ some z) × (z.phase ≡ returned))
              × ((e : Event) (z : Client)
                  → step e y ≡ some z
                  → (e ≡ read_failed) ⊎ (z.phase ≡ returned))))
unfolding step
interrupted_ends c true p = (
  record c { phase = waiting; sent = close_message ∷ c.sent },
  rw p refl,
  inr (
    (record c { phase = returned; sent = close_message ∷ c.sent }, refl, refl),
    λ e z h. step_after_interrupt _ z e refl h,
  ),
)
interrupted_ends c false p = (record c { phase = returned }, rw p refl, inl refl)

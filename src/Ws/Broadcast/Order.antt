-- ===== src/Ws/Broadcast/Order.antt =====
-- Which messages a client is sent, and in which order.
use kratos_demo.Prelude.{
  ℕ, ◌≡◌, ◌↔◌, refl, sym, ap, ◌∙◌, subst, Bool, inl, inr, List, [], ◌∷◌, ◌++◌, In, IsDistinct,
  String, if◌then◌else◌, nat_comparable, arith,
}
use kratos_demo.Ws.Broadcast.{
  Handler, absent, reading, returned, offering, Server, update, broadcast_round, Step, joins, reads,
  fails_to_read, hands_over, broadcasts, Reach, start, next,
}
use kratos_demo.Ws.Broadcast.Deliver.{
  In-deliver, deliver-IsDistinct, deliver-absent, deliver-received, deliver-either,
}

-- What holds of every state: newest first, a client of the map has been sent the latest messages, from
-- some message on, and any other client a run of messages between two.
pub record Inv (s : Server) : Type 0 where
  pub distinct : IsDistinct s.clients
  pub present : (c : ℕ) → In c s.clients → s.handlers c ≡ absent → ⊥
  pub fresh : (c : ℕ) → s.handlers c ≡ absent → s.received c ≡ []
  pub current :
      (c : ℕ) → In c s.clients → (missed : List String) × (s.broadcast ≡ s.received c ++ missed)
  pub past :
      (c : ℕ) → (later missed : List String) × (s.broadcast ≡ later ++ s.received c ++ missed)

-- A handler that moves on keeps what does not concern `absent`.
moves_on :
    (s : Server) (c : ℕ) (h : Handler)
    → (s.handlers c ≡ absent → ⊥)
    → (h ≡ absent → ⊥)
    → (x : ℕ) → (update c h s.handlers x ≡ absent) ↔ (s.handlers x ≡ absent)
moves_on s c h n m x = ground (arith, n, m)

joined :
    (s : Server) (c x : ℕ)
    → update c reading s.handlers x ≡ absent
    → (x ≡ c → ⊥) × (s.handlers x ≡ absent)
joined s c x h = ground (arith, h)

broadcast_round-current :
    (fails : ℕ → Bool) (msg : String) (s : Server) (c : ℕ)
    → Inv s
    → In c (broadcast_round fails msg s).clients
    → (missed : List String) × (msg ∷ s.broadcast
        ≡ (broadcast_round fails msg s).received c ++ missed)
unfolding broadcast_round
broadcast_round-current fails msg s c inv i =
    let (j, f) = In-deliver fails msg s.clients s.received c i in
    let (missed, e) = inv.current c j in
    (
      missed,
      ap (λ l. msg ∷ l) e
          ∙ ap (λ l. l ++ missed)
              (sym (
                deliver-received fails msg s.clients s.received c inv.distinct j
                ∙ ap (λ b. if b then s.received c else msg ∷ s.received c) f)),
    )

broadcast_round-past :
    (fails : ℕ → Bool) (msg : String) (s : Server) (c : ℕ)
    → Inv s
    → (later missed : List String) × (msg ∷ s.broadcast
        ≡ later ++ (broadcast_round fails msg s).received c ++ missed)
unfolding broadcast_round
broadcast_round-past fails msg s c inv =
    elim (deliver-either fails msg s.clients s.received c inv.distinct) [
      | inl q ↦
          let (later, missed, e) = inv.past c in
          (msg ∷ later, missed, ap (λ l. msg ∷ l) e ∙ ap (λ l. msg ∷ later ++ l ++ missed) (sym q))
      | inr (i, q) ↦
          let (missed, e) = inv.current c i in
          ([], missed, ap (λ l. msg ∷ l) e ∙ ap (λ l. l ++ missed) (sym q))
    ]

Step-Inv : {s t : Server} → Step s t → Inv s → Inv t
unfolding broadcast_round
Step-Inv {s} (joins c a) inv = record {
  distinct = (λ i. inv.present c i a, inv.distinct);
  present = λ x i h.
      let (other, g) = joined s c x h in elim i [ inl p ↦ other p | inr j ↦ inv.present x j g ];
  fresh = λ x h. inv.fresh x (joined s c x h).1;
  current = λ x i. elim i [
    | inl p ↦ (
      s.broadcast,
      ap (λ l. l ++ s.broadcast) (sym (subst (λ y. s.received y ≡ []) (sym p) (inv.fresh c a))),
    )
    | inr j ↦ inv.current x j
  ];
  past = inv.past;
}
Step-Inv {s} (reads c msg a) inv =
    let same = moves_on s c (offering msg) (λ h. ground (arith, a, h)) (λ h. ground (arith, h)) in
    record {
      distinct = inv.distinct;
      present = λ x i h. inv.present x i ((same x).0 h);
      fresh = λ x h. inv.fresh x ((same x).0 h);
      current = inv.current;
      past = inv.past;
    }
Step-Inv {s} (fails_to_read c a) inv =
    let same = moves_on s c returned (λ h. ground (arith, a, h)) (λ h. ground (arith, h)) in
    record {
      distinct = inv.distinct;
      present = λ x i h. inv.present x i ((same x).0 h);
      fresh = λ x h. inv.fresh x ((same x).0 h);
      current = inv.current;
      past = inv.past;
    }
Step-Inv {s} (hands_over c msg a b) inv =
    let same = moves_on s c reading (λ h. ground (arith, a, h)) (λ h. ground (arith, h)) in
    record {
      distinct = inv.distinct;
      present = λ x i h. inv.present x i ((same x).0 h);
      fresh = λ x h. inv.fresh x ((same x).0 h);
      current = inv.current;
      past = inv.past;
    }
Step-Inv {s} (broadcasts fails msg a) inv = record {
  distinct = deliver-IsDistinct fails msg s.clients s.received inv.distinct;
  present = λ x i. inv.present x (In-deliver fails msg s.clients s.received x i).0;
  fresh = λ x h.
      deliver-absent fails msg s.clients s.received x (λ i. inv.present x i h) ∙ inv.fresh x h;
  current = λ x i. broadcast_round-current fails msg s x inv i;
  past = λ x. broadcast_round-past fails msg s x inv;
}

pub Reach-Inv : {s : Server} → Reach s → Inv s
Reach-Inv start = record {
  distinct = tt;
  present = λ c i. absurd i;
  fresh = λ c h. refl;
  current = λ c i. absurd i;
  past = λ c. ([], [], refl);
}
Reach-Inv (next r st) = Step-Inv st (Reach-Inv r)

-- However the handlers and the broadcaster interleave, all clients see the messages in the one order
-- of their broadcast, with no gap: a client's messages are a run of the broadcast ones, and for a
-- client that is still in the map the run goes on to the last one.
pub Reach-received :
    {s : Server}
    → Reach s
    → (c : ℕ)
    → ((later missed : List String) × (s.broadcast ≡ later ++ s.received c ++ missed))
      × (In c s.clients → (missed : List String) × (s.broadcast ≡ s.received c ++ missed))
Reach-received r c = let inv = Reach-Inv r in (inv.past c, inv.current c)

-- ===== src/Ws/Broadcast/Heard.antt =====
-- Where the messages that a client is sent come from.
use kratos_demo.Prelude.{
  ℕ, ◌≡◌, sym, subst, ◌⊎◌, inl, inr, Bool-cases, some, ◌++◌, In, In-append_left, In-append_right,
  String, ◌==◌, nat_comparable, arith,
}
use kratos_demo.Ws.Broadcast.{
  Handler, reading, returned, offering, Server, update, broadcast_round, Step, joins, reads,
  fails_to_read, hands_over, broadcasts, Reach, start, next,
}
use kratos_demo.Ws.Broadcast.Order.{Reach-Inv}

-- Every message on its way has been read from some client.
record Heard (s : Server) : Type 0 where
  broadcast_read : (m : String) → In m s.broadcast → In m s.read
  taken_read : (m : String) → s.taken ≡ some m → In m s.read
  offered_read : (c : ℕ) (m : String) → s.handlers c ≡ offering m → In m s.read

kept_offer :
    (s : Server) (c x : ℕ) (h : Handler) (m : String)
    → ((n : String) → h ≡ offering n → ⊥)
    → update c h s.handlers x ≡ offering m
    → s.handlers x ≡ offering m
kept_offer s c x h m n e = ground (arith, n m, e)

new_offer :
    (s : Server) (c x : ℕ) (msg m : String)
    → update c (offering msg) s.handlers x ≡ offering m
    → (m ≡ msg) ⊎ (s.handlers x ≡ offering m)
new_offer s c x msg m e = elim (Bool-cases (x == c)) [
  | inl t ↦ inl (ground (arith, e, t))
  | inr t ↦ inr (ground (arith, e, t))
]

Step-Heard : {s t : Server} → Step s t → Heard s → Heard t
unfolding broadcast_round
Step-Heard {s} (joins c a) k = record {
  broadcast_read = k.broadcast_read;
  taken_read = k.taken_read;
  offered_read =
      λ x m e. k.offered_read x m (kept_offer s c x reading m (λ n q. ground (arith, q)) e);
}
Step-Heard {s} (reads c msg a) k = record {
  broadcast_read = λ m i. inr (k.broadcast_read m i);
  taken_read = λ m e. inr (k.taken_read m e);
  offered_read = λ x m e. elim (new_offer s c x msg m e) [
    | inl p ↦ inl p
    | inr o ↦ inr (k.offered_read x m o)
  ];
}
Step-Heard {s} (fails_to_read c a) k = record {
  broadcast_read = k.broadcast_read;
  taken_read = k.taken_read;
  offered_read =
      λ x m e. k.offered_read x m (kept_offer s c x returned m (λ n q. ground (arith, q)) e);
}
Step-Heard {s} (hands_over c msg a b) k = record {
  broadcast_read = k.broadcast_read;
  taken_read = λ m e. subst (λ n. In n s.read) (cc e) (k.offered_read c msg a);
  offered_read =
      λ x m e. k.offered_read x m (kept_offer s c x reading m (λ n q. ground (arith, q)) e);
}
Step-Heard {s} (broadcasts fails msg a) k = record {
  broadcast_read = λ m i. elim i [
    | inl p ↦ subst (λ n. In n s.read) (sym p) (k.taken_read msg a)
    | inr j ↦ k.broadcast_read m j
  ];
  taken_read = λ m e. absurd (ground (arith, e));
  offered_read = k.offered_read;
}

Reach-Heard : {s : Server} → Reach s → Heard s
Reach-Heard start = record {
  broadcast_read = λ m i. absurd i;
  taken_read = λ m e. absurd (ground (arith, e));
  offered_read = λ c m e. absurd (ground (arith, e));
}
Reach-Heard (next r st) = Step-Heard st (Reach-Heard r)

-- Nothing is made up: whatever a client has been sent was read from some client before.
pub Reach-read : {s : Server} → Reach s → (c : ℕ) (m : String) → In m (s.received c) → In m s.read
Reach-read {s} r c m i =
    let (later, missed, e) = (Reach-Inv r).past c in
    let received = s.received c in
    (Reach-Heard r).broadcast_read m (
      subst (λ l. In m l) (sym e)
        (In-append_left m (later ++ received) missed (In-append_right m later received i)))

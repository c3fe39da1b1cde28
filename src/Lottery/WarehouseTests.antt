-- ===== src/Lottery/WarehouseTests.antt =====
-- The theorems on the lottery's warehouse: tickets in a list, a cache that is a function, and JSON that
-- is the ticket's id.
use kratos_demo.Prelude.{
  In, ℕ, ltb, ◌<◌, ◌+◌, ◌≡◌, ◌≢◌, ◌↔◌, ◌⊎◌, inl, inr, refl, subst, Bool, Option, none, some, List,
  [], ◌∷◌, String, arith, if◌then◌else◌, ◌==◌, string_comparable, eq_iff, Bool-cases,
}
use kratos_demo.Prelude.Int.{ℤ, pos, negsuc}
use kratos_demo.Prelude.Selection.{select, In-select, select-In}
use kratos_demo.Lottery.Warehouse.{
  Basics, LotteryType, double_ball, arrange_v5, LotteryTicket, LotteryDrawResult, Collection,
  MongoStorage, mongo_strategy, Cache, cache_key, cache_ticket, create_lottery_ticket,
}
use kratos_demo.Lottery.Warehouse.Ids.{IsCache, cache_ticket-keeps}
use kratos_demo.Lottery.Warehouse.Storage.{IsDocuments, OfUser, OfType}

abbrev values : Basics
values = record { F = ℕ; zero_amount = 0; Time = ℤ; E = String }

abbrev Ticket : Type 0
Ticket = LotteryTicket values

abbrev is_of : String → Ticket → Bool
is_of user_id t = t.user_id == user_id

abbrev tickets : Collection values Ticket String
tickets = record {
  Docs = List Ticket;
  Cursor = List Ticket;
  insert_one = λ d s. (none, d ∷ s);
  find = λ q s. inr (select (is_of q) s);
  all = λ ds. (ds, none);
}

tickets-IsDocuments : IsDocuments values tickets (OfUser values)
tickets-IsDocuments = record {
  Holds = In;
  insert_adds = λ d s h x. (λ i. i, λ i. i);
  finds = λ q s cursor h k x.
      let e : select (is_of q) s ≡ cursor = cc h in
      subst (λ l. In x l ↔ (OfUser values q x × In x s)) e
        (
          In-select (is_of q) (OfUser values q) (λ y. eq_iff y.user_id q) s x,
          λ (o, i). select-In (is_of q) (OfUser values q) (λ y. eq_iff y.user_id q) s x o i,
        );
}

-- No draw is ever stored.
abbrev draws : Collection values (LotteryDrawResult values) LotteryType
draws = record {
  Docs = Unit {0};
  Cursor = Unit {0};
  insert_one = λ d s. (some "full", s);
  find = λ q s. inr s;
  all = λ s. ([], none);
}

draws-IsDocuments : IsDocuments values draws (OfType values)
draws-IsDocuments = record {
  Holds = λ d s. ⊥;
  insert_adds = λ d s h x. absurd (cc h);
  finds = λ q s cursor h k x. (λ i. absurd i, λ (o, i). absurd i);
}

abbrev storage : MongoStorage values
storage = record { ticket_coll = tickets; result_coll = draws }

abbrev ticket : Ticket
ticket = create_lottery_ticket values (pos 5) (pos 6) double_ball "user123" []

-- Each key's value and the time at which it expires, at a clock that stands at 0.
abbrev cache : Cache values
cache = record {
  Entries = String → Option (String × ℕ);
  set = λ key bytes ttl s. (none, λ k. if k == key then some (bytes, ttl) else s k);
  marshal = λ t. inr t.id;
}

readable : ℕ → Option (String × ℕ) → Option String
readable at none = none
readable at (some (bytes, until)) = if ltb at until then some bytes else none

set_self :
    (key bytes : String) (ttl : ℕ) (s : String → Option (String × ℕ)) (at : ℕ)
    → at < 0 + ttl
    → readable at (if key == key then some (bytes, ttl) else s key) ≡ some bytes
unfolding readable
set_self key bytes ttl s at h = rw ((eq_iff key key).1 refl) (ground (arith, h))

set_other :
    (key bytes : String) (ttl : ℕ) (s : String → Option (String × ℕ)) (at : ℕ) (k : String)
    → k ≢ key
    → readable at (if k == key then some (bytes, ttl) else s k) ≡ readable at (s k)
set_other key bytes ttl s at k n = elim (Bool-cases (k == key)) [
  | inl e ↦ absurd (n ((eq_iff k key).0 e))
  | inr e ↦ rw e refl
]

abbrev cache-IsCache : IsCache values cache
cache-IsCache = record {
  clock = λ s. 0;
  get = λ at key s. readable at (s key);
  sets = λ key bytes ttl s at h early late. set_self key bytes ttl s at late;
  others = λ key bytes ttl s at k n. set_other key bytes ttl s at k n;
}

unfoldable no_tickets : (mongo_strategy values storage).St
unfolding mongo_strategy
no_tickets = ([], tt)

abbrev json : Ticket → String ⊎ String
json t = inr t.id

pos≢negsuc : (a b : ℕ) → pos a ≢ negsuc b
pos≢negsuc a b h = absurd (cc h)

cache_ticket-keeps_example :
    let t' = create_lottery_ticket values (negsuc 5) (pos 6) arrange_v5 "user123" [] in
    (bytes : String) × (json ticket ≡ inr bytes)
    × (readable 86_399_000_000_000 (
          (cache_ticket values cache t' (cache_ticket values cache ticket (λ k. none)).1).1
            (cache_key values ticket.id))
        ≡ some bytes)
unfolding cache_ticket
cache_ticket-keeps_example =
    cache_ticket-keeps values cache cache-IsCache (pos 5) (negsuc 5) (pos 6) (pos 6) double_ball
      arrange_v5 "user123" "user123" [] [] (λ k. none) 86_399_000_000_000 (λ h. pos≢negsuc 5 5 h.0)
      refl (omega arith) (omega arith)

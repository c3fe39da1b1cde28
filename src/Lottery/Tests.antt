-- ===== src/Lottery/Tests.antt =====
-- The lottery's theorems on collections that are lists of documents.
use kratos_demo.Prelude.{
  In, ℕ, ◌/◌, ◌*◌, ◌≡◌, subst, ◌↔◌, ◌⊎◌, inl, refl, Bool, true, ◌&&◌, none, List, [], ◌∷◌, String,
  arith, ◌==◌, string_comparable, eq_iff,
}
use kratos_demo.Prelude.Int.{ℤ, pos, negsuc}
use kratos_demo.Prelude.Decimal.{itoa, emit}
use kratos_demo.Prelude.Selection.{select, In-select, select-In}
use kratos_demo.Lottery.Repository.{
  Basics, LotteryTicket, DrawResult, Result, ok, err, Collection, ByUser, ByIssue, Mongo, Db,
  bson_ticket, bson_draw_result, save_ticket, save_draw_result, get_tickets_by_user,
  get_draw_result_by_issue,
}
use kratos_demo.Lottery.Service.{Draws, new_ticket, place_bet, new_draw_result, record_draw_result}
use kratos_demo.Lottery.Service.Laws.{
  IsCollection, OfUser, OfIssue, place_bet-get_tickets, record_draw_result-get_draw_result,
}

module _ {D Q : Type 0} (kept : D → D) (matches : Q → D → Bool) where
  first : List D → Result String D
  first [] = err "mongo: no documents in result"
  first (x ∷ xs) = ok x

  abbrev store : Collection String D Q
  store = record {
    St = List D;
    Cursor = List D;
    insert_one = λ d s. (none, kept d ∷ s);
    find = λ q s. ok (select (matches q) s);
    all = λ ds. ok ds;
    find_one = λ q s. first (select (matches q) s);
  }

  module _ (Selects : Q → D → Type 0)
      (decides : (q : Q) (x : D) → (matches q x ≡ true) ↔ Selects q x) where
    first-In : (s : List D) (d : D) → first s ≡ ok d → In d s
    unfolding first
    first-In [] d h = absurd (ground (arith, h))
    first-In (x ∷ xs) d h = inl (ground (arith, h))

    store-IsCollection : IsCollection store kept Selects
    store-IsCollection = record {
      Holds = In;
      insert_adds = λ d s h x. (λ i. i, λ i. i);
      find_finds = λ q s cursor ds h k x.
          let e : select (matches q) s ≡ ds = cc (h, k) in
          subst (λ l. In x l ↔ (Selects q x × In x s)) e
            (
              In-select (matches q) (Selects q) (decides q) s x,
              λ (o, i). select-In (matches q) (Selects q) (decides q) s x o i,
            );
      find_one_finds = λ q s d h.
          In-select (matches q) (Selects q) (decides q) s d (first-In (select (matches q) s) d h);
    }

-- A time in nanoseconds, and what is left of it in milliseconds.
millis : ℤ → ℤ
millis (pos n) = pos (n / 1_000_000 * 1_000_000)
millis (negsuc n) = pos 0

abbrev basics : Basics
basics = record {
  Uuid = String;
  Time = ℤ;
  F = ℕ;
  zero_amount = 0;
  unix = λ t. t;
  bson_date = millis;
}

abbrev is_user : ByUser basics → LotteryTicket basics → Bool
is_user q t = t.user_id == q.user_id

abbrev is_issue : ByIssue → DrawResult basics → Bool
is_issue q r = (r.lottery_type == q.lottery_type) && (r.issue_number == q.issue_number)

abbrev mongo : Mongo basics
mongo = record {
  E = String;
  tickets = store (bson_ticket basics) is_user;
  results = store (bson_draw_result basics) is_issue;
}

tickets-IsCollection :
    IsCollection (store (bson_ticket basics) is_user) (bson_ticket basics) (OfUser basics mongo)
tickets-IsCollection =
    store-IsCollection (bson_ticket basics) is_user (OfUser basics mongo)
      (λ q t. eq_iff t.user_id q.user_id)

is_issue_iff :
    (q : ByIssue) (r : DrawResult basics) → (is_issue q r ≡ true) ↔ OfIssue basics mongo q r
is_issue_iff q r =
    ground (arith, eq_iff r.lottery_type q.lottery_type, eq_iff r.issue_number q.issue_number)

results-IsCollection :
    IsCollection
      (store (bson_draw_result basics) is_issue)
      (bson_draw_result basics)
      (OfIssue basics mongo)
results-IsCollection =
    store-IsCollection (bson_draw_result basics) is_issue (OfIssue basics mongo) is_issue_iff

abbrev draws : Draws basics mongo
draws = record { new_id = "t1"; now = pos 7_700_000_001; later = pos 77 }

abbrev empty : Db basics mongo
empty = record { ticket_collection = []; result_collection = []; log = [] }

-- The bet and the draw of `main`.
abbrev balls : List ℤ
balls = pos 1 ∷ pos 2 ∷ pos 3 ∷ pos 4 ∷ pos 5 ∷ pos 6 ∷ []

abbrev numbers : List (List ℤ)
numbers = balls ∷ (pos 7 ∷ []) ∷ []

abbrev ticket : LotteryTicket basics
ticket = new_ticket basics mongo draws "u1" "DOUBLE_BALL" numbers 100

abbrev kept : LotteryTicket basics
kept = record ticket { bet_time = pos 7_700_000_000 }

place_bet-get_tickets_example :
    In kept (kept ∷ []) ↔ ((kept.user_id ≡ "u1") × ((kept ≡ kept) ⊎ In kept []))
unfolding place_bet save_ticket get_tickets_by_user select store-IsCollection tickets-IsCollection
    millis
place_bet-get_tickets_example =
    place_bet-get_tickets basics mongo draws "u1" "DOUBLE_BALL" numbers 100 empty
      tickets-IsCollection ticket "u1" (kept ∷ []) refl refl kept

abbrev drawn : DrawResult basics
drawn = new_draw_result basics mongo draws "DOUBLE_BALL" balls []

abbrev read_back : DrawResult basics
read_back = record drawn { draw_time = pos 7_700_000_000 }

record_draw_result-get_draw_result_example : read_back ≡ read_back
unfolding record_draw_result save_draw_result get_draw_result_by_issue select first itoa emit
    results-IsCollection store-IsCollection millis
record_draw_result-get_draw_result_example =
    record_draw_result-get_draw_result basics mongo draws "DOUBLE_BALL" balls [] empty
      results-IsCollection drawn read_back refl (λ x h o. h) refl

-- ===== src/Lottery/Program.antt =====
-- The service with its repository and the `main` of cmd/design/lottery/demo/demo.go.
use kratos_demo.Prelude.{
  In, ◌≡◌, ◌↔◌, sym, ap, subst, ◌∙◌, ◌⊎◌, inl, inr, Option, none, some, List, [], ◌∷◌, String,
  arith, Option-cases,
}
use kratos_demo.Prelude.Int.{ℤ, pos}
use kratos_demo.Lottery.Repository.{
  Basics, LotteryTicket, PrizeInfo, DrawResult, Result, ok, err, Mongo, Db, save_draw_result,
  get_tickets_by_user, bson_ticket,
}
use kratos_demo.Lottery.Service.{Draws, place_bet, new_draw_result, record_draw_result}
use kratos_demo.Lottery.Service.Laws.{IsCollection, OfUser, place_bet-inv, get_tickets-inv}

-- The texts of a LotteryType and of a PrizeLevel that `main` uses.
abbrev pub double_ball : String
double_ball = "DOUBLE_BALL"

abbrev pub first_prize : String
first_prize = "FIRST"

module _ (b : Basics) (m : Mongo b) where
  open m use {E, tickets, results}

  -- `mongo.Connect` may fail; the collections are those of the database otherwise.
  unfoldable pub new_mongo_lottery_repository : Option E → Db b m → Result E (Db b m)
  new_mongo_lottery_repository none db = ok db
  new_mongo_lottery_repository (some e) db = err e

  -- Two amounts that float64 reads from the source, and what main's two calls draw from outside.
  pub record Amounts : Type 0 where
    pub hundred : b.F
    pub five_million : b.F

  abbrev pub main_numbers : List ℤ
  main_numbers = pos 1 ∷ pos 2 ∷ pos 3 ∷ pos 4 ∷ pos 5 ∷ pos 6 ∷ []

  abbrev pub main_prizes : Amounts → List (PrizeInfo b)
  main_prizes a =
      record { level = first_prize; winner_count = pos 1; prize_amount = a.five_million } ∷ []

  module _ (a : Amounts) (user_id : b.Uuid) (bet draw : Draws b m) where
    abbrev pub main_bet : Db b m → Result E (LotteryTicket b) × Db b m
    main_bet = place_bet b m bet user_id double_ball (main_numbers ∷ (pos 7 ∷ []) ∷ []) a.hundred

    abbrev pub main_draw : Db b m → Result E (DrawResult b) × Db b m
    main_draw = record_draw_result b m draw double_ball main_numbers (main_prizes a)

    -- What both calls return is dropped; `none` is the end by logger.Fatal.
    abbrev pub run_service : Result E (Db b m) → Option (Db b m)
    run_service (err e) = none
    run_service (ok db) = some (main_draw (main_bet db).1).1

    unfoldable pub main : Option E → Db b m → Option (Db b m)
    main failed db = run_service (new_mongo_lottery_repository failed db)

    -- A draw leaves the tickets.
    main_draw-tickets : (db : Db b m) → (main_draw db).1.ticket_collection ≡ db.ticket_collection
    unfolding record_draw_result save_draw_result
    main_draw-tickets db =
        elim (Option-cases
          (results.insert_one (new_draw_result b m draw double_ball main_numbers (main_prizes a))
            db.result_collection).0) [ inl e ↦ ground (arith, e) | inr (f, e) ↦ ground (arith, e) ]

    -- After a run of the program whose bet succeeds, a user's tickets, where they can be read, are the
    -- bet's ticket, with its time in BSON's milliseconds, if it is the user's, and the user's earlier ones:
    -- the draw takes none away.
    pub main-get_tickets :
        (mongo : IsCollection tickets (bson_ticket b) (OfUser b m))
        → (db db' : Db b m) (t : LotteryTicket b) (asked : b.Uuid) (found : List (LotteryTicket b))
        → main none db ≡ some db'
        → (main_bet db).0 ≡ ok t
        → (get_tickets_by_user b m asked db').0 ≡ ok found
        → (x : LotteryTicket b)
        → In x found
          ↔ ((x.user_id ≡ asked) × ((x ≡ bson_ticket b t) ⊎ mongo.Holds x db.ticket_collection))
    unfolding main new_mongo_lottery_repository
    main-get_tickets mongo db db' t asked found h placed k x =
        let (done, same, stored) =
          place_bet-inv b m bet user_id double_ball (main_numbers ∷ (pos 7 ∷ []) ∷ []) a.hundred db
            t placed in
        let end : (main_draw (main_bet db).1).1 ≡ db' = cc h in
        let kept =
          ap (λ d. d.ticket_collection) (sym end) ∙ main_draw-tickets (main_bet db).1 ∙ stored in
        let (cursor, f, all) = get_tickets-inv b m asked db' found k in
        let finds =
          mongo.find_finds (record { user_id = asked }) db'.ticket_collection cursor found f all
            x in
        let adds = mongo.insert_adds _ db.ticket_collection done x in
        rw (same) (
          λ i. ((finds.0 i).0, adds.0 (subst (mongo.Holds x) kept (finds.0 i).1)),
          λ (o, i). finds.1 (o, subst (mongo.Holds x) (sym kept) (adds.1 i)),
        )

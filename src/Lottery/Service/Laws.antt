-- ===== src/Lottery/Service/Laws.antt =====
-- What is found after a bet and after a draw, and what a failed bet leaves.
use kratos_demo.Prelude.{
  In, ◌≡◌, ◌↔◌, ◌⊎◌, inl, inr, refl, none, some, List, ◌∷◌, String, arith, Option-cases,
}
use kratos_demo.Prelude.Int.{ℤ}
use kratos_demo.Lottery.Repository.{
  Basics, LotteryTicket, PrizeInfo, DrawResult, Result, ok, err, Collection, ByUser, ByIssue, Mongo,
  bson_ticket, bson_draw_result, Db, Call, save_ticket, save_draw_result, get_tickets_by_user,
  get_draw_result_by_issue,
}
use kratos_demo.Lottery.Service.{Draws, new_ticket, place_bet, new_draw_result, record_draw_result}

-- What MongoDB documents of a collection: an insert that succeeds adds its document, in the form in which
-- BSON keeps it, a query yields
-- stored documents that its filter selects, and one that is read to its end yields all of them.
pub record IsCollection {E D Q : Type 0} (c : Collection E D Q) (kept : D → D)
    (Selects : Q → D → Type 0) : Type 1 where
  pub Holds : D → c.St → Type 0
  pub insert_adds :
      (d : D) (s : c.St)
      → (c.insert_one d s).0 ≡ none
      → (x : D) → Holds x (c.insert_one d s).1 ↔ ((x ≡ kept d) ⊎ Holds x s)
  pub find_finds :
      (q : Q) (s : c.St) (cursor : c.Cursor) (ds : List D)
      → c.find q s ≡ ok cursor
      → c.all cursor ≡ ok ds
      → (x : D) → In x ds ↔ (Selects q x × Holds x s)
  pub find_one_finds : (q : Q) (s : c.St) (d : D) → c.find_one q s ≡ ok d → Selects q d × Holds d s

module _ (b : Basics) (m : Mongo b) where
  open m use {E, tickets, results}

  abbrev pub OfUser : ByUser b → LotteryTicket b → Type 0
  OfUser q t = t.user_id ≡ q.user_id

  abbrev pub OfIssue : ByIssue → DrawResult b → Type 0
  OfIssue q r = (r.lottery_type ≡ q.lottery_type) × (r.issue_number ≡ q.issue_number)

  Result-cases : {X : Type 0} (r : Result E X) → ((x : X) × (r ≡ ok x)) ⊎ ((e : E) × (r ≡ err e))
  Result-cases (ok x) = inl (x, refl)
  Result-cases (err e) = inr (e, refl)

  pub get_tickets-inv :
      (u : b.Uuid) (db : Db b m) (found : List (LotteryTicket b))
      → (get_tickets_by_user b m u db).0 ≡ ok found
      → (cursor : tickets.Cursor) × (tickets.find (record { user_id = u }) db.ticket_collection
          ≡ ok cursor)
        × (tickets.all cursor ≡ ok found)
  unfolding get_tickets_by_user
  get_tickets-inv u db found h =
      elim (Result-cases (tickets.find (record { user_id = u }) db.ticket_collection)) [
        | inr (e, k) ↦ absurd (ground (arith, h, k))
        | inl (cursor, k) ↦ elim (Result-cases (tickets.all cursor)) [
          | inr (e, l) ↦ absurd (ground (arith, h, k, l))
          | inl (ds, l) ↦ (cursor, k, ground (arith, h, k, l))
        ]
      ]

  module _ (d : Draws b m) (user_id : b.Uuid) (lottery_type : String) (numbers : List (List ℤ))
      (bet_amount : b.F) (db : Db b m) where
    abbrev ticket : LotteryTicket b
    ticket = new_ticket b m d user_id lottery_type numbers bet_amount

    abbrev bet : Call b m (Result E (LotteryTicket b))
    bet = place_bet b m d user_id lottery_type numbers bet_amount db

    pub place_bet-inv :
        (t : LotteryTicket b)
        → bet.0 ≡ ok t
        → ((tickets.insert_one ticket db.ticket_collection).0 ≡ none)
          × (t ≡ ticket)
          × (bet.1.ticket_collection ≡ (tickets.insert_one ticket db.ticket_collection).1)
    unfolding place_bet save_ticket
    place_bet-inv t h = elim (Option-cases (tickets.insert_one ticket db.ticket_collection).0) [
      | inl e ↦ ground (arith, h, e)
      | inr (f, e) ↦ absurd (ground (arith, h, e))
    ]

    -- After a bet that succeeds, a user's tickets, where they can be read, are those of the user that
    -- were there before, and the bet's ticket if it is the user's, with its time in BSON's milliseconds.
    pub place_bet-get_tickets :
        (mongo : IsCollection tickets (bson_ticket b) OfUser)
        → (t : LotteryTicket b) (asked : b.Uuid) (found : List (LotteryTicket b)) → bet.0 ≡ ok t
        → (get_tickets_by_user b m asked bet.1).0 ≡ ok found
        → (x : LotteryTicket b)
        → In x found
          ↔ ((x.user_id ≡ asked) × ((x ≡ bson_ticket b t) ⊎ mongo.Holds x db.ticket_collection))
    place_bet-get_tickets mongo t asked found h k x =
        let (done, same, stored) = place_bet-inv t h in
        let (cursor, f, a) = get_tickets-inv asked bet.1 found k in
        let finds =
          mongo.find_finds (record { user_id = asked }) bet.1.ticket_collection cursor found f a
            x in
        let adds = mongo.insert_adds ticket db.ticket_collection done x in
        rw (same) (
          λ i. ((finds.0 i).0, adds.0 (rw stored at (finds.0 i).1)),
          λ (o, i). finds.1 (o, rw stored (adds.1 i)),
        )

    -- A bet fails exactly when its ticket cannot be stored, with that error. It then leaves two
    -- messages, the service's on top of the repository's, and else none; it never touches the draws.
    pub place_bet-fails :
        ((e : E) → (bet.0 ≡ err e) ↔ ((tickets.insert_one ticket db.ticket_collection).0 ≡ some e))
        × (bet.1.log ≡ elim (tickets.insert_one ticket db.ticket_collection).0 [
          | none ↦ db.log
          | some _ ↦ "Failed to place bet" ∷ "Failed to save ticket" ∷ db.log
        ])
        × (bet.1.result_collection ≡ db.result_collection)
    unfolding place_bet save_ticket
    place_bet-fails = elim (Option-cases (tickets.insert_one ticket db.ticket_collection).0) [
      | inl e ↦ (λ g. ground (arith, e), ground (arith, e), ground (arith, e))
      | inr (f, e) ↦ (λ g. ground (arith, e), ground (arith, e), ground (arith, e))
    ]

  module _ (d : Draws b m) (lottery_type : String) (winning_numbers : List ℤ)
      (prizes : List (PrizeInfo b)) (db : Db b m) where
    abbrev drawn : DrawResult b
    drawn = new_draw_result b m d lottery_type winning_numbers prizes

    abbrev recorded : Call b m (Result E (DrawResult b))
    recorded = record_draw_result b m d lottery_type winning_numbers prizes db

    record_draw_result-inv :
        (r : DrawResult b)
        → recorded.0 ≡ ok r
        → ((results.insert_one drawn db.result_collection).0 ≡ none)
          × (r ≡ drawn)
          × (recorded.1.result_collection ≡ (results.insert_one drawn db.result_collection).1)
    unfolding record_draw_result save_draw_result
    record_draw_result-inv r h =
        elim (Option-cases (results.insert_one drawn db.result_collection).0) [
          | inl e ↦ ground (arith, h, e)
          | inr (f, e) ↦ absurd (ground (arith, h, e))
        ]

    get_draw_result-inv :
        (t i : String) (db' : Db b m) (found : DrawResult b)
        → (get_draw_result_by_issue b m t i db').0 ≡ ok found
        → results.find_one (record { lottery_type = t; issue_number = i }) db'.result_collection
          ≡ ok found
    unfolding get_draw_result_by_issue
    get_draw_result-inv t i db' found h =
        elim (Result-cases (
          results.find_one (record { lottery_type = t; issue_number = i }) db'.result_collection)) [
            | inl (x, k) ↦ ground (arith, h, k)
            | inr (e, k) ↦ absurd (ground (arith, h, k))
          ]

    -- After a draw has been recorded, a look-up by its type and issue number yields, where it
    -- succeeds, the draw itself, with its time in BSON's milliseconds, if no draw of this type and issue
    -- number was stored before.
    pub record_draw_result-get_draw_result :
        (mongo : IsCollection results (bson_draw_result b) OfIssue)
        → (r found : DrawResult b) → recorded.0 ≡ ok r
        → ((x : DrawResult b)
            → mongo.Holds x db.result_collection
            → OfIssue (record { lottery_type = r.lottery_type; issue_number = r.issue_number }) x
            → ⊥)
        → (get_draw_result_by_issue b m r.lottery_type r.issue_number recorded.1).0 ≡ ok found
        → found ≡ bson_draw_result b r
    record_draw_result-get_draw_result mongo r found h first k =
        let (done, same, stored) = record_draw_result-inv r h in
        let l = get_draw_result-inv r.lottery_type r.issue_number recorded.1 found k in
        let (sel, holds) = mongo.find_one_finds _ recorded.1.result_collection found l in
        elim ((mongo.insert_adds drawn db.result_collection done found).0 (rw stored at holds)) [
          | inl e ↦ cc (e, same)
          | inr old ↦ absurd (first found old sel)
        ]

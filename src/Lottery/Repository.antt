-- ===== src/Lottery/Repository.antt =====
-- The documents of cmd/design/lottery/demo/demo.go and MongoLotteryRepository. The driver's collections
-- are a parameter; a log is the list of zap's error messages, newest first.
use kratos_demo.Prelude.{Option, none, some, List, ◌∷◌, String}
use kratos_demo.Prelude.Int.{ℤ}

-- What github.com/google/uuid, time and float64 are to the program.
pub record Basics : Type 1 where
  pub Uuid : Type 0
  pub Time : Type 0
  pub F : Type 0
  pub zero_amount : F
  pub unix : Time → ℤ
  -- What a time is after it has been written to BSON, whose dates count milliseconds, and read back.
  pub bson_date : Time → Time

pub data TicketStatus : Type 0 where
  pending winning lost claimed : TicketStatus

module _ (b : Basics) where
  open b use {Uuid, Time, F}

  -- LotteryType, BetType and PrizeLevel are texts.
  pub record LotteryTicket : Type 0 where
    pub id : Uuid
    pub user_id : Uuid
    pub lottery_type : String
    pub bet_type : String
    pub numbers : List (List ℤ)
    pub bet_amount : F
    pub multiple : ℤ
    pub issue_number : String
    pub bet_time : Time
    pub status : TicketStatus

  pub record PrizeInfo : Type 0 where
    pub level : String
    pub winner_count : ℤ
    pub prize_amount : F

  pub record DrawResult : Type 0 where
    pub id : Uuid
    pub lottery_type : String
    pub issue_number : String
    pub draw_time : Time
    pub winning_numbers : List ℤ
    pub jackpot : F
    pub prizes : List PrizeInfo

  -- What the driver reads back of a document that it has written.
  abbrev pub bson_ticket : LotteryTicket → LotteryTicket
  bson_ticket t = record t { bet_time = b.bson_date t.bet_time }

  abbrev pub bson_draw_result : DrawResult → DrawResult
  bson_draw_result r = record r { draw_time = b.bson_date r.draw_time }

-- The outcome of a call that returns a value or an error.
pub data Result (E A : Type 0) : Type 0 where
  ok : A → Result E A
  err : E → Result E A

-- A collection of documents `D`, queried with filters `Q`.
pub record Collection (E D Q : Type 0) : Type 1 where
  pub St : Type 0
  pub Cursor : Type 0
  -- `InsertOne`, with the collection afterwards.
  pub insert_one : D → St → Option E × St
  pub find : Q → St → Result E Cursor
  -- `cursor.All`.
  pub all : Cursor → Result E (List D)
  -- `FindOne(…).Decode`.
  pub find_one : Q → St → Result E D

-- `bson.M{"user_id": …}` and `bson.M{"lottery_type": …, "issue_number": …}`.
pub record ByUser (b : Basics) : Type 0 where
  pub user_id : b.Uuid

pub record ByIssue : Type 0 where
  pub lottery_type : String
  pub issue_number : String

pub record Mongo (b : Basics) : Type 1 where
  pub E : Type 0
  pub tickets : Collection E (LotteryTicket b) (ByUser b)
  pub results : Collection E (DrawResult b) ByIssue

module _ (b : Basics) (m : Mongo b) where
  open m use {E, tickets, results}

  -- The repository's collections and the log.
  pub record Db : Type 0 where
    pub ticket_collection : tickets.St
    pub result_collection : results.St
    pub log : List String

  abbrev pub log_error : String → Db → Db
  log_error message db = record db { log = message ∷ db.log }

  -- A call's result and the state afterwards.
  abbrev pub Call : Type 0 → Type 0
  Call A = A × Db

  unfoldable pub save_ticket : LotteryTicket b → Db → Call (Option E)
  save_ticket ticket db =
      let (failed, stored) = tickets.insert_one ticket db.ticket_collection in
      let db' : Db = record db { ticket_collection = stored } in
      elim failed [ none ↦ (none, db') | some e ↦ (some e, log_error "Failed to save ticket" db') ]

  unfoldable pub save_draw_result : DrawResult b → Db → Call (Option E)
  save_draw_result result db =
      let (failed, stored) = results.insert_one result db.result_collection in
      let db' : Db = record db { result_collection = stored } in
      elim failed [
        | none ↦ (none, db')
        | some e ↦ (some e, log_error "Failed to save draw result" db')
      ]

  unfoldable pub get_tickets_by_user : b.Uuid → Db → Call (Result E (List (LotteryTicket b)))
  get_tickets_by_user user_id db =
      elim (tickets.find (record { user_id = user_id }) db.ticket_collection) [
        | err e ↦ (err e, log_error "Failed to find tickets" db)
        | ok cursor ↦ elim (tickets.all cursor) [
          | err e ↦ (err e, log_error "Failed to decode tickets" db)
          | ok found ↦ (ok found, db)
        ]
      ]

  unfoldable pub get_draw_result_by_issue : String → String → Db → Call (Result E (DrawResult b))
  get_draw_result_by_issue lottery_type issue_number db =
      elim (results.find_one (record { lottery_type = lottery_type; issue_number = issue_number })
        db.result_collection) [
          | err e ↦ (err e, log_error "Failed to find draw result" db)
          | ok found ↦ (ok found, db)
        ]

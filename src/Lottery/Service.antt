-- ===== src/Lottery/Service.antt =====
-- `LotteryService` of cmd/design/lottery/demo/demo.go, over the repository.
pub mod Laws
use kratos_demo.Prelude.{◌≡◌, Option, none, some, List, [], ◌∷◌, String}
use kratos_demo.Prelude.Int.{ℤ, pos}
use kratos_demo.Prelude.Decimal.{itoa}
use kratos_demo.Lottery.Repository.{
  Basics, LotteryTicket, PrizeInfo, DrawResult, TicketStatus, pending, Result, ok, err, Mongo, Db,
  log_error, Call, save_ticket, save_draw_result,
}

module _ (b : Basics) (m : Mongo b) where
  open b use {Uuid, Time, F, unix, zero_amount}

  -- What a call draws from outside: a new UUID, and the two readings of the clock.
  pub record Draws : Type 0 where
    pub new_id : Uuid
    pub now : Time
    pub later : Time

  abbrev pub new_ticket : Draws → Uuid → String → List (List ℤ) → F → LotteryTicket b
  new_ticket d user_id lottery_type numbers bet_amount = record {
    id = d.new_id;
    user_id = user_id;
    lottery_type = lottery_type;
    bet_type = "";
    numbers = numbers;
    bet_amount = bet_amount;
    multiple = pos 0;
    issue_number = itoa (unix d.later);
    bet_time = d.now;
    status = pending;
  }

  unfoldable pub place_bet :
      Draws → Uuid → String → List (List ℤ) → F → Db b m → Call b m (Result m.E (LotteryTicket b))
  place_bet d user_id lottery_type numbers bet_amount db =
      let ticket = new_ticket d user_id lottery_type numbers bet_amount in
      let (failed, db') = save_ticket b m ticket db in
      elim failed [
        | some e ↦ (err e, log_error b m "Failed to place bet" db')
        | none ↦ (ok ticket, db')
      ]

  abbrev pub new_draw_result : Draws → String → List ℤ → List (PrizeInfo b) → DrawResult b
  new_draw_result d lottery_type winning_numbers prizes = record {
    id = d.new_id;
    lottery_type = lottery_type;
    issue_number = itoa (unix d.later);
    draw_time = d.now;
    winning_numbers = winning_numbers;
    jackpot = zero_amount;
    prizes = prizes;
  }

  unfoldable pub record_draw_result :
      Draws → String → List ℤ → List (PrizeInfo b) → Db b m → Call b m (Result m.E (DrawResult b))
  record_draw_result d lottery_type winning_numbers prizes db =
      let result = new_draw_result d lottery_type winning_numbers prizes in
      let (failed, db') = save_draw_result b m result db in
      elim failed [
        | some e ↦ (err e, log_error b m "Failed to record draw result" db')
        | none ↦ (ok result, db')
      ]

-- ===== src/Payment/Strategy.antt =====
-- cmd/design/strategy/strategy/strategy.go: the strategy pattern with a tracker.
pub mod Laws
pub mod Records
use kratos_demo.Prelude.{
  Bool, true, false, List, [], ◌∷◌, ◌++◌, String, str_append, format, if◌then◌else◌,
}
use kratos_demo.Payment.Floats.{Floats, tenth}
use kratos_demo.Payment.Tracker.{PaymentTracker, record_payment}

module _ (fl : Floats) where
  open fl use {F, of_ℕ, add, sub, lt, le, fixed2}

  -- The three strategies with their fields.
  pub data PaymentStrategy : Type 0 where
    credit_card : PaymentStrategy
    coupon : (coupon_discount : F) → PaymentStrategy
    points : (points_left : F) → PaymentStrategy

  abbrev pub get_name : PaymentStrategy → String
  get_name credit_card = "Credit Card"
  get_name (coupon c) = "Coupon"
  get_name (points p) = "Points"

  -- What a strategy's `Pay` returns, with the strategy as it is afterwards.
  pub record Applied : Type 0 where
    pub strategy : PaymentStrategy
    pub remaining : F
    pub detail : String
    pub discount : F

  unfoldable pub pay_credit_card : F → Applied
  pay_credit_card amount = record {
    strategy = credit_card;
    remaining = amount;
    detail = format ("Paid " ∷ fixed2 amount ∷ " using Credit Card" ∷ []);
    discount = of_ℕ 0;
  }

  unfoldable pub pay_coupon : F → F → Applied
  pay_coupon c amount =
      let rest = sub amount c in
      let discounted_amount = if lt rest (of_ℕ 0) then of_ℕ 0 else rest in
      record {
        strategy = coupon c;
        remaining = discounted_amount;
        detail = format (
            "Applied coupon discount of "
            ∷ fixed2 c
            ∷ ". Remaining amount: "
            ∷ fixed2 discounted_amount
            ∷ []);
        discount = c;
      }

  unfoldable pub pay_points : F → F → Applied
  pay_points p amount =
      let discount = tenth fl amount in
      let remaining_amount = sub amount discount in
      if le discount p
      then record {
        strategy = points (sub p discount);
        remaining = remaining_amount;
        detail = format (
            "Used "
            ∷ fixed2 discount
            ∷ " points. Remaining amount: "
            ∷ fixed2 remaining_amount
            ∷ ". Remaining points: "
            ∷ fixed2 (sub p discount)
            ∷ []);
        discount = discount;
      }
      else record {
        strategy = points p;
        remaining = amount;
        detail = "Insufficient points to apply.";
        discount = of_ℕ 0;
      }

  unfoldable pub apply : PaymentStrategy → F → Applied
  unfolding pay_credit_card pay_coupon pay_points
  apply credit_card amount = pay_credit_card amount
  apply (coupon c) amount = pay_coupon c amount
  apply (points p) amount = pay_points p amount

  -- `PaymentContext`.
  pub record PaymentContext : Type 0 where
    pub strategies : List PaymentStrategy
    pub payment_tracker : PaymentTracker fl

  unfoldable pub new_payment_context : PaymentContext
  new_payment_context = record { strategies = []; payment_tracker = [] }

  unfoldable pub add_strategy : PaymentContext → PaymentStrategy → PaymentContext
  add_strategy pc s = record pc { strategies = pc.strategies ++ s ∷ [] }

  -- The variables of `Pay`'s loop. `total_discount` is summed up and never read.
  pub record Loop : Type 0 where
    pub remaining : F
    pub details : String
    pub total_discount : F
    pub tracker : PaymentTracker fl

  -- One round of the loop for the whole `amount`: the strategy afterwards, and the variables.
  unfoldable pub round : F → PaymentStrategy → Loop → PaymentStrategy × Loop
  round amount s l =
      let a = apply s l.remaining in
      (
        a.strategy,
        record {
          remaining = a.remaining;
          details = str_append l.details (str_append a.detail " ");
          total_discount = add l.total_discount a.discount;
          tracker = record_payment fl l.tracker (get_name s) (sub amount a.remaining) a.discount;
        },
      )

  unfoldable pub pay_loop : F → List PaymentStrategy → Loop → List PaymentStrategy × Loop
  pay_loop amount [] l = ([], l)
  pay_loop amount (s ∷ ss) l =
      let (s', l') = round amount s l in
      let (ss', l'') = pay_loop amount ss l' in
      if le l'.remaining (of_ℕ 0) then (s' ∷ ss, l') else (s' ∷ ss', l'')

  -- The context afterwards, the remaining amount and the details.
  unfoldable pub pay : PaymentContext → F → PaymentContext × F × String
  pay pc amount =
      let start : Loop = record {
        remaining = amount;
        details = "";
        total_discount = of_ℕ 0;
        tracker = pc.payment_tracker;
      } in
      let (strategies, l) = pay_loop amount pc.strategies start in
      (record { strategies = strategies; payment_tracker = l.tracker }, l.remaining, l.details)

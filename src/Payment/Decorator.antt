-- ===== src/Payment/Decorator.antt =====
-- cmd/design/decorator/decorator/decorator.go: the decorator pattern with a tracker. The builder gives
-- all decorators of a chain one tracker, which a call takes and returns.
use kratos_demo.Prelude.{
  string_comparable, some, ◌≡◌, refl, ap, List, [], ◌∷◌, String, arith, format, if◌then◌else◌,
}
use kratos_demo.Prelude.Assoc.{lookup}
use kratos_demo.Payment.Floats.{Floats, tenth}
use kratos_demo.Payment.Tracker.{
  PaymentTracker, record_payment, add_to, held, lookup-record_payment,
}
use kratos_demo.Payment.PlainStrategy
use kratos_demo.Payment.PlainStrategy.{Strategy, pay_strategy, discounted}

module _ (fl : Floats) where
  open fl use {F, of_ℕ, sub, lt, le, fixed2}

  -- A chain of decorators round the credit card, the outermost first.
  pub data Payment : Type 0 where
    credit_card : Payment
    coupon : (coupon_discount : F) → Payment → Payment
    points : (points_left : F) → Payment → Payment

  -- What `Pay` returns, with the chain and the tracker as they are afterwards.
  pub record Paid : Type 0 where
    pub payment : Payment
    pub tracker : PaymentTracker fl
    pub amount : F
    pub detail : String

  unfoldable pub pay : Payment → F → PaymentTracker fl → Paid
  pay credit_card amount t = record {
    payment = credit_card;
    tracker = record_payment fl t "Credit Card" amount (of_ℕ 0);
    amount = amount;
    detail = format ("Paid " ∷ fixed2 amount ∷ " using Credit Card" ∷ []);
  }
  pay (coupon c inner) amount t =
      let discounted_amount = discounted fl amount c in
      let t' = record_payment fl t "Coupon" (sub amount discounted_amount) c in
      let rest = pay inner discounted_amount t' in
      record {
        payment = coupon c rest.payment;
        tracker = rest.tracker;
        amount = rest.amount;
        detail = format ("Applied coupon discount of " ∷ fixed2 c ∷ ". " ∷ rest.detail ∷ []);
      }
  pay (points p inner) amount t =
      let discount = tenth fl amount in
      let remaining_amount = sub amount discount in
      let t' = record_payment fl t "Points" (sub amount remaining_amount) discount in
      let rest = pay inner remaining_amount t' in
      let whole = pay inner amount t in
      if le discount p
      then record {
        payment = points (sub p discount) rest.payment;
        tracker = rest.tracker;
        amount = rest.amount;
        detail = format (
            "Used "
            ∷ fixed2 discount
            ∷ " points. "
            ∷ rest.detail
            ∷ " Remaining points: "
            ∷ fixed2 (sub p discount)
            ∷ []);
      }
      else record whole { payment = points p whole.payment }

  -- `BuildPaymentChain`.
  abbrev pub build_payment_chain : Payment
  build_payment_chain = points (of_ℕ 50) (coupon (of_ℕ 20) credit_card)

  -- `main`: a list of payments through one chain and one tracker.
  unfoldable pub pay_all : List F → Payment → PaymentTracker fl → Payment × PaymentTracker fl
  pay_all [] c t = (c, t)
  pay_all (amount ∷ amounts) c t =
      let paid = pay c amount t in pay_all amounts paid.payment paid.tracker

  -- The chain as a list of strategies, in the order in which they are applied.
  abbrev pub strategies_of : Payment → List (Strategy fl)
  strategies_of credit_card = PlainStrategy.credit_card ∷ []
  strategies_of (coupon c inner) = PlainStrategy.coupon c ∷ strategies_of inner
  strategies_of (points p inner) = PlainStrategy.points p ∷ strategies_of inner

  -- All strategies in turn, with no early end.
  abbrev pub apply_all : List (Strategy fl) → F → F
  apply_all [] amount = amount
  apply_all (s ∷ ss) amount = apply_all ss (pay_strategy fl s amount).remaining

  abbrev pub after_all : List (Strategy fl) → F → List (Strategy fl)
  after_all [] amount = []
  after_all (s ∷ ss) amount =
      (pay_strategy fl s amount).strategy ∷ after_all ss (pay_strategy fl s amount).remaining

  -- A chain of decorators applies its discounts as a list of strategies does that never stops early:
  -- it returns the amount that they leave, and its points end up as theirs do.
  pub pay-apply_all :
      (c : Payment) (amount : F) (t : PaymentTracker fl)
      → ((pay c amount t).amount ≡ apply_all (strategies_of c) amount)
        × (strategies_of (pay c amount t).payment ≡ after_all (strategies_of c) amount)
  unfolding pay pay_strategy
  pay-apply_all credit_card amount t = (refl, refl)
  pay-apply_all (coupon c inner) amount t =
      let (left, kept) =
        pay-apply_all inner (discounted fl amount c)
          (record_payment fl t "Coupon" (sub amount (discounted fl amount c)) c) in
      (left, ap (λ ss. PlainStrategy.coupon c ∷ ss) kept)
  pay-apply_all (points p inner) amount t =
      let rest = pay-apply_all inner (sub amount (tenth fl amount)) (
        record_payment fl t "Points" (sub amount (sub amount (tenth fl amount)))
          (tenth fl amount)) in
      let whole = pay-apply_all inner amount t in ground (arith, rest, whole)

  -- A call adds to the tracker's credit-card record exactly the amount that it returns, with no
  -- discount, whatever decorators stand before the card.
  pub lookup-pay_credit_card :
      (c : Payment) (amount : F) (t : PaymentTracker fl)
      → lookup "Credit Card" (pay c amount t).tracker
        ≡ some (add_to fl (pay c amount t).amount (of_ℕ 0) (held fl t "Credit Card"))
  unfolding pay
  lookup-pay_credit_card credit_card amount t =
      simp (lookup-record_payment fl t "Credit Card" "Credit Card" amount (of_ℕ 0))
  lookup-pay_credit_card (coupon c inner) amount t =
      let rest = discounted fl amount c in
      let t' = record_payment fl t "Coupon" (sub amount rest) c in
      ground (
        arith,
        lookup-pay_credit_card inner rest t',
        lookup-record_payment fl t "Coupon" "Credit Card" (sub amount rest) c,
      )
  lookup-pay_credit_card (points p inner) amount t =
      let discount = tenth fl amount in
      let rest = sub amount discount in
      let t' = record_payment fl t "Points" (sub amount rest) discount in
      ground (
        arith,
        lookup-pay_credit_card inner rest t',
        lookup-pay_credit_card inner amount t,
        lookup-record_payment fl t "Points" "Credit Card" (sub amount rest) discount,
      )

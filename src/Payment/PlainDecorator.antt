-- ===== src/Payment/PlainDecorator.antt =====
-- cmd/design/decorator/decorator.go: the decorator pattern without a tracker.
use kratos_demo.Prelude.{◌≡◌, refl, List, [], ◌∷◌, String, arith, format, if◌then◌else◌}
use kratos_demo.Payment.Floats.{Floats, tenth}

module _ (fl : Floats) where
  open fl use {F, of_ℕ, sub, lt, le, fixed2}

  -- A chain of decorators round the credit card, the outermost first.
  pub data Payment : Type 0 where
    credit_card : Payment
    coupon : (coupon_discount : F) → Payment → Payment
    points : (points_left : F) → Payment → Payment

  -- What `Pay` returns, with the chain as it is afterwards, and the amounts for which the credit card
  -- at its end was called.
  pub record Paid : Type 0 where
    pub payment : Payment
    pub charged : List F
    pub detail : String

  -- The coupon does not call the payment that it wraps; the points drop its answer.
  unfoldable pub pay : Payment → F → Paid
  pay credit_card amount = record {
    payment = credit_card;
    charged = amount ∷ [];
    detail = format ("Paid " ∷ fixed2 amount ∷ " using Credit Card" ∷ []);
  }
  pay (coupon c inner) amount =
      let rest = sub amount c in
      let discounted_amount = if lt rest (of_ℕ 0) then of_ℕ 0 else rest in
      record {
        payment = coupon c inner;
        charged = [];
        detail = format (
            "Paid "
            ∷ fixed2 amount
            ∷ " using Credit Card and coupon discount of "
            ∷ fixed2 c
            ∷ ". Total paid: "
            ∷ fixed2 discounted_amount
            ∷ []);
      }
  pay (points p inner) amount =
      let discount = tenth fl amount in
      let remaining_amount = sub amount discount in
      let rest = pay inner remaining_amount in
      let whole = pay inner amount in
      if le discount p
      then record {
        payment = points (sub p discount) rest.payment;
        charged = rest.charged;
        detail = format (
            "Paid "
            ∷ fixed2 amount
            ∷ " using Credit Card and "
            ∷ fixed2 discount
            ∷ " points. Remaining points: "
            ∷ fixed2 (sub p discount)
            ∷ ". Remaining amount to pay: "
            ∷ fixed2 remaining_amount
            ∷ []);
      }
      else record {
        payment = points p whole.payment;
        charged = whole.charged;
        detail =
            format
              ("Insufficient points to apply. Paid " ∷ fixed2 amount ∷ " using Credit Card" ∷ []);
      }

  -- A coupon stands somewhere in the chain.
  abbrev pub HasCoupon : Payment → Type 0
  HasCoupon credit_card = ⊥
  HasCoupon (coupon c inner) = Unit {0}
  HasCoupon (points p inner) = HasCoupon inner

  -- A chain with a coupon anywhere never charges the credit card, although its answer says that the
  -- amount was paid by it.
  pub HasCoupon-charged : (c : Payment) (amount : F) → HasCoupon c → (pay c amount).charged ≡ []
  unfolding pay
  HasCoupon-charged credit_card amount h = absurd h
  HasCoupon-charged (coupon c inner) amount h = refl
  HasCoupon-charged (points p inner) amount h = ground (
    arith,
    HasCoupon-charged inner (sub amount (tenth fl amount)) h,
    HasCoupon-charged inner amount h,
  )

-- ===== src/Payment/PlainStrategy.antt =====
-- cmd/design/strategy/stragety.go: the strategy pattern without a tracker.
use kratos_demo.Prelude.{List, [], ◌∷◌, ◌++◌, String, str_append, format, if◌then◌else◌}
use kratos_demo.Payment.Floats.{Floats, tenth}

module _ (fl : Floats) where
  open fl use {F, of_ℕ, add, sub, lt, le, fixed2}

  -- The three strategies with their fields.
  pub data Strategy : Type 0 where
    credit_card : Strategy
    coupon : (coupon_discount : F) → Strategy
    points : (points_left : F) → Strategy

  -- What `Pay` returns, with the strategy as it is afterwards.
  pub record Paid : Type 0 where
    pub strategy : Strategy
    pub remaining : F
    pub detail : String

  -- `if discountedAmount < 0 { discountedAmount = 0 }`.
  abbrev pub discounted : F → F → F
  discounted amount coupon_discount =
      let rest = sub amount coupon_discount in if lt rest (of_ℕ 0) then of_ℕ 0 else rest

  unfoldable pub pay_strategy : Strategy → F → Paid
  pay_strategy credit_card amount = record {
    strategy = credit_card;
    remaining = amount;
    detail = format ("Paid " ∷ fixed2 amount ∷ " using Credit Card" ∷ []);
  }
  pay_strategy (coupon c) amount = record {
    strategy = coupon c;
    remaining = discounted amount c;
    detail = format (
        "Applied coupon discount of "
        ∷ fixed2 c
        ∷ ". Remaining amount: "
        ∷ fixed2 (discounted amount c)
        ∷ []);
  }
  pay_strategy (points p) amount =
      let discount = tenth fl amount in
      if le discount p
      then record {
        strategy = points (sub p discount);
        remaining = sub amount discount;
        detail = format (
            "Used "
            ∷ fixed2 discount
            ∷ " points. Remaining amount: "
            ∷ fixed2 (sub amount discount)
            ∷ ". Remaining points: "
            ∷ fixed2 (sub p discount)
            ∷ []);
      }
      else record {
        strategy = points p;
        remaining = amount;
        detail = "Insufficient points to apply.";
      }

  -- `PaymentContext.strategies` is the list; `AddStrategy` appends.
  unfoldable pub add_strategy : List Strategy → Strategy → List Strategy
  add_strategy strategies strategy = strategies ++ strategy ∷ []

  -- What the context's `Pay` returns, with the strategies as they are afterwards.
  pub record PaidAll : Type 0 where
    pub strategies : List Strategy
    pub remaining : F
    pub details : String

  -- The loop of `Pay`, from a remaining amount and the details so far.
  unfoldable pub pay_loop : List Strategy → F → String → PaidAll
  pay_loop [] remaining details = record {
    strategies = [];
    remaining = remaining;
    details = details;
  }
  pay_loop (s ∷ ss) remaining details =
      let p = pay_strategy s remaining in
      let details' = str_append details (str_append p.detail " ") in
      let rest = pay_loop ss p.remaining details' in
      if le p.remaining (of_ℕ 0)
      then record { strategies = p.strategy ∷ ss; remaining = p.remaining; details = details' }
      else record rest { strategies = p.strategy ∷ rest.strategies }

  unfoldable pub pay : List Strategy → F → PaidAll
  pay strategies amount = pay_loop strategies amount ""

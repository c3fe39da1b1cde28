-- ===== src/Payment/Strategy/Laws.antt =====
-- The strategy context: refinement of the version without a tracker, the sign of the amounts, where
-- the loop stops, and what the tracker is told.
use kratos_demo.Prelude.{
  true, false, ◌≡◌, refl, inl, inr, List, [], ◌∷◌, ◌++◌, map, arith, Bool-cases,
}
use kratos_demo.Payment.Floats.{Floats, tenth, NonNeg, IsIeee}
use kratos_demo.Payment.PlainStrategy
use kratos_demo.Payment.PlainStrategy.{pay_strategy}
use kratos_demo.Payment.Strategy.{
  PaymentStrategy, credit_card, coupon, points, Applied, apply, PaymentContext, Loop, round,
  pay_loop, pay,
}

module _ (fl : Floats) where
  open fl use {F, of_ℕ, sub, lt, le}

  -- The strategy of the version without a tracker.
  abbrev pub plain : PaymentStrategy fl → PlainStrategy.Strategy fl
  plain credit_card = PlainStrategy.credit_card
  plain (coupon c) = PlainStrategy.coupon c
  plain (points p) = PlainStrategy.points p

  abbrev Forgets : Applied fl → PlainStrategy.Paid fl
  Forgets a = record { strategy = plain a.strategy; remaining = a.remaining; detail = a.detail }

  apply-plain :
      (s : PaymentStrategy fl) (amount : F)
      → pay_strategy fl (plain s) amount ≡ Forgets (apply fl s amount)
  unfolding apply pay_strategy
  apply-plain credit_card amount = refl
  apply-plain (coupon c) amount = refl
  apply-plain (points p) amount = ground arith

  pay_loop-plain :
      (amount : F) (ss : List (PaymentStrategy fl)) (l : Loop fl)
      → PlainStrategy.pay_loop fl (map plain ss) l.remaining l.details ≡ record {
        strategies = map plain (pay_loop fl amount ss l).0;
        remaining = (pay_loop fl amount ss l).1.remaining;
        details = (pay_loop fl amount ss l).1.details;
      }
  unfolding pay_loop PlainStrategy.pay_loop round
  pay_loop-plain amount [] l = refl
  pay_loop-plain amount (s ∷ ss) l =
      ground (arith, apply-plain s l.remaining, pay_loop-plain amount ss (round fl amount s l).1)

  -- The tracker changes no payment: the context pays just as the version without a tracker does, with
  -- the same amount left, the same details and the same strategies afterwards.
  pub pay-plain :
      (pc : PaymentContext fl) (amount : F)
      → PlainStrategy.pay fl (map plain pc.strategies) amount ≡ record {
        strategies = map plain (pay fl pc amount).0.strategies;
        remaining = (pay fl pc amount).1;
        details = (pay fl pc amount).2;
      }
  unfolding pay PlainStrategy.pay
  pay-plain pc amount = pay_loop-plain amount pc.strategies _

  -- No strategy of the list has points below zero.
  abbrev pub HasNonNegPoints : List (PaymentStrategy fl) → Type 0
  HasNonNegPoints [] = Unit {0}
  HasNonNegPoints (credit_card ∷ ss) = HasNonNegPoints ss
  HasNonNegPoints (coupon c ∷ ss) = HasNonNegPoints ss
  HasNonNegPoints (points p ∷ ss) = NonNeg fl p × HasNonNegPoints ss

  HasNonNegPoints-cons :
      (s : PaymentStrategy fl) (ss : List (PaymentStrategy fl))
      → HasNonNegPoints (s ∷ [])
      → HasNonNegPoints ss
      → HasNonNegPoints (s ∷ ss)
  HasNonNegPoints-cons credit_card ss h t = t
  HasNonNegPoints-cons (coupon c) ss h t = t
  HasNonNegPoints-cons (points p) ss h t = (h.0, t)

  HasNonNegPoints-parts :
      (s : PaymentStrategy fl) (ss : List (PaymentStrategy fl))
      → HasNonNegPoints (s ∷ ss)
      → HasNonNegPoints (s ∷ []) × HasNonNegPoints ss
  HasNonNegPoints-parts credit_card ss h = (tt, h)
  HasNonNegPoints-parts (coupon c) ss h = (tt, h)
  HasNonNegPoints-parts (points p) ss h = ((h.0, tt), h.1)

  module _ (ieee : IsIeee fl) where
    sub-tenth-NonNeg : (a : F) → NonNeg fl a → NonNeg fl (sub a (tenth fl a))
    sub-tenth-NonNeg a h = elim (Bool-cases (le a a)) [
      | inl e ↦
          ieee.sub_nonneg (tenth fl a) a
            (ieee.part_le a 100 10 h e (omega arith) (omega arith) (omega arith))
      | inr e ↦ ieee.sub-nan (tenth fl a) a e
    ]

    apply-NonNeg :
        (s : PaymentStrategy fl) (amount : F)
        → NonNeg fl amount
        → HasNonNegPoints (s ∷ [])
        → NonNeg fl (apply fl s amount).remaining
          × HasNonNegPoints ((apply fl s amount).strategy ∷ [])
    unfolding apply
    apply-NonNeg credit_card amount h t = (h, tt)
    apply-NonNeg (coupon c) amount h t = ground (arith, ieee.zero_nonneg)
    apply-NonNeg (points p) amount h t =
        ground (arith, sub-tenth-NonNeg amount h, ieee.sub_nonneg (tenth fl amount) p)

    pay_loop-NonNeg :
        (amount : F) (ss : List (PaymentStrategy fl)) (l : Loop fl)
        → NonNeg fl l.remaining
        → HasNonNegPoints ss
        → NonNeg fl (pay_loop fl amount ss l).1.remaining
          × HasNonNegPoints (pay_loop fl amount ss l).0
    unfolding pay_loop round
    pay_loop-NonNeg amount [] l h t = (h, tt)
    pay_loop-NonNeg amount (s ∷ ss) l h t =
        let (here, later) = HasNonNegPoints-parts s ss t in
        let (left, kept) = apply-NonNeg s l.remaining h here in
        let (left', kept') = pay_loop-NonNeg amount ss (round fl amount s l).1 left later in
        elim (Bool-cases (le (apply fl s l.remaining).remaining (of_ℕ 0))) [
          | inl e ↦ rw e (left, HasNonNegPoints-cons _ ss kept later)
          | inr e ↦ rw e (left', HasNonNegPoints-cons _ _ kept kept')
        ]

    -- A payment of an amount that is not below zero leaves an amount that is not below zero, and no
    -- strategy's points fall below zero, if none were before; over IEEE 754's rounding.
    pub pay-NonNeg :
        (pc : PaymentContext fl) (amount : F)
        → NonNeg fl amount
        → HasNonNegPoints pc.strategies
        → NonNeg fl (pay fl pc amount).1 × HasNonNegPoints (pay fl pc amount).0.strategies
    unfolding pay
    pay-NonNeg pc amount h t = pay_loop-NonNeg amount pc.strategies _ h t

  pay_loop-append :
      (amount : F) (ss ts : List (PaymentStrategy fl)) (l : Loop fl)
      → le l.remaining (of_ℕ 0) ≡ false
      → le (pay_loop fl amount ss l).1.remaining (of_ℕ 0) ≡ true
      → pay_loop fl amount (ss ++ ts) l
        ≡ ((pay_loop fl amount ss l).0 ++ ts, (pay_loop fl amount ss l).1)
  unfolding pay_loop
  pay_loop-append amount [] ts l h e = cc
  pay_loop-append amount (s ∷ ss) ts l h e =
      ground (arith, pay_loop-append amount ss ts (round fl amount s l).1)

  -- The loop stops as soon as nothing is left to pay: if the first strategies bring a positive amount
  -- down to zero or less, those after them neither change nor reach the tracker, and the result is
  -- the one that the first strategies give alone.
  pub pay_stops :
      (pc : PaymentContext fl) (later : List (PaymentStrategy fl)) (amount : F)
      → le amount (of_ℕ 0) ≡ false
      → le (pay fl pc amount).1 (of_ℕ 0) ≡ true
      → pay fl (record pc { strategies = pc.strategies ++ later }) amount ≡ (
        record (pay fl pc amount).0 { strategies = (pay fl pc amount).0.strategies ++ later },
        (pay fl pc amount).1,
        (pay fl pc amount).2,
      )
  unfolding pay
  pay_stops pc later amount h e = ground (arith, pay_loop-append amount pc.strategies later _ h e)

  pay_loop-credit_card :
      (amount : F) (ss : List (PaymentStrategy fl)) (l : Loop fl)
      → (pay_loop fl amount (ss ++ credit_card ∷ []) l).1.remaining
        ≡ (pay_loop fl amount ss l).1.remaining
  unfolding pay_loop round apply
  pay_loop-credit_card amount [] l = ground arith
  pay_loop-credit_card amount (s ∷ ss) l =
      ground (arith, pay_loop-credit_card amount ss (round fl amount s l).1)

  -- A credit card behind the other strategies pays nothing: the amount that the context reports as
  -- remaining is the same with it and without it.
  pub pay-credit_card :
      (pc : PaymentContext fl) (amount : F)
      → (pay fl (record pc { strategies = pc.strategies ++ credit_card ∷ [] }) amount).1
        ≡ (pay fl pc amount).1
  unfolding pay
  pay-credit_card pc amount = pay_loop-credit_card amount pc.strategies _

-- ===== src/Payment/Tests.antt =====
-- The payment theorems over whole numbers, and the calls of the programs' `main`.
use native.Mathlib.Nat.{div-mul-le_self, mul-le-mul_left}
use kratos_demo.Prelude.{
  ℕ, ◌<◌, ◌≤◌, true, false, ◌*◌, ◌/◌, ◌≡◌, refl, some, List, [], ◌∷◌, map, String, format, arith,
  string_comparable,
}
use kratos_demo.Prelude.Assoc.{lookup, insert}
use kratos_demo.Prelude.Int.{ℤ, pos, negsuc, ◌+ℤ◌, ◌-ℤ◌, ltb_ℤ}
use mathlib.Core.Bool.{not}
use kratos_demo.Payment.Floats.{Floats, IsIeee, NonNeg}
use kratos_demo.Payment.Tracker.{PaymentRecord, record_payment, ensure}
use kratos_demo.Payment.PlainStrategy
use kratos_demo.Payment.Strategy.{PaymentContext, coupon, apply, round, pay_loop, pay}
use kratos_demo.Payment.Strategy.Laws.{plain, pay-plain, HasNonNegPoints, pay-NonNeg}
use kratos_demo.Payment.Strategy.Records.{main_context, main_double_counts}
use kratos_demo.Payment.Decorator
use kratos_demo.Payment.PlainDecorator

-- Whole numbers, with the operations that the programs use of float64.
times : ℤ → ℤ → ℤ
times (pos a) (pos b) = pos (a * b)
times a b = pos 0

quotient : ℤ → ℤ → ℤ
quotient (pos a) (pos b) = pos (a / b)
quotient a b = pos 0

abbrev whole : Floats
whole = record {
  F = ℤ;
  of_ℕ = pos;
  add = ◌+ℤ◌;
  sub = ◌-ℤ◌;
  mul = times;
  div = quotient;
  lt = ltb_ℤ;
  le = λ a b. not (ltb_ℤ b a);
  fixed2 = λ x. "n";
}

not_less : (p : ℤ) → not (ltb_ℤ p p) ≡ false → ⊥
not_less p h = ground (arith, h)

part_le_lem :
    (a : ℤ) (k m : ℕ)
    → ltb_ℤ a (pos 0) ≡ false
    → 0 < m
    → 2 * m ≤ k
    → not (ltb_ℤ a (times (quotient a (pos k)) (pos m))) ≡ true
unfolding times quotient
part_le_lem (pos n) k m h l g =
    let whole_part = div-mul-le_self n k in
    let fewer : n / k * m ≤ n / k * k = mul-le-mul_left (n / k) (omega arith) in
    ground (arith, whole_part, fewer)
part_le_lem (negsuc n) k m h l g = absurd (ground (arith, h))

whole-IsIeee : IsIeee whole
unfolding ◌-ℤ◌ times quotient
whole-IsIeee = record {
  zero_nonneg = refl;
  sub_nonneg = λ d p h. ground arith;
  sub-nan = λ d p h. absurd (not_less p h);
  part_le = λ a k m h e l g b. part_le_lem a k m h l g;
}

abbrev context : PaymentContext whole
context = main_context whole (pos 20) (pos 50)

pay_runs : (pay whole context (pos 100)).1 ≡ pos 80
unfolding pay pay_loop round apply ◌-ℤ◌ ◌+ℤ◌ times quotient record_payment ensure insert lookup
    format
pay_runs = refl

pay-plain_example :
    PlainStrategy.pay whole (map (plain whole) context.strategies) (pos 100) ≡ record {
      strategies = map (plain whole) (pay whole context (pos 100)).0.strategies;
      remaining = (pay whole context (pos 100)).1;
      details = (pay whole context (pos 100)).2;
    }
pay-plain_example = pay-plain whole context (pos 100)

pay-NonNeg_example :
    NonNeg whole (pay whole context (pos 100)).1
    × HasNonNegPoints whole (pay whole context (pos 100)).0.strategies
pay-NonNeg_example = pay-NonNeg whole whole-IsIeee context (pos 100) refl (refl, tt)

abbrev coupon_only : PaymentContext whole
coupon_only = record { strategies = coupon (pos 20) ∷ []; payment_tracker = [] }

abbrev tracked : List (String × PaymentRecord whole)
tracked = (pay whole context (pos 220)).0.payment_tracker

main_double_counts_example :
    (lookup "Coupon" tracked
      ≡ some (record { method = "Coupon"; amount_paid = pos 20; total_discount = pos 20 }))
    × (lookup "Points" tracked
        ≡ some (record { method = "Points"; amount_paid = pos 40; total_discount = pos 20 }))
    × (lookup "Credit Card" tracked
        ≡ some (record { method = "Credit Card"; amount_paid = pos 40; total_discount = pos 0 }))
unfolding ◌-ℤ◌ ◌+ℤ◌ times quotient
main_double_counts_example =
    main_double_counts whole (pos 20) (pos 50) (pos 220) refl refl refl refl

abbrev chain : Decorator.Payment whole
chain = Decorator.build_payment_chain whole

decorator_runs : (Decorator.pay whole chain (pos 100) []).amount ≡ pos 70
unfolding Decorator.pay ◌-ℤ◌ times quotient
decorator_runs = refl

abbrev plain_chain : PlainDecorator.Payment whole
plain_chain =
    PlainDecorator.points (pos 50) (PlainDecorator.coupon (pos 20) PlainDecorator.credit_card)

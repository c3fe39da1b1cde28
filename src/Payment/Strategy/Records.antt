-- ===== src/Payment/Strategy/Records.antt =====
-- What the tracker holds after a payment by `main`'s three strategies.
use kratos_demo.Prelude.{true, false, ◌≡◌, refl, some, [], ◌∷◌, string_comparable}
use kratos_demo.Prelude.Assoc.{lookup, insert}
use kratos_demo.Payment.Floats.{Floats}
use kratos_demo.Payment.Tracker.{PaymentTracker, record_payment, ensure}
use kratos_demo.Payment.Strategy.{
  credit_card, coupon, points, pay_credit_card, pay_coupon, pay_points, apply, PaymentContext,
  round, pay_loop, pay,
}

module _ (fl : Floats) (c p : fl.F) where
  open fl use {F, of_ℕ, add, sub, mul, div, lt, le}

  -- The context of `main`, for a coupon of `c` and `p` points.
  abbrev pub main_context : PaymentContext fl
  main_context = record {
    strategies = coupon c ∷ points p ∷ credit_card ∷ [];
    payment_tracker = [];
  }

  module _ (amount : F) where
    -- The amount less the coupon, the points that a tenth of that costs, and the rest.
    abbrev pub after_coupon : F
    after_coupon = sub amount c

    abbrev pub spent : F
    spent = mul (div after_coupon (of_ℕ 100)) (of_ℕ 10)

    abbrev pub after_points : F
    after_points = sub after_coupon spent

    abbrev three_records : PaymentTracker fl
    three_records =
        record_payment fl
          (record_payment fl (record_payment fl [] "Coupon" (sub amount after_coupon) c) "Points"
            (sub amount after_points) spent)
          "Credit Card" (sub amount after_points) (of_ℕ 0)

    tracker_of_main :
        lt after_coupon (of_ℕ 0) ≡ false
        → le after_coupon (of_ℕ 0) ≡ false
        → le spent p ≡ true
        → le after_points (of_ℕ 0) ≡ false
        → (pay fl main_context amount).0.payment_tracker ≡ three_records
    unfolding pay pay_loop round apply pay_credit_card pay_coupon pay_points
    tracker_of_main n h e k = rw (n, h, e, k) refl

    pub main_double_counts :
        lt after_coupon (of_ℕ 0) ≡ false
        → le after_coupon (of_ℕ 0) ≡ false
        → le spent p ≡ true
        → le after_points (of_ℕ 0) ≡ false
        → let t = (pay fl main_context amount).0.payment_tracker in
          (lookup "Coupon" t
            ≡ some (record {
              method = "Coupon";
              amount_paid = add (of_ℕ 0) (sub amount (sub amount c));
              total_discount = add (of_ℕ 0) c;
            }))
          × (lookup "Points" t
              ≡ some (record {
                method = "Points";
                amount_paid = add (of_ℕ 0) (sub amount (sub (sub amount c) spent));
                total_discount = add (of_ℕ 0) spent;
              }))
          × (lookup "Credit Card" t
              ≡ some (record {
                method = "Credit Card";
                amount_paid = add (of_ℕ 0) (sub amount (sub (sub amount c) spent));
                total_discount = add (of_ℕ 0) (of_ℕ 0);
              }))
    unfolding lookup insert record_payment ensure
    main_double_counts n h e k = rw (tracker_of_main n h e k) (refl, refl, refl)

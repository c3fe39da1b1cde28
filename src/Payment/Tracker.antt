-- ===== src/Payment/Tracker.antt =====
-- `PaymentTracker`, which cmd/design/strategy/strategy/strategy.go and
-- cmd/design/decorator/decorator/decorator.go declare alike. A method holds the mutex throughout, so
-- it is one atomic function.
use kratos_demo.Prelude.{
  ◌≡◌, inl, inr, none, some, List, [], ◌∷◌, String, arith, eq_iff, ◌==◌, string_comparable,
  if◌then◌else◌, Option-cases, eq_self,
}
use kratos_demo.Prelude.Assoc.{Map, lookup, insert, values, lookup-insert}
use kratos_demo.Payment.Floats.{Floats}

module _ (fl : Floats) where
  open fl use {F, of_ℕ, add}

  pub record PaymentRecord : Type 0 where
    pub method : String
    pub amount_paid : F
    pub total_discount : F

  abbrev pub PaymentTracker : Type 0
  PaymentTracker = Map String PaymentRecord

  abbrev pub new_record : String → PaymentRecord
  new_record method = record { method = method; amount_paid = of_ℕ 0; total_discount = of_ℕ 0 }

  -- `if _, exists := pt.records[method]; !exists { … }`.
  unfoldable pub ensure : PaymentTracker → String → PaymentTracker
  ensure pt method = elim (lookup method pt) [
    | none ↦ insert method (new_record method) pt
    | some _ ↦ pt
  ]

  -- `record.AmountPaid += amountPaid; record.TotalDiscount += discount`.
  abbrev pub add_to : F → F → PaymentRecord → PaymentRecord
  add_to amount_paid discount r = record r {
    amount_paid = add r.amount_paid amount_paid;
    total_discount = add r.total_discount discount;
  }

  -- The record is a pointer, so the change shows in the map.
  unfoldable pub record_payment : PaymentTracker → String → F → F → PaymentTracker
  record_payment pt method amount_paid discount =
      let pt' = ensure pt method in
      elim (lookup method pt') [
        | none ↦ pt'
        | some r ↦ insert method (add_to amount_paid discount r) pt'
      ]

  -- Go visits a map in no fixed order; this is one order.
  unfoldable pub get_payment_summary : PaymentTracker → List PaymentRecord
  get_payment_summary pt = values pt

  -- What a tracker holds for a method, a new record if it holds none.
  abbrev pub held : PaymentTracker → String → PaymentRecord
  held pt method = elim (lookup method pt) [ none ↦ new_record method | some r ↦ r ]

  lookup-ensure :
      (pt : PaymentTracker) (method asked : String)
      → lookup asked (ensure pt method)
        ≡ (if method == asked then some (held pt method) else lookup asked pt)
  unfolding ensure
  lookup-ensure pt method asked = elim (Option-cases (lookup method pt)) [
    | inl e ↦ ground (arith, e, lookup-insert method asked (new_record method) pt)
    | inr (r, e) ↦ ground (arith, e, eq_iff method asked)
  ]

  lookup-ensure_self :
      (pt : PaymentTracker) (method : String)
      → lookup method (ensure pt method) ≡ some (held pt method)
  lookup-ensure_self pt method = rw (lookup-ensure pt method method, eq_self method)

  -- `RecordPayment` adds the two amounts to the method's record, which is new if there was none, and
  -- leaves the records of all other methods.
  pub lookup-record_payment :
      (pt : PaymentTracker) (method asked : String) (paid discount : F)
      → lookup asked (record_payment pt method paid discount) ≡ (
          if method == asked then some (add_to paid discount (held pt method)) else lookup asked pt)
  unfolding record_payment
  lookup-record_payment pt method asked paid discount =
      rw (lookup-ensure_self pt method, record_payment)
        (ground (
          arith,
          lookup-insert method asked (add_to paid discount (held pt method)) (ensure pt method),
          lookup-ensure pt method asked,
        ))

  -- The record that a method has after some payments, newest last: the amounts in turn, added up.
  abbrev pub totals : List (F × F) → PaymentRecord → PaymentRecord
  totals [] r = r
  totals ((paid, discount) ∷ ps) r = totals ps (add_to paid discount r)

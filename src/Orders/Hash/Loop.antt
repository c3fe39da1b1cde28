-- ===== src/Orders/Hash/Loop.antt =====
-- cmd/redis/order/order.go: the orders that generateOrder makes, and the loop that main has in a comment.
use text.Mathlib.TextLemmas.{append_cancel_left}
use kratos_demo.Prelude.{
  ◌≡◌, inr, Option, none, String, arith, ◌==◌, eq_iff, string_comparable, Bool-cases, ltb, subst,
  ok, ℕ, zero, suc, ◌+◌, ◌≤◌, ◌<◌, inl,
}
use kratos_demo.Prelude.Assoc.{Map}
use kratos_demo.Prelude.Int.{pos}
use kratos_demo.Prelude.Decimal.{itoa, itoa-injective}
use kratos_demo.Orders.Hash.{
  Floats, Order, Redis, fields_of, order_key, get_order_from_redis, store_order_in_redis,
}
use kratos_demo.Orders.Hash.Fields.{IsRedis, Holds, Holds-get, store-Holds}

-- What `rand.Intn` yields for an order: a customer, a product and an amount in hundredths.
pub record Draw : Type 0 where
  pub customer : ℕ
  pub product : ℕ
  pub amount : ℕ

-- `rand.Intn(n)` is below n.
abbrev pub IsDrawn : Draw → Type 0
IsDrawn d = (d.customer < 10000) × (d.product < 1000) × (d.amount < 10000)

-- `hundredths n` stands for `float64(n) / 100.0`.
module _ (fl : Floats) (hundredths : ℕ → fl.F) where
  unfoldable pub generate_order : Draw → ℕ → Order fl
  generate_order d i = record {
    order_id = itoa (pos i);
    customer_id = pos d.customer;
    product_id = pos d.product;
    amount = hundredths d.amount;
    status = "pending";
  }

  module _ (r : Redis fl) where
    unfoldable pub store_generated : Draw → ℕ → r.St → Option r.E × r.St
    store_generated d i s =
        let order = generate_order d i in
        store_order_in_redis fl r (order_key fl r order.order_id) order s

    -- Some rounds of the loop, from the round i on; a failure is only logged.
    unfoldable pub store_all : (ℕ → Draw) → ℕ → ℕ → r.St → r.St
    store_all draw zero i s = s
    store_all draw (suc n) i s = store_all draw n (suc i) (store_generated (draw i) i s).1

    -- No round fails.
    unfoldable pub AllStored : (ℕ → Draw) → ℕ → ℕ → r.St → Type 0
    AllStored draw zero i s = Unit {0}
    AllStored draw (suc n) i s =
        ((store_generated (draw i) i s).0 ≡ none)
        × AllStored draw n (suc i) (store_generated (draw i) i s).1

    abbrev pub key_of : ℕ → String
    key_of i = order_key fl r (itoa (pos i))

    key_of-injective : (i j : ℕ) → key_of i ≡ key_of j → i ≡ j
    key_of-injective i j h =
        let e = itoa-injective (pos i) (pos j) (append_cancel_left "order:" _ _ h) in
        ground (arith, e)

    module _ (is : IsRedis fl r) where
      store_generated-Holds :
          (d : Draw) (i : ℕ) (s : r.St)
          → (store_generated d i s).0 ≡ none
          → Holds fl r is (key_of i) (generate_order d i) (store_generated d i s).1
      unfolding store_generated generate_order
      store_generated-Holds d i s h = store-Holds fl r is (key_of i) (generate_order d i) s h

      store_generated-keeps :
          (d : Draw) (i k : ℕ) (order : Order fl) (s : r.St)
          → k < i
          → (store_generated d i s).0 ≡ none
          → Holds fl r is (key_of k) order s
          → Holds fl r is (key_of k) order (store_generated d i s).1
      unfolding store_generated store_order_in_redis generate_order
      store_generated-keeps d i k order s l h held f v g =
          let e = is.sets (key_of i) (fields_of fl r (generate_order d i)) s h (key_of k) f in
          elim (Bool-cases (key_of i == key_of k)) [
            | inl t ↦
                let q = key_of-injective i k ((eq_iff (key_of i) (key_of k)).0 t) in
                absurd (omega arith)
            | inr t ↦ rw (e, t) (held f v g)
          ]

      store_all-keeps :
          (draw : ℕ → Draw) (n i k : ℕ) (order : Order fl) (s : r.St)
          → k < i
          → AllStored draw n i s
          → Holds fl r is (key_of k) order s
          → Holds fl r is (key_of k) order (store_all draw n i s)
      unfolding store_all AllStored
      store_all-keeps draw zero i k order s l all held = held
      store_all-keeps draw (suc n) i k order s l (h, all) held =
          store_all-keeps draw n (suc i) k order (store_generated (draw i) i s).1 (omega arith) all
            (store_generated-keeps (draw i) i k order s l h held)

      store_all-Holds :
          (draw : ℕ → Draw) (n i k : ℕ) (s : r.St)
          → i ≤ k
          → k < i + n
          → AllStored draw n i s
          → Holds fl r is (key_of k) (generate_order (draw k) k) (store_all draw n i s)
      unfolding store_all AllStored
      store_all-Holds draw zero i k s a b all = absurd (omega arith)
      store_all-Holds draw (suc n) i k s a b (h, all) = elim (Bool-cases (ltb i k)) [
        | inl l ↦
            store_all-Holds draw n (suc i) k (store_generated (draw i) i s).1 (ground (arith, l))
              (omega arith) all
        | inr l ↦
            let e : i ≡ k = ground (arith, l) in
            subst
              (λ j.
                Holds fl r is (key_of j) (generate_order (draw j) j) (store_all draw (suc n) i s))
              e
              (store_all-keeps draw n (suc i) i (generate_order (draw i) i)
                (store_generated (draw i) i s).1 (omega arith) all
                (store_generated-Holds (draw i) i s h))
      ]

      -- After the rounds 1 to n with no failure, each order that a round has generated is read back as
      -- it was, wherever Redis can be read.
      pub store_all-get :
          (draw : ℕ → Draw)
          → ((i : ℕ) → IsDrawn (draw i))
          → (n k : ℕ) (s : r.St) (m : Map String String) → 1 ≤ k
          → k ≤ n
          → AllStored draw n 1 s
          → r.h_get_all (key_of k) (store_all draw n 1 s) ≡ inr m
          → get_order_from_redis fl r (key_of k) (store_all draw n 1 s)
            ≡ ok (generate_order (draw k) k)
      unfolding generate_order
      store_all-get draw drawn n k s m a b all got =
          let (c, p, x) = drawn k in
          Holds-get fl r is (generate_order (draw k) k) (store_all draw n 1 s) m (omega arith)
            (omega arith) (store_all-Holds draw n 1 k s a (omega arith) all) got

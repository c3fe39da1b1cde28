-- ===== src/Orders/Hash/Fields.antt =====
-- cmd/redis/order/order.go: the hashes that an order stands in, field by field, and what a read of
-- them yields.
use kratos_demo.Prelude.{
  ◌≡◌, refl, ◌∙◌, inr, Option, none, some, List, String, if◌then◌else◌, ◌==◌, string_comparable,
  eq_iff, ok, ap,
}
use kratos_demo.Prelude.Assoc.{Map, lookup}
use kratos_demo.Prelude.Decimal.{IsInt64, itoa}
use kratos_demo.Orders.Hash.{
  Floats, Order, Value, written, str, int, float, Redis, fields_of, order_key, get_order_from_redis,
  store_order_in_redis, order_of-texts, order_or_missing-lookup,
}

module _ (fl : Floats) where
  -- A field after a write of some fields.
  abbrev pub updated : String → List (String × Value fl) → Option String → Option String
  updated f fields old = elim (lookup f fields) [ none ↦ old | some v ↦ some (written fl v) ]

  pub updated-lookup :
      (f : String) (fields : List (String × Value fl)) (old : Option String) (v : Value fl)
      → lookup f fields ≡ some v
      → updated f fields old ≡ some (written fl v)
  updated-lookup f fields old v h =
      ap (λ (x : Option (Value fl)). elim x [ none ↦ old | some v ↦ some (written fl v) ]) h

  -- What Redis documents of its hashes: an `HSET` that succeeds changes the given fields of one hash,
  -- and `HGETALL` yields the fields of one.
  pub record IsRedis (r : Redis fl) : Type 1 where
    pub field_at : String → String → r.St → Option String
    pub sets :
        (key : String) (fields : List (String × Value fl)) (s : r.St)
        → (r.h_set key fields s).0 ≡ none
        → (k f : String)
        → field_at k f (r.h_set key fields s).1
          ≡ (if key == k then updated f fields (field_at k f s) else field_at k f s)
    pub gets_all :
        (key : String) (s : r.St) (m : Map String String)
        → r.h_get_all key s ≡ inr m
        → (f : String) → lookup f m ≡ field_at key f s

  module _ (r : Redis fl) (is : IsRedis r) where
    -- A hash has an order's fields.
    abbrev pub Holds : String → Order fl → r.St → Type 0
    Holds key order s =
        (f : String) (v : Value fl)
        → lookup f (fields_of fl r order) ≡ some v
        → is.field_at key f s ≡ some (written fl v)

    pub texts-get :
        (order : Order fl) (t : String) (s : r.St) (m : Map String String)
        → IsInt64 order.customer_id
        → IsInt64 order.product_id
        → fl.parse_float t ≡ order.amount
        → is.field_at (order_key fl r order.order_id) "customer_id" s
          ≡ some (itoa order.customer_id)
        → is.field_at (order_key fl r order.order_id) "product_id" s ≡ some (itoa order.product_id)
        → is.field_at (order_key fl r order.order_id) "amount" s ≡ some t
        → is.field_at (order_key fl r order.order_id) "status" s ≡ some order.status
        → r.h_get_all (order_key fl r order.order_id) s ≡ inr m
        → get_order_from_redis fl r (order_key fl r order.order_id) s ≡ ok order
    unfolding get_order_from_redis
    texts-get order t s m c p x f g h k got =
        let read = is.gets_all (order_key fl r order.order_id) s m got in
        rw (get_order_from_redis, got)
          (order_or_missing-lookup fl r order.order_id "status" order.status m (read "status" ∙ k)
            ∙ ap ok (
                order_of-texts fl r order m t c p x (read "customer_id" ∙ f) (read "product_id" ∙ g)
                  (read "amount" ∙ h) (read "status" ∙ k)))

    pub Holds-get :
        (order : Order fl) (s : r.St) (m : Map String String)
        → IsInt64 order.customer_id
        → IsInt64 order.product_id
        → Holds (order_key fl r order.order_id) order s
        → r.h_get_all (order_key fl r order.order_id) s ≡ inr m
        → get_order_from_redis fl r (order_key fl r order.order_id) s ≡ ok order
    unfolding lookup
    Holds-get order s m c p h got =
        texts-get order (fl.format_float order.amount) s m c p (fl.reads_back order.amount)
          (h "customer_id" (int order.customer_id) refl)
          (h "product_id" (int order.product_id) refl) (h "amount" (float order.amount) refl)
          (h "status" (str order.status) refl) got

    pub store-Holds :
        (key : String) (order : Order fl) (s : r.St)
        → (store_order_in_redis fl r key order s).0 ≡ none
        → Holds key order (store_order_in_redis fl r key order s).1
    unfolding store_order_in_redis
    store-Holds key order s h f v g =
        let e = is.sets key (fields_of fl r order) s h key f in
        let u = updated-lookup f (fields_of fl r order) (is.field_at key f s) v g in
        rw (e, (eq_iff key key).1 refl) u

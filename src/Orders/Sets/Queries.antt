-- ===== src/Orders/Sets/Queries.antt =====
-- What the queries of cmd/redis/order/order2/order2.go list after some orders have been stored.
use kratos_demo.Prelude.{In, ◌≡◌, ◌↔◌, refl, sym, inl, inr, ◌⊎◌, ap, ◌∙◌, List, [], ◌∷◌, String}
use kratos_demo.Prelude.Int.{ℤ}
use kratos_demo.Orders.Sets.{
  Order, Redis, IsRedis, customer_set_key, product_set_key, customer_set_key-injective,
  product_set_key-injective, keys_differ, store_order_in_customer_set, store_order_in_product_set,
  get_orders_by_customer, get_orders_intersection_by_customer_and_product, store_orders, AllStored,
}

-- One of the orders has the id, and the customer or the product.
abbrev pub IsOrdered : (Order → ℤ) → ℤ → List Order → String → Type 0
IsOrdered field v orders x = (o : Order) × In o orders × (o.order_id ≡ x) × (field o ≡ v)

module _ (r : Redis) (redis : IsRedis r) where
  open r use {E, St}
  open redis use {Has}

  customer_step :
      (o : Order) (s : St) (c : ℤ) (x : String)
      → AllStored r (o ∷ []) s
      → Has (customer_set_key c) x (store_orders r (o ∷ []) s)
        ↔ (((o.order_id ≡ x) × (o.customer_id ≡ c)) ⊎ Has (customer_set_key c) x s)
  unfolding AllStored store_orders store_order_in_customer_set store_order_in_product_set
  customer_step o s c x (h, k, _) =
      let (to, back) =
        redis.s_add_adds (customer_set_key o.customer_id) o.order_id s h (customer_set_key c) x in
      let (to', back') =
        redis.s_add_adds (product_set_key o.product_id) o.order_id _ k (customer_set_key c) x in
      (
        λ has. elim (to' has) [
          | inl (e, _) ↦ absurd (keys_differ c o.product_id e)
          | inr has' ↦ elim (to has') [
            | inl (e, i) ↦ inl (sym i, sym (customer_set_key-injective c o.customer_id e))
            | inr old ↦ inr old
          ]
        ],
        λ w. back' (
            inr (
              back (elim w [
                | inl (i, e) ↦ inl (sym (ap customer_set_key e), sym i)
                | inr old ↦ inr old
              ]))),
      )

  product_step :
      (o : Order) (s : St) (p : ℤ) (x : String)
      → AllStored r (o ∷ []) s
      → Has (product_set_key p) x (store_orders r (o ∷ []) s)
        ↔ (((o.order_id ≡ x) × (o.product_id ≡ p)) ⊎ Has (product_set_key p) x s)
  unfolding AllStored store_orders store_order_in_customer_set store_order_in_product_set
  product_step o s p x (h, k, _) =
      let (to, back) =
        redis.s_add_adds (customer_set_key o.customer_id) o.order_id s h (product_set_key p) x in
      let (to', back') =
        redis.s_add_adds (product_set_key o.product_id) o.order_id _ k (product_set_key p) x in
      (
        λ has. elim (to' has) [
          | inl (e, i) ↦ inl (sym i, sym (product_set_key-injective p o.product_id e))
          | inr has' ↦ elim (to has') [
            | inl (e, _) ↦ absurd (keys_differ o.customer_id p (sym e))
            | inr old ↦ inr old
          ]
        ],
        λ w. elim w [
          | inl (i, e) ↦ back' (inl (sym (ap product_set_key e), sym i))
          | inr old ↦ back' (inr (back (inr old)))
        ],
      )

  module _ (key : ℤ → String) (field : Order → ℤ)
      (step : (o : Order) (s : St) (v : ℤ) (x : String)
        → AllStored r (o ∷ []) s
        → Has (key v) x (store_orders r (o ∷ []) s)
          ↔ (((o.order_id ≡ x) × (field o ≡ v)) ⊎ Has (key v) x s)) where
    Has-store_orders :
        (orders : List Order) (s : St) (v : ℤ) (x : String)
        → AllStored r orders s
        → Has (key v) x (store_orders r orders s) ↔ (IsOrdered field v orders x ⊎ Has (key v) x s)
    unfolding AllStored store_orders
    Has-store_orders [] s v x h =
        (λ has. inr has, λ w. elim w [ inl (o, i, _, _) ↦ absurd i | inr old ↦ old ])
    Has-store_orders (o ∷ orders) s v x (h, k, all) =
        let (to, back) = step o s v x (h, k, tt) in
        let (to', back') = Has-store_orders orders (store_orders r (o ∷ []) s) v x all in
        (
          λ has. elim (to' has) [
            | inl (o', i, e, f) ↦ inl (o', inr i, e, f)
            | inr has' ↦ elim (to has') [ inl (e, f) ↦ inl (o, inl refl, e, f) | inr old ↦ inr old ]
          ],
          λ w. back' (elim w [
            | inl (o', inl same, e, f) ↦
                inr (back (inl (ap (λ q. q.order_id) (sym same) ∙ e, ap field (sym same) ∙ f)))
            | inl (o', inr i, e, f) ↦ inl (o', i, e, f)
            | inr old ↦ inr (back (inr old))
          ]),
        )

  module _ (s : St) (empty : (k x : String) → Has k x s → ⊥) (orders : List Order)
      (all : AllStored r orders s) where
    drop_empty : (k x : String) (P : Type 0) → P ⊎ Has k x s → P
    drop_empty k x P (inl p) = p
    drop_empty k x P (inr h) = absurd (empty k x h)

    -- From empty sets and with no failure, a customer's query lists, where it succeeds, the ids of the
    -- stored orders of that customer.
    pub get_orders_by_customer_lists :
        (c : ℤ) (ids : List String)
        → get_orders_by_customer r c (store_orders r orders s) ≡ inr ids
        → (x : String) → In x ids ↔ IsOrdered (λ o. o.customer_id) c orders x
    unfolding get_orders_by_customer
    get_orders_by_customer_lists c ids h x =
        let (to, back) = redis.s_members_lists (customer_set_key c) _ ids h x in
        let (to', back') =
          Has-store_orders customer_set_key (λ o. o.customer_id) customer_step orders s c x all in
        (λ i. drop_empty _ x _ (to' (to i)), λ o. back (back' (inl o)))

    -- From empty sets and with no failure, the query for a customer and a product lists, where it
    -- succeeds, the ids that a stored order of the customer and a stored order of the product have.
    pub get_orders_intersection_lists :
        (c p : ℤ) (ids : List String)
        → get_orders_intersection_by_customer_and_product r c p (store_orders r orders s) ≡ inr ids
        → (x : String)
        → In x ids
          ↔ (IsOrdered (λ o. o.customer_id) c orders x × IsOrdered (λ o. o.product_id) p orders x)
    unfolding get_orders_intersection_by_customer_and_product
    get_orders_intersection_lists c p ids h x =
        let (to, back) = redis.s_inter_lists (customer_set_key c) (product_set_key p) _ ids h x in
        let (to₁, back₁) =
          Has-store_orders customer_set_key (λ o. o.customer_id) customer_step orders s c x all in
        let (to₂, back₂) =
          Has-store_orders product_set_key (λ o. o.product_id) product_step orders s p x all in
        (
          λ i. (drop_empty _ x _ (to₁ (to i).0), drop_empty _ x _ (to₂ (to i).1)),
          λ (o, o'). back (back₁ (inl o), back₂ (inl o')),
        )

-- ===== src/Orders/Ranking/Details.antt =====
-- The list of top orders of cmd/redis/order/order1/order1.go, against the hashes that it is read from.
use kratos_demo.Prelude.{
  Sum-cases, no_In-nil, In, ◌≡◌, ◌≢◌, ◌↔◌, refl, sym, subst, ap, ◌∙◌, ◌⊎◌, inl, inr, List, [], ◌∷◌,
  String, str_append,
}
use text.Mathlib.TextPositions.{starts_with-append}
use text.Mathlib.Text.{starts_with}
use kratos_demo.Prelude.Int.{ℤ}
use kratos_demo.Orders.Ranking.{
  Order, Redis, Error, sorted_by_amount, get_order_details, push, all_details,
  get_top_orders_by_amount, store_order_in_sorted_set, store_ranked,
}

-- What Redis documents of keys: `ZADD` leaves what stands under every other key as it is.
pub record KeepsHashes (F : Type 0) (parse_float : String → F) (r : Redis F parse_float)
    : Type 1 where
  pub keeps :
      (order_key member : String) (score : F) (s : r.St) (key : String)
      → key ≢ order_key
      → r.h_get_all key (r.z_add order_key score member s).1 ≡ r.h_get_all key s

module _ (F : Type 0) (parse_float : String → F) (r : Redis F parse_float) where
  open r use {E, St, h_get_all, z_rev_range_by_score}

  abbrev Details : Type 0
  Details = List (Order F parse_float) × List (String × Error F parse_float r)

  In-push :
      (order_id : String) (d : Error F parse_float r ⊎ Order F parse_float) (rest : Details)
      (order : Order F parse_float)
      → (In order (push F parse_float r order_id d rest).0) ↔ ((d ≡ inr order) ⊎ In order rest.0)
  In-push order_id (inl e) (orders, logged) order =
      (λ i. inr i, λ x. elim x [ inl h ↦ absurd (cc h) | inr i ↦ i ])
  In-push order_id (inr o) (orders, logged) order = (
    λ i. elim i [ inl h ↦ inl (ap inr (sym h)) | inr j ↦ inr j ],
    λ x. elim x [ inl h ↦ inl (cc h) | inr j ↦ inr j ],
  )

  -- An order is among those of the loop exactly when it is what one of the ids' details say.
  all_details-In :
      (ids : List String) (s : St) (order : Order F parse_float)
      → In order (all_details F parse_float r ids s).0
      → (id : String) × In id ids × (get_order_details F parse_float r id s ≡ inr order)
  unfolding all_details
  all_details-In [] s order i = absurd i
  all_details-In (id ∷ ids) s order i =
      elim ((In-push id (get_order_details F parse_float r id s) (all_details F parse_float r ids s)
          order).0
        i) [
          | inl h ↦ (id, inl refl, h)
          | inr j ↦ let (k, m, h) = all_details-In ids s order j in (k, inr m, h)
        ]

  In-all_details :
      (ids : List String) (s : St) (order : Order F parse_float) (id : String)
      → In id ids
      → get_order_details F parse_float r id s ≡ inr order
      → In order (all_details F parse_float r ids s).0
  unfolding all_details
  In-all_details [] s order id i h = absurd i
  In-all_details (k ∷ ids) s order id i h =
      (In-push k (get_order_details F parse_float r k s) (all_details F parse_float r ids s)
          order).1
        (elim i [
          | inl e ↦ inl (subst (λ x. get_order_details F parse_float r x s ≡ inr order) e h)
          | inr j ↦ inr (In-all_details ids s order id j h)
        ])

  -- Where the query succeeds, an order is in the list of top orders exactly when it is what the details
  -- of one of the ids in the range of scores say; the ids whose details are not read are left out.
  pub get_top_orders_by_amount_correct :
      (order_key : String) (top_n : ℤ) (s : St) (ids : List String) (found : Details)
      → z_rev_range_by_score order_key "98" "100" top_n s ≡ inr ids
      → get_top_orders_by_amount F parse_float r order_key top_n s ≡ inr found
      → (order : Order F parse_float)
      → In order found.0
        ↔ ((id : String) × In id ids × (get_order_details F parse_float r id s ≡ inr order))
  unfolding get_top_orders_by_amount
  get_top_orders_by_amount_correct order_key top_n s ids found h k order =
      let e : all_details F parse_float r ids s ≡ found = cc (h, k) in
      subst
        (λ x.
          In order x.0
          ↔ ((id : String) × In id ids × (get_order_details F parse_float r id s ≡ inr order)))
        e (all_details-In ids s order, λ (id, i, d). In-all_details ids s order id i d)

  module _ (is : KeepsHashes F parse_float r) where
    order_key≢sorted : (id : String) → str_append "order:" id ≢ sorted_by_amount
    order_key≢sorted id h =
        absurd (cc (starts_with-append "order:" id, ap (λ x. starts_with x "order:") h))

    store_ranked-keeps :
        (orders : List (Order F parse_float)) (s : St) (id : String)
        → h_get_all
            (str_append "order:" id)
            (store_ranked F parse_float r sorted_by_amount orders s)
          ≡ h_get_all (str_append "order:" id) s
    unfolding store_ranked store_order_in_sorted_set
    store_ranked-keeps [] s id = refl
    store_ranked-keeps (order ∷ orders) s id =
        store_ranked-keeps orders
          (store_order_in_sorted_set F parse_float r sorted_by_amount order s).1 id
        ∙ is.keeps sorted_by_amount order.order_id order.amount s (str_append "order:" id)
            (order_key≢sorted id)

    details-missing :
        (id : String) (s : St) (order : Order F parse_float)
        → h_get_all (str_append "order:" id) s ≡ inr []
        → get_order_details F parse_float r id s ≢ inr order
    unfolding get_order_details
    details-missing id s order h k = absurd (cc (h, k))

    -- Orders that have only been ranked are never listed: from a Redis with no order hash, whatever
    -- orders are stored in the sorted set of `main`, a query for the top ones that succeeds lists none.
    pub get_top_orders_by_amount-store_ranked :
        (orders : List (Order F parse_float)) (s : St) (top_n : ℤ) (found : Details)
        → ((id : String) → h_get_all (str_append "order:" id) s ≡ inr [])
        → get_top_orders_by_amount F parse_float r sorted_by_amount top_n
            (store_ranked F parse_float r sorted_by_amount orders s)
          ≡ inr found
        → found.0 ≡ []
    unfolding get_top_orders_by_amount
    get_top_orders_by_amount-store_ranked orders s top_n found empty h =
        let after = store_ranked F parse_float r sorted_by_amount orders s in
        elim (Sum-cases (z_rev_range_by_score sorted_by_amount "98" "100" top_n after)) [
          | inl (e, k) ↦ absurd (cc (h, k))
          | inr (ids, k) ↦
              let e : all_details F parse_float r ids after ≡ found = cc (h, k) in
              subst (λ x. x.0 ≡ []) e
                (no_In-nil _ (λ order i.
                  let (id, j, d) = all_details-In ids after order i in
                  details-missing id after order (store_ranked-keeps orders s id ∙ empty id) d))
        ]

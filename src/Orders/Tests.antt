-- ===== src/Orders/Tests.antt =====
-- The theorems on the sets of orders, on a Redis that keeps each key's members in a list.
use kratos_demo.Prelude.{
  In, ◌≡◌, ◌↔◌, inl, inr, refl, subst, Bool, true, false, none, List, [], ◌∷◌, String, arith,
  if◌then◌else◌, ◌==◌, string_comparable, eq_iff, Bool-cases,
}
use kratos_demo.Prelude.Int.{pos}
use kratos_demo.Prelude.Decimal.{itoa, emit}
use kratos_demo.Prelude.Selection.{select, In-if, if-In, In-select, select-In}
use kratos_demo.Orders.Sets
use kratos_demo.Orders.Sets.{
  IsRedis, store_orders, AllStored, store_order_in_customer_set, store_order_in_product_set,
  get_orders_by_customer, get_orders_intersection_by_customer_and_product,
}
use kratos_demo.Orders.Sets.Queries.{IsOrdered, get_orders_intersection_lists}

elem : String → List String → Bool
elem x [] = false
elem x (y ∷ ys) = if x == y then true else elem x ys

elem_iff : (x : String) (ys : List String) → (elem x ys ≡ true) ↔ In x ys
unfolding elem
elem_iff x [] = (λ h. absurd (ground (arith, h)), λ i. absurd i)
elem_iff x (y ∷ ys) = elim (Bool-cases (◌==◌ {K = String} x y)) [
  | inl e ↦ (λ h. inl ((eq_iff x y).0 e), λ i. ground (arith, e))
  | inr e ↦ (
    λ h. inr ((elem_iff x ys).0 (ground (arith, h, e))),
    λ i. elim i [
      | inl p ↦ absurd (ground (arith, e, (eq_iff x y).1 p))
      | inr j ↦ ground (arith, e, (elem_iff x ys).1 j)
    ],
  )
]

-- Each key's members.
abbrev sets : Sets.Redis
sets = record {
  E = String;
  St = String → List String;
  s_add = λ key member s. (none, λ k. if k == key then member ∷ s k else s k);
  s_members = λ key s. inr (s key);
  s_inter = λ key other s. inr (select (λ x. elem x (s other)) (s key));
}

sets-IsRedis : IsRedis sets
sets-IsRedis = record {
  Has = λ k x s. In x (s k);
  s_add_adds = λ key member s h k x. (
    λ i. elim (In-if (k == key) x member (s k) i) [
      | inl (e, p) ↦ inl ((eq_iff k key).0 e, p)
      | inr j ↦ inr j
    ],
    λ w.
        if-In (k == key) x member (s k)
          (elim w [ inl (e, p) ↦ inl ((eq_iff k key).1 e, p) | inr j ↦ inr j ]),
  );
  s_members_lists = λ key s ms h x.
      let e : s key ≡ ms = cc h in subst (λ l. In x l ↔ In x (s key)) e (λ i. i, λ i. i);
  s_inter_lists = λ key other s ms h x.
      let e : select (λ y. elem y (s other)) (s key) ≡ ms = cc h in
      subst (λ l. In x l ↔ (In x (s key) × In x (s other))) e
        (
          λ i.
              let (a, b) =
                In-select (λ y. elem y (s other)) (λ y. In y (s other)) (λ y. elem_iff y (s other))
                  (s key) x i in
              (b, a),
          λ (a, b).
              select-In (λ y. elem y (s other)) (λ y. In y (s other)) (λ y. elem_iff y (s other))
                (s key) x b a,
        );
}

abbrev nothing : String → List String
nothing = λ k. []

abbrev orders : List Sets.Order
orders = record { order_id = "7"; customer_id = pos 1015; product_id = pos 107 } ∷ []

orders-AllStored : AllStored sets orders nothing
unfolding AllStored store_order_in_customer_set store_order_in_product_set
orders-AllStored = (refl, refl, tt)

get_orders_intersection_lists_example : In {A = String} "7" ("7" ∷ []) ↔ (
    IsOrdered (λ o. o.customer_id) (pos 1015) orders "7"
    × IsOrdered (λ o. o.product_id) (pos 107) orders "7")
unfolding store_orders store_order_in_customer_set store_order_in_product_set
    get_orders_intersection_by_customer_and_product itoa emit sets-IsRedis select elem
get_orders_intersection_lists_example =
    get_orders_intersection_lists sets sets-IsRedis nothing (λ k x h. h) orders orders-AllStored
      (pos 1015) (pos 107) ("7" ∷ []) refl "7"

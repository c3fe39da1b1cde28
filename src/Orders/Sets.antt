-- ===== src/Orders/Sets.antt =====
-- cmd/redis/order/order2/order2.go: the ids of orders in one Redis set for each customer and one for
-- each product. go-redis is a parameter.
pub mod Queries
use Prim.Native.Char.{code}
use text.Mathlib.TextLemmas.{
  append_cancel_left, append_cancel_right, cons-append, head-eq_of_cons-eq,
}
use kratos_demo.Prelude.{
  In, ℕ, ◌≡◌, ◌↔◌, refl, sym, inl, inr, ◌⊎◌, ap, ◌∙◌, Option, none, some, List, [], ◌∷◌, String,
  str_append, arith,
}
use kratos_demo.Prelude.Int.{ℤ}
use kratos_demo.Prelude.Decimal.{itoa, itoa-injective}

pub record Order : Type 0 where
  pub order_id : String
  pub customer_id : ℤ
  pub product_id : ℤ

pub record Redis : Type 1 where
  pub E : Type 0
  pub St : Type 0
  pub s_add : String → String → St → Option E × St
  pub s_members : String → St → E ⊎ List String
  pub s_inter : String → String → St → E ⊎ List String

-- What Redis documents of its sets: `SADD` adds one member to one set, `SMEMBERS` lists a set and
-- `SINTER` what two sets share.
pub record IsRedis (r : Redis) : Type 1 where
  pub Has : String → String → r.St → Type 0
  pub s_add_adds :
      (key member : String) (s : r.St)
      → (r.s_add key member s).0 ≡ none
      → (k x : String) → Has k x (r.s_add key member s).1 ↔ (((k ≡ key) × (x ≡ member)) ⊎ Has k x s)
  pub s_members_lists :
      (key : String) (s : r.St) (ms : List String)
      → r.s_members key s ≡ inr ms
      → (x : String) → In x ms ↔ Has key x s
  pub s_inter_lists :
      (key key' : String) (s : r.St) (ms : List String)
      → r.s_inter key key' s ≡ inr ms
      → (x : String) → In x ms ↔ (Has key x s × Has key' x s)

abbrev pub customer_set_key : ℤ → String
customer_set_key customer_id = str_append "customer:" (str_append (itoa customer_id) ":orders")

abbrev pub product_set_key : ℤ → String
product_set_key product_id = str_append "product:" (str_append (itoa product_id) ":orders")

customer_set_key-injective : (c d : ℤ) → customer_set_key c ≡ customer_set_key d → c ≡ d
customer_set_key-injective c d h =
    itoa-injective c d
      (append_cancel_right (itoa c) (itoa d) ":orders" (append_cancel_left "customer:" _ _ h))

product_set_key-injective : (p q : ℤ) → product_set_key p ≡ product_set_key q → p ≡ q
product_set_key-injective p q h =
    itoa-injective p q
      (append_cancel_right (itoa p) (itoa q) ":orders" (append_cancel_left "product:" _ _ h))

keys_differ : (c p : ℤ) → customer_set_key c ≡ product_set_key p → ⊥
keys_differ c p h =
    let k =
      rw
        (
          cons-append "c" "ustomer:" (str_append (itoa c) ":orders"),
          cons-append "p" "roduct:" (str_append (itoa p) ":orders"),
        )
        at h in
    let e : ◌≡◌ {A = ℕ} 99 112 = ap code (head-eq_of_cons-eq k) in omega arith

module _ (r : Redis) where
  open r use {E, St, s_add, s_members, s_inter}

  unfoldable pub store_order_in_customer_set : Order → St → Option E × St
  store_order_in_customer_set order s = s_add (customer_set_key order.customer_id) order.order_id s

  unfoldable pub store_order_in_product_set : Order → St → Option E × St
  store_order_in_product_set order s = s_add (product_set_key order.product_id) order.order_id s

  unfoldable pub get_orders_by_customer : ℤ → St → E ⊎ List String
  get_orders_by_customer customer_id s = s_members (customer_set_key customer_id) s

  unfoldable pub get_orders_by_product : ℤ → St → E ⊎ List String
  get_orders_by_product product_id s = s_members (product_set_key product_id) s

  unfoldable pub get_orders_intersection_by_customer_and_product : ℤ → ℤ → St → E ⊎ List String
  get_orders_intersection_by_customer_and_product customer_id product_id s =
      s_inter (customer_set_key customer_id) (product_set_key product_id) s

  -- The loop that `main` has: each order is stored in both sets; a failure is only logged.
  unfoldable pub store_orders : List Order → St → St
  store_orders [] s = s
  store_orders (order ∷ orders) s =
      store_orders orders
        (store_order_in_product_set order (store_order_in_customer_set order s).1).1

  -- No call of the loop fails.
  unfoldable pub AllStored : List Order → St → Type 0
  AllStored [] s = Unit {0}
  AllStored (order ∷ orders) s =
      let s' = (store_order_in_customer_set order s).1 in
      let s'' = (store_order_in_product_set order s').1 in
      ((store_order_in_customer_set order s).0 ≡ none)
      × ((store_order_in_product_set order s').0 ≡ none)
      × AllStored orders s''

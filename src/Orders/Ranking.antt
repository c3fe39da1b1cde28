-- ===== src/Orders/Ranking.antt =====
-- cmd/redis/order/order1/order1.go: orders ranked by amount in a Redis sorted set, with their details
-- in hashes. go-redis, float64 and strconv's texts of it are parameters.
pub mod Details
use kratos_demo.Prelude.{
  In, ◌≡◌, refl, sym, subst, ap, ◌∙◌, ◌⊎◌, inl, inr, Option, none, some, List, [], ◌∷◌, String,
  str_append, format, arith, string_comparable,
}
use kratos_demo.Prelude.Assoc.{Map, lookup}
use kratos_demo.Prelude.Int.{ℤ, pos, negsuc}
use kratos_demo.Prelude.Decimal.{atoi}

-- The key that `main` ranks the orders under.
abbrev pub sorted_by_amount : String
sorted_by_amount = "orders:sorted_by_amount"

module _ (F : Type 0) (parse_float : String → F) where
  pub record Order : Type 0 where
    pub order_id : String
    pub customer_id : ℤ
    pub product_id : ℤ
    pub amount : F
    pub status : String
    pub timestamp : ℤ

  -- `m[k]` of a map to texts.
  abbrev field_text : String → Map String String → String
  field_text k m = elim (lookup k m) [ none ↦ "" | some v ↦ v ]

  abbrev pub order_from : String → Map String String → Order
  order_from order_id result = record {
    order_id = order_id;
    customer_id = atoi (field_text "customer_id" result);
    product_id = atoi (field_text "product_id" result);
    amount = parse_float (field_text "amount" result);
    status = field_text "status" result;
    timestamp = pos 0;
  }

  pub record Redis : Type 1 where
    pub E : Type 0
    pub St : Type 0
    pub z_add : String → F → String → St → Option E × St
    pub z_rank : String → String → St → E ⊎ ℤ
    -- The key, the least score, the greatest one and the count.
    pub z_rev_range_by_score : String → String → String → ℤ → St → E ⊎ List String
    pub h_get_all : String → St → E ⊎ Map String String

  module _ (r : Redis) where
    open r use {E, St, z_add, z_rank, z_rev_range_by_score, h_get_all}

    pub data Error : Type 0 where
      redis : E → Error
      missing : String → Error

    unfoldable pub store_order_in_sorted_set : String → Order → St → Option E × St
    store_order_in_sorted_set order_key order s = z_add order_key order.amount order.order_id s

    unfoldable pub get_order_rank_in_sorted_set : String → String → St → ℤ × Option E
    get_order_rank_in_sorted_set order_key order_id s = elim (z_rank order_key order_id s) [
      | inl e ↦ (negsuc 0, some e)
      | inr rank ↦ (rank, none)
    ]

    abbrev pub details_or_missing : String → Map String String → Error ⊎ Order
    details_or_missing order_id [] = inl (missing (format ("订单 " ∷ order_id ∷ " 不存在" ∷ [])))
    details_or_missing order_id (entry ∷ rest) = inr (order_from order_id (entry ∷ rest))

    unfoldable pub get_order_details : String → St → Error ⊎ Order
    get_order_details order_id s = elim (h_get_all (str_append "order:" order_id) s) [
      | inl e ↦ inl (redis e)
      | inr result ↦ details_or_missing order_id result
    ]

    -- The orders of the loop, and the ids with the errors that it logs.
    abbrev pub push :
        String
        → Error ⊎ Order
        → List Order × List (String × Error)
        → List Order × List (String × Error)
    push order_id (inl e) (orders, logged) = (orders, (order_id, e) ∷ logged)
    push order_id (inr order) (orders, logged) = (order ∷ orders, logged)

    unfoldable pub all_details : List String → St → List Order × List (String × Error)
    all_details [] s = ([], [])
    all_details (order_id ∷ ids) s =
        push order_id (get_order_details order_id s) (all_details ids s)

    unfoldable pub get_top_orders_by_amount :
        String → ℤ → St → E ⊎ (List Order × List (String × Error))
    get_top_orders_by_amount order_key top_n s =
        elim (z_rev_range_by_score order_key "98" "100" top_n s) [
          | inl e ↦ inl e
          | inr result ↦ inr (all_details result s)
        ]

    -- The loop that `main` has in a comment; a failure is only logged.
    unfoldable pub store_ranked : String → List Order → St → St
    store_ranked order_key [] s = s
    store_ranked order_key (order ∷ orders) s =
        store_ranked order_key orders (store_order_in_sorted_set order_key order s).1

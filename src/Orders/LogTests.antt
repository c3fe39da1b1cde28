-- ===== src/Orders/LogTests.antt =====
-- The theorems on ranked orders and on the log of actions, on a Redis that never fails.
use kratos_demo.Prelude.{
  format, ◌≡◌, inr, refl, none, List, [], ◌∷◌, String, arith, if◌then◌else◌, ◌==◌,
  string_comparable,
}
use kratos_demo.Prelude.Assoc.{Map}
use kratos_demo.Prelude.Int.{pos, negsuc}
use kratos_demo.Orders.ActionLog
use kratos_demo.Orders.ActionLog.{
  OrderAction, IsRedis, log_key, AllRecorded, record_order_action, logged, record_all,
  get_order_actions, format_action, get_order_actions-record_all, format_action-injective,
}
use kratos_demo.Orders.Ranking
use kratos_demo.Orders.Ranking.{
  missing, Order, get_top_orders_by_amount, order_from, get_order_details, all_details,
  store_order_in_sorted_set, sorted_by_amount, store_ranked,
}
use kratos_demo.Orders.Ranking.Details.{KeepsHashes, get_top_orders_by_amount-store_ranked}

-- A list under every key.
abbrev lists : ActionLog.Redis
lists = record {
  E = String;
  St = String → List String;
  l_push = λ key item s. (none, λ k. if k == key then item ∷ s k else s k);
  l_range = λ key from to s. inr (s key);
}

abbrev lists-IsRedis : IsRedis lists
lists-IsRedis = record {
  items = λ key s. s key;
  pushes = λ key item s h k. refl;
  ranges = λ key s found h. ground (arith, h);
}

abbrev payment : OrderAction
payment = record {
  action = "payment";
  order_id = "order_12345";
  timestamp = pos 7;
  details = "a|b";
}

abbrev refund : OrderAction
refund = record { action = "refund"; order_id = "order_1"; timestamp = negsuc 7; details = "" }

get_order_actions-record_all_example :
    (format_action payment ∷ []) ≡ logged "order_12345" (payment ∷ refund ∷ []) []
unfolding record_all AllRecorded record_order_action get_order_actions
get_order_actions-record_all_example =
    get_order_actions-record_all lists lists-IsRedis (payment ∷ refund ∷ []) (λ k. []) "order_12345"
      (format_action payment ∷ []) (refl, (refl, _)) refl

-- Amounts that are texts. The sorted sets share one list of ids, every id is in the range of scores,
-- and only order 555 has a hash.
abbrev hash_of : String → Map String String
hash_of key = if key == "order:555" then ("amount", "99.5") ∷ [] else []

abbrev ranks : Ranking.Redis String (λ x. x)
ranks = record {
  E = String;
  St = List String;
  z_add = λ key score member s. (none, member ∷ s);
  z_rank = λ key member s. inr (pos 0);
  z_rev_range_by_score = λ key least greatest count s. inr s;
  h_get_all = λ key s. inr (hash_of key);
}

abbrev order_555 : Order String (λ x. x)
order_555 = order_from String (λ x. x) "555" (("amount", "99.5") ∷ [])

abbrev no_orders : List (Order String (λ x. x))
no_orders = []

-- The order with a hash is listed, the other one is logged.
top_listed :
    get_top_orders_by_amount String (λ x. x) ranks sorted_by_amount (pos 10) ("554" ∷ "555" ∷ [])
    ≡ inr (order_555 ∷ [], ("554", missing "订单 554 不存在") ∷ [])
unfolding get_top_orders_by_amount all_details get_order_details format
top_listed = refl

abbrev bare : Ranking.Redis String (λ x. x)
bare = record {
  E = String;
  St = List String;
  z_add = λ key score member s. (none, member ∷ s);
  z_rank = λ key member s. inr (pos 0);
  z_rev_range_by_score = λ key least greatest count s. inr s;
  h_get_all = λ key s. inr [];
}

bare-KeepsHashes : KeepsHashes String (λ x. x) bare
bare-KeepsHashes = record { keeps = λ order_key member score s key h. refl }

get_top_orders_by_amount-store_ranked_example : no_orders ≡ []
unfolding get_top_orders_by_amount all_details get_order_details store_ranked
    store_order_in_sorted_set
get_top_orders_by_amount-store_ranked_example =
    get_top_orders_by_amount-store_ranked String (λ x. x) bare bare-KeepsHashes (order_555 ∷ []) []
      (pos 10) ([], _) (λ id. refl) refl

-- ===== src/Orders/Script.antt =====
-- cmd/redis/order/order3/order3.go: luaScript, which adds to the amount of an order that order.go has
-- stored. Redis and Lua's numbers are parameters.
use kratos_demo.Prelude.{
  ◌≡◌, refl, sym, ◌∙◌, inl, inr, ◌⊎◌, Option, none, some, [], ◌∷◌, String, arith, if◌then◌else◌,
  eq_iff, string_comparable, ok, ap, subst,
}
use kratos_demo.Prelude.Assoc.{Map, lookup}
use kratos_demo.Prelude.Decimal.{IsInt64}
use kratos_demo.Orders.Hash.{
  Floats, Order, str, int, float, Redis, order_key, get_order_from_redis, store_order_in_redis,
}
use kratos_demo.Orders.Hash.Fields.{IsRedis, Holds, store-Holds, texts-get, updated}

-- Lua's numbers are float64. `tostring` is the text that Redis makes of one for a command.
pub record Lua (fl : Floats) : Type 0 where
  pub tonumber : String → Option fl.F
  pub tostring : fl.F → String
  pub add : fl.F → fl.F → fl.F

-- Both texts of a number have enough digits to be read back exactly.
pub record IsLua (fl : Floats) (lua : Lua fl) : Type 0 where
  pub reads : (x : fl.F) → lua.tonumber (fl.format_float x) ≡ some x
  pub is_read : (x : fl.F) → fl.parse_float (lua.tostring x) ≡ x

module _ (fl : Floats) (lua : Lua fl) (r : Redis fl) where
  open lua use {tonumber, tostring, add}
  open r use {E, St, h_set, h_get_all}

  -- What the script returns. Redis drops a number's fraction before it replies, and `main` drops the
  -- reply.
  pub data Reply : Type 0 where
    number : fl.F → Reply
    nil : Reply
    redis : E → Reply
    -- Lua's error for a sum with nil.
    not_a_number : Reply

  abbrev replied : fl.F → Option E → Reply
  replied x none = number x
  replied x (some e) = redis e

  unfoldable pub set_sum : String → Option fl.F → Option fl.F → St → Reply × St
  set_sum key (some x) (some y) s =
      let new_amount = add x y in
      let (e, s') = h_set key (("amount", str (tostring new_amount)) ∷ []) s in
      (replied new_amount e, s')
  set_sum key x y s = (not_a_number, s)

  replied-number : (z x : fl.F) (e : Option E) → replied z e ≡ number x → (x ≡ z) × (e ≡ none)
  replied-number z x none h = ground (arith, h)
  replied-number z x (some e) h = absurd (ground (arith, h))

  -- The hash after the sum has been written.
  abbrev summed : String → fl.F → St → Option E × St
  summed key x s = h_set key (("amount", str (tostring x)) ∷ []) s

  set_sum-number :
      (key : String) (y d x : fl.F) (s : St)
      → (set_sum key (some y) (some d) s).0 ≡ number x
      → (x ≡ add y d)
        × ((summed key x s).0 ≡ none)
        × ((set_sum key (some y) (some d) s).1 ≡ (summed key x s).1)
  unfolding set_sum
  set_sum-number key y d x s h =
      let (e, n) = replied-number (add y d) x (summed key (add y d) s).0 h in
      (e, subst (λ z. (summed key z s).0 ≡ none) (sym e) n, ap (λ z. (summed key z s).1) (sym e))

  -- `h_get` is `HGET`. A missing field is false in Lua.
  module _ (h_get : String → String → St → E ⊎ Option String) where
    unfoldable pub run_amount : String → String → E ⊎ Option String → St → Reply × St
    run_amount key argv (inl e) s = (redis e, s)
    run_amount key argv (inr none) s = (nil, s)
    run_amount key argv (inr (some current_amount)) s =
        set_sum key (tonumber current_amount) (tonumber argv) s

    unfoldable pub lua_script : String → String → St → Reply × St
    lua_script key argv s = run_amount key argv (h_get key "amount" s) s

    -- The call that `main` makes.
    unfoldable pub eval_script : St → Reply × St
    eval_script s = lua_script "order:1029977" "50" s

    -- A number is the reply where there was an amount to read.
    run_amount-number :
        (key argv : String) (a : E ⊎ Option String) (x : fl.F) (s : St)
        → (run_amount key argv a s).0 ≡ number x
        → (t : String) × (a ≡ inr (some t))
    unfolding run_amount
    run_amount-number key argv (inl e) x s h = absurd (ground (arith, h))
    run_amount-number key argv (inr none) x s h = absurd (ground (arith, h))
    run_amount-number key argv (inr (some t)) x s h = (t, refl)

    -- `HGET` yields a field of a hash.
    module _ (is : IsRedis fl r) (ls : IsLua fl lua)
        (gets : (key f : String) (s : St) (o : Option String)
          → h_get key f s ≡ inr o
          → o ≡ is.field_at key f s) where
      lua_script-number :
          (key argv : String) (s : St) (x d y : fl.F)
          → tonumber argv ≡ some d
          → is.field_at key "amount" s ≡ some (fl.format_float y)
          → (lua_script key argv s).0 ≡ number x
          → (x ≡ add y d)
            × ((summed key x s).0 ≡ none)
            × ((lua_script key argv s).1 ≡ (summed key x s).1)
      unfolding lua_script run_amount
      lua_script-number key argv s x d y n f h =
          let (t, e) = run_amount-number key argv (h_get key "amount" s) x s h in
          let u : t ≡ fl.format_float y = ground (arith, gets key "amount" s (some t) e ∙ f) in
          let run : lua_script key argv s ≡ set_sum key (some y) (some d) s =
            ap (λ a. run_amount key argv a s) (e ∙ ap (λ z. inr (some z)) u)
            ∙ ap (λ a. set_sum key a (tonumber argv) s) (ls.reads y)
            ∙ ap (λ a. set_sum key (some y) a s) n in
          let (p, q, w) = set_sum-number key y d x s (sym (ap (λ z. z.0) run) ∙ h) in
          (p, q, ap (λ z. z.1) run ∙ w)

      summed-field :
          (key : String) (x : fl.F) (s : St)
          → (summed key x s).0 ≡ none
          → (f : String)
          → is.field_at key f (summed key x s).1
            ≡ updated fl f (("amount", str (tostring x)) ∷ []) (is.field_at key f s)
      summed-field key x s h f =
          is.sets key (("amount", str (tostring x)) ∷ []) s h key f
          ∙ ap
              (λ b.
                if b
                then updated fl f (("amount", str (tostring x)) ∷ []) (is.field_at key f s)
                else is.field_at key f s)
              ((eq_iff key key).1 refl)

      -- An order in its hash, and the script's write: the order that is read has the new amount.
      summed-get :
          (order : Order fl) (x : fl.F) (s : St) (m : Map String String)
          → IsInt64 order.customer_id
          → IsInt64 order.product_id
          → Holds fl r is (order_key fl r order.order_id) order s
          → (summed (order_key fl r order.order_id) x s).0 ≡ none
          → h_get_all (order_key fl r order.order_id) (summed (order_key fl r order.order_id) x s).1
            ≡ inr m
          → get_order_from_redis fl r
              (order_key fl r order.order_id)
              (summed (order_key fl r order.order_id) x s).1
            ≡ ok (record order { amount = x })
      unfolding lookup
      summed-get order x s m c p held h got =
          let key = order_key fl r order.order_id in
          let field = summed-field key x s h in
          texts-get fl r is (record order { amount = x }) (tostring x) (summed key x s).1 m c p
            (ls.is_read x) (field "customer_id" ∙ held "customer_id" (int order.customer_id) refl)
            (field "product_id" ∙ held "product_id" (int order.product_id) refl) (field "amount")
            (field "status" ∙ held "status" (str order.status) refl) got

      -- An order whose ids fit 64 bits is stored under its key; then, where the script returns a
      -- number for this key, that is the order's amount plus the script's argument, and the order that is
      -- read back has it as its amount and is otherwise as it was.
      pub lua_script-adds :
          (order : Order fl) (argv : String) (s : St) (x d : fl.F) (m : Map String String)
          → IsInt64 order.customer_id
          → IsInt64 order.product_id
          → (store_order_in_redis fl r (order_key fl r order.order_id) order s).0 ≡ none
          → tonumber argv ≡ some d
          → (lua_script
              (order_key fl r order.order_id)
              argv
              (store_order_in_redis fl r (order_key fl r order.order_id) order s).1).0
            ≡ number x
          → h_get_all
              (order_key fl r order.order_id)
              (lua_script
                (order_key fl r order.order_id)
                argv
                (store_order_in_redis fl r (order_key fl r order.order_id) order s).1).1
            ≡ inr m
          → (x ≡ add order.amount d)
            × (get_order_from_redis fl r
                  (order_key fl r order.order_id)
                  (lua_script
                    (order_key fl r order.order_id)
                    argv
                    (store_order_in_redis fl r (order_key fl r order.order_id) order s).1).1
                ≡ ok (record order { amount = x }))
      unfolding lookup
      lua_script-adds order argv s x d m c p h n reply got =
          let key = order_key fl r order.order_id in
          let s' = (store_order_in_redis fl r key order s).1 in
          let held = store-Holds fl r is key order s h in
          let (e, w, run) =
            lua_script-number key argv s' x d order.amount n
              (held "amount" (float order.amount) refl) reply in
          (
            e,
            subst (λ z. get_order_from_redis fl r key z ≡ ok (record order { amount = x }))
                (sym run) (summed-get order x s' m c p held w (ap (h_get_all key) (sym run) ∙ got)),
          )

-- ===== src/Orders/Hash.antt =====
-- cmd/redis/order/order.go: an order stored as a Redis hash and read back. go-redis is a parameter;
-- so are float64's texts.
pub mod Fields
pub mod Loop
pub mod Panics
use Prim.Native.String.{len, slice}
use text.Mathlib.TextPositions.{slice-append_right, len-append}
use kratos_demo.Prelude.{
  Sum-cases, ◌≡◌, ◌↔◌, ◌<◌, refl, inl, inr, ◌⊎◌, ap, ◌∙◌, Option, none, some, List, [], ◌∷◌, ltb,
  String, str_append, format, arith, if◌then◌else◌, string_comparable, Outcome, ok, err, panic,
}
use kratos_demo.Prelude.Assoc.{Map, lookup}
use kratos_demo.Prelude.Int.{ℤ}
use kratos_demo.Prelude.Decimal.{itoa, atoi, atoi-itoa, IsInt64}

-- strconv's texts of a float64; the shortest one, that go-redis writes, is read back exactly.
pub record Floats : Type 1 where
  pub F : Type 0
  pub format_float : F → String
  pub parse_float : String → F
  pub reads_back : (x : F) → parse_float (format_float x) ≡ x

module _ (fl : Floats) where
  open fl use {F, format_float, parse_float}

  pub record Order : Type 0 where
    pub order_id : String
    pub customer_id : ℤ
    pub product_id : ℤ
    pub amount : F
    pub status : String

  -- What go-redis takes for a field; the fields of a call are a Go map.
  pub data Value : Type 0 where
    int : ℤ → Value
    float : F → Value
    str : String → Value

  -- How go-redis documents that it writes them.
  abbrev pub written : Value → String
  written (int z) = itoa z
  written (float x) = format_float x
  written (str s) = s

  pub record Redis : Type 1 where
    pub E : Type 0
    pub St : Type 0
    pub h_set : String → List (String × Value) → St → Option E × St
    pub h_get_all : String → St → E ⊎ Map String String
    -- After an `HSET` that succeeds, an `HGETALL` that succeeds has the fields with their texts.
    pub h_set_then_get :
        (key : String) (fields : List (String × Value)) (s : St) (m : Map String String)
        → (h_set key fields s).0 ≡ none
        → h_get_all key (h_set key fields s).1 ≡ inr m
        → (field : String) (v : Value) → lookup field fields ≡ some v
        → lookup field m ≡ some (written v)

  module _ (r : Redis) where
    open r use {E, St, h_set, h_get_all}

    pub data Error : Type 0 where
      redis : E → Error
      missing : String → Error

    abbrev pub fields_of : Order → List (String × Value)
    fields_of order =
        ("customer_id", int order.customer_id)
        ∷ ("product_id", int order.product_id)
        ∷ ("amount", float order.amount)
        ∷ ("status", str order.status)
        ∷ []

    unfoldable pub store_order_in_redis : String → Order → St → Option E × St
    store_order_in_redis order_key order s = h_set order_key (fields_of order) s

    -- `m[k]` of a map to texts.
    abbrev text_at : String → Map String String → String
    text_at k m = elim (lookup k m) [ none ↦ "" | some v ↦ v ]

    abbrev pub order_of : String → Map String String → Order
    order_of order_key result = record {
      order_id = slice order_key 6 (len order_key);
      customer_id = atoi (text_at "customer_id" result);
      product_id = atoi (text_at "product_id" result);
      amount = parse_float (text_at "amount" result);
      status = text_at "status" result;
    }

    -- An empty hash is no order. `orderKey[6:]` panics if the key is shorter; it counts bytes, and here
    -- characters, the same for a key whose characters are ASCII, as all that main builds.
    unfoldable pub order_or_missing : String → Map String String → Outcome Error Order
    order_or_missing order_key [] = err (missing (format ("订单 " ∷ order_key ∷ " 不存在" ∷ [])))
    order_or_missing order_key (entry ∷ rest) =
        if ltb (len order_key) 6 then panic else ok (order_of order_key (entry ∷ rest))

    unfoldable pub get_order_from_redis : String → St → Outcome Error Order
    get_order_from_redis order_key s = elim (h_get_all order_key s) [
      | inl e ↦ err (redis e)
      | inr result ↦ order_or_missing order_key result
    ]

    -- The key that `main` uses for an order.
    abbrev pub order_key : String → String
    order_key id = str_append "order:" id

    order_key-id : (id : String) → slice (order_key id) 6 (len (order_key id)) ≡ id
    order_key-id id = rw (len-append "order:" id) (slice-append_right "order:" id)

    text_at-lookup : (k v : String) (m : Map String String) → lookup k m ≡ some v → text_at k m ≡ v
    text_at-lookup k v m h = ground (arith, h)

    -- The four fields with an order's texts, the amount in any text that reads as it.
    pub order_of-texts :
        (order : Order) (m : Map String String) (t : String)
        → IsInt64 order.customer_id
        → IsInt64 order.product_id
        → parse_float t ≡ order.amount
        → lookup "customer_id" m ≡ some (itoa order.customer_id)
        → lookup "product_id" m ≡ some (itoa order.product_id)
        → lookup "amount" m ≡ some t
        → lookup "status" m ≡ some order.status
        → order_of (order_key order.order_id) m ≡ order
    order_of-texts order m t c p x f g h k =
        rw
          (
            order_key-id order.order_id,
            text_at-lookup "customer_id" (itoa order.customer_id) m f,
            text_at-lookup "product_id" (itoa order.product_id) m g,
            text_at-lookup "amount" t m h,
            text_at-lookup "status" order.status m k,
            atoi-itoa order.customer_id c,
            atoi-itoa order.product_id p,
            x,
          )
          refl

    order_of-fields :
        (order : Order) (m : Map String String)
        → IsInt64 order.customer_id
        → IsInt64 order.product_id
        → ((field : String) (v : Value)
            → lookup field (fields_of order) ≡ some v
            → lookup field m ≡ some (written v))
        → order_of (order_key order.order_id) m ≡ order
    unfolding lookup
    order_of-fields order m c p read =
        order_of-texts order m (format_float order.amount) c p (fl.reads_back order.amount)
          (read "customer_id" (int order.customer_id) refl)
          (read "product_id" (int order.product_id) refl) (read "amount" (float order.amount) refl)
          (read "status" (str order.status) refl)

    pub order_or_missing-lookup :
        (id field v : String) (m : Map String String)
        → lookup field m ≡ some v
        → order_or_missing (order_key id) m ≡ ok (order_of (order_key id) m)
    unfolding order_or_missing lookup
    order_or_missing-lookup id field v [] h = absurd (ground (arith, h))
    order_or_missing-lookup id field v (entry ∷ m) h =
        let l = len-append "order:" id in ground (arith, l)

    -- An order whose ids fit 64 bits, once stored under its key, is read back as it was, wherever
    -- Redis can be read.
    store-get :
        (order : Order) (s : St) (m : Map String String)
        → IsInt64 order.customer_id
        → IsInt64 order.product_id
        → (store_order_in_redis (order_key order.order_id) order s).0 ≡ none
        → h_get_all
            (order_key order.order_id)
            (store_order_in_redis (order_key order.order_id) order s).1
          ≡ inr m
        → get_order_from_redis
            (order_key order.order_id)
            (store_order_in_redis (order_key order.order_id) order s).1
          ≡ ok order
    unfolding store_order_in_redis get_order_from_redis lookup
    store-get order s m c p h k =
        let read = r.h_set_then_get (order_key order.order_id) (fields_of order) s m h k in
        let got =
          order_or_missing-lookup order.order_id "status" order.status m
            (read "status" (str order.status) refl) in
        rw (get_order_from_redis, k) (got ∙ ap ok (order_of-fields order m c p read))

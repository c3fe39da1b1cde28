-- ===== src/Orders/HashTests.antt =====
-- The theorems on the hashes of orders, on a Redis that is a map of hashes, whose numbers are integers.
use kratos_demo.Prelude.{
  ◌≡◌, inr, refl, ap, ◌∙◌, sym, Option, none, some, List, [], ◌∷◌, ◌++◌, String, arith, ok,
  Bool-cases, if◌then◌else◌, ◌==◌, string_comparable, eq_iff, ℕ, ◌⊎◌, inl,
}
use kratos_demo.Prelude.Assoc.{Map, lookup, insert, lookup-insert}
use kratos_demo.Prelude.Int.{ℤ, pos, ◌+ℤ◌}
use kratos_demo.Prelude.Decimal.{itoa, emit, read, read_int, read_nat, read_int-itoa}
use kratos_demo.Orders.Hash.{
  Floats, Value, written, Order, Redis, get_order_from_redis, store_order_in_redis,
}
use kratos_demo.Orders.Hash.Fields.{IsRedis, updated, updated-lookup}
use kratos_demo.Orders.Hash.Loop.{
  Draw, generate_order, store_generated, store_all, AllStored, store_all-get,
}
use kratos_demo.Orders.Script.{Lua, IsLua, lua_script, run_amount, set_sum, lua_script-adds}

integer : Option ℤ → ℤ
integer none = pos 0
integer (some z) = z

integer-itoa : (x : ℤ) → integer (read_int (itoa x)) ≡ x
unfolding integer
integer-itoa x = ap integer (read_int-itoa x)

abbrev integers : Floats
integers = record {
  F = ℤ;
  format_float = itoa;
  parse_float = λ t. integer (read_int t);
  reads_back = integer-itoa;
}

texts : List (String × Value integers) → Map String String
texts [] = []
texts ((k, v) ∷ fields) = (k, written integers v) ∷ texts fields

lookup-texts :
    (k : String) (fields : List (String × Value integers)) (old : Map String String)
    → lookup k (texts fields ++ old) ≡ updated integers k fields (lookup k old)
unfolding lookup texts
lookup-texts k [] old = refl
lookup-texts k ((j, w) ∷ fields) old = elim (Bool-cases (◌==◌ {K = String} j k)) [
  | inl e ↦ ground (arith, e)
  | inr e ↦ ground (arith, e, lookup-texts k fields old)
]

-- `none` is an empty hash.
hash : Option (Map String String) → Map String String
hash none = []
hash (some m) = m

abbrev written_to :
    String
    → List (String × Value integers)
    → Map String (Map String String)
    → Map String (Map String String)
written_to key fields s = insert key (texts fields ++ hash (lookup key s)) s

written_to-field :
    (key : String) (fields : List (String × Value integers)) (s : Map String (Map String String))
    (k f : String)
    → lookup f (hash (lookup k (written_to key fields s))) ≡ (
        if key == k
        then updated integers f fields (lookup f (hash (lookup k s)))
        else lookup f (hash (lookup k s)))
unfolding hash
written_to-field key fields s k f = elim (Bool-cases (key == k)) [
  | inl e ↦
      let q = (eq_iff key k).0 e in
      rw (lookup-insert key k (texts fields ++ hash (lookup key s)) s, e)
        (lookup-texts f fields (hash (lookup key s))
          ∙ ap (λ j. updated integers f fields (lookup f (hash (lookup j s)))) q)
  | inr e ↦ rw (lookup-insert key k (texts fields ++ hash (lookup key s)) s, e) refl
]

written_to-given :
    (key : String) (fields : List (String × Value integers)) (s : Map String (Map String String))
    (f : String) (v : Value integers)
    → lookup f fields ≡ some v
    → lookup f (hash (lookup key (written_to key fields s))) ≡ some (written integers v)
written_to-given key fields s f v g =
    rw (written_to-field key fields s key f, (eq_iff key key).1 refl)
      (updated-lookup integers f fields (lookup f (hash (lookup key s))) v g)

abbrev hashes : Redis integers
hashes = record {
  E = String;
  St = Map String (Map String String);
  h_set = λ key fields s. (none, written_to key fields s);
  h_get_all = λ key s. inr (hash (lookup key s));
  h_set_then_get = λ key fields s m h k f v g.
      let e : hash (lookup key (written_to key fields s)) ≡ m = cc k in
      ap (lookup f) (sym e) ∙ written_to-given key fields s f v g;
}

abbrev hashes-IsRedis : IsRedis integers hashes
hashes-IsRedis = record {
  field_at = λ k f s. lookup f (hash (lookup k s));
  sets = λ key fields s h k f. written_to-field key fields s k f;
  gets_all = λ key s m h f. let e : hash (lookup key s) ≡ m = cc h in ap (lookup f) (sym e);
}

-- The draws of each round.
abbrev draws : ℕ → Draw
draws i = record { customer = 15; product = 107; amount = 950 }

abbrev stored : Map String (Map String String)
stored = store_all integers pos hashes draws 3 1 []

stored-AllStored : AllStored integers pos hashes draws 3 1 []
unfolding AllStored store_generated store_order_in_redis generate_order
stored-AllStored = (refl, (refl, (refl, tt)))

store_all-get_example :
    get_order_from_redis integers hashes "order:2" stored
    ≡ ok (generate_order integers pos (draws 2) 2)
unfolding itoa emit
store_all-get_example =
    store_all-get integers pos hashes hashes-IsRedis draws
      (λ i. (omega arith, omega arith, omega arith)) 3 2 [] (hash (lookup "order:2" stored))
      (omega arith) (omega arith) stored-AllStored refl

abbrev numbers : Lua integers
numbers = record { tonumber = read_int; tostring = itoa; add = λ x y. x +ℤ y }

numbers-IsLua : IsLua integers numbers
numbers-IsLua = record { reads = read_int-itoa; is_read = integer-itoa }

abbrev order : Order integers
order = record {
  order_id = "1029977";
  customer_id = pos 15;
  product_id = pos 107;
  amount = pos 9;
  status = "pending";
}

abbrev h_get : String → String → Map String (Map String String) → String ⊎ Option String
h_get key f s = inr (lookup f (hash (lookup key s)))

h_get-field :
    (key f : String) (s : Map String (Map String String)) (o : Option String)
    → h_get key f s ≡ inr o
    → o ≡ hashes-IsRedis.field_at key f s
h_get-field key f s o h = let e : lookup f (hash (lookup key s)) ≡ o = cc h in sym e

abbrev scripted : Map String (Map String String)
scripted =
    (lua_script integers numbers hashes h_get "order:1029977" "50"
      (store_order_in_redis integers hashes "order:1029977" order []).1).1

lua_script-adds_example :
    (pos 59 ≡ pos 9 +ℤ pos 50)
    × (get_order_from_redis integers hashes "order:1029977" scripted
        ≡ ok (record order { amount = pos 59 }))
unfolding store_order_in_redis lua_script run_amount set_sum lookup insert texts hash read_int itoa
    emit read_nat read ◌+ℤ◌
lua_script-adds_example =
    lua_script-adds integers numbers hashes h_get hashes-IsRedis numbers-IsLua h_get-field order
      "50" [] (pos 59) (pos 50) (hash (lookup "order:1029977" scripted)) (omega arith) (omega arith)
      refl refl refl refl

-- ===== src/Sharding/Routing.antt =====
-- cmd/design/sharding/gorm/demo.go: the statements that main runs through gorm's sharding plugin. The
-- plugin and the database are parameters.
use Prim.Native.String.{◌∷◌ as text_cons}
use mathlib.Core.List.{append-nil, append_assoc}
use kratos_demo.Prelude.{
  In, ℕ, zero, suc, ◌+◌, ◌/◌, ◌%◌, ◌≤◌, ◌<◌, ◌≡◌, ◌≢◌, refl, sym, ap, ◌∙◌, subst, inl, inr, ◌⊎◌,
  Option, none, some, List, [], ◌∷◌, ◌++◌, map, String, str_append, format, arith, ◌==◌,
  nat_comparable, string_comparable, eq_iff, Bool-cases,
}
use kratos_demo.Prelude.Decimal.{digit, itoa, emit}
use kratos_demo.Prelude.Selection.{select}
use kratos_demo.Sharding.Tables.{Database, IsDatabase, AllRun, make_tables, tables, tables_empty}

pub record Order : Type 0 where
  pub id : ℕ
  pub user_id : ℕ
  pub product_id : ℕ

-- `sharding.Config`, without the generator of primary keys.
pub record Config : Type 0 where
  pub sharding_key : String
  pub number_of_shards : ℕ

abbrev pub config : Config
config = record { sharding_key = "user_id"; number_of_shards = 64 }

-- The statements of main, with their arguments.
pub data Statement : Type 0 where
  create : Order → Statement
  insert_user insert_product find_user select_user find_product delete_product : ℕ → Statement
  update : (product_id user_id : ℕ) → Statement

-- The sharding key of a statement.
abbrev pub user_of : Statement → Option ℕ
user_of (create order) = some order.user_id
user_of (insert_user n) = some n
user_of (insert_product n) = none
user_of (find_user n) = some n
user_of (select_user n) = some n
user_of (find_product n) = none
user_of (delete_product n) = none
user_of (update product_id n) = some n

abbrev pub statements : List Statement
statements =
    create (record { id = 0; user_id = 2; product_id = 0 })
    ∷ insert_user 3
    ∷ insert_product 1
    ∷ find_user 2
    ∷ select_user 3
    ∷ find_product 1
    ∷ update 2 3
    ∷ delete_product 3
    ∷ []

pub data Failure (E : Type 0) : Type 0 where
  missing_sharding_key : Failure E
  failed : E → Failure E

-- What a statement ends with: its error, the orders that it has read, and the database.
pub record Result (d : Database) : Type 0 where
  pub error : Option (Failure d.E)
  pub orders : List Order
  pub after : d.St

pub record Plugin (d : Database) : Type 0 where
  pub run : Config → Statement → d.St → Result d

-- The plugin's documented name of a user's table, for 10 to 99 shards: the table's name, a line, and the
-- shard's number in two digits.
abbrev pub shard_name : ℕ → String
shard_name k = str_append "orders_" (text_cons (digit (k / 10)) (text_cons (digit (k % 10)) ""))

abbrev pub shard : Config → ℕ → String
shard c n = shard_name (n % c.number_of_shards)

module _ (d : Database) (p : Plugin d) where
  -- The statements one after another; main prints what each ends with and goes on.
  unfoldable pub run_all : List Statement → d.St → List (Result d)
  run_all [] s = []
  run_all (statement ∷ rest) s = let r = p.run config statement s in r ∷ run_all rest r.after

-- What the plugin documents: an order is written to the table of its user's shard, with an id that is
-- drawn for it, and to no other, and a query for a user reads that table.
pub record IsPlugin (d : Database) (is : IsDatabase d Order) (p : Plugin d) : Type 0 where
  pub creates :
      (c : Config) (order : Order) (s : d.St) (old : List Order)
      → (p.run c (create order) s).error ≡ none
      → is.rows (shard c order.user_id) s ≡ some old
      → (id : ℕ) × (is.rows (shard c order.user_id) (p.run c (create order) s).after
          ≡ some (old ++ record order { id = id } ∷ []))
  pub create_others :
      (c : Config) (order : Order) (s : d.St) (other : String)
      → other ≢ shard c order.user_id
      → is.rows other (p.run c (create order) s).after ≡ is.rows other s
  pub finds :
      (c : Config) (n : ℕ) (s : d.St) (old : List Order)
      → (p.run c (find_user n) s).error ≡ none
      → is.rows (shard c n) s ≡ some old
      → (p.run c (find_user n) s).orders ≡ select (λ (o : Order). o.user_id == n) old

abbrev shard_names : ℕ → ℕ → List String
shard_names i zero = []
shard_names i (suc n) = shard_name i ∷ shard_names (i + 1) n

-- main names the shards' tables as the plugin does.
tables-shard_names : tables ≡ shard_names 0 64
unfolding format itoa emit
tables-shard_names = refl

In-shard_names : (k i n : ℕ) → i ≤ k → k < i + n → In (shard_name k) (shard_names i n)
In-shard_names k i zero a b = absurd (omega arith)
In-shard_names k i (suc n) a b = elim (Bool-cases (k == i)) [
  | inl e ↦ inl (ap shard_name ((nat_comparable.same_iff k i).0 e))
  | inr e ↦ inr (In-shard_names k (i + 1) n (ground (arith, e)) (omega arith))
]

-- The user and the product of an order, which the plugin keeps.
abbrev pub content : Order → ℕ × ℕ
content o = (o.user_id, o.product_id)

-- What the orders of a user hold.
abbrev pub of_user : ℕ → List Order → List (ℕ × ℕ)
of_user n orders = map content (select (λ (o : Order). o.user_id == n) orders)

of_user-append : (n : ℕ) (xs ys : List Order) → of_user n (xs ++ ys) ≡ of_user n xs ++ of_user n ys
unfolding select
of_user-append n [] ys = refl
of_user-append n (x ∷ xs) ys = ground (arith, of_user-append n xs ys)

same_content :
    (n : ℕ) (o : Order) (id : ℕ) → of_user n (record o { id = id } ∷ []) ≡ of_user n (o ∷ [])
unfolding select
same_content n o id = ground arith

not_user : (n : ℕ) (o : Order) → (n ≢ o.user_id) → of_user n (o ∷ []) ≡ []
unfolding select
not_user n o h = ground (arith, nat_comparable.same_iff o.user_id n)

String-cases : (x y : String) → (x ≡ y) ⊎ (x ≢ y)
String-cases x y = elim (Bool-cases (◌==◌ {K = String} x y)) [
  | inl e ↦ inl ((eq_iff x y).0 e)
  | inr e ↦ inr (λ h. absurd (ground (arith, e, (eq_iff x y).1 h)))
]

module _ (d : Database) (is : IsDatabase d Order) (p : Plugin d) (doc : IsPlugin d is p) where
  -- Some orders created one after another.
  unfoldable pub create_all : List Order → d.St → d.St
  create_all [] s = s
  create_all (order ∷ orders) s = create_all orders (p.run config (create order) s).after

  -- None of them fails.
  unfoldable pub AllCreated : List Order → d.St → Type 0
  AllCreated [] s = Unit {0}
  AllCreated (order ∷ orders) s =
      ((p.run config (create order) s).error ≡ none)
      × AllCreated orders (p.run config (create order) s).after

  -- The table of a user's shard, before and after an order.
  create-row :
      (n : ℕ) (order : Order) (s : d.St) (old : List Order)
      → (p.run config (create order) s).error ≡ none
      → is.rows (shard config n) s ≡ some old
      → (new : List Order) × (is.rows (shard config n) (p.run config (create order) s).after
          ≡ some new)
        × (of_user n new ≡ of_user n (old ++ order ∷ []))
  create-row n order s old made h =
      elim (String-cases (shard config n) (shard config order.user_id)) [
        | inl e ↦
            let (id, k) = doc.creates config order s old made (rw e at h) in
            (
              old ++ record order { id = id } ∷ [],
              rw e k,
              of_user-append n old (record order { id = id } ∷ [])
                  ∙ ap (λ l. of_user n old ++ l) (same_content n order id)
                  ∙ sym (of_user-append n old (order ∷ [])),
            )
        | inr e ↦ (
          old,
          doc.create_others config order s (shard config n) e ∙ h,
          sym (append-nil (of_user n old))
              ∙ ap (λ l. of_user n old ++ l) (sym (not_user n order (λ f. e (ap (shard config) f))))
              ∙ sym (of_user-append n old (order ∷ [])),
        )
      ]

  create_all-rows :
      (n : ℕ) (orders : List Order) (s : d.St) (old : List Order)
      → AllCreated orders s
      → is.rows (shard config n) s ≡ some old
      → (new : List Order) × (is.rows (shard config n) (create_all orders s) ≡ some new)
        × (of_user n new ≡ of_user n old ++ of_user n orders)
  unfolding create_all AllCreated select
  create_all-rows n [] s old all h = (old, h, sym (append-nil (of_user n old)))
  create_all-rows n (order ∷ orders) s old (made, all) h =
      let (next, k, e) = create-row n order s old made h in
      let (new, l, f) = create_all-rows n orders (p.run config (create order) s).after next all k in
      (
        new,
        l,
        f
            ∙ ap (λ x. x ++ of_user n orders) (e ∙ of_user-append n old (order ∷ []))
            ∙ append_assoc (of_user n old) (of_user n (order ∷ [])) (of_user n orders)
            ∙ ap (λ x. of_user n old ++ x) (sym (of_user-append n (order ∷ []) orders)),
      )

  pub find_user-create_all :
      (s : d.St) (orders : List Order) (n : ℕ)
      → AllRun d tables s
      → AllCreated orders (make_tables d tables s)
      → (p.run config (find_user n) (create_all orders (make_tables d tables s))).error ≡ none
      → map content (p.run config (find_user n) (create_all orders (make_tables d tables s))).orders
        ≡ of_user n orders
  unfolding select
  find_user-create_all s orders n all made found =
      let i : In (shard config n) tables =
        subst (λ l. In (shard config n) l) (sym tables-shard_names)
          (In-shard_names (n % 64) 0 64 (omega arith) (omega arith)) in
      let empty = tables_empty d Order is s (shard config n) all i in
      let (new, k, e) = create_all-rows n orders (make_tables d tables s) [] made empty in
      ap (map content) (doc.finds config n (create_all orders (make_tables d tables s)) new found k)
      ∙ e

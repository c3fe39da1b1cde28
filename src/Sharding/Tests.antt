-- ===== src/Sharding/Tests.antt =====
-- Sharding over a circle that is the list of its elements and gives every key the newest one.
use kratos_demo.Prelude.{
  arith, Option, none, some, sym, ap, ap₂, false, Bool-cases, if◌then◌else◌, ◌==◌,
  string_comparable, eq_iff, nat_comparable, ◌++◌, map, ◌≢◌, ℕ, In, ◌≡◌, ◌⊎◌, inl, inr, refl, List,
  [], ◌∷◌, String,
}
use kratos_demo.Sharding.{Consistent, hash, dsn, init, get_db_connection_by_key, add_all}
use kratos_demo.Sharding.Tables.{
  Database, IsDatabase, AllRun, create_table, drop_table, make_table, make_tables, tables,
}
use kratos_demo.Sharding.Routing.{
  Order, Config, config, Statement, create, find_user, missing_sharding_key, Result, Plugin,
  IsPlugin, shard, content, create_all, AllCreated, find_user-create_all,
}
use kratos_demo.Prelude.Selection.{select}
use Prim.Native.Char.{code}
use text.Mathlib.TextLemmas.{
  append_cancel_left, append_cancel_right, cons-append, head-eq_of_cons-eq,
}
use kratos_demo.Sharding.Connections.{IsConsistent, get_db_connection_by_key-add_all}

newest : List String → String ⊎ String
newest [] = inl "empty circle"
newest (x ∷ xs) = inr x

abbrev stack : Consistent
stack = record {
  E = String;
  Circle = List String;
  new_circle = [];
  add = λ name h. name ∷ h;
  get = λ key h. newest h;
}

newest-In : (h : List String) (x : String) → newest h ≡ inr x → In x h
unfolding newest
newest-In [] x e = absurd (cc e)
newest-In (y ∷ h) x e = inl (cc e)

newest-nil : (h : List String) (e : String) → newest h ≡ inl e → h ≡ []
unfolding newest
newest-nil [] e k = refl
newest-nil (y ∷ h) e k = absurd (cc k)

stack-IsConsistent : IsConsistent stack
stack-IsConsistent = record {
  members = λ h. h;
  new_members = refl;
  add_members = λ name h x. (λ i. i, λ i. i);
  get_member = λ key h x e. newest-In h x e;
  get_empty = λ key h e k. newest-nil h e k;
}

abbrev two : List String
two = "demo-01" ∷ "demo-02" ∷ []

get_db_connection_by_key-add_all_example :
    let s = add_all stack two (init stack) in
    ((name : String) × In name two
      × (newest s.consistent_hash ≡ inr name)
      × ((get_db_connection_by_key stack "7" s).0 ≡ inr (dsn name)))
    ⊎ ((two ≡ []) × ((e : String) × ((get_db_connection_by_key stack "7" s).0 ≡ inl (hash e))))
get_db_connection_by_key-add_all_example =
    get_db_connection_by_key-add_all stack stack-IsConsistent two "7"

-- A database that knows the rows of the tables that are there.
abbrev database : Database
database = record {
  E = String;
  St = String → Option (List Order);
  exec = λ statement s. (
    none,
    λ table.
        if statement == create_table table
        then some []
        else (if statement == drop_table table then none else s table),
  );
}

statements_differ : (t u : String) → create_table t ≡ drop_table u → ⊥
statements_differ t u h =
    let k = rw (cons-append "C" "REATE TABLE " _, cons-append "D" "ROP TABLE IF EXISTS " u) at h in
    let e : ◌≡◌ {A = ℕ} 67 68 = ap code (head-eq_of_cons-eq k) in omega arith

create_table-injective : (t u : String) → create_table t ≡ create_table u → t ≡ u
create_table-injective t u h = append_cancel_right t u _ (append_cancel_left "CREATE TABLE " _ _ h)

drop_table-injective : (t u : String) → drop_table t ≡ drop_table u → t ≡ u
drop_table-injective t u h = append_cancel_left "DROP TABLE IF EXISTS " t u h

differ-false : (a b : String) → (a ≡ b → ⊥) → (a == b) ≡ false
differ-false a b n = elim (Bool-cases (a == b)) [
  | inl e ↦ absurd (n ((eq_iff a b).0 e))
  | inr e ↦ e
]

abbrev database-IsDatabase : IsDatabase database Order
database-IsDatabase = record {
  rows = λ table s. s table;
  creates = λ table s h.
      ap
        (λ c.
          if c then some [] else (if create_table table == drop_table table then none else s table))
        ((eq_iff (create_table table) (create_table table)).1 refl);
  create_others = λ table s other n.
      ap₂ (λ c d. if c then some [] else (if d then none else s other))
        (differ-false (create_table table) (create_table other)
          (λ e. n (sym (create_table-injective table other e))))
        (differ-false (create_table table) (drop_table other) (statements_differ table other));
  drop_others = λ table s other n.
      ap₂ (λ c d. if c then some [] else (if d then none else s other))
        (differ-false (drop_table table) (create_table other)
          (λ e. statements_differ other table (sym e)))
        (differ-false (drop_table table) (drop_table other)
          (λ e. n (sym (drop_table-injective table other e))));
}

all-AllRun : (list : List String) (s : String → Option (List Order)) → AllRun database list s
unfolding AllRun
all-AllRun [] s = tt
all-AllRun (table ∷ list) s = (refl, all-AllRun list (make_table database table s))

write : List Order → Option (List Order) → Option (List Order)
write new none = none
write new (some old) = some (old ++ new)

-- A plugin that gives every order the id 7.
abbrev stored : Order → Order
stored order = record order { id = 7 }

run : Config → Statement → (String → Option (List Order)) → Result database
run c (create order) s = record {
  error = none;
  orders = [];
  after = λ table.
      if table == shard c order.user_id then write (stored order ∷ []) (s table) else s table;
}
run c (find_user n) s = record {
  error = none;
  orders = elim (s (shard c n)) [
    | none ↦ []
    | some old ↦ select (λ (o : Order). o.user_id == n) old
  ];
  after = s;
}
run c statement s = record { error = some missing_sharding_key; orders = []; after = s }

abbrev plugin : Plugin database
plugin = record { run = run }

run-create :
    (c : Config) (order : Order) (s : String → Option (List Order)) (old : List Order)
    → s (shard c order.user_id) ≡ some old
    → (run c (create order) s).after (shard c order.user_id) ≡ some (old ++ stored order ∷ [])
unfolding run write
run-create c order s old h =
    rw ((eq_iff (shard c order.user_id) (shard c order.user_id)).1 refl, h) refl

run-find_user :
    (c : Config) (n : ℕ) (s : String → Option (List Order)) (old : List Order)
    → s (shard c n) ≡ some old
    → (run c (find_user n) s).orders ≡ select (λ (o : Order). o.user_id == n) old
unfolding run
run-find_user c n s old h = rw h refl

run-others :
    (c : Config) (order : Order) (s : String → Option (List Order)) (other : String)
    → other ≢ shard c order.user_id
    → (run c (create order) s).after other ≡ s other
unfolding run
run-others c order s other n = rw (differ-false other (shard c order.user_id) n) refl

abbrev plugin-IsPlugin : IsPlugin database database-IsDatabase plugin
plugin-IsPlugin = record {
  creates = λ c order s old e h. (7, run-create c order s old h);
  create_others = λ c order s other n. run-others c order s other n;
  finds = λ c n s old e h. run-find_user c n s old h;
}

abbrev made : String → Option (List Order)
made = make_tables database tables (λ table. none)

-- Two users of one shard, the first of them twice.
abbrev orders : List Order
orders =
    record { id = 0; user_id = 2; product_id = 5 }
    ∷ record { id = 0; user_id = 66; product_id = 6 }
    ∷ record { id = 0; user_id = 2; product_id = 7 }
    ∷ []

orders-AllCreated : AllCreated database database-IsDatabase plugin plugin-IsPlugin orders made
unfolding AllCreated run
orders-AllCreated = (refl, (refl, (refl, tt)))

find_user-create_all_example :
    map content
      (run config
        (find_user 2)
        (create_all database database-IsDatabase plugin plugin-IsPlugin orders made)).orders
    ≡ (2, 5) ∷ (2, 7) ∷ []
unfolding run select
find_user-create_all_example =
    find_user-create_all database database-IsDatabase plugin plugin-IsPlugin (λ table. none) orders
      2 (all-AllRun tables (λ table. none)) orders-AllCreated refl

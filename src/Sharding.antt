-- ===== src/Sharding.antt =====
-- cmd/design/sharding: databases found by a consistent hash, in shardding.go, which is modelled here, and
-- the tables of the gorm demo. The hash is a parameter.
pub mod Connections
pub mod Tables
pub mod Routing
pub mod Tests
use kratos_demo.Prelude.{
  ◌⊎◌, inl, inr, Option, none, some, List, [], ◌∷◌, ◌++◌, String, format, string_comparable,
}
use kratos_demo.Prelude.Assoc.{Map, lookup, insert}
use kratos_demo.Prelude.Int.{ℤ, pos}

-- github.com/stathat/consistent.
pub record Consistent : Type 1 where
  pub E : Type 0
  pub Circle : Type 0
  pub new_circle : Circle
  pub add : String → Circle → Circle
  pub get : String → Circle → E ⊎ String

pub record User : Type 0 where
  pub id : ℤ
  pub name : String
  pub email : String

-- The connection string of a database, from the constants of the package.
abbrev pub dsn : String → String
dsn db_name = format (
    "user" ∷ ":" ∷ "password" ∷ "@tcp(" ∷ "localhost" ∷ ":" ∷ "3306" ∷ ")/" ∷ db_name
    ∷ "?charset=utf8mb4&parseTime=True&loc=Local" ∷ [])

module _ (c : Consistent) where
  open c use {E, Circle, new_circle, add, get}

  -- The package's variables.
  pub record Shards : Type 0 where
    pub consistent_hash : Circle
    pub db_pools : Map String String

  pub data Error : Type 0 where
    hash : E → Error
    no_connection : String → Error

  unfoldable pub init : Shards
  init = record { consistent_hash = new_circle; db_pools = [] }

  unfoldable pub add_db_pool : String → Shards → Shards
  add_db_pool db_name s = record {
    consistent_hash = add db_name s.consistent_hash;
    db_pools = insert db_name (dsn db_name) s.db_pools;
  }

  -- A result and the lines that are printed.
  abbrev pub pool_of : String → String → Option String → (Error ⊎ String) × List String
  pool_of key db_name none =
      (inl (no_connection (format ("no db connection found for dbName: " ∷ db_name ∷ []))), [])
  pool_of key db_name (some db) = (inr db, format ("key== " ∷ key ∷ " " ∷ db_name ∷ []) ∷ [])

  unfoldable pub get_db_connection_by_key : String → Shards → (Error ⊎ String) × List String
  get_db_connection_by_key key s = elim (get key s.consistent_hash) [
    | inl e ↦ (inl (hash e), [])
    | inr db_name ↦ pool_of key db_name (lookup db_name s.db_pools)
  ]

  abbrev pub no_user : User
  no_user = record { id = pos 0; name = ""; email = "" }

  -- The query is in a comment, so the user is empty.
  abbrev pub user_from : (Error ⊎ String) × List String → (Error ⊎ User) × List String
  user_from (inl e, printed) = (inl e, printed)
  user_from (inr db, printed) = (inr no_user, printed ++ (format ("db connection " ∷ db ∷ []) ∷ []))

  unfoldable pub get_user_by_id : String → Shards → (Error ⊎ User) × List String
  get_user_by_id user_id s = user_from (get_db_connection_by_key user_id s)

  unfoldable pub add_all : List String → Shards → Shards
  add_all [] s = s
  add_all (name ∷ names) s = add_all names (add_db_pool name s)

  abbrev pub main_names : List String
  main_names = "demo-01" ∷ "demo-02" ∷ "demo-03" ∷ []

  unfoldable pub look_up_all : List String → Shards → List (Error ⊎ String)
  look_up_all [] s = []
  look_up_all (key ∷ keys) s = (get_db_connection_by_key key s).0 ∷ look_up_all keys s

  unfoldable pub main : List (Error ⊎ String)
  main =
      look_up_all ("demo-01-user" ∷ "demo-02-user" ∷ "demo-03-user" ∷ "demo-04-user" ∷ [])
        (add_all main_names init)

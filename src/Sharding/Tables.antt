-- ===== src/Sharding/Tables.antt =====
-- cmd/design/sharding/gorm/demo.go: the loop that makes the 64 tables of the shards. gorm and the
-- database are a parameter. The rest of that program is in Routing.antt.
use kratos_demo.Prelude.{
  In, IsDistinct, ℕ, zero, suc, ◌+◌, ◌≡◌, ◌≢◌, refl, ap, ◌∙◌, inl, inr, Option, none, some, List,
  [], ◌∷◌, String, str_append, format, ltb, if◌then◌else◌,
}
use kratos_demo.Prelude.Distinct.{all_distinct-IsDistinct}
use kratos_demo.Prelude.Int.{pos}
use kratos_demo.Prelude.Decimal.{itoa, emit}

-- The verb `%02d` at a number below 100.
abbrev pub two_digits : ℕ → String
two_digits n = if ltb n 10 then str_append "0" (itoa (pos n)) else itoa (pos n)

abbrev pub table_name : ℕ → String
table_name i = format ("orders_" ∷ two_digits i ∷ [])

abbrev pub drop_table : String → String
drop_table table = str_append "DROP TABLE IF EXISTS " table

abbrev pub create_table : String → String
create_table table = str_append "CREATE TABLE " (
    str_append table
      " (\n\t\t\tid BIGSERIAL PRIMARY KEY,\n\t\t\tuser_id bigint,\n\t\t\tproduct_id bigint\n\t\t)")

pub record Database : Type 1 where
  pub E : Type 0
  pub St : Type 0
  pub exec : String → St → Option E × St

abbrev pub tables_from : ℕ → ℕ → List String
tables_from i zero = []
tables_from i (suc n) = table_name i ∷ tables_from (i + 1) n

abbrev pub tables : List String
tables = tables_from 0 64

module _ (d : Database) where
  open d use {E, St, exec}

  -- What the calls return is dropped.
  abbrev pub make_table : String → St → St
  make_table table s = (exec (create_table table) (exec (drop_table table) s).1).1

  unfoldable pub make_tables : List String → St → St
  make_tables [] s = s
  make_tables (table ∷ rest) s = make_tables rest (make_table table s)

  unfoldable pub AllRun : List String → St → Type 0
  AllRun [] s = Unit {0}
  AllRun (table ∷ rest) s =
      ((exec (create_table table) (exec (drop_table table) s).1).0 ≡ none)
      × AllRun rest (make_table table s)

-- What SQL has the two statements do, with the rows of each table.
pub record IsDatabase (d : Database) (Row : Type 0) : Type 1 where
  pub rows : String → d.St → Option (List Row)
  pub creates :
      (table : String) (s : d.St)
      → (d.exec (create_table table) s).0 ≡ none
      → rows table (d.exec (create_table table) s).1 ≡ some []
  pub create_others :
      (table : String) (s : d.St) (other : String)
      → other ≢ table
      → rows other (d.exec (create_table table) s).1 ≡ rows other s
  pub drop_others :
      (table : String) (s : d.St) (other : String)
      → other ≢ table
      → rows other (d.exec (drop_table table) s).1 ≡ rows other s

tables-IsDistinct : IsDistinct tables
unfolding format itoa emit
tables-IsDistinct = all_distinct-IsDistinct tables refl

module _ (d : Database) (Row : Type 0) (is : IsDatabase d Row) where
  make_tables-others :
      (list : List String) (s : d.St) (other : String)
      → (In other list → ⊥)
      → is.rows other (make_tables d list s) ≡ is.rows other s
  unfolding make_tables
  make_tables-others [] s other n = refl
  make_tables-others (table ∷ list) s other n =
      make_tables-others list (make_table d table s) other (λ i. n (inr i))
      ∙ is.create_others table (d.exec (drop_table table) s).1 other (λ e. n (inl e))
      ∙ is.drop_others table s other (λ e. n (inl e))

  make_tables-rows :
      (list : List String) (s : d.St) (table : String)
      → IsDistinct list
      → AllRun d list s
      → In table list
      → is.rows table (make_tables d list s) ≡ some []
  unfolding make_tables AllRun
  make_tables-rows [] s table u all i = absurd i
  make_tables-rows (t ∷ list) s table (fresh, u) (h, all) (inl e) =
      ap (λ x. is.rows x (make_tables d list (make_table d t s))) e
      ∙ make_tables-others list (make_table d t s) t fresh
      ∙ is.creates t (d.exec (drop_table t) s).1 h
  make_tables-rows (t ∷ list) s table (fresh, u) (h, all) (inr i) =
      make_tables-rows list (make_table d t s) table u all i

  -- If every table could be created, each of the 64 shards' tables is there and empty, whatever the
  -- database had before: their names are different.
  pub tables_empty :
      (s : d.St) (table : String)
      → AllRun d tables s
      → In table tables
      → is.rows table (make_tables d tables s) ≡ some []
  tables_empty s table all i = make_tables-rows tables s table tables-IsDistinct all i

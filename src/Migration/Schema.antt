-- ===== src/Migration/Schema.antt =====
-- The schema that the migrations of migration/src build on Postgres, and what their statements do to it.
use registry_api_contract.Prelude.{
  String, Bool, true, false, not, Option, none, some, List, [], ◌∷◌, ◌++◌, ◌&&◌, ◌==◌, any, all,
  find, keep, map, if◌then◌else◌,
}

pub data Kind : Type 0 where
  uuid string timestamp big_integer integer boolean jsonb vector : Kind

pub record Column : Type 0 where
  pub name : String
  pub kind : Kind
  pub not_null : Bool
  pub default_value : Option String

-- A table with its primary and unique keys, each a list of columns.
pub record Table : Type 0 where
  pub name : String
  pub columns : List Column
  pub keys : List (List String)

pub record Index : Type 0 where
  pub name : String
  pub table : String
  pub columns : List String
  pub unique : Bool

pub data OnDelete : Type 0 where
  no_action set_null cascade : OnDelete

pub record ForeignKey : Type 0 where
  pub name : String
  pub table : String
  pub column : String
  pub target : String
  pub on_delete : OnDelete

pub record Schema : Type 0 where
  pub tables : List Table
  pub indexes : List Index
  pub foreign_keys : List ForeignKey

-- `true` is `if not exists`, or `if exists`, where a statement has it.
pub data Ddl : Type 0 where
  create_table : Table → List ForeignKey → Ddl
  drop_table : String → Bool → Ddl
  add_column : String → Column → Bool → Ddl
  drop_column : String → String → Bool → Ddl
  create_index : Index → Bool → Ddl
  drop_index : String → Bool → Ddl
  create_foreign_key : ForeignKey → Ddl
  drop_foreign_key : String → Ddl

abbrev pub has_table_name : String → Table → Bool
has_table_name name t = t.name == name

abbrev pub has_column : Table → String → Bool
has_column t column = any (λ c. c.name == column) t.columns

abbrev pub table_of : Schema → String → Option Table
table_of s name = find (has_table_name name) s.tables

abbrev pub with_table : String → (Table → Table) → Schema → Schema
with_table name f s = record s { tables = map (λ t. if t.name == name then f t else t) s.tables }

abbrev pub when_allowed : Bool → Schema → Option Schema
when_allowed true s = some s
when_allowed false s = none

-- `none` is a statement that the database refuses.
unfoldable pub run_ddl : Ddl → Schema → Option Schema
run_ddl (create_table t refs) s =
    if any (has_table_name t.name) s.tables
    then some s
    else if all (λ r. any (has_table_name r.target) s.tables) refs
    then some (record s { tables = s.tables ++ t ∷ []; foreign_keys = s.foreign_keys ++ refs })
    else none
run_ddl (drop_table name if_exists) s =
    if not (any (has_table_name name) s.tables)
    then when_allowed if_exists s
    else if any (λ r. r.target == name && not (r.table == name)) s.foreign_keys
    then none
    else some (record {
      tables = keep (λ t. not (t.name == name)) s.tables;
      indexes = keep (λ i. not (i.table == name)) s.indexes;
      foreign_keys = keep (λ r. not (r.table == name)) s.foreign_keys;
    })
run_ddl (add_column name c if_missing) s = elim (table_of s name) [
  | none ↦ none
  | some t ↦
      if has_column t c.name
      then when_allowed if_missing s
      else some (with_table name (λ u. record u { columns = u.columns ++ c ∷ [] }) s)
]
run_ddl (drop_column name column if_exists) s = elim (table_of s name) [
  | none ↦ none
  | some t ↦
      if not (has_column t column)
      then when_allowed if_exists s
      else let without =
          with_table name
            (λ u. record u {
              columns = keep (λ c. not (c.name == column)) u.columns;
              keys = keep (λ k. not (any (λ c. c == column) k)) u.keys;
            })
            s in
        some (record without {
          indexes = keep (λ i. not (i.table == name && any (λ c. c == column) i.columns)) s.indexes;
          foreign_keys = keep (λ r. not (r.table == name && r.column == column)) s.foreign_keys;
        })
]
run_ddl (create_index i if_missing) s = elim (table_of s i.table) [
  | none ↦ none
  | some t ↦
      if any (λ j. j.name == i.name) s.indexes
      then when_allowed if_missing s
      else if all (has_column t) i.columns
      then some (record s { indexes = s.indexes ++ i ∷ [] })
      else none
]
run_ddl (drop_index name if_exists) s =
    if any (λ i. i.name == name) s.indexes
    then some (record s { indexes = keep (λ i. not (i.name == name)) s.indexes })
    else when_allowed if_exists s
run_ddl (create_foreign_key r) s =
    if any (has_table_name r.target) s.tables && any (has_table_name r.table) s.tables
    then some (record s { foreign_keys = s.foreign_keys ++ r ∷ [] })
    else none
run_ddl (drop_foreign_key name) s =
    if any (λ r. r.name == name) s.foreign_keys
    then some (record s { foreign_keys = keep (λ r. not (r.name == name)) s.foreign_keys })
    else none

unfoldable pub run_all : List Ddl → Schema → Option Schema
unfolding run_ddl
run_all [] s = some s
run_all (q ∷ qs) s = elim (run_ddl q s) [ none ↦ none | some s' ↦ run_all qs s' ]

-- The sets of columns of a table that are unique.
abbrev pub unique_keys : Schema → String → List (List String)
unique_keys s name =
    table_keys (table_of s name)
    ++ map (λ i. i.columns) (keep (λ i. i.unique && i.table == name) s.indexes)
  where
    table_keys : Option Table → List (List String)
    table_keys none = []
    table_keys (some t) = t.keys

abbrev pub empty_schema : Schema
empty_schema = record { tables = []; indexes = []; foreign_keys = [] }

-- ===== src/Services/Schema.antt =====
-- services/db_schema/diff.rs: what to do to a database so that it has the tables that are wanted.
-- A `HashMap` hands out its entries in no order that the code relies on; here it is the map's own.
mod Tests
pub mod Sql
pub mod Planner
pub mod Columns
pub mod Reached
use text.Mathlib.Text.{◌==◌}
use fenrir.Prelude.{
  String, Bool, true, false, not, ◌&&◌, Option, none, some, List, [], ◌∷◌, ◌++◌, map, if◌then◌else◌,
}
use fenrir.Prelude.Dict.{Dict, lookup, insert, remove}

-- domain/db/engine.rs and schema.rs.
pub data DbEngine : Type 0 where
  postgres mysql sqlite mongodb : DbEngine

pub data DbTableKind : Type 0 where
  table view materialized_view index other : DbTableKind

abbrev pub kind_eq : DbTableKind → DbTableKind → Bool
kind_eq DbTableKind.table DbTableKind.table = true
kind_eq view view = true
kind_eq materialized_view materialized_view = true
kind_eq index index = true
kind_eq other other = true
kind_eq _ _ = false

pub record ColumnBlueprint : Type 0 where
  pub name : String
  pub data_type : String
  pub nullable : Bool
  pub default_value : Option String
  pub is_primary : Bool
  pub references : Option String

pub record TableBlueprint : Type 0 where
  pub name : String
  pub columns : List ColumnBlueprint
  pub kind : DbTableKind

pub data MigrationOp : Type 0 where
  create_table : TableBlueprint → MigrationOp
  drop_table : String → MigrationOp
  add_column : String → ColumnBlueprint → MigrationOp
  drop_column : String → String → MigrationOp
  alter_column :
      String → String → Option String → Option Bool → Option (Option String) → MigrationOp
  add_foreign_key : String → String → String → MigrationOp
  drop_foreign_key : String → String → MigrationOp

abbrev pub bool_eq : Bool → Bool → Bool
bool_eq true b = b
bool_eq false b = not b

abbrev pub text_eq : Option String → Option String → Bool
text_eq none none = true
text_eq (some a) (some b) = a == b
text_eq _ _ = false

abbrev pub new_if_differs {ℓ} : {A : Type ℓ} → Bool → A → Option A
new_if_differs same a = if same then none else some a

unfoldable pub diff_column : String → ColumnBlueprint → ColumnBlueprint → List MigrationOp
diff_column in_table desired current =
    let same_type = desired.data_type == current.data_type in
    let same_nullable = bool_eq desired.nullable current.nullable in
    let same_default = text_eq desired.default_value current.default_value in
    if same_type && (same_nullable && same_default)
    then []
    else alter_column in_table desired.name (new_if_differs same_type desired.data_type)
        (new_if_differs same_nullable desired.nullable)
        (new_if_differs same_default desired.default_value)
      ∷ []

-- `iter().map(|c| (c.name.clone(), c)).collect()`.
unfoldable pub by_name : Dict ColumnBlueprint → List ColumnBlueprint → Dict ColumnBlueprint
by_name acc [] = acc
by_name acc (c ∷ cs) = by_name (insert c.name c acc) cs

abbrev pub column_ops : String → ColumnBlueprint → Option ColumnBlueprint → List MigrationOp
column_ops in_table desired none = add_column in_table desired ∷ []
column_ops in_table desired (some current) = diff_column in_table desired current

-- The loop over the desired columns: its operations, and the current columns that it leaves.
unfoldable pub diff_columns :
    String → Dict ColumnBlueprint → List ColumnBlueprint → List MigrationOp × Dict ColumnBlueprint
unfolding diff_column
diff_columns in_table current [] = ([], current)
diff_columns in_table current (d ∷ ds) =
    let (ops, left) = diff_columns in_table (remove d.name current) ds in
    (column_ops in_table d (lookup d.name current) ++ ops, left)

unfoldable pub drop_columns : String → Dict ColumnBlueprint → List MigrationOp
drop_columns in_table [] = []
drop_columns in_table ((column, c) ∷ rest) =
    drop_column in_table column ∷ drop_columns in_table rest

-- The references of the current columns, by column.
unfoldable pub references_by_name : Dict String → List ColumnBlueprint → Dict String
references_by_name acc [] = acc
references_by_name acc (c ∷ cs) =
    references_by_name (elim c.references [ none ↦ acc | some target ↦ insert c.name target acc ])
      cs

abbrev pub foreign_key_ops : String → String → String → Option String → List MigrationOp
foreign_key_ops in_table column target none = add_foreign_key in_table column target ∷ []
foreign_key_ops in_table column target (some existing) =
    if existing == target then [] else add_foreign_key in_table column target ∷ []

unfoldable pub drop_foreign_keys : String → Dict String → List MigrationOp
drop_foreign_keys in_table [] = []
drop_foreign_keys in_table ((column, target) ∷ rest) =
    drop_foreign_key in_table column ∷ drop_foreign_keys in_table rest

-- The loop over the references of the desired columns, and the keys that are dropped after it.
unfoldable pub diff_foreign_keys : String → Dict String → List ColumnBlueprint → List MigrationOp
unfolding drop_foreign_keys
diff_foreign_keys in_table current [] = drop_foreign_keys in_table current
diff_foreign_keys in_table current (d ∷ ds) = elim d.references [
  | none ↦ diff_foreign_keys in_table current ds
  | some target ↦
      foreign_key_ops in_table d.name target (lookup d.name current)
      ++ diff_foreign_keys in_table (remove d.name current) ds
]

unfoldable pub diff_same_kind : TableBlueprint → TableBlueprint → List MigrationOp
unfolding diff_columns drop_columns diff_foreign_keys by_name references_by_name
diff_same_kind desired current =
    let (ops, left) = diff_columns desired.name (by_name [] current.columns) desired.columns in
    ops
    ++ (drop_columns desired.name left
        ++ diff_foreign_keys desired.name (references_by_name [] current.columns) desired.columns)

unfoldable pub diff_table : TableBlueprint → TableBlueprint → List MigrationOp
unfolding diff_same_kind
diff_table desired current =
    if kind_eq desired.kind current.kind
    then diff_same_kind desired current
    else drop_table current.name ∷ create_table desired ∷ []

-- `current_tables`: the tables by name.
unfoldable pub tables_by_name : Dict TableBlueprint → List TableBlueprint → Dict TableBlueprint
tables_by_name acc [] = acc
tables_by_name acc (t ∷ ts) = tables_by_name (insert t.name t acc) ts

unfoldable pub drop_tables : Dict TableBlueprint → List MigrationOp
drop_tables [] = []
drop_tables ((name, t) ∷ rest) = drop_table name ∷ drop_tables rest

abbrev pub table_ops : TableBlueprint → Option TableBlueprint → List MigrationOp
table_ops desired none = create_table desired ∷ []
table_ops desired (some current) = diff_table desired current

-- The loop over the desired tables, and the tables that are dropped after it.
unfoldable pub diff_tables : Dict TableBlueprint → List TableBlueprint → List MigrationOp
unfolding diff_table drop_tables
diff_tables current [] = drop_tables current
diff_tables current (d ∷ ds) =
    table_ops d (lookup d.name current) ++ diff_tables (remove d.name current) ds

pub record DatabaseBlueprint : Type 0 where
  pub engine : DbEngine
  pub tables : List TableBlueprint

pub record SchemaMigrationPlan : Type 0 where
  pub engine : DbEngine
  pub operations : List MigrationOp

unfoldable pub diff : DatabaseBlueprint → DatabaseBlueprint → SchemaMigrationPlan
unfolding diff_tables tables_by_name
diff desired current = record {
  engine = desired.engine;
  operations = diff_tables (tables_by_name [] current.tables) desired.tables;
}

-- ===== src/Services/Schema/Tests.antt =====
-- Runs of the schema's diff, and its theorem at a concrete table.
use fenrir.Prelude.{
  ◌≡◌, refl, String, true, false, Option, none, some, List, [], ◌∷◌, map, all, ◌&&◌, ◌||◌,
}
use fenrir.Prelude.Dict.{Dict, lookup, insert, remove}
use fenrir.Services.Schema.{
  ColumnBlueprint, TableBlueprint, DbTableKind, add_column, drop_column, alter_column,
  SchemaMigrationPlan, postgres, add_foreign_key, diff_table,
}
use fenrir.Services.Schema.Columns.{Shape, shape}
use fenrir.Prelude.Exec.{err}
use fenrir.Services.Schema.Sql.{foreign_parts}
use fenrir.Services.Schema.Planner.{PlanOptions, drop_column_requires_force, plan_to_sql}
use fenrir.Services.Schema.Planner.Guard.{is_ok, is_planned, plan_to_sql-ok}

abbrev column : String → String → Option String → ColumnBlueprint
column name data_type references = record {
  name = name;
  data_type = data_type;
  nullable = false;
  default_value = none;
  is_primary = false;
  references = references;
}

abbrev orders : List ColumnBlueprint → TableBlueprint
orders columns = record { name = "orders"; columns = columns; kind = DbTableKind.table }

abbrev before : TableBlueprint
before = orders (
    column "id" "int" none ∷ column "old" "text" none ∷ column "user" "int" (some "users(id)") ∷ [])

abbrev after : TableBlueprint
after = orders (
    column "id" "bigint" none
    ∷ column "new" "text" none
    ∷ column "user" "int" (some "accounts(id)")
    ∷ [])

-- A reference that changes its target is added, and the old one is not dropped.
orders_diff : diff_table after before ≡ (
    alter_column "orders" "id" (some "bigint") none none
    ∷ add_column "orders" (column "new" "text" none)
    ∷ drop_column "orders" "old"
    ∷ add_foreign_key "orders" "user" "accounts(id)"
    ∷ [])
unfolding diff_table lookup insert remove
orders_diff = refl

abbrev database : Dict Shape
database = map (λ c. (c.name, shape c)) before.columns

abbrev migration : SchemaMigrationPlan
migration = record { engine = postgres; operations = drop_column "orders" "old" ∷ [] }

abbrev careful : PlanOptions
careful = record { force = false; dry_run = false }

drop_is_refused :
    plan_to_sql migration careful (err "no file") ≡ err (drop_column_requires_force "orders" "old")
unfolding plan_to_sql
drop_is_refused = refl

plan_to_sql-ok_example :
    is_ok (plan_to_sql migration careful (err "no file"))
    ≡ all (is_planned postgres careful) migration.operations && (true || false)
plan_to_sql-ok_example = plan_to_sql-ok migration careful (err "no file")

-- Of two columns with one target the first gets both foreign keys, and the second none.
keys_of_first :
    foreign_parts
      (column "buyer" "int" (some "users(id)") ∷ column "seller" "int" (some "users(id)") ∷ [])
      (column "buyer" "int" (some "users(id)") ∷ column "seller" "int" (some "users(id)") ∷ [])
    ≡ ("FOREIGN KEY (\"buyer\") REFERENCES users(id)"
        ∷ "FOREIGN KEY (\"buyer\") REFERENCES users(id)" ∷ [])
unfolding foreign_parts
keys_of_first = refl

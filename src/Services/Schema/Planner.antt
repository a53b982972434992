-- ===== src/Services/Schema/Planner.antt =====
-- infra/db/migrations/planner.rs: the statements of a migration plan. The path of a dry run and
-- whether its file could be written are arguments.
pub mod Guard
use fenrir.Prelude.{
  String, Bool, true, false, not, Option, none, some, List, [], ◌∷◌, ◌++◌, map, if◌then◌else◌, keep,
}
use fenrir.Prelude.Exec.{Result, ok, err}
use fenrir.Services.Schema.{
  ColumnBlueprint, TableBlueprint, MigrationOp, SchemaMigrationPlan, DbEngine, postgres, mysql,
  sqlite, mongodb, create_table, drop_table, add_column, drop_column, alter_column, add_foreign_key,
  drop_foreign_key,
}
use fenrir.Services.Schema.Sql

pub record PlanOptions : Type 0 where
  pub force : Bool
  pub dry_run : Bool

pub record PlannedSql : Type 0 where
  pub statements : List String
  pub path : Option String

-- The messages of `anyhow!`.
pub data PlannerError : Type 0 where
  drop_table_requires_force : String → PlannerError
  drop_column_requires_force : String → String → PlannerError
  not_implemented : DbEngine → PlannerError
  io : String → PlannerError

abbrev pub Planned : Type 0
Planned = Result PlannerError (List String)

abbrev pub forced : Bool → PlannerError → List String → Planned
forced force refusal statements = if force then ok statements else err refusal

abbrev pub some_change {ℓ} : {A : Type ℓ} → Option A → (A → String) → List String
some_change none text = []
some_change (some a) text = text a ∷ []

unfoldable pub map_pg : MigrationOp → PlanOptions → Planned
unfolding Sql.column_def Sql.foreign_parts Sql.joined
map_pg (create_table t) opts =
    let primary = map (λ c. Sql.quoted c.name) (keep (λ c. c.is_primary) t.columns) in
    ok (
      Sql.create_with t.name (
        map Sql.column_def t.columns
        ++ (Sql.primary_part primary ++ Sql.foreign_parts t.columns t.columns))
      ∷ [])
map_pg (drop_table name) opts =
    forced opts.force (drop_table_requires_force name) (Sql.drop_table_text name ∷ [])
map_pg (add_column in_table c) opts = ok (Sql.pg_add_column in_table c ∷ [])
map_pg (drop_column in_table column) opts =
    forced opts.force (drop_column_requires_force in_table column)
      (Sql.pg_drop_column in_table column ∷ [])
map_pg (alter_column in_table column new_type nullable default_value) opts =
    let statement = Sql.alter_column_text in_table column in
    ok (
      some_change new_type (λ t. statement (Sql.type_change t))
      ++ (some_change nullable (λ n. statement (Sql.nullable_change n))
          ++ some_change default_value (λ d. statement (Sql.default_change d))))
map_pg (add_foreign_key in_table column target) opts =
    ok (Sql.add_key_text in_table column target ∷ [])
map_pg (drop_foreign_key in_table column) opts = ok (Sql.drop_key_text in_table column ∷ [])

unfoldable pub map_sqlite : MigrationOp → PlanOptions → Planned
unfolding Sql.column_def Sql.joined
map_sqlite (create_table t) opts =
    ok (Sql.create_with t.name (map Sql.sqlite_column_def t.columns) ∷ [])
map_sqlite (drop_table name) opts =
    forced opts.force (drop_table_requires_force name) (Sql.drop_table_text name ∷ [])
map_sqlite (add_column in_table c) opts = ok (Sql.sqlite_add_column in_table c ∷ [])
map_sqlite (drop_column in_table column) opts =
    forced opts.force (drop_column_requires_force in_table column)
      (Sql.sqlite_drop_column in_table column ∷ [])
map_sqlite (alter_column in_table column new_type nullable default_value) opts =
    ok ("-- SQLite alter column not supported; requires manual table rebuild" ∷ [])
map_sqlite _ opts = ok ("-- SQLite FK alter not supported post-creation" ∷ [])

abbrev pub map_op : DbEngine → MigrationOp → PlanOptions → Planned
map_op postgres op opts = map_pg op opts
map_op sqlite op opts = map_sqlite op opts
map_op engine op opts = err (not_implemented engine)

-- `stmts.extend(sqls)`.
abbrev pub extended : Planned → Planned → Planned
extended (err e) rest = err e
extended (ok sqls) (err e) = err e
extended (ok sqls) (ok rest) = ok (sqls ++ rest)

-- The loop over the operations.
unfoldable pub statements_of : DbEngine → List MigrationOp → PlanOptions → Planned
unfolding map_pg map_sqlite
statements_of engine [] opts = ok []
statements_of engine (op ∷ ops) opts =
    let rest = statements_of engine ops opts in extended (map_op engine op opts) rest

-- The file of a dry run; `written` is the path, or the error of writing it.
abbrev pub dry_path : Bool → Result String String → Result PlannerError (Option String)
dry_path false written = ok none
dry_path true (ok path) = ok (some path)
dry_path true (err e) = err (io e)

abbrev pub planned : Planned → Result PlannerError (Option String) → Result PlannerError PlannedSql
planned (err e) path = err e
planned (ok statements) (err e) = err e
planned (ok statements) (ok path) = ok (record { statements = statements; path = path })

unfoldable pub plan_to_sql :
    SchemaMigrationPlan → PlanOptions → Result String String → Result PlannerError PlannedSql
unfolding statements_of
plan_to_sql plan opts written =
    planned (statements_of plan.engine plan.operations opts) (dry_path opts.dry_run written)

-- ===== src/Services/Schema/Planner/Guard.antt =====
-- Which plans become statements (infra/db/migrations/planner.rs).
use fenrir.Prelude.{
  ◌≡◌, refl, String, Bool, true, false, not, ◌&&◌, ◌||◌, Option, List, [], ◌∷◌, all, arith,
}
use fenrir.Prelude.Exec.{Result, ok, err}
use fenrir.Services.Schema.{
  MigrationOp, SchemaMigrationPlan, DbEngine, postgres, mysql, sqlite, mongodb, drop_table,
  drop_column,
}
use fenrir.Services.Schema.Planner.{
  PlanOptions, PlannerError, Planned, map_pg, map_sqlite, map_op, extended, statements_of, dry_path,
  planned, plan_to_sql,
}

abbrev pub is_ok {ℓ κ} : {E : Type ℓ} {A : Type κ} → Result E A → Bool
is_ok (ok a) = true
is_ok (err e) = false

-- The operation loses data.
abbrev pub is_drop : MigrationOp → Bool
is_drop (drop_table name) = true
is_drop (drop_column in_table column) = true
is_drop _ = false

abbrev pub is_supported : DbEngine → Bool
is_supported postgres = true
is_supported sqlite = true
is_supported _ = false

map_pg-ok :
    (op : MigrationOp) (opts : PlanOptions)
    → is_ok (map_pg op opts) ≡ opts.force || not (is_drop op)
unfolding map_pg
map_pg-ok op opts = ground arith

map_sqlite-ok :
    (op : MigrationOp) (opts : PlanOptions)
    → is_ok (map_sqlite op opts) ≡ opts.force || not (is_drop op)
unfolding map_sqlite
map_sqlite-ok op opts = ground arith

-- The engine has a planner, and the operation drops nothing unless that is forced.
abbrev pub is_planned : DbEngine → PlanOptions → MigrationOp → Bool
is_planned engine opts op = is_supported engine && (opts.force || not (is_drop op))

map_op-ok :
    (engine : DbEngine) (op : MigrationOp) (opts : PlanOptions)
    → is_ok (map_op engine op opts) ≡ is_planned engine opts op
map_op-ok postgres op opts = map_pg-ok op opts
map_op-ok sqlite op opts = map_sqlite-ok op opts
map_op-ok mysql op opts = refl
map_op-ok mongodb op opts = refl

extended-ok : (sqls rest : Planned) → is_ok (extended sqls rest) ≡ is_ok sqls && is_ok rest
extended-ok (ok sqls) (ok rest) = refl
extended-ok (ok sqls) (err e) = refl
extended-ok (err e) rest = refl

statements_of-ok :
    (engine : DbEngine) (ops : List MigrationOp) (opts : PlanOptions)
    → is_ok (statements_of engine ops opts) ≡ all (is_planned engine opts) ops
unfolding statements_of
statements_of-ok engine [] opts = refl
statements_of-ok engine (op ∷ ops) opts =
    rw
      (
        extended-ok (map_op engine op opts) (statements_of engine ops opts),
        map_op-ok engine op opts,
        statements_of-ok engine ops opts,
      )
      refl

planned-ok :
    (statements : Planned) (path : Result PlannerError (Option String))
    → is_ok (planned statements path) ≡ is_ok statements && is_ok path
planned-ok (ok statements) (ok path) = refl
planned-ok (ok statements) (err e) = refl
planned-ok (err e) path = refl

dry_path-ok :
    (dry_run : Bool) (written : Result String String)
    → is_ok (dry_path dry_run written) ≡ not dry_run || is_ok written
dry_path-ok false written = refl
dry_path-ok true (ok path) = refl
dry_path-ok true (err e) = refl

-- A plan becomes statements exactly when each operation has an engine with a planner and drops no
-- table and no column unless that is forced, and the file of a dry run can be written.
pub plan_to_sql-ok :
    (plan : SchemaMigrationPlan) (opts : PlanOptions) (written : Result String String)
    → is_ok (plan_to_sql plan opts written)
      ≡ all (is_planned plan.engine opts) plan.operations && (not opts.dry_run || is_ok written)
unfolding plan_to_sql
plan_to_sql-ok plan opts written =
    rw
      (
        planned-ok (statements_of plan.engine plan.operations opts) (dry_path opts.dry_run written),
        statements_of-ok plan.engine plan.operations opts,
        dry_path-ok opts.dry_run written,
      )
      refl

-- ===== src/Depot/Install.antt =====
-- services/depot/installer.rs: how a prepared plan is carried out, and undone where it fails. The
-- progress lines are left out, and the lists of texts for the operator hold what they are made from.
pub mod Bundles
pub mod Record
pub mod Apply
pub mod Restore
pub mod Backup
pub mod Kept
pub mod Rollback
pub mod Undo
pub mod Restored
pub mod Applied
pub mod BackedUp
pub mod Files
pub mod Safety
pub mod Failure
pub mod Success
pub mod RoundTrip
pub mod Overrides
mod Desk
mod Tests
use fenrir.Prelude.{
  ℕ, String, Bool, true, false, ◌||◌, Option, none, some, List, [], ◌∷◌, map, if◌then◌else◌, keep,
}
use fenrir.Prelude.Exec.{
  Exec, Result, ok, err, pure, raise, ◌>>=◌, ◌>>◌, map_err, ignoring, from_result,
}
use fenrir.Prelude.Dict.{Dict, lookup}
use fenrir.Depot.Protocol.{DepotProtocol}
use fenrir.Depot.State.{HostState, BackedUpModule, BackupModule, BackupRecord, TargetModule}
use fenrir.Depot.Plan.{
  Action, remove, Restart, restart, stop, rolling, PlanEntry, Plan, Title, changed,
}
use fenrir.Depot.Machine.{
  Machine, Manifest, Bundle, DepotError, refused, io, installing, Message, plain, shown, at_path,
  backup_failed, incomparable, no_bundle, plan_problems, FilePath, backup_file, LockFailure, held,
  failed, other_operation,
}
use Bundles.{StagedBundle, load_bundle, restore_bundles, archive_name}
use Record.{Intent, Prepared, Stamps, after_id, record_state, cached, Outcome, backup_name}
use Apply.{Host, apply, is_empty}
use Restore.{restore}
use Backup.{Install, backup_all}

module _ (D : DepotProtocol) (M : Machine D) where
  -- The errors of files.
  abbrev pub files : {A : Type 0} → Exec M.World String A → Install D M A
  files m = map_err (λ e. io (plain e)) m

  abbrev pub lock_error : LockFailure → DepotError D
  lock_error held = refused other_operation
  lock_error (failed e) = io (plain e)

  -- Every bundle once more, before anything changes.
  unfoldable pub check_staged : Dict (StagedBundle D) → Install D M (Unit {0})
  unfolding load_bundle
  check_staged [] = pure tt
  check_staged ((name, staged) ∷ rest) = do load_bundle D M staged; check_staged rest

  -- The automatic rollback: the error says whether it was completed.
  abbrev pub rolled_back :
      Message D
      → Result (Message D) (Unit {0}) × M.World
      → Result (DepotError D) (String × List String) × M.World
  rolled_back message (ok _, w) = (err (installing message true), w)
  rolled_back message (err _, w) = (err (installing message false), w)

  unfoldable pub settle :
      String
      → List (BackupModule D)
      → Result (Message D) (List String) × M.World
      → Result (DepotError D) (String × List String) × M.World
  unfolding restore
  settle name modules (ok applied, w) = (ok (name, applied), w)
  settle name modules (err message, w) = rolled_back message (restore D M name modules w)

  -- The part of `execute` that changes modules: the backup's name and the applied migrations.
  unfoldable pub change_modules :
      Prepared D → Stamps → HostState D → Install D M (String × List String)
  unfolding apply settle backup_all check_staged
  change_modules prepared stamps state = do
    let name = backup_name D stamps prepared.plan.title
    check_staged prepared.staged
    files (M.create_backup_dir name)
    modules ← backup_all D M name (changed D prepared.plan)
    files (M.save_backup name (Record.backup_record D prepared stamps state modules))
    (λ w. settle name modules (apply D M prepared.staged (changed D prepared.plan) w))

  abbrev pub change_if_any :
      List (PlanEntry D)
      → Prepared D
      → Stamps
      → HostState D
      → Install D M (Option String × List String)
  change_if_any [] prepared stamps state = pure (none, [])
  change_if_any (e ∷ es) prepared stamps state = do
    (name, applied) ← change_modules prepared stamps state
    pure (some name, applied)

  -- The record of a success.
  abbrev pub finish :
      Prepared D
      → HostState D
      → Option String × List String
      → HostState D × Option String
      → Install D M (Outcome D)
  finish prepared before kept recorded = do
    files (M.save recorded.0)
    files (M.prune_backups recorded.0.backup)
    (λ w.
        pure
          (record {
            title = prepared.plan.title;
            changed = changed D prepared.plan;
            migrations = kept.1;
            backup = recorded.1;
          })
          (M.prune_cache (cached D recorded.0) w))

  -- What `execute` does under the lock.
  unfoldable pub execute_locked : Prepared D → Stamps → Install D M (Outcome D)
  unfolding change_modules record_state
  execute_locked prepared stamps = do
    state ← files M.load
    kept ← change_if_any (changed D prepared.plan) prepared stamps state
    finish prepared state kept (record_state D prepared stamps state kept.0)

  -- `Lock::take`, and its `drop` at the end of the scope.
  abbrev pub with_lock : {A : Type 0} → Install D M A → Install D M A
  with_lock m = map_err lock_error M.take_lock >> (λ w. let (r, v) = m w in (r, M.drop_lock v))

  unfoldable pub execute : Prepared D → Stamps → Install D M (Outcome D)
  unfolding execute_locked
  execute prepared stamps =
      if is_empty prepared.plan.problems
      then with_lock (execute_locked prepared stamps)
      else raise (refused (plan_problems prepared.plan.problems))

  -- `update_state`: a change of the host's state under the lock.
  unfoldable pub update_state :
      {A : Type 0} → (HostState D → Result (DepotError D) (A × HostState D)) → Install D M A
  update_state change = with_lock (do
    state ← files M.load
    (result, changed_state) ← from_result (change state)
    files (M.save changed_state)
    pure result)

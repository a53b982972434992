-- ===== src/Depot/Plan/Single/Undo.antt =====
-- What a rollback brings back (services/depot/plan.rs).
use mathlib.Core.List.{Perm}
use mathlib.Core.List.Perm
use mathlib.Core.Path.{subst, ap₂}
use fenrir.Prelude.{String, ◌≡◌, refl, Option, none, some, List, [], ◌∷◌, map, arith}
use fenrir.Prelude.Sort.{sort_by, sort_by-perm}
use fenrir.Depot.Protocol.{DepotProtocol}
use fenrir.Depot.State.{HostModule, BackupModule, BackedUpModule, BackupRecord}
use fenrir.Depot.Plan.{PlanEntry, compare_entries}
use fenrir.Depot.Plan.Single.{restore_entry, plan_restore}

module _ (D : DepotProtocol) where
  -- The version that a backup holds of a module: none where the change had brought it.
  abbrev pub version_before : Option (BackedUpModule D) → Option D.Version
  version_before none = none
  version_before (some backed) = some backed.version

  abbrev pub outcome : PlanEntry D → String × Option D.Version
  outcome e = (e.module_name, e.target)

  abbrev pub before : BackupModule D → String × Option D.Version
  before b = (b.module_name, version_before b.previous)

  restore-before :
      (installed : List (HostModule D)) (b : BackupModule D)
      → outcome (restore_entry D installed b) ≡ before b
  unfolding restore_entry
  restore-before installed b = ground arith

  restore_targets :
      (installed : List (HostModule D)) (bs : List (BackupModule D))
      → map outcome (map (restore_entry D installed) bs) ≡ map before bs
  restore_targets installed [] = refl
  restore_targets installed (b ∷ bs) =
      ap₂ (λ x xs. x ∷ xs) (restore-before installed b) (restore_targets installed bs)

  -- A rollback plans, up to order and whatever is installed now, for each module of the backup the
  -- version that it had before, or its removal where it was not there before, and nothing else.
  pub plan_restore-perm :
      (title : String) (backup : BackupRecord D) (installed : List (HostModule D))
      → Perm
          (map outcome (plan_restore D title backup installed).entries)
          (map before backup.modules)
  unfolding plan_restore
  plan_restore-perm title backup installed =
      subst
        (Perm (
          map outcome
            (sort_by (compare_entries D) (map (restore_entry D installed) backup.modules))))
        (restore_targets installed backup.modules)
        (Perm.map outcome (sort_by-perm (compare_entries D) _))

-- ===== src/Depot/Install/Restore.antt =====
-- The automatic rollback (`restore` of services/depot/installer.rs).
use fenrir.Prelude.{String, Option, none, some, List, [], ◌∷◌}
use fenrir.Prelude.Exec.{pure, ◌>>=◌, ◌>>◌, map_err, ignoring}
use fenrir.Prelude.Dict.{Dict, lookup}
use fenrir.Depot.Protocol.{DepotProtocol}
use fenrir.Depot.State.{BackupModule}
use fenrir.Depot.Machine.{Machine, shown}
use fenrir.Depot.Install.Bundles.{StagedBundle, load_bundle, restore_bundles}
use fenrir.Depot.Install.Apply.{Host, host, and_started, wait_all}

module _ (D : DepotProtocol) (M : Machine D) where
  unfoldable pub stop_all : List (BackupModule D) → Host D M (Unit {0})
  stop_all [] = pure tt
  stop_all (b ∷ bs) = do ignoring (M.stop b.module_name); stop_all bs

  -- One entry of the loop of `restore`: the module, if it is to be started.
  unfoldable pub restore_module : String → Option (StagedBundle D) → Host D M (Option String)
  unfolding load_bundle
  restore_module name none = host D M (M.remove name) >> pure none
  restore_module name (some staged) = do
    bundle ← map_err shown (load_bundle D M staged)
    host D M (M.activate bundle)
    pure (some name)

  unfoldable pub restore_modules :
      Dict (StagedBundle D) → List (BackupModule D) → Host D M (List String)
  unfolding restore_module
  restore_modules staged [] = pure []
  restore_modules staged (b ∷ bs) = do
    one ← restore_module b.module_name (lookup b.module_name staged)
    started ← restore_modules staged bs
    pure (and_started one started)

  unfoldable pub restore : String → List (BackupModule D) → Host D M (Unit {0})
  unfolding stop_all restore_modules wait_all restore_bundles
  restore name modules = do
    staged ← map_err shown (restore_bundles D M name [] modules)
    stop_all modules
    started ← restore_modules staged modules
    host D M (M.start started)
    wait_all D M started

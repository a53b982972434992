-- ===== src/Depot/Install/RoundTrip.antt =====
-- A backup and its restoration, one after the other (services/depot/installer.rs).
use fenrir.Prelude.{◌≡◌, ◌≢◌, refl, sym, subst, String, List, All}
use fenrir.Prelude.Exec.{ok}
use fenrir.Depot.Protocol.{DepotProtocol}
use fenrir.Depot.State.{BackupModule}
use fenrir.Depot.Plan.{PlanEntry}
use fenrir.Depot.Machine.{Machine, FilePath, Contract}
use fenrir.Depot.Install.Restore.{restore}
use fenrir.Depot.Install.Backup.{backup_all}
use fenrir.Depot.Install.Rollback.{AreApart}
use fenrir.Depot.Install.Restored.{restore-contents}
use fenrir.Depot.Install.Applied.{modules_of}
use fenrir.Depot.Install.BackedUp.{backup_all-Faithful}

module _ (D : DepotProtocol) (M : Machine D) (C : Contract D M) (backup : String)
    (es : List (PlanEntry D)) (w : M.World) where
  -- A restoration that is completed undoes all that was done to the modules of a backup since it
  -- was made, where no two of them have one name, the other modules are as they were at the backup,
  -- and the files are as they were after it.
  pub backup_all-restore :
      AreApart (modules_of D es)
      → (bs : List (BackupModule D)) → (backup_all D M backup es w).0 ≡ ok bs
      → (u : M.World)
      → ((path : FilePath) → M.file u path ≡ M.file (backup_all D M backup es w).1 path)
      → ((id : String) → All (λ b. id ≢ b.module_name) bs → M.contents u id ≡ M.contents w id)
      → (restore D M backup bs u).0 ≡ ok tt
      → (id : String) → M.contents (restore D M backup bs u).1 id ≡ M.contents w id
  backup_all-restore apart bs backed u files others restored =
      let held = (backup_all-Faithful D M C w backup es apart).holds w (λ id. refl) bs backed in
      (restore-contents D M C backup w (M.file (backup_all D M backup es w).1) bs
          (subst AreApart (sym held.0) apart) held.1).holds
        u (files, others) tt restored

-- ===== src/Depot/Install/Backup.antt =====
-- The backup of the modules that a plan changes (services/depot/installer.rs and versions.rs).
use fenrir.Prelude.{String, Bool, true, false, Option, none, some, List, [], ◌∷◌}
use fenrir.Prelude.Exec.{Exec, Result, ok, err, pure, ◌>>=◌, map_err, from_result}
use fenrir.Depot.Protocol.{DepotProtocol}
use fenrir.Depot.State.{BackedUpModule, BackupModule}
use fenrir.Depot.Plan.{PlanEntry}
use fenrir.Depot.Machine.{
  Machine, Manifest, DepotError, refused, io, Message, at_path, backup_failed, incomparable,
  FilePath, backup_file,
}
use fenrir.Depot.Install.Bundles.{archive_name}

module _ (D : DepotProtocol) (M : Machine D) where
  abbrev pub Install : Type 0 → Type 0
  Install A = Exec M.World (DepotError D) A

  -- `versions::installed` of services/depot/versions.rs.
  abbrev pub installed_version :
      String → D.SemverVersion → Bool → Option D.Version → Result (Message D) D.Version
  installed_version name version local_sync (some parsed) = ok parsed
  installed_version name version true none = ok (D.core_version version)
  installed_version name version false none = err (incomparable name version)

  abbrev pub refuse : {A : Type 0} → Result (Message D) A → Install A
  refuse r = map_err refused (from_result r)

  -- What is recorded of a module that was installed.
  abbrev pub backed_up :
      String → FilePath → Option (Manifest D) → Install (Option (BackedUpModule D))
  backed_up name path none = pure none
  backed_up name path (some manifest) = do
    bytes ← map_err (λ e. io (at_path path e)) (M.read path)
    version ←
        refuse (installed_version name manifest.version false (D.parse_version manifest.version))
    pure (
        some (record {
          version = version;
          archive = archive_name name;
          archive_sha256 = D.to_hex (D.digest_of bytes);
          manifest = manifest;
        }))

  unfoldable pub backup_module : String → String → Install (Option (BackedUpModule D))
  backup_module backup name = do
    let path = backup_file backup (archive_name name)
    manifest ← map_err (λ e. io (backup_failed name e)) (M.backup name path)
    backed_up name path manifest

  unfoldable pub backup_all : String → List (PlanEntry D) → Install (List (BackupModule D))
  unfolding backup_module
  backup_all backup [] = pure []
  backup_all backup (e ∷ es) = do
    previous ← backup_module backup e.module_name
    rest ← backup_all backup es
    pure (record { module_name = e.module_name; previous = previous } ∷ rest)

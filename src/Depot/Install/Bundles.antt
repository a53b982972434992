-- ===== src/Depot/Install/Bundles.antt =====
-- The bundles on the disk (services/depot/installer.rs and blob.rs).
use Prim.Native.String.{◌++◌}
use fenrir.Prelude.{
  ℕ, String, Option, none, some, List, [], ◌∷◌, if◌then◌else◌, ◌==◌, length, min, u64_max,
}
use fenrir.Prelude.Exec.{Exec, Result, ok, err, pure, raise, ◌>>=◌, ◌>>◌, map_err, from_result}
use fenrir.Prelude.Dict.{Dict, insert}
use fenrir.Depot.Protocol.{DepotProtocol}
use fenrir.Depot.State.{BackedUpModule, BackupModule}
use fenrir.Depot.Machine.{
  Machine, Manifest, Bundle, DepotError, bundle, io, at_path, bad_digest, blob_length, mismatch,
  FilePath, backup_file,
}

-- `format!("{}.tar.gz", entry.module)`.
unfoldable pub archive_name : String → String
archive_name name = name ++ ".tar.gz"

module _ (D : DepotProtocol) where
  pub record StagedBundle : Type 0 where
    pub manifest : Manifest D
    pub path : FilePath
    pub sha256 : D.Digest
    pub size : ℕ

  -- `check_bytes`.
  unfoldable pub check_bytes : List ℕ → D.Digest → ℕ → Result (DepotError D) (Unit {0})
  check_bytes bytes digest size =
      if min (length bytes) u64_max == size
      then (if D.digest_eq (D.digest_of bytes) digest
          then ok tt
          else err (bundle (mismatch digest (D.digest_of bytes))))
      else err (bundle (blob_length digest (min (length bytes) u64_max) size))

  module _ (M : Machine D) where
    -- Reads a staged bundle and checks it once more right before use.
    unfoldable pub load_bundle : StagedBundle → Exec M.World (DepotError D) (Bundle D)
    unfolding check_bytes
    load_bundle staged = do
      bytes ← map_err (λ e. io (at_path staged.path e)) (M.read staged.path)
      from_result (check_bytes bytes staged.sha256 staged.size)
      pure (record {
        manifest = staged.manifest;
        archive = bytes;
        signature = [];
        checksum = D.as_bytes staged.sha256;
      })

    abbrev pub parsed : String → String → Option D.Digest → Exec M.World (DepotError D) D.Digest
    parsed backup name none = raise (io (bad_digest backup name))
    parsed backup name (some digest) = pure digest

    abbrev pub staged_backup :
        String → String → BackedUpModule D → Exec M.World (DepotError D) StagedBundle
    staged_backup backup name previous = do
      let path = backup_file backup previous.archive
      digest ← parsed backup name (D.parse_digest previous.archive_sha256)
      size ← map_err (λ e. io (at_path path e)) (M.file_size path)
      pure (record { manifest = previous.manifest; path = path; sha256 = digest; size = size })

    -- The bundles of a backup, by module.
    unfoldable pub restore_bundles :
        String
        → Dict StagedBundle
        → List (BackupModule D)
        → Exec M.World (DepotError D) (Dict StagedBundle)
    restore_bundles backup staged [] = pure staged
    restore_bundles backup staged (b ∷ bs) = elim b.previous [
      | none ↦ restore_bundles backup staged bs
      | some previous ↦ do
        one ← staged_backup backup b.module_name previous
        restore_bundles backup (insert b.module_name one staged) bs
    ]

-- ===== src/Depot/Machine.antt =====
-- What the installer works on: the trait `ModuleHost` (services/depot/ports.rs), the files, and the
-- store of services/depot/state.rs. A `World` is all of the machine; `contents` and `file` say what
-- is in it. `Contract` is what the installer relies on: an operation changes no module but the one
-- that it is for, an activation that succeeds leaves the bundle's files, and a backup packs what is
-- installed.
use fenrir.Prelude.{ℕ, ◌≡◌, ◌≢◌, String, Bool, Option, none, some, List}
use fenrir.Prelude.Exec.{Exec, ok, Keeps}
use fenrir.Domain.Manifest.{ModuleManifest, ModuleBundle}
use fenrir.Depot.Protocol.{DepotProtocol}
use fenrir.Depot.State.{HostState, HostModule, BackupRecord}
use fenrir.Depot.Plan.{Problem}

-- The files that the installer reads and writes: a module's archive in a backup, a cached bundle.
pub data FilePath : Type 0 where
  backup_file : String → String → FilePath
  blob : String → FilePath

-- Why the lock is not taken: it is held, or its file cannot be made.
pub data LockFailure : Type 0 where
  held : LockFailure
  failed : String → LockFailure

module _ (D : DepotProtocol) where
  abbrev pub Manifest : Type 0
  Manifest = ModuleManifest D.SemverVersion D.SemverReq

  abbrev pub Bundle : Type 0
  Bundle = ModuleBundle D.SemverVersion D.SemverReq

  -- services/depot/error.rs; the texts are constructors over what they are made from.
  mutual
    pub data DepotError : Type 0 where
      config unreachable protocol not_found verification bundle refused io : Message → DepotError
      api : ℕ → String → String → DepotError
      installing : Message → Bool → DepotError

    pub data Message : Type 0 where
      plain : String → Message
      at_path : FilePath → String → Message
      blob_length : D.Digest → ℕ → ℕ → Message
      mismatch : D.Digest → D.Digest → Message
      shown : DepotError → Message
      backup_failed : String → String → Message
      bad_digest : String → String → Message
      incomparable : String → D.SemverVersion → Message
      no_bundle : String → Message
      plan_problems : List (Problem D) → Message
      other_operation : Message

  pub record Machine : Type 1 where
    pub World : Type 0
    -- A module's files, and those that an archive has.
    pub Tree : Type 0
    pub unpack : List ℕ → Tree
    pub contents : World → String → Option (Manifest × Tree)
    pub file : World → FilePath → Option (List ℕ)
    -- `ModuleHost`
    pub modules : Exec World String (List (HostModule D))
    pub backup : String → FilePath → Exec World String (Option Manifest)
    pub stop : String → Exec World String (Unit {0})
    pub activate : Bundle → Exec World String (Unit {0})
    pub remove : String → Exec World String (Unit {0})
    pub apply_migrations : List String → Exec World String (List String)
    pub start : List String → Exec World String (Unit {0})
    pub rolling_restart : String → Exec World String (Unit {0})
    pub wait_healthy : String → Exec World String (Unit {0})
    -- `fs::read`, `fs::metadata`, `fs::create_dir_all`
    pub read : FilePath → Exec World String (List ℕ)
    pub file_size : FilePath → Exec World String ℕ
    pub create_backup_dir : String → Exec World String (Unit {0})
    -- the lock file, and its removal
    pub take_lock : Exec World LockFailure (Unit {0})
    pub drop_lock : World → World
    -- `StateStore`, whose errors are all of files, and the cache that is pruned
    pub load : Exec World String (HostState D)
    pub save : HostState D → Exec World String (Unit {0})
    pub save_backup : String → BackupRecord D → Exec World String (Unit {0})
    pub prune_backups : Option String → Exec World String (Unit {0})
    pub prune_cache : List String → World → World

module _ (D : DepotProtocol) (M : Machine D) where
  -- Neither a module's files nor another file of the installer changes.
  abbrev pub Same : M.World → M.World → Type 0
  Same w v =
      ((id : String) → M.contents v id ≡ M.contents w id)
      × ((path : FilePath) → M.file v path ≡ M.file w path)

  -- The same, but for one module.
  abbrev pub SameBut : String → M.World → M.World → Type 0
  SameBut id w v =
      ((other : String) → other ≢ id → M.contents v other ≡ M.contents w other)
      × ((path : FilePath) → M.file v path ≡ M.file w path)

  pub record Contract : Type 0 where
    pub stop-Keeps : (id : String) → Keeps Same (M.stop id)
    pub start-Keeps : (ids : List String) → Keeps Same (M.start ids)
    pub apply_migrations-Keeps : (ids : List String) → Keeps Same (M.apply_migrations ids)
    pub rolling_restart-Keeps : (id : String) → Keeps Same (M.rolling_restart id)
    pub wait_healthy-Keeps : (id : String) → Keeps Same (M.wait_healthy id)
    pub read-Keeps : (path : FilePath) → Keeps Same (M.read path)
    pub file_size-Keeps : (path : FilePath) → Keeps Same (M.file_size path)
    pub create_backup_dir-Keeps : (name : String) → Keeps Same (M.create_backup_dir name)
    pub take_lock-Keeps : Keeps Same M.take_lock
    pub drop_lock-Same : (w : M.World) → Same w (M.drop_lock w)
    pub load-Keeps : Keeps Same M.load
    pub save_backup-Keeps : (name : String) (r : BackupRecord D) → Keeps Same (M.save_backup name r)
    -- What is read is what the file holds.
    pub read_lem :
        (path : FilePath) (w : M.World) (bytes : List ℕ)
        → (M.read path w).0 ≡ ok bytes
        → M.file w path ≡ some bytes
    -- A backup writes the one file, and packages what is installed.
    pub backup-contents :
        (id : String) (path : FilePath) (w : M.World) (other : String)
        → M.contents (M.backup id path w).1 other ≡ M.contents w other
    pub backup-file :
        (id : String) (path other : FilePath) (w : M.World)
        → other ≢ path
        → M.file (M.backup id path w).1 other ≡ M.file w other
    pub backup_none :
        (id : String) (path : FilePath) (w : M.World)
        → (M.backup id path w).0 ≡ ok none
        → M.contents w id ≡ none
    pub backup_some :
        (id : String) (path : FilePath) (w : M.World) (manifest : Manifest D)
        → (M.backup id path w).0 ≡ ok (some manifest)
        → (manifest.id ≡ id)
          × ((bytes : List ℕ)
              → M.file (M.backup id path w).1 path ≡ some bytes
              → M.contents w id ≡ some (manifest, M.unpack bytes))
    -- An activation replaces the files of the bundle's module.
    pub activate-SameBut : (b : Bundle D) (w : M.World) → SameBut b.manifest.id w (M.activate b w).1
    pub activate_ok :
        (b : Bundle D) (w : M.World)
        → (M.activate b w).0 ≡ ok tt
        → M.contents (M.activate b w).1 b.manifest.id ≡ some (b.manifest, M.unpack b.archive)
    pub remove-SameBut : (id : String) (w : M.World) → SameBut id w (M.remove id w).1
    pub remove_ok :
        (id : String) (w : M.World)
        → (M.remove id w).0 ≡ ok tt
        → M.contents (M.remove id w).1 id ≡ none
    -- What follows an installation leaves the modules alone.
    pub save-contents :
        (state : HostState D) (w : M.World) (id : String)
        → M.contents (M.save state w).1 id ≡ M.contents w id
    pub prune_backups-contents :
        (kept : Option String) (w : M.World) (id : String)
        → M.contents (M.prune_backups kept w).1 id ≡ M.contents w id
    pub prune_cache-contents :
        (kept : List String) (w : M.World) (id : String)
        → M.contents (M.prune_cache kept w) id ≡ M.contents w id

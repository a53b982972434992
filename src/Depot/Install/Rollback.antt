-- ===== src/Depot/Install/Rollback.antt =====
-- What the automatic rollback brings back (services/depot/installer.rs).
use fenrir.Prelude.{
  ℕ, ◌≡◌, ◌≢◌, refl, sym, ◌∙◌, String, Option, none, some, List, [], ◌∷◌, All, All-imp,
  All-map_back, arith, ap, map,
}
use fenrir.Prelude.Exec.{Exec, ok, Keeps, Returns, map_err-Keeps, >>=-Keeps, pure-Keeps, ◌>>=◌}
use fenrir.Prelude.Exec.Rules.{
  >>=-Returns, pure-Returns, from_result-Returns, map_err-Returns, weaken, Keeps-Returns, both,
  >>=-Keeps_after,
}
use fenrir.Prelude.Dict.{Dict, lookup}
use fenrir.Depot.Protocol.{DepotProtocol}
use fenrir.Depot.State.{BackedUpModule, BackupModule}
use fenrir.Depot.Machine.{Machine, Manifest, Bundle, plain, shown, FilePath, backup_file, Contract}
use fenrir.Depot.Install.Bundles.{StagedBundle, check_bytes, load_bundle, archive_name}
use fenrir.Depot.Install.Restore.{restore_module, restore_modules}
use fenrir.Depot.Install.Kept.{
  At, At-chain, bind, done, on_host, quiet, load_bundle-Keeps, remove-Keeps, activate-Keeps,
}

-- No two of the names are one.
abbrev pub AreApart : List String → Type 0
AreApart [] = Unit
AreApart (n ∷ ns) = All (λ m. n ≢ m) ns × AreApart ns

module _ (D : DepotProtocol) where
  abbrev pub names_of : List (BackupModule D) → List String
  names_of bs = map (λ b. b.module_name) bs

module _ (D : DepotProtocol) (M : Machine D) where
  abbrev pub Files : Type 0
  Files = FilePath → Option (List ℕ)

  abbrev pub HasFiles : Files → M.World → Type 0
  HasFiles files w = (path : FilePath) → M.file w path ≡ files path

  -- The backup has the module as the world has it.
  abbrev pub FaithfulTo : Files → M.World → String → String → Option (BackedUpModule D) → Type 0
  FaithfulTo files w backup name none = M.contents w name ≡ none
  FaithfulTo files w backup name (some p) =
      (p.archive ≡ archive_name name)
      × (p.manifest.id ≡ name)
      × ((bytes : List ℕ)
          → files (backup_file backup p.archive) ≡ some bytes
          → M.contents w name ≡ some (p.manifest, M.unpack bytes))

  abbrev pub Faithful : Files → M.World → String → BackupModule D → Type 0
  Faithful files w backup b = FaithfulTo files w backup b.module_name b.previous

  -- To activate the bundle, or to remove the module, gives it the contents that it has in the world.
  abbrev pub Restores : Files → M.World → String → Option (StagedBundle D) → Type 0
  Restores files w name none = M.contents w name ≡ none
  Restores files w name (some s) =
      (s.manifest.id ≡ name)
      × ((bytes : List ℕ)
          → files s.path ≡ some bytes
          → M.contents w name ≡ some (s.manifest, M.unpack bytes))

  module _ (C : Contract D M) where
    check_bytes-ok :
        (bytes : List ℕ) (digest : D.Digest) (size : ℕ)
        → {u : Unit {0}} → check_bytes D bytes digest size ≡ ok u
        → D.digest_of bytes ≡ digest
    unfolding check_bytes
    check_bytes-ok bytes digest size {u} h = (D.digest_eq_iff _ _).0 (ground arith)

    -- A bundle that is loaded is the file's, under the digest that it is staged with.
    abbrev pub IsLoaded : StagedBundle D → Files → Bundle D → Type 0
    IsLoaded staged files b =
        (b.manifest ≡ staged.manifest)
        × (files staged.path ≡ some b.archive)
        × (D.digest_of b.archive ≡ staged.sha256)

    pub load_bundle-IsLoaded :
        (staged : StagedBundle D) (files : Files)
        → Returns (HasFiles files) (load_bundle D M staged) (λ b _. IsLoaded staged files b)
    unfolding load_bundle
    load_bundle-IsLoaded staged files =
        >>=-Returns (λ bytes _. files staged.path ≡ some bytes)
          (map_err-Returns _ (record {
            holds = λ w before bytes e. sym (before staged.path) ∙ C.read_lem staged.path w bytes e;
          }))
          (λ bytes.
            >>=-Returns
              (λ _ _. (files staged.path ≡ some bytes) × (D.digest_of bytes ≡ staged.sha256))
              (from_result-Returns
                (λ w u of_file e. (of_file, check_bytes-ok bytes staged.sha256 staged.size e)))
              (λ _. pure-Returns (λ w known. (refl, known.0, known.1))))

    -- Whatever is asked of it, a step that keeps the files leaves them as they are.
    keeps_files :
        {E A : Type 0} {m : Exec M.World E A} (id : String) (files : Files)
        → Keeps (At D M C id) m
        → Returns (HasFiles files) m (λ _. HasFiles files)
    keeps_files id files h = Keeps-Returns (λ w v at before path. at.1 path ∙ before path) h

    abbrev pub IsNamed : String → Option (StagedBundle D) → Type 0
    IsNamed name none = Unit
    IsNamed name (some s) = s.manifest.id ≡ name

    pub Restores-IsNamed :
        (files : Files) (w : M.World) (name : String) (found : Option (StagedBundle D))
        → Restores files w name found
        → IsNamed name found
    Restores-IsNamed files w name none h = tt
    Restores-IsNamed files w name (some s) h = h.0

    any_files : (w : M.World) → HasFiles (M.file w) w
    any_files w = λ path. refl

    -- A loaded bundle is its module's.
    pub loads_manifest :
        (staged : StagedBundle D)
        → Returns (λ _. Unit {0}) (load_bundle D M staged) (λ b _. b.manifest ≡ staged.manifest)
    loads_manifest staged = record {
      holds = λ w u b e. ((load_bundle-IsLoaded staged (M.file w)).holds w (any_files w) b e).0;
    }

    pub restore_module-Keeps :
        (id name : String) (found : Option (StagedBundle D))
        → id ≢ name
        → IsNamed name found
        → Keeps (At D M C id) (restore_module D M name found)
    unfolding restore_module
    restore_module-Keeps id name none apart named =
        bind D M C id _ _ (on_host D M C id _ (remove-Keeps D M C id name apart))
          (λ _. done D M C id none)
    restore_module-Keeps id name (some s) apart named =
        >>=-Keeps_after (At D M C id) (At-chain D M C id) (λ b. b.manifest ≡ s.manifest)
          (map_err-Keeps (At D M C id) _ _ (quiet D M C id _ (load_bundle-Keeps D M C s)))
          (map_err-Returns _ (loads_manifest s))
          (λ b same.
            bind D M C id _ _
              (on_host D M C id _ (activate-Keeps D M C id b (rw (same, named) apart)))
              (λ _. done D M C id (some name)))

    pub restore_modules-Keeps :
        (id : String) (staged : Dict (StagedBundle D)) (bs : List (BackupModule D))
        → All (λ b. id ≢ b.module_name) bs
        → All (λ b. IsNamed b.module_name (lookup b.module_name staged)) bs
        → Keeps (At D M C id) (restore_modules D M staged bs)
    unfolding restore_modules
    restore_modules-Keeps id staged [] apart named = done D M C id []
    restore_modules-Keeps id staged (b ∷ bs) apart named =
        bind D M C id _ _ (restore_module-Keeps id b.module_name _ apart.0 named.0) (λ one.
          bind D M C id _ _ (restore_modules-Keeps id staged bs apart.1 named.1)
            (λ started. done D M C id _))

    -- A module that is restored has the contents that it had in the world.
    restore_module-contents :
        (files : Files) (w : M.World) (name : String) (found : Option (StagedBundle D))
        → Restores files w name found
        → Returns
            (HasFiles files)
            (restore_module D M name found)
            (λ _ v. M.contents v name ≡ M.contents w name)
    unfolding restore_module
    restore_module-contents files w name none absent =
        >>=-Returns (λ _ v. M.contents v name ≡ M.contents w name)
          (map_err-Returns _ (record { holds = λ v before u e. C.remove_ok name v e ∙ sym absent }))
          (λ _. pure-Returns (λ v h. h))
    restore_module-contents files w name (some s) (named, held) =
        >>=-Returns (λ b _. IsLoaded s files b) (map_err-Returns _ (load_bundle-IsLoaded s files))
          (λ b.
            >>=-Returns (λ _ v. M.contents v name ≡ M.contents w name)
              (map_err-Returns _
                (record { holds = λ v loaded u e. restored b v loaded (C.activate_ok b v e) }))
              (λ _. pure-Returns (λ v h. h)))
      where
        restored :
            (b : Bundle D) (v : M.World)
            → IsLoaded s files b
            → M.contents (M.activate b v).1 b.manifest.id ≡ some (b.manifest, M.unpack b.archive)
            → M.contents (M.activate b v).1 name ≡ M.contents w name
        restored b v (same, of_file, digest) now =
            cc (held b.archive of_file, ap (λ (m : Manifest D). m.id) same)

    abbrev pub SameFiles : M.World → M.World → Type 0
    SameFiles w v = (path : FilePath) → M.file v path ≡ M.file w path

    SameFiles-chain : (s t u : M.World) → SameFiles s t → SameFiles t u → SameFiles s u
    SameFiles-chain s t u h k = λ path. k path ∙ h path

    pub files_bind :
        {E A B : Type 0} (m : Exec M.World E A) (f : A → Exec M.World E B)
        → Keeps SameFiles m
        → ((a : A) → Keeps SameFiles (f a))
        → Keeps SameFiles (m >>= f)
    files_bind = >>=-Keeps SameFiles SameFiles-chain

    -- Whatever module it is of, a step that changes one module keeps the installer's files.
    pub restore_module-files :
        (name : String) (found : Option (StagedBundle D))
        → Keeps SameFiles (restore_module D M name found)
    unfolding restore_module
    restore_module-files name none =
        files_bind _ _
          (map_err-Keeps SameFiles plain (M.remove name)
            (record { holds = λ w. (C.remove-SameBut name w).1 }))
          (λ _. pure-Keeps SameFiles none (λ w path. refl))
    restore_module-files name (some s) =
        files_bind _ _
          (map_err-Keeps SameFiles shown (load_bundle D M s)
            (record { holds = λ w. ((load_bundle-Keeps D M C s).holds w).1 }))
          (λ b.
            files_bind _ _
              (map_err-Keeps SameFiles plain (M.activate b)
                (record { holds = λ w. (C.activate-SameBut b w).1 }))
              (λ _. pure-Keeps SameFiles (some name) (λ w path. refl)))

    -- The same for all of a backup's modules.
    pub restore_modules-contents :
        (files : Files) (w : M.World) (staged : Dict (StagedBundle D)) (bs : List (BackupModule D))
        → AreApart (names_of D bs)
        → All (λ b. Restores files w b.module_name (lookup b.module_name staged)) bs
        → Returns
            (HasFiles files)
            (restore_modules D M staged bs)
            (λ _ v. All (λ b. M.contents v b.module_name ≡ M.contents w b.module_name) bs)
    unfolding restore_modules
    restore_modules-contents files w staged [] apart restores = pure-Returns (λ v h. tt)
    restore_modules-contents files w staged (b ∷ bs) apart restores =
        let name = b.module_name in
        let named = All-imp _ _ bs (λ c h. Restores-IsNamed files w c.module_name _ h) restores.1 in
        >>=-Returns (λ _ v. (M.contents v name ≡ M.contents w name) × HasFiles files v)
          (both (restore_module-contents files w name _ restores.0) (
            Keeps-Returns (λ u v same before path. same path ∙ before path)
              (restore_module-files name _)))
          (λ one.
            >>=-Returns
              (λ _ v. All (λ c. M.contents v c.module_name ≡ M.contents w c.module_name) (b ∷ bs))
              (both
                (Keeps-Returns (λ u v same before. same.0 ∙ before.0)
                  (restore_modules-Keeps name staged bs
                    (All-map_back (λ m. name ≢ m) (λ c. c.module_name) bs apart.0) named))
                (weaken (λ v h. h.1) (λ _ v h. h)
                  (restore_modules-contents files w staged bs apart.1 restores.1)))
              (λ _. pure-Returns (λ v h. h)))

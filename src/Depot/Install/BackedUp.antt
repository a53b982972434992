-- ===== src/Depot/Install/BackedUp.antt =====
-- What a backup holds (`backup_all` and `backup_module` of services/depot/installer.rs).
use text.Mathlib.TextLemmas.{append_cancel_right}
use fenrir.Prelude.{
  ℕ, ◌≡◌, ◌≢◌, refl, sym, ◌∙◌, String, false, Option, none, some, List, [], ◌∷◌, All, All-imp,
  All-map_back, ap, subst,
}
use fenrir.Prelude.Exec.{Exec, ok, Keeps, Returns, ◌>>=◌, map_err-Keeps, pure-Keeps, >>=-Keeps}
use fenrir.Prelude.Exec.Rules.{
  >>=-Returns, pure-Returns, map_err-Returns, weaken, Keeps-Returns, both,
}
use fenrir.Depot.Protocol.{DepotProtocol}
use fenrir.Depot.State.{BackedUpModule}
use fenrir.Depot.Plan.{PlanEntry}
use fenrir.Depot.Machine.{
  Machine, Manifest, io, at_path, backup_failed, FilePath, backup_file, blob, Same, Contract,
}
use fenrir.Depot.Install.Bundles.{archive_name}
use fenrir.Depot.Install.Backup.{installed_version, refuse, backed_up, backup_module, backup_all}
use fenrir.Depot.Install.Kept.{Same-chain, Same-refl}
use fenrir.Depot.Install.Rollback.{AreApart, names_of, FaithfulTo, Faithful}
use fenrir.Depot.Install.Applied.{modules_of}

archive_name_injective : (a b : String) → archive_name a ≡ archive_name b → a ≡ b
unfolding archive_name
archive_name_injective a b h = append_cancel_right a b _ h

file_name : FilePath → String
file_name (backup_file backup archive) = archive
file_name (blob digest) = digest

-- The archive of a module in a backup.
abbrev pub archive_of : String → String → FilePath
archive_of backup name = backup_file backup (archive_name name)

archives_apart : (backup a b : String) → a ≢ b → archive_of backup a ≢ archive_of backup b
unfolding file_name
archives_apart backup a b apart h = apart (archive_name_injective a b (ap file_name h))

module _ (D : DepotProtocol) (M : Machine D) (C : Contract D M) where
  recorded : String → Manifest D → List ℕ → D.Version → BackedUpModule D
  recorded name manifest bytes version = record {
    version = version;
    archive = archive_name name;
    archive_sha256 = D.to_hex (D.digest_of bytes);
    manifest = manifest;
  }

  bind-Same :
      {E A B : Type 0} (m : Exec M.World E A) (f : A → Exec M.World E B)
      → Keeps (Same D M) m
      → ((a : A) → Keeps (Same D M) (f a))
      → Keeps (Same D M) (m >>= f)
  bind-Same = >>=-Keeps (Same D M) (Same-chain D M C)

  backed_up-Keeps :
      (name : String) (path : FilePath) (manifest : Option (Manifest D))
      → Keeps (Same D M) (backed_up D M name path manifest)
  unfolding recorded
  backed_up-Keeps name path none = record { holds = Same-refl D M C }
  backed_up-Keeps name path (some manifest) =
      bind-Same _ _
        (map_err-Keeps (Same D M) (λ e. io (at_path path e)) (M.read path) (C.read-Keeps path))
        (λ bytes.
          bind-Same
            (refuse D M (
              installed_version D M name manifest.version false (D.parse_version manifest.version)))
            _ (record { holds = Same-refl D M C })
            (λ version.
              pure-Keeps (Same D M) (some (recorded name manifest bytes version))
                (Same-refl D M C)))

  -- Nothing that a backup does touches a module, or the archive of a module but its own.
  abbrev pub KeepsModules : M.World → M.World → Type 0
  KeepsModules w v = (id : String) → M.contents v id ≡ M.contents w id

  pub backup_module-contents :
      (backup name : String) → Keeps KeepsModules (backup_module D M backup name)
  unfolding backup_module
  backup_module-contents backup name =
      >>=-Keeps KeepsModules (λ s t u h k id. k id ∙ h id) _ _
        (map_err-Keeps KeepsModules (λ e. io (backup_failed name e))
          (M.backup name (archive_of backup name))
          (record { holds = λ w id. C.backup-contents name (archive_of backup name) w id }))
        (λ manifest. record {
          holds = λ w. ((backed_up-Keeps name (archive_of backup name) manifest).holds w).0;
        })

  module _ (path : FilePath) where
    abbrev KeepsFile : M.World → M.World → Type 0
    KeepsFile w v = M.file v path ≡ M.file w path

    backup_module-file :
        (backup name : String)
        → path ≢ archive_of backup name
        → Keeps KeepsFile (backup_module D M backup name)
    unfolding backup_module
    backup_module-file backup name apart =
        >>=-Keeps KeepsFile (λ s t u h k. k ∙ h) _ _
          (map_err-Keeps KeepsFile (λ e. io (backup_failed name e))
            (M.backup name (archive_of backup name))
            (record { holds = λ w. C.backup-file name (archive_of backup name) path w apart }))
          (λ manifest. record {
            holds = λ w. ((backed_up-Keeps name (archive_of backup name) manifest).holds w).1 path;
          })

    backup_all-file :
        (backup : String) (es : List (PlanEntry D))
        → All (λ e. path ≢ archive_of backup e.module_name) es
        → Keeps KeepsFile (backup_all D M backup es)
    unfolding backup_all
    backup_all-file backup [] apart = record { holds = λ w. refl }
    backup_all-file backup (e ∷ es) apart =
        >>=-Keeps KeepsFile (λ s t u h k. k ∙ h) (backup_module D M backup e.module_name) _
          (backup_module-file backup e.module_name apart.0)
          (λ previous.
            >>=-Keeps KeepsFile (λ s t u h k. k ∙ h) (backup_all D M backup es) _
              (backup_all-file backup es apart.1) (λ rest. record { holds = λ w. refl }))

  pub backup_all-contents :
      (backup : String) (es : List (PlanEntry D)) → Keeps KeepsModules (backup_all D M backup es)
  unfolding backup_all
  backup_all-contents backup [] = record { holds = λ w id. refl }
  backup_all-contents backup (e ∷ es) =
      >>=-Keeps KeepsModules (λ s t u h k id. k id ∙ h id) (backup_module D M backup e.module_name)
        _ (backup_module-contents backup e.module_name)
        (λ previous.
          >>=-Keeps KeepsModules (λ s t u h k id. k id ∙ h id) (backup_all D M backup es) _
            (backup_all-contents backup es) (λ rest. record { holds = λ w id. refl }))

  module _ (w : M.World) (backup : String) where
    abbrev pub HasContents : M.World → Type 0
    HasContents v = KeepsModules w v

    -- What the host packaged of a module, if it is installed.
    Packaged : String → Option (Manifest D) → M.World → Type 0
    Packaged name none v = M.contents w name ≡ none
    Packaged name (some manifest) v =
        (manifest.id ≡ name)
        × ((bytes : List ℕ)
            → M.file v (archive_of backup name) ≡ some bytes
            → M.contents w name ≡ some (manifest, M.unpack bytes))

    packages :
        (name : String) (v : M.World)
        → HasContents v
        → (found : Option (Manifest D)) → (M.backup name (archive_of backup name) v).0 ≡ ok found
        → Packaged name found (M.backup name (archive_of backup name) v).1
    unfolding Packaged
    packages name v has none e = sym (has name) ∙ C.backup_none name _ v e
    packages name v has (some manifest) e =
        let (named, held) = C.backup_some name _ v manifest e in
        (named, λ bytes of_file. sym (has name) ∙ held bytes of_file)

    backed_up-Faithful :
        (name : String) (found : Option (Manifest D))
        → Returns
            (Packaged name found)
            (backed_up D M name (archive_of backup name) found)
            (λ previous v. FaithfulTo D M (M.file v) w backup name previous)
    unfolding Packaged recorded
    backed_up-Faithful name none = pure-Returns (λ v h. h)
    backed_up-Faithful name (some manifest) =
        >>=-Returns (λ _. Packaged name (some manifest))
          (map_err-Returns (λ e. io (at_path (archive_of backup name) e))
            (Keeps-Returns
              (λ u v same known. (
                known.0,
                λ bytes of_file. known.1 bytes (sym (same.1 (archive_of backup name)) ∙ of_file),
              ))
              (C.read-Keeps (archive_of backup name))))
          (λ bytes.
            >>=-Returns (λ _. Packaged name (some manifest))
              (record { holds = λ u known a e. known })
              (λ version.
                pure-Returns {a = some (recorded name manifest bytes version)}
                  (λ v known. (refl, known.0, known.1))))

    backup_module-Faithful :
        (name : String)
        → Returns HasContents
            (backup_module D M backup name)
            (λ previous v. FaithfulTo D M (M.file v) w backup name previous)
    unfolding backup_module
    backup_module-Faithful name =
        >>=-Returns (Packaged name)
          (map_err-Returns (λ e. io (backup_failed name e))
            (record { holds = λ v has found e. packages name v has found e }))
          (λ found. backed_up-Faithful name found)

    Faithful_stays :
        (name : String) (u v : M.World)
        → M.file v (archive_of backup name) ≡ M.file u (archive_of backup name)
        → (previous : Option (BackedUpModule D)) → FaithfulTo D M (M.file u) w backup name previous
        → FaithfulTo D M (M.file v) w backup name previous
    Faithful_stays name u v same none h = h
    Faithful_stays name u v same (some p) (archive, named, held) = (
      archive,
      named,
      λ bytes of_file. held bytes (
          rw archive
            (sym same ∙ subst (λ a. M.file v (backup_file backup a) ≡ some bytes) archive of_file)),
    )

    -- The backup has the modules as they were, one by one.
    pub backup_all-Faithful :
        (es : List (PlanEntry D))
        → AreApart (modules_of D es)
        → Returns HasContents
            (backup_all D M backup es)
            (λ bs v. (names_of D bs ≡ modules_of D es) × All (Faithful D M (M.file v) w backup) bs)
    unfolding backup_all
    backup_all-Faithful [] apart = pure-Returns (λ v h. (refl, tt))
    backup_all-Faithful (e ∷ es) apart =
        let name = e.module_name in
        >>=-Returns (λ previous v. FaithfulTo D M (M.file v) w backup name previous × HasContents v)
          (both (backup_module-Faithful name) (
            Keeps-Returns (λ u v same has id. same id ∙ has id)
              (backup_module-contents backup name)))
          (λ previous.
            >>=-Returns
              (λ bs v.
                FaithfulTo D M (M.file v) w backup name previous
                × ((names_of D bs ≡ modules_of D es) × All (Faithful D M (M.file v) w backup) bs))
              (both
                (Keeps-Returns (λ u v same known. Faithful_stays name u v same previous known.0)
                  (backup_all-file (archive_of backup name) backup es (
                    All-imp _ _ es (λ c h. archives_apart backup name c.module_name h)
                      (All-map_back (λ m. name ≢ m) (λ (c : PlanEntry D). c.module_name) es
                        apart.0))))
                (weaken (λ v h. h.1) (λ _ v h. h) (backup_all-Faithful es apart.1)))
              (λ bs. pure-Returns (λ v (faithful, (names, rest)).
                (ap (λ (ns : List String). name ∷ ns) names, (faithful, rest)))))

-- ===== src/Depot/Install/Undo.antt =====
-- The whole rollback (`restore` of services/depot/installer.rs), from any state of the modules that
-- were backed up.
use fenrir.Prelude.{
  ℕ, subst, ◌≡◌, ◌≢◌, refl, sym, ◌∙◌, String, Option, none, some, List, [], ◌∷◌, All, All-map_back,
  arith, ap, inl, inr, Option-cases,
}
use fenrir.Prelude.Exec.{Exec, Keeps, Returns, map_err}
use fenrir.Prelude.Exec.Rules.{>>=-Returns, pure-Returns, first-Returns, weaken, both}
use fenrir.Prelude.Dict.{Dict, lookup, insert, lookup-insert_apart, lookup-insert_same}
use fenrir.Depot.Protocol.{DepotProtocol}
use fenrir.Depot.State.{BackedUpModule, BackupModule}
use fenrir.Depot.Machine.{Machine, Manifest, io, at_path, FilePath, backup_file, Same, Contract}
use fenrir.Depot.Install.Bundles.{StagedBundle, restore_bundles, parsed, staged_backup}
use fenrir.Depot.Install.Kept.{At}
use fenrir.Depot.Install.Rollback.{AreApart, names_of, Files, FaithfulTo, Faithful, Restores}

module _ (D : DepotProtocol) (M : Machine D) (C : Contract D M) where
  -- What touches no module touches none of them.
  pub At-Same :
      {E A : Type 0} (m : Exec M.World E A)
      → ((id : String) → Keeps (At D M C id) m)
      → Keeps (Same D M) m
  At-Same m h = record { holds = λ w. (λ id. ((h id).holds w).0, λ path. ((h "").holds w).1 path) }

  module _ (backup : String) where
    staged_backup-path :
        (name : String) (previous : BackedUpModule D)
        → Returns
            (λ _. Unit {0})
            (staged_backup D M backup name previous)
            (λ one _.
              (one.manifest ≡ previous.manifest) × (one.path ≡ backup_file backup previous.archive))
    staged_backup-path name previous =
        first-Returns (parsed D M backup name (D.parse_digest previous.archive_sha256)) (λ digest.
          first-Returns (map_err (λ e. io (at_path path e)) (M.file_size path))
            (λ size. pure-Returns {a = staged digest size} (λ w u. (refl, refl))))
      where
        path : FilePath
        path = backup_file backup previous.archive

        staged : D.Digest → ℕ → StagedBundle D
        staged digest size = record {
          manifest = previous.manifest;
          path = path;
          sha256 = digest;
          size = size;
        }

    -- The bundles of the other modules do not change.
    restore_bundles-lookup :
        (id : String) (acc : Dict (StagedBundle D)) (bs : List (BackupModule D))
        → All (λ b. id ≢ b.module_name) bs
        → Returns
            (λ _. Unit {0})
            (restore_bundles D M backup acc bs)
            (λ staged _. lookup id staged ≡ lookup id acc)
    unfolding restore_bundles
    restore_bundles-lookup id acc [] apart = pure-Returns (λ w u. refl)
    restore_bundles-lookup id acc (b ∷ bs) apart = elim (Option-cases b.previous) [
      | inl e ↦ rw e (restore_bundles-lookup id acc bs apart.1)
      | inr (previous, e) ↦ rw e (
          first-Returns (staged_backup D M backup b.module_name previous) (λ one.
            weaken (λ w u. u)
              (λ staged w h. h ∙ lookup-insert_apart id b.module_name one acc apart.0)
              (restore_bundles-lookup id (insert b.module_name one acc) bs apart.1)))
    ]

    still_fresh :
        (name : String) (one : StagedBundle D) (acc : Dict (StagedBundle D))
        (bs : List (BackupModule D))
        → All (λ m. name ≢ m) (names_of D bs)
        → All (λ b. lookup b.module_name acc ≡ none) bs
        → All (λ b. lookup b.module_name (insert name one acc) ≡ none) bs
    still_fresh name one acc [] apart fresh = tt
    still_fresh name one acc (b ∷ bs) apart fresh = (
      lookup-insert_apart b.module_name name one acc (λ e. apart.0 (sym e)) ∙ fresh.0,
      still_fresh name one acc bs apart.1 fresh.1,
    )

    module _ (files : Files D M) (w : M.World) where
      absent_restores :
          (name : String) (previous : Option (BackedUpModule D))
          → previous ≡ none
          → FaithfulTo D M files w backup name previous
          → M.contents w name ≡ none
      absent_restores name none e h = h
      absent_restores name (some p) e h = absurd (ground arith)

      staged-Restores :
          (name : String) (previous : BackedUpModule D) (one : StagedBundle D)
          → one.manifest ≡ previous.manifest
          → one.path ≡ backup_file backup previous.archive
          → FaithfulTo D M files w backup name (some previous)
          → Restores D M files w name (some one)
      staged-Restores name previous one same path (archive, named, held) = (
        ap (λ (m : Manifest D). m.id) same ∙ named,
        λ bytes of_file. rw same (held bytes (ap files (sym path) ∙ of_file)),
      )

      -- What is staged of a backup brings its modules back.
      pub restore_bundles-Restores :
          (acc : Dict (StagedBundle D)) (bs : List (BackupModule D))
          → AreApart (names_of D bs)
          → All (λ b. lookup b.module_name acc ≡ none) bs
          → All (Faithful D M files w backup) bs
          → Returns
              (λ _. Unit {0})
              (restore_bundles D M backup acc bs)
              (λ staged _.
                All (λ b. Restores D M files w b.module_name (lookup b.module_name staged)) bs)
      unfolding restore_bundles
      restore_bundles-Restores acc [] apart fresh faithful = pure-Returns (λ v u. tt)
      restore_bundles-Restores acc (b ∷ bs) apart fresh faithful =
          let outside =
            All-map_back (λ m. b.module_name ≢ m) (λ (c : BackupModule D). c.module_name) bs
              apart.0 in
          elim (Option-cases b.previous) [
            | inl e ↦ rw e (
                weaken (λ v u. u)
                  (λ staged v h. (
                    rw (h.0 ∙ fresh.0) (absent_restores b.module_name b.previous e faithful.0),
                    h.1,
                  ))
                  (both (restore_bundles-lookup b.module_name acc bs outside)
                    (restore_bundles-Restores acc bs apart.1 fresh.1 faithful.1)))
            | inr (previous, e) ↦ rw e (
                >>=-Returns
                  (λ one _.
                    (one.manifest ≡ previous.manifest)
                    × (one.path ≡ backup_file backup previous.archive))
                  (staged_backup-path b.module_name previous)
                  (λ one. record {
                    holds = λ v known staged made.
                        let acc' = insert b.module_name one acc in
                        let h =
                          (restore_bundles-lookup b.module_name acc' bs outside).holds v tt staged
                            made in
                        let others = still_fresh b.module_name one acc bs apart.0 fresh.1 in
                        let rest = restore_bundles-Restores acc' bs apart.1 others faithful.1 in
                        (
                          rw (h ∙ lookup-insert_same b.module_name one acc) (
                              staged-Restores b.module_name previous one known.0 known.1
                                (subst (FaithfulTo D M files w backup b.module_name) e faithful.0)),
                          rest.holds v tt staged made,
                        );
                  }))
          ]

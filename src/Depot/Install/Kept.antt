-- ===== src/Depot/Install/Kept.antt =====
-- What the steps of an installation leave alone (services/depot/installer.rs).
use fenrir.Prelude.{
  ◌≡◌, ◌≢◌, refl, ◌∙◌, String, Bool, true, false, Option, none, some, List, [], ◌∷◌, inl, inr,
  Option-cases,
}
use fenrir.Prelude.Exec.{
  Exec, Keeps, >>=-Keeps, ◌>>=◌, pure, map_err-Keeps, ignoring-Keeps, from_result-Keeps, pure-Keeps,
}
use fenrir.Prelude.Dict.{Dict, insert}
use fenrir.Depot.Protocol.{DepotProtocol}
use fenrir.Depot.State.{BackedUpModule, BackupModule}
use fenrir.Depot.Plan.{PlanEntry}
use fenrir.Depot.Machine.{Machine, Bundle, FilePath, Same, Contract}
use fenrir.Depot.Install.Bundles.{StagedBundle, load_bundle, restore_bundles, parsed, staged_backup}
use fenrir.Depot.Install.Apply.{Host, host, when, stop_changed, migrate, roll_changed, wait_all}
use fenrir.Depot.Install.Restore.{stop_all}
use fenrir.Depot.Install.{check_staged}

module _ (D : DepotProtocol) (M : Machine D) (C : Contract D M) where
  -- One module's files, and the installer's files, do not change.
  abbrev pub At : String → M.World → M.World → Type 0
  At id w v =
      (M.contents v id ≡ M.contents w id) × ((path : FilePath) → M.file v path ≡ M.file w path)

  pub At-chain : (id : String) (s t u : M.World) → At id s t → At id t u → At id s u
  At-chain id s t u h k = (k.0 ∙ h.0, λ path. k.1 path ∙ h.1 path)

  pub Same-At : (id : String) (w v : M.World) → Same D M w v → At id w v
  Same-At id w v h = (h.0 id, h.1)

  pub Same-chain : (s t u : M.World) → Same D M s t → Same D M t u → Same D M s u
  Same-chain s t u h k = (λ id. k.0 id ∙ h.0 id, λ path. k.1 path ∙ h.1 path)

  pub Same-refl : (w : M.World) → Same D M w w
  Same-refl w = (λ id. refl, λ path. refl)

  Same-bind :
      {E A B : Type 0} (m : Exec M.World E A) (f : A → Exec M.World E B)
      → Keeps (Same D M) m
      → ((a : A) → Keeps (Same D M) (f a))
      → Keeps (Same D M) (m >>= f)
  Same-bind = >>=-Keeps (Same D M) Same-chain

  pub load_bundle-Keeps : (staged : StagedBundle D) → Keeps (Same D M) (load_bundle D M staged)
  unfolding load_bundle
  load_bundle-Keeps staged =
      Same-bind _ _ (map_err-Keeps (Same D M) _ _ (C.read-Keeps staged.path)) (λ bytes.
        Same-bind _ _ (from_result-Keeps (Same D M) _ Same-refl)
          (λ _. pure-Keeps (Same D M) _ Same-refl))

  pub check_staged-Keeps :
      (staged : Dict (StagedBundle D)) → Keeps (Same D M) (check_staged D M staged)
  unfolding check_staged
  check_staged-Keeps [] = pure-Keeps (Same D M) _ Same-refl
  check_staged-Keeps ((name, one) ∷ rest) =
      Same-bind _ _ (load_bundle-Keeps one) (λ _. check_staged-Keeps rest)

  parsed-Keeps :
      (backup name : String) (digest : Option D.Digest)
      → Keeps (Same D M) (parsed D M backup name digest)
  parsed-Keeps backup name none = record { holds = Same-refl }
  parsed-Keeps backup name (some digest) = record { holds = Same-refl }

  staged_backup-Keeps :
      (backup name : String) (previous : BackedUpModule D)
      → Keeps (Same D M) (staged_backup D M backup name previous)
  staged_backup-Keeps backup name previous = Same-bind _ _ (parsed-Keeps backup name _) (λ digest.
      Same-bind _ _ (map_err-Keeps (Same D M) _ _ (C.file_size-Keeps _))
        (λ size. pure-Keeps (Same D M) _ Same-refl))

  -- The steps that touch other modules, and those that touch none.
  module _ (id : String) where
    pub bind :
        {E A B : Type 0} (m : Exec M.World E A) (f : A → Exec M.World E B)
        → Keeps (At id) m
        → ((a : A) → Keeps (At id) (f a))
        → Keeps (At id) (m >>= f)
    bind = >>=-Keeps (At id) (At-chain id)

    At_refl : (w : M.World) → At id w w
    At_refl w = (refl, λ path. refl)

    pub quiet : {E A : Type 0} (m : Exec M.World E A) → Keeps (Same D M) m → Keeps (At id) m
    quiet m h = record { holds = λ w. Same-At id w (m w).1 (h.holds w) }

    pub done : {E A : Type 0} (a : A) → Keeps {E = E} (At id) (pure a)
    done a = pure-Keeps (At id) a At_refl

    pub on_host :
        {A : Type 0} (m : Exec M.World String A) → Keeps (At id) m → Keeps (At id) (host D M m)
    on_host m h = map_err-Keeps (At id) _ m h

    when-Keeps :
        (test : Bool) (m : Host D M (Unit {0})) → Keeps (At id) m → Keeps (At id) (when D M test m)
    when-Keeps true m h = h
    when-Keeps false m h = done tt

    pub stop_changed-Keeps : (es : List (PlanEntry D)) → Keeps (At id) (stop_changed D M es)
    unfolding stop_changed
    stop_changed-Keeps [] = done tt
    stop_changed-Keeps (e ∷ es) =
        bind _ _ (when-Keeps _ _ (on_host _ (quiet _ (C.stop-Keeps e.module_name))))
          (λ _. stop_changed-Keeps es)

    pub roll_changed-Keeps : (es : List (PlanEntry D)) → Keeps (At id) (roll_changed D M es)
    unfolding roll_changed
    roll_changed-Keeps [] = done tt
    roll_changed-Keeps (e ∷ es) =
        bind _ _ (when-Keeps _ _ (on_host _ (quiet _ (C.rolling_restart-Keeps e.module_name))))
          (λ _. roll_changed-Keeps es)

    pub wait_all-Keeps : (names : List String) → Keeps (At id) (wait_all D M names)
    unfolding wait_all
    wait_all-Keeps [] = done tt
    wait_all-Keeps (n ∷ ns) =
        bind _ _ (on_host _ (quiet _ (C.wait_healthy-Keeps n))) (λ _. wait_all-Keeps ns)

    pub migrate-Keeps : (names : List String) → Keeps (At id) (migrate D M names)
    migrate-Keeps [] = done []
    migrate-Keeps (n ∷ ns) = on_host _ (quiet _ (C.apply_migrations-Keeps (n ∷ ns)))

    pub start-Keeps : (names : List String) → Keeps (At id) (host D M (M.start names))
    start-Keeps names = on_host _ (quiet _ (C.start-Keeps names))

    pub stop_all-Keeps : (bs : List (BackupModule D)) → Keeps (At id) (stop_all D M bs)
    unfolding stop_all
    stop_all-Keeps [] = done tt
    stop_all-Keeps (b ∷ bs) =
        bind _ _ (ignoring-Keeps (At id) _ (quiet _ (C.stop-Keeps b.module_name)))
          (λ _. stop_all-Keeps bs)

    pub remove-Keeps : (name : String) → id ≢ name → Keeps (At id) (M.remove name)
    remove-Keeps name apart = record {
      holds = λ w. let (h, k) = C.remove-SameBut name w in (h id apart, k);
    }

    pub activate-Keeps : (b : Bundle D) → id ≢ b.manifest.id → Keeps (At id) (M.activate b)
    activate-Keeps b apart = record {
      holds = λ w. let (h, k) = C.activate-SameBut b w in (h id apart, k);
    }

    pub restore_bundles-Keeps :
        (backup : String) (acc : Dict (StagedBundle D)) (bs : List (BackupModule D))
        → Keeps (At id) (restore_bundles D M backup acc bs)
    unfolding restore_bundles
    restore_bundles-Keeps backup acc [] = done acc
    restore_bundles-Keeps backup acc (b ∷ bs) = elim (Option-cases b.previous) [
      | inl e ↦ rw e (restore_bundles-Keeps backup acc bs)
      | inr (previous, e) ↦ rw e (
          bind _ _ (quiet _ (staged_backup-Keeps backup b.module_name previous))
            (λ one. restore_bundles-Keeps backup (insert b.module_name one acc) bs))
    ]

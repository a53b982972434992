-- ===== src/Depot/Install/Safety.antt =====
-- What an installation that fails leaves behind (`execute` of services/depot/installer.rs).
use fenrir.Prelude.{
  ◌≡◌, ◌≢◌, refl, sym, ◌∙◌, String, Bool, true, false, List, All, All-map, All-map_back, arith, ap,
  subst,
}
use fenrir.Prelude.Exec.{Exec, Result, ok, err, continue_post, continue, wrap, ◌>>=◌}
use fenrir.Depot.Protocol.{DepotProtocol}
use fenrir.Depot.State.{HostState, BackupModule}
use fenrir.Depot.Plan.{PlanEntry, changed}
use fenrir.Depot.Machine.{Machine, DepotError, io, installing, plain, Message, Same, Contract}
use fenrir.Depot.Install.Record.{Prepared, Stamps, backup_name, backup_record}
use fenrir.Depot.Install.Apply.{apply}
use fenrir.Depot.Install.Backup.{Install, backup_all}
use fenrir.Depot.Install.{files, check_staged, rolled_back, settle, change_modules}
use fenrir.Depot.Install.Kept.{check_staged-Keeps}
use fenrir.Depot.Install.Rollback.{AreApart, names_of, Files, HasFiles, Faithful}
use fenrir.Depot.Install.Restored.{IsOutside, restore-contents}
use fenrir.Depot.Install.Applied.{modules_of, HasNames, apply-Keeps}
use fenrir.Depot.Install.Files.{apply-files}
use fenrir.Depot.Install.BackedUp.{KeepsModules, backup_all-contents, backup_all-Faithful}

module _ (D : DepotProtocol) where
  -- The errors after which the modules are as they were.
  abbrev pub leaves_all : DepotError D → Bool
  leaves_all (io message) = false
  leaves_all (installing message undone) = undone
  leaves_all _ = true

  abbrev pub answer_leaves : {A : Type 0} → Result (DepotError D) A → Bool
  answer_leaves (ok a) = false
  answer_leaves (err e) = leaves_all e

module _ (D : DepotProtocol) (M : Machine D) (C : Contract D M) (w : M.World) where
  abbrev pub Undone : {A : Type 0} → Result (DepotError D) A × M.World → Type 0
  Undone (r, v) = (e : DepotError D) → r ≡ err e → leaves_all D e ≡ true → KeepsModules D M C w v

  pub Undone-by :
      {A : Type 0} (r : Result (DepotError D) A) (v : M.World)
      → (answer_leaves D r ≡ true → KeepsModules D M C w v)
      → Undone (r, v)
  Undone-by r v has e failed undone = has (ap (answer_leaves D) failed ∙ undone)

  pub Undone-bind :
      {A B : Type 0} (m : Install D M A) (f : A → Install D M B) (s : M.World)
      → KeepsModules D M C w (m s).1
      → ((a : A) → (m s).0 ≡ ok a → Undone (f a (m s).1))
      → Undone ((m >>= f) s)
  Undone-bind m f s has next =
      continue_post Undone f (m s).1 (m s).0 next (λ e failed e' same undone. has)

  pub Undone-then :
      {A B : Type 0} (m : Install D M A) (f : A → Install D M B) (s : M.World)
      → Undone (m s)
      → ((a : A) (t : M.World) → Undone (f a t))
      → Undone ((m >>= f) s)
  Undone-then m f s first next =
      continue_post Undone f (m s).1 (m s).0 (λ a made. next a (m s).1)
        (λ e failed e' same undone. first e failed (ap (answer_leaves D) same ∙ undone))

  -- A step whose errors are of files.
  files_continue :
      {A B : Type 0} (f : A → Install D M B) (v : M.World) (r : Result String A)
      → ((a : A) → r ≡ ok a → Undone (f a v))
      → Undone (continue (wrap (λ e. io (plain e)) r) f v)
  files_continue f v (ok a) next = next a refl
  files_continue f v (err x) next = Undone-by _ v (λ h. absurd (ground arith))

  pub files_bind :
      {A B : Type 0} (m : Exec M.World String A) (f : A → Install D M B) (s : M.World)
      → ((a : A) → (m s).0 ≡ ok a → Undone (f a (m s).1))
      → Undone ((files D M m >>= f) s)
  files_bind m f s next = files_continue f (m s).1 (m s).0 next

  pub pure-Undone : {A : Type 0} (a : A) (v : M.World) → Undone {A = A} (ok a, v)
  pure-Undone a v = Undone-by (ok a) v (λ h. absurd (ground arith))

  -- An application that fails is rolled back, or the error says that it is not.
  module _ (backup : String) (archives : Files D M) (bs : List (BackupModule D))
      (apart : AreApart (names_of D bs)) (faithful : All (Faithful D M archives w backup) bs) where
    rolled_back-Undone :
        (message : Message D) (v : M.World) (r : Result (Message D) (Unit {0}))
        → (r ≡ ok tt → KeepsModules D M C w v)
        → Undone (rolled_back D M message (r, v))
    rolled_back-Undone message v (ok u) has = Undone-by _ v (λ h. has refl)
    rolled_back-Undone message v (err x) has = Undone-by _ v (λ h. absurd (ground arith))

    settle-Undone :
        (u : M.World) (r : Result (Message D) (List String))
        → IsOutside D M C backup w archives bs u
        → Undone (settle D M backup bs (r, u))
    unfolding settle
    settle-Undone u (ok applied) outside = pure-Undone _ u
    settle-Undone u (err message) outside = rolled_back-Undone message _ _ (λ restored.
        (restore-contents D M C backup w archives bs apart faithful).holds u outside tt restored)

  module _ (prepared : Prepared D) (stamps : Stamps) (named : HasNames D prepared.staged)
      (apart : AreApart (modules_of D (changed D prepared.plan))) where
    abbrev changes : List (PlanEntry D)
    changes = changed D prepared.plan

    abbrev name : String
    name = backup_name D stamps prepared.plan.title

    -- The modules outside the backup, once the plan is applied to a world with the archives.
    IsOutside-after :
        (bs : List (BackupModule D))
        → names_of D bs ≡ modules_of D changes
        → (v u : M.World) → KeepsModules D M C w v
        → Same D M v u
        → (archives : Files D M) → HasFiles D M archives v
        → IsOutside D M C name w archives bs (apply D M prepared.staged changes u).1
    IsOutside-after bs names v u has same archives files_of = (
      λ path.
          (apply-files D M C prepared.staged changes).holds u path ∙ (same.1 path ∙ files_of path),
      λ id beyond.
          ((apply-Keeps D M C id prepared.staged changes named (
              All-map_back (λ m. id ≢ m) (λ (c : PlanEntry D). c.module_name) changes
                (subst (All (λ m. id ≢ m)) names
                  (All-map (λ m. id ≢ m) (λ (b : BackupModule D). b.module_name) bs beyond)))).holds
            u).0
          ∙ (same.0 id ∙ has id),
    )

    settled :
        (v u : M.World) (bs : List (BackupModule D))
        → KeepsModules D M C w v
        → (backup_all D M name changes v).0 ≡ ok bs
        → Same D M (backup_all D M name changes v).1 u
        → Undone (settle D M name bs (apply D M prepared.staged changes u))
    settled v u bs has backed same =
        let t = (backup_all D M name changes v).1 in
        let held = (backup_all-Faithful D M C w name changes apart).holds v has bs backed in
        let has' = λ (id : String). (backup_all-contents D M C name changes).holds v id ∙ has id in
        settle-Undone name (M.file t) bs (subst AreApart (sym held.0) apart) held.1 _ _
          (IsOutside-after bs held.0 t u has' same (M.file t) (λ path. refl))

    pub change_modules-Undone :
        (state : HostState D) (v : M.World)
        → KeepsModules D M C w v
        → Undone (change_modules D M prepared stamps state v)
    unfolding change_modules
    change_modules-Undone state v has =
        Undone-bind (check_staged D M prepared.staged) _ v (moved _ checked) (λ _ ok_checked.
          files_bind (M.create_backup_dir name) _ _ (λ _ ok_made.
            Undone-bind (backup_all D M name changes) _ _
              (λ id. (backup_all-contents D M C name changes).holds _ id ∙ ready id)
              (λ bs backed.
                files_bind (M.save_backup name (backup_record D prepared stamps state bs)) _ _
                  (λ _ saved. settled _ _ bs ready backed ((C.save_backup-Keeps name _).holds _)))))
      where
        moved : (u : M.World) → Same D M v u → KeepsModules D M C w u
        moved u same id = same.0 id ∙ has id

        checked : Same D M v (check_staged D M prepared.staged v).1
        checked = (check_staged-Keeps D M C prepared.staged).holds v

        ready :
            KeepsModules D M C w (M.create_backup_dir name (check_staged D M prepared.staged v).1).1
        ready id = ((C.create_backup_dir-Keeps name).holds _).0 id ∙ moved _ checked id

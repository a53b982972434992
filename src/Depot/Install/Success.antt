-- ===== src/Depot/Install/Success.antt =====
-- `execute` of services/depot/installer.rs as a whole, where it succeeds.
use fenrir.Prelude.{
  ◌≡◌, ◌≢◌, refl, sym, ◌∙◌, String, Option, List, [], ◌∷◌, All, All-imp, arith, subst, inl, inr,
  Bool-cases,
}
use fenrir.Prelude.Exec.{Exec, Result, ok, err, Keeps, Returns}
use fenrir.Prelude.Exec.Rules.{
  >>=-Returns, pure-Returns, raise-Returns, map_err-Returns, Keeps-Returns,
}
use fenrir.Prelude.Dict.{lookup}
use fenrir.Depot.Protocol.{DepotProtocol}
use fenrir.Depot.State.{HostState, BackupModule}
use fenrir.Depot.Plan.{PlanEntry, changed}
use fenrir.Depot.Machine.{Machine, Message, io, plain, Same, Contract}
use fenrir.Depot.Install.Record.{
  Prepared, Stamps, Outcome, backup_name, backup_record, record_state, cached,
}
use fenrir.Depot.Install.Apply.{apply, is_empty, is_remove}
use fenrir.Depot.Install.Backup.{Install}
use fenrir.Depot.Install.{
  lock_error, settle, rolled_back, change_modules, change_if_any, finish, execute_locked, with_lock,
  execute,
}
use fenrir.Depot.Install.Kept.{check_staged-Keeps}
use fenrir.Depot.Install.Rollback.{AreApart}
use fenrir.Depot.Install.Restore.{restore}
use fenrir.Depot.Install.Applied.{
  modules_of, HasNames, AsPlanned, IsCarriedOut, apply-Keeps, apply-IsCarriedOut,
}
use fenrir.Depot.Install.BackedUp.{KeepsModules, backup_all-contents}

module _ (D : DepotProtocol) (M : Machine D) (C : Contract D M) (w : M.World)
    (prepared : Prepared D) (stamps : Stamps) where
  -- The entries are carried out, and nothing else is changed.
  abbrev pub IsInstalled : List (PlanEntry D) → M.World → Type 0
  IsInstalled es v =
      All (IsCarriedOut D M C prepared.staged v) es
      × ((id : String) → All (λ e. id ≢ e.module_name) es → M.contents v id ≡ M.contents w id)

  abbrev Before : M.World → Type 0
  Before v = KeepsModules D M C w v

  Before-stays :
      {E A : Type 0} (m : Exec M.World E A) → Keeps (Same D M) m → Returns Before m (λ _. Before)
  Before-stays m h = Keeps-Returns (λ u v same has id. same.0 id ∙ has id) h

  IsInstalled-moves :
      (es : List (PlanEntry D)) (u v : M.World)
      → KeepsModules D M C u v
      → IsInstalled es u
      → IsInstalled es v
  IsInstalled-moves es u v same (held, beyond) = (
    All-imp _ _ es
        (λ (e : PlanEntry D).
          subst (AsPlanned D M C (is_remove e.action) (lookup e.module_name prepared.staged))
            (sym (same e.module_name)))
        held,
    λ id apart. same id ∙ beyond id apart,
  )

  IsInstalled-stays :
      {E A : Type 0} (es : List (PlanEntry D)) (m : Exec M.World E A)
      → Keeps (KeepsModules D M C) m
      → Returns (IsInstalled es) m (λ _. IsInstalled es)
  IsInstalled-stays es m h = Keeps-Returns (IsInstalled-moves es) h

  module _ (es : List (PlanEntry D)) where
    settle-ok :
        (name : String) (bs : List (BackupModule D)) (r : Result (Message D) (List String))
        (u : M.World) (a : String × List String)
        → ((applied : List String) → r ≡ ok applied → IsInstalled es u)
        → (settle D M name bs (r, u)).0 ≡ ok a
        → IsInstalled es (settle D M name bs (r, u)).1
    unfolding settle
    settle-ok name bs (ok applied) u a has e = has applied refl
    settle-ok name bs (err message) u a has e =
        absurd (never_ok (restore D M name bs u).0 (restore D M name bs u).1 e)
      where
        never_ok :
            (r : Result (Message D) (Unit {0})) (v : M.World)
            → ¬ ((rolled_back D M message (r, v)).0 ≡ ok a)
        never_ok (ok u) v e = ground arith
        never_ok (err x) v e = ground arith

  module _ (named : HasNames D prepared.staged)
      (apart : AreApart (modules_of D (changed D prepared.plan))) where
    applied_installs :
        Returns Before
          (apply D M prepared.staged (changed D prepared.plan))
          (λ _. IsInstalled (changed D prepared.plan))
    applied_installs = record {
      holds = λ v has a e. (
        (apply-IsCarriedOut D M C prepared.staged (changed D prepared.plan) named apart).holds v tt
            a e,
        λ id beyond.
            ((apply-Keeps D M C id prepared.staged (changed D prepared.plan) named beyond).holds
              v).0
            ∙ has id,
      );
    }

    change_modules-IsInstalled :
        (state : HostState D)
        → Returns Before
            (change_modules D M prepared stamps state)
            (λ _. IsInstalled (changed D prepared.plan))
    unfolding change_modules
    change_modules-IsInstalled state =
        let name = backup_name D stamps prepared.plan.title in
        >>=-Returns (λ _. Before) (Before-stays _ (check_staged-Keeps D M C prepared.staged))
          (λ _.
            >>=-Returns (λ _. Before)
              (map_err-Returns (λ e. io (plain e))
                (Before-stays _ (C.create_backup_dir-Keeps name)))
              (λ _.
                >>=-Returns (λ _. Before)
                  (Keeps-Returns (λ u v same has id. same id ∙ has id)
                    (backup_all-contents D M C name (changed D prepared.plan)))
                  (λ bs.
                    >>=-Returns (λ _. Before)
                      (map_err-Returns (λ e. io (plain e))
                        (Before-stays _
                          (C.save_backup-Keeps name (backup_record D prepared stamps state bs))))
                      (λ _. record {
                        holds = λ v has a e.
                            settle-ok (changed D prepared.plan) name bs _ _ a
                              (λ applied made. applied_installs.holds v has applied made) e;
                      }))))

    finish-IsInstalled :
        (es : List (PlanEntry D)) (state : HostState D) (kept : Option String × List String)
        (recorded : HostState D × Option String)
        → Returns (IsInstalled es) (finish D M prepared state kept recorded) (λ _. IsInstalled es)
    finish-IsInstalled es state kept recorded =
        >>=-Returns (λ _. IsInstalled es)
          (map_err-Returns (λ e. io (plain e))
            (IsInstalled-stays es (M.save recorded.0)
              (record { holds = λ v id. C.save-contents recorded.0 v id })))
          (λ _.
            >>=-Returns (λ _. IsInstalled es)
              (map_err-Returns (λ e. io (plain e))
                (IsInstalled-stays es (M.prune_backups recorded.0.backup)
                  (record { holds = λ v id. C.prune_backups-contents recorded.0.backup v id })))
              (λ _. record {
                holds = λ v held a e.
                    IsInstalled-moves es v _ (C.prune_cache-contents (cached D recorded.0) v) held;
              }))

    change_if_any-IsInstalled :
        (es : List (PlanEntry D))
        → es ≡ changed D prepared.plan
        → (state : HostState D)
        → Returns Before (change_if_any D M es prepared stamps state) (λ _. IsInstalled es)
    change_if_any-IsInstalled [] same state = pure-Returns (λ v has. (tt, λ id beyond. has id))
    change_if_any-IsInstalled (e ∷ es) same state =
        >>=-Returns (λ _. IsInstalled (e ∷ es))
          (subst
            (λ cs. Returns Before (change_modules D M prepared stamps state) (λ _. IsInstalled cs))
            (sym same) (change_modules-IsInstalled state))
          (λ (backup, applied). pure-Returns (λ v h. h))

    execute_locked-IsInstalled :
        Returns Before
          (execute_locked D M prepared stamps)
          (λ _. IsInstalled (changed D prepared.plan))
    unfolding execute_locked
    execute_locked-IsInstalled =
        >>=-Returns (λ _. Before)
          (map_err-Returns (λ e. io (plain e)) (Before-stays _ C.load-Keeps))
          (λ state.
            >>=-Returns (λ _. IsInstalled (changed D prepared.plan))
              (change_if_any-IsInstalled _ refl state)
              (λ kept.
                finish-IsInstalled _ state kept (record_state D prepared stamps state kept.0)))

    with_lock-IsInstalled :
        {A : Type 0} (es : List (PlanEntry D)) (m : Install D M A)
        → Returns Before m (λ _. IsInstalled es)
        → Returns Before (with_lock D M m) (λ _. IsInstalled es)
    with_lock-IsInstalled es m h =
        >>=-Returns (λ _. Before)
          (map_err-Returns (lock_error D M) (Before-stays _ C.take_lock-Keeps))
          (λ _. record {
            holds = λ v has a e.
                IsInstalled-moves es (m v).1 _ (C.drop_lock-Same (m v).1).0 (h.holds v has a e);
          })

    execute-Returns :
        Returns Before (execute D M prepared stamps) (λ _. IsInstalled (changed D prepared.plan))
    unfolding execute
    execute-Returns = elim (Bool-cases (is_empty prepared.plan.problems)) [
      | inl h ↦ rw h (
          with_lock-IsInstalled (changed D prepared.plan) (execute_locked D M prepared stamps)
            execute_locked-IsInstalled)
      | inr h ↦ rw h raise-Returns
    ]

  module _ (named : HasNames D prepared.staged)
      (apart : AreApart (modules_of D (changed D prepared.plan))) (outcome : Outcome D)
      (e : (execute D M prepared stamps w).0 ≡ ok outcome) where
    -- An installation that succeeds has made each change of its plan, where every bundle is staged
    -- under its module's name and no two changes are of one module: a module that is to be removed
    -- is gone, and any other is the one of its staged bundle, with an archive of the staged digest.
    pub execute-IsCarriedOut :
        All
          (IsCarriedOut D M C prepared.staged (execute D M prepared stamps w).1)
          (changed D prepared.plan)
    execute-IsCarriedOut = ((execute-Returns named apart).holds w (λ id. refl) outcome e).0

    -- Under the same conditions, a module that the plan does not change is as it was.
    pub execute-others :
        (id : String)
        → All (λ e. id ≢ e.module_name) (changed D prepared.plan)
        → M.contents (execute D M prepared stamps w).1 id ≡ M.contents w id
    execute-others = ((execute-Returns named apart).holds w (λ id. refl) outcome e).1

-- ===== src/Depot/Install/Failure.antt =====
-- `execute` of services/depot/installer.rs as a whole, where it fails.
use fenrir.Prelude.{
  ◌≡◌, refl, ◌∙◌, String, true, Option, none, some, List, [], ◌∷◌, inl, inr, Bool-cases,
}
use fenrir.Prelude.Exec.{err, ◌>>=◌, map_err}
use fenrir.Depot.Protocol.{DepotProtocol}
use fenrir.Depot.State.{HostState}
use fenrir.Depot.Plan.{PlanEntry, changed}
use fenrir.Depot.Machine.{Machine, DepotError, refused, Contract, plan_problems}
use fenrir.Depot.Install.Record.{Prepared, Stamps, record_state}
use fenrir.Depot.Install.Apply.{is_empty}
use fenrir.Depot.Install.Backup.{Install}
use fenrir.Depot.Install.{
  lock_error, change_modules, change_if_any, finish, execute_locked, with_lock, execute,
}
use fenrir.Depot.Install.Rollback.{AreApart}
use fenrir.Depot.Install.Applied.{modules_of, HasNames}
use fenrir.Depot.Install.BackedUp.{KeepsModules}
use fenrir.Depot.Install.Safety.{
  leaves_all, Undone, Undone-by, Undone-bind, Undone-then, files_bind, pure-Undone,
  change_modules-Undone,
}

module _ (D : DepotProtocol) (M : Machine D) (C : Contract D M) (w : M.World)
    (prepared : Prepared D) (stamps : Stamps) where
  finish-Undone :
      (state : HostState D) (kept : Option String × List String)
      (recorded : HostState D × Option String) (v : M.World)
      → Undone D M C w (finish D M prepared state kept recorded v)
  finish-Undone state kept recorded v = files_bind D M C w (M.save recorded.0) _ v (λ _ saved.
      files_bind D M C w (M.prune_backups recorded.0.backup) _ _
        (λ _ pruned. pure-Undone D M C w _ _))

  module _ (named : HasNames D prepared.staged)
      (apart : AreApart (modules_of D (changed D prepared.plan))) where
    -- What follows the changes, if there are any, fails for files alone.
    change_then-Undone :
        (es : List (PlanEntry D)) (state : HostState D) (v : M.World)
        → KeepsModules D M C w v
        → Undone D M C w (
            (change_if_any D M es prepared stamps state >>= λ kept.
            finish D M prepared state kept (record_state D prepared stamps state kept.0))
              v)
    change_then-Undone es state v has =
        Undone-then D M C w (change_if_any D M es prepared stamps state) _ v (changes_undone es)
          (λ kept t. finish-Undone state kept _ t)
      where
        changes_undone :
            (es : List (PlanEntry D))
            → Undone D M C w (change_if_any D M es prepared stamps state v)
        changes_undone [] = pure-Undone D M C w (none, []) v
        changes_undone (e ∷ es) =
            Undone-then D M C w (change_modules D M prepared stamps state) _ v
              (change_modules-Undone D M C w prepared stamps named apart state v has)
              (λ (backup, applied) t. pure-Undone D M C w (some backup, applied) t)

    execute_locked-Undone :
        (v : M.World)
        → KeepsModules D M C w v
        → Undone D M C w (execute_locked D M prepared stamps v)
    unfolding execute_locked
    execute_locked-Undone v has = files_bind D M C w M.load _ v (λ state loaded.
        change_then-Undone (changed D prepared.plan) state _
          (λ id. (C.load-Keeps.holds v).0 id ∙ has id))

    with_lock-Undone :
        {A : Type 0} (m : Install D M A) (v : M.World)
        → KeepsModules D M C w v
        → ((u : M.World) → KeepsModules D M C w u → Undone D M C w (m u))
        → Undone D M C w (with_lock D M m v)
    with_lock-Undone m v has locked =
        let has' = λ (id : String). (C.take_lock-Keeps.holds v).0 id ∙ has id in
        Undone-bind D M C w (map_err (lock_error D M) M.take_lock) _ v has'
          (λ _ taken e failed undone id.
            (C.drop_lock-Same _).0 id ∙ locked (M.take_lock v).1 has' e failed undone id)

    execute-Undone : Undone D M C w (execute D M prepared stamps w)
    unfolding execute
    execute-Undone = elim (Bool-cases (is_empty prepared.plan.problems)) [
      | inl h ↦ rw h (
          with_lock-Undone (execute_locked D M prepared stamps) w (λ id. refl)
            execute_locked-Undone)
      | inr h ↦ rw h (
          Undone-by D M C w (err (refused (plan_problems prepared.plan.problems))) w
            (λ undone id. refl))
    ]

  -- Where every bundle is staged under its module's name and no two changes are of one module, an
  -- installation that fails leaves every module as it was, whatever had been changed before the
  -- error, unless the error is of files or says that the rollback was not completed.
  pub execute-leaves_all :
      HasNames D prepared.staged
      → AreApart (modules_of D (changed D prepared.plan))
      → (e : DepotError D) → (execute D M prepared stamps w).0 ≡ err e
      → leaves_all D e ≡ true
      → (id : String) → M.contents (execute D M prepared stamps w).1 id ≡ M.contents w id
  execute-leaves_all named apart = execute-Undone named apart

-- ===== src/Depot/Install/Files.antt =====
-- An application leaves the installer's files alone, whatever modules it changes (`apply` of
-- services/depot/installer.rs).
use fenrir.Prelude.{refl, String, Option, none, some, List, [], ◌∷◌, inl, inr, Bool-cases}
use fenrir.Prelude.Exec.{Exec, Keeps, pure-Keeps}
use fenrir.Prelude.Dict.{Dict, lookup}
use fenrir.Depot.Protocol.{DepotProtocol}
use fenrir.Depot.Plan.{PlanEntry}
use fenrir.Depot.Machine.{Machine, Same, Contract}
use fenrir.Depot.Install.Bundles.{StagedBundle}
use fenrir.Depot.Install.Apply.{
  host, is_remove, activate_staged, activate_entry, activate_changed, migrate, migrating,
  roll_changed, stop_changed, wait_all, apply,
}
use fenrir.Depot.Install.Restore.{restore_module}
use fenrir.Depot.Install.Kept.{
  stop_changed-Keeps, start-Keeps, migrate-Keeps, roll_changed-Keeps, wait_all-Keeps,
}
use fenrir.Depot.Install.Rollback.{SameFiles, files_bind, restore_module-files}
use fenrir.Depot.Install.Undo.{At-Same}

module _ (D : DepotProtocol) (M : Machine D) (C : Contract D M) where
  activate_staged-files :
      (name : String) (found : Option (StagedBundle D))
      → Keeps (SameFiles D M C) (activate_staged D M name found)
  unfolding restore_module
  activate_staged-files name none = record { holds = λ w path. refl }
  activate_staged-files name (some s) = restore_module-files D M C name (some s)

  activate_entry-files :
      (staged : Dict (StagedBundle D)) (e : PlanEntry D)
      → Keeps (SameFiles D M C) (activate_entry D M staged e)
  unfolding activate_entry restore_module
  activate_entry-files staged e = elim (Bool-cases (is_remove e.action)) [
    | inl h ↦ rw h (restore_module-files D M C e.module_name none)
    | inr h ↦ rw h (activate_staged-files e.module_name (lookup e.module_name staged))
  ]

  activate_changed-files :
      (staged : Dict (StagedBundle D)) (es : List (PlanEntry D))
      → Keeps (SameFiles D M C) (activate_changed D M staged es)
  unfolding activate_changed
  activate_changed-files staged [] = pure-Keeps (SameFiles D M C) [] (λ w path. refl)
  activate_changed-files staged (e ∷ es) =
      files_bind D M C (activate_entry D M staged e) _ (activate_entry-files staged e) (λ one.
        files_bind D M C (activate_changed D M staged es) _ (activate_changed-files staged es)
          (λ started. record { holds = λ w path. refl }))

  quiet : {E A : Type 0} (m : Exec M.World E A) → Keeps (Same D M) m → Keeps (SameFiles D M C) m
  quiet m h = record { holds = λ w. (h.holds w).1 }

  pub apply-files :
      (staged : Dict (StagedBundle D)) (es : List (PlanEntry D))
      → Keeps (SameFiles D M C) (apply D M staged es)
  unfolding apply
  apply-files staged es =
      files_bind D M C (stop_changed D M es) _
        (quiet _ (At-Same D M C _ (λ id. stop_changed-Keeps D M C id es)))
        (λ _.
          files_bind D M C (activate_changed D M staged es) _ (activate_changed-files staged es)
            (λ started.
              files_bind D M C (migrate D M (migrating D M es)) _
                (quiet _ (At-Same D M C _ (λ id. migrate-Keeps D M C id (migrating D M es))))
                (λ applied.
                  files_bind D M C (host D M (M.start started)) _
                    (quiet _ (At-Same D M C _ (λ id. start-Keeps D M C id started)))
                    (λ _.
                      files_bind D M C (roll_changed D M es) _
                        (quiet _ (At-Same D M C _ (λ id. roll_changed-Keeps D M C id es)))
                        (λ _.
                          files_bind D M C (wait_all D M started) _
                            (quiet _ (At-Same D M C _ (λ id. wait_all-Keeps D M C id started)))
                            (λ _. record { holds = λ w path. refl }))))))

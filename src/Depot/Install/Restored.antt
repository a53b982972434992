-- ===== src/Depot/Install/Restored.antt =====
-- What the whole rollback leaves behind (`restore` of services/depot/installer.rs).
use text.Mathlib.Text.{◌==◌}
use fenrir.Prelude.{
  ◌≡◌, ◌≢◌, ◌∙◌, String, List, [], ◌∷◌, All, All-imp, All-intro, arith, inl, inr, Bool-cases,
  eq_iff,
}
use fenrir.Prelude.Exec.{Exec, Keeps, Returns}
use fenrir.Prelude.Exec.Rules.{>>=-Returns, map_err-Returns, weaken, Keeps-Returns, both}
use fenrir.Prelude.Dict.{Dict, lookup, lookup-empty}
use fenrir.Depot.Protocol.{DepotProtocol}
use fenrir.Depot.State.{BackupModule}
use fenrir.Depot.Machine.{Machine, shown, Same, Contract}
use fenrir.Depot.Install.Bundles.{StagedBundle}
use fenrir.Depot.Install.Apply.{host, wait_all}
use fenrir.Depot.Install.Restore.{stop_all, restore_modules, restore}
use fenrir.Depot.Install.Kept.{stop_all-Keeps, restore_bundles-Keeps, start-Keeps, wait_all-Keeps}
use fenrir.Depot.Install.Rollback.{
  AreApart, names_of, Files, HasFiles, Faithful, Restores, Restores-IsNamed, restore_modules-Keeps,
  restore_modules-contents,
}
use fenrir.Depot.Install.Undo.{At-Same, restore_bundles-Restores}

-- What holds of every name in the list, and of a name that is not in it, holds of the name.
pub apart_or_in {ℓ} :
    {A : Type 0} (P : String → Type ℓ) (f : A → String) (id : String) (xs : List A)
    → All (λ x. P (f x)) xs
    → (All (λ x. id ≢ f x) xs → P id)
    → P id
apart_or_in P f id [] held outside = outside tt
apart_or_in P f id (x ∷ xs) held outside = elim (Bool-cases (id == f x)) [
  | inl e ↦ rw ((eq_iff id (f x)).0 (ground arith)) held.0
  | inr e ↦
      apart_or_in P f id xs held.1
        (λ apart. outside ((λ same. absurd (ground (arith, (eq_iff id (f x)).1 same))), apart))
]

module _ (D : DepotProtocol) (M : Machine D) (C : Contract D M) (backup : String) (w : M.World)
    (files : Files D M) (bs : List (BackupModule D)) where
  -- The modules outside the backup are as in the world, and the archives are there.
  abbrev pub IsOutside : M.World → Type 0
  IsOutside v =
      HasFiles D M files v
      × ((id : String) → All (λ b. id ≢ b.module_name) bs → M.contents v id ≡ M.contents w id)

  -- All of them are.
  abbrev pub HasContents : M.World → Type 0
  HasContents v = (id : String) → M.contents v id ≡ M.contents w id

  IsOutside-stays :
      {E A : Type 0} (m : Exec M.World E A)
      → Keeps (Same D M) m
      → Returns IsOutside m (λ _. IsOutside)
  IsOutside-stays m h =
      Keeps-Returns
        (λ u v same (has, outside).
          (λ path. same.1 path ∙ has path, λ id apart. same.0 id ∙ outside id apart))
        h

  contents_stay :
      {E A : Type 0} (m : Exec M.World E A)
      → Keeps (Same D M) m
      → Returns HasContents m (λ _. HasContents)
  contents_stay m h = Keeps-Returns (λ u v same has id. same.0 id ∙ has id) h

  abbrev Staged : Dict (StagedBundle D) → Type 0
  Staged staged = All (λ b. Restores D M files w b.module_name (lookup b.module_name staged)) bs

  restores_all :
      (staged : Dict (StagedBundle D))
      → AreApart (names_of D bs)
      → Staged staged
      → Returns IsOutside (restore_modules D M staged bs) (λ _. HasContents)
  restores_all staged apart restores = record {
    holds = λ u outside started made id.
        let inside =
          (restore_modules-contents D M C files w staged bs apart restores).holds u outside.0
            started made in
        apart_or_in (λ m. M.contents (restore_modules D M staged bs u).1 m ≡ M.contents w m)
          (λ (b : BackupModule D). b.module_name) id bs inside
          (λ beyond.
            let named =
              All-imp _ _ bs
                (λ (c : BackupModule D) h.
                  Restores-IsNamed D M C files w c.module_name (lookup c.module_name staged) h)
                restores in
            ((restore_modules-Keeps D M C id staged bs beyond named).holds u).0
            ∙ outside.1 id beyond);
  }

  -- A rollback that is completed leaves every module as it was in the world that was backed up.
  pub restore-contents :
      AreApart (names_of D bs)
      → All (Faithful D M files w backup) bs
      → Returns IsOutside (restore D M backup bs) (λ _. HasContents)
  unfolding restore
  restore-contents apart faithful =
      >>=-Returns (λ staged v. Staged staged × IsOutside v)
        (map_err-Returns shown (
          both
            (weaken (λ v h. tt) (λ staged v h. h)
              (restore_bundles-Restores D M C backup files w [] bs apart
                (All-intro _ bs (λ b. lookup-empty b.module_name)) faithful))
            (IsOutside-stays _
              (At-Same D M C _ (λ id. restore_bundles-Keeps D M C id backup [] bs)))))
        (λ staged. record {
          holds = λ u known.
              (>>=-Returns (λ _. IsOutside)
                  (IsOutside-stays (stop_all D M bs)
                    (At-Same D M C _ (λ id. stop_all-Keeps D M C id bs)))
                  (λ _.
                    >>=-Returns (λ _. HasContents) (restores_all staged apart known.0)
                      (λ started.
                        >>=-Returns (λ _. HasContents)
                          (contents_stay (host D M (M.start started))
                            (At-Same D M C _ (λ id. start-Keeps D M C id started)))
                          (λ _.
                            contents_stay (wait_all D M started)
                              (At-Same D M C _ (λ id. wait_all-Keeps D M C id started)))))).holds
                u known.1;
        })

-- ===== src/Depot/Install/Applied.antt =====
-- What the changes of a plan do to the modules (`apply` of services/depot/installer.rs).
use text.Mathlib.Text.{◌==◌}
use fenrir.Prelude.{
  ℕ, ◌≡◌, ◌≢◌, refl, sym, ◌∙◌, String, Bool, true, false, Option, none, some, List, [], ◌∷◌, All,
  All-imp, All-map_back, arith, ap, subst, inl, inr, Bool-cases, eq_iff, map,
}
use fenrir.Prelude.Exec.{Exec, Keeps, Returns, ◌>>=◌}
use fenrir.Prelude.Exec.Rules.{
  >>=-Returns, first-Returns, pure-Returns, raise-Returns, map_err-Returns, weaken, Keeps-Returns,
  both,
}
use fenrir.Prelude.Dict.{Dict, lookup}
use fenrir.Depot.Protocol.{DepotProtocol}
use fenrir.Depot.Plan.{PlanEntry}
use fenrir.Depot.Machine.{Machine, Manifest, Bundle, plain, shown, Same, Contract}
use fenrir.Depot.Install.Bundles.{StagedBundle}
use fenrir.Depot.Install.Apply.{
  Host, host, is_remove, activate_staged, activate_entry, activate_changed, migrate, migrating,
  roll_changed, stop_changed, wait_all, apply,
}
use fenrir.Depot.Install.Kept.{
  At, bind, done, on_host, remove-Keeps, stop_changed-Keeps, start-Keeps, migrate-Keeps,
  roll_changed-Keeps, wait_all-Keeps,
}
use fenrir.Depot.Install.Rollback.{
  AreApart, Files, HasFiles, IsLoaded, load_bundle-IsLoaded, IsNamed, restore_module-Keeps,
}
use fenrir.Depot.Install.Restore.{restore_module}
use fenrir.Depot.Install.Undo.{At-Same}

module _ (D : DepotProtocol) where
  abbrev pub modules_of : List (PlanEntry D) → List String
  modules_of es = map (λ e. e.module_name) es

  -- The bundles are staged under their modules' names.
  abbrev pub HasNames : Dict (StagedBundle D) → Type 0
  HasNames staged = All (λ entry. entry.1.manifest.id ≡ entry.0) staged

module _ (D : DepotProtocol) (M : Machine D) (C : Contract D M) where
  -- What the plan asks of a module that it removes, or that it gets from a bundle.
  abbrev pub AsPlanned : Bool → Option (StagedBundle D) → Option (Manifest D × M.Tree) → Type 0
  AsPlanned true found held = held ≡ none
  AsPlanned false found held =
      (s : StagedBundle D) × (bytes : List ℕ) × (found ≡ some s)
      × (held ≡ some (s.manifest, M.unpack bytes))
      × (D.digest_of bytes ≡ s.sha256)

  abbrev pub IsCarriedOut : Dict (StagedBundle D) → M.World → PlanEntry D → Type 0
  IsCarriedOut staged w e =
      AsPlanned (is_remove e.action) (lookup e.module_name staged) (M.contents w e.module_name)

  pub lookup-IsNamed :
      (name : String) (staged : Dict (StagedBundle D))
      → HasNames D staged
      → IsNamed D M C name (lookup name staged)
  unfolding lookup
  lookup-IsNamed name [] named = tt
  lookup-IsNamed name ((key, s) ∷ rest) named = elim (Bool-cases (key == name)) [
    | inl e ↦ rw e (named.0 ∙ (eq_iff key name).0 (ground (arith, e)))
    | inr e ↦ rw e (lookup-IsNamed name rest named.1)
  ]

  -- A module that a plan does not change.
  module _ (id : String) where
    activate_staged-Keeps :
        (name : String) (found : Option (StagedBundle D))
        → id ≢ name
        → IsNamed D M C name found
        → Keeps (At D M C id) (activate_staged D M name found)
    unfolding restore_module
    activate_staged-Keeps name none apart named = record { holds = λ w. (refl, λ path. refl) }
    activate_staged-Keeps name (some s) apart named =
        restore_module-Keeps D M C id name (some s) apart named

    activate_entry-Keeps :
        (staged : Dict (StagedBundle D)) (e : PlanEntry D)
        → HasNames D staged
        → id ≢ e.module_name
        → Keeps (At D M C id) (activate_entry D M staged e)
    unfolding activate_entry
    activate_entry-Keeps staged e named apart = elim (Bool-cases (is_remove e.action)) [
      | inl h ↦ rw h (
          bind D M C id _ _ (on_host D M C id _ (remove-Keeps D M C id e.module_name apart))
            (λ _. done D M C id none))
      | inr h ↦
          rw h (
            activate_staged-Keeps e.module_name _ apart (lookup-IsNamed e.module_name staged named))
    ]

    activate_changed-Keeps :
        (staged : Dict (StagedBundle D)) (es : List (PlanEntry D))
        → HasNames D staged
        → All (λ e. id ≢ e.module_name) es
        → Keeps (At D M C id) (activate_changed D M staged es)
    unfolding activate_changed
    activate_changed-Keeps staged [] named apart = done D M C id []
    activate_changed-Keeps staged (e ∷ es) named apart =
        bind D M C id _ _ (activate_entry-Keeps staged e named apart.0) (λ one.
          bind D M C id _ _ (activate_changed-Keeps staged es named apart.1)
            (λ started. done D M C id _))

    pub apply-Keeps :
        (staged : Dict (StagedBundle D)) (es : List (PlanEntry D))
        → HasNames D staged
        → All (λ e. id ≢ e.module_name) es
        → Keeps (At D M C id) (apply D M staged es)
    unfolding apply
    apply-Keeps staged es named apart = bind D M C id _ _ (stop_changed-Keeps D M C id es) (λ _.
        bind D M C id _ _ (activate_changed-Keeps staged es named apart) (λ started.
          bind D M C id _ _ (migrate-Keeps D M C id (migrating D M es)) (λ applied.
            bind D M C id _ _ (start-Keeps D M C id started) (λ _.
              bind D M C id _ _ (roll_changed-Keeps D M C id es) (λ _.
                bind D M C id _ _ (wait_all-Keeps D M C id started)
                  (λ _. done D M C id applied))))))

  activate_staged-IsCarriedOut :
      (name : String) (found : Option (StagedBundle D))
      → IsNamed D M C name found
      → Returns
          (λ _. Unit {0})
          (activate_staged D M name found)
          (λ _ v. AsPlanned false found (M.contents v name))
  unfolding restore_module
  activate_staged-IsCarriedOut name none named = raise-Returns
  activate_staged-IsCarriedOut name (some s) named = record {
    holds = λ u before. (loaded (M.file u)).holds u (λ path. refl);
  }
    where
      planned :
          (b : Bundle D) (v : M.World)
          → b.manifest ≡ s.manifest
          → M.contents (M.activate b v).1 b.manifest.id ≡ some (b.manifest, M.unpack b.archive)
          → M.contents (M.activate b v).1 name ≡ some (s.manifest, M.unpack b.archive)
      planned b v same now = cc (
        named,
        ap (λ (m : Manifest D). m.id) same,
        ap {B = Option (Manifest D × M.Tree)} (λ (m : Manifest D). some (m, M.unpack b.archive))
            same,
      )

      loaded :
          (files : Files D M)
          → Returns
              (HasFiles D M files)
              (restore_module D M name (some s))
              (λ _ v. AsPlanned false (some s) (M.contents v name))
      loaded files =
          >>=-Returns (λ b _. IsLoaded D M C s files b)
            (map_err-Returns shown (load_bundle-IsLoaded D M C s files))
            (λ b.
              >>=-Returns (λ _ v. AsPlanned false (some s) (M.contents v name))
                (map_err-Returns plain (record {
                  holds = λ v known u e.
                      (s, b.archive, refl, planned b v known.0 (C.activate_ok b v e), known.2);
                }))
                (λ _. pure-Returns (λ v h. h)))

  activate_entry-IsCarriedOut :
      (staged : Dict (StagedBundle D)) (e : PlanEntry D)
      → HasNames D staged
      → Returns (λ _. Unit {0}) (activate_entry D M staged e) (λ _ v. IsCarriedOut staged v e)
  unfolding activate_entry
  activate_entry-IsCarriedOut staged e named = elim (Bool-cases (is_remove e.action)) [
    | inl h ↦ rw h (
        >>=-Returns (λ _ v. M.contents v e.module_name ≡ none)
          (map_err-Returns plain
            (record { holds = λ w u a made. C.remove_ok e.module_name w made }))
          (λ _. pure-Returns (λ w h. h)))
    | inr h ↦
        rw h
          (activate_staged-IsCarriedOut e.module_name _ (lookup-IsNamed e.module_name staged named))
  ]

  activate_changed-IsCarriedOut :
      (staged : Dict (StagedBundle D)) (es : List (PlanEntry D))
      → HasNames D staged
      → AreApart (modules_of D es)
      → Returns
          (λ _. Unit {0})
          (activate_changed D M staged es)
          (λ _ v. All (IsCarriedOut staged v) es)
  unfolding activate_changed
  activate_changed-IsCarriedOut staged [] named apart = pure-Returns (λ w u. tt)
  activate_changed-IsCarriedOut staged (e ∷ es) named apart =
      let outside =
        All-map_back (λ m. e.module_name ≢ m) (λ (c : PlanEntry D). c.module_name) es apart.0 in
      >>=-Returns (λ _ v. IsCarriedOut staged v e) (activate_entry-IsCarriedOut staged e named)
        (λ one.
          >>=-Returns (λ _ v. All (IsCarriedOut staged v) (e ∷ es))
            (both
              (Keeps-Returns
                (λ u v at held.
                  subst (AsPlanned (is_remove e.action) (lookup e.module_name staged)) (sym at.0)
                    held)
                (activate_changed-Keeps e.module_name staged es named outside))
              (weaken (λ w h. tt) (λ _ w h. h)
                (activate_changed-IsCarriedOut staged es named apart.1)))
            (λ started. pure-Returns (λ w h. h)))

  IsCarriedOut-stays :
      {E A : Type 0} (staged : Dict (StagedBundle D)) (es : List (PlanEntry D))
      (m : Exec M.World E A)
      → Keeps (Same D M) m
      → Returns (λ v. All (IsCarriedOut staged v) es) m (λ _ v. All (IsCarriedOut staged v) es)
  IsCarriedOut-stays staged es m h =
      Keeps-Returns
        (λ u v same held.
          All-imp _ _ es
            (λ e.
              subst (AsPlanned (is_remove e.action) (lookup e.module_name staged))
                (sym (same.0 e.module_name)))
            held)
        h

  -- A plan that is applied is carried out, module by module.
  pub apply-IsCarriedOut :
      (staged : Dict (StagedBundle D)) (es : List (PlanEntry D))
      → HasNames D staged
      → AreApart (modules_of D es)
      → Returns (λ _. Unit {0}) (apply D M staged es) (λ _ v. All (IsCarriedOut staged v) es)
  unfolding apply
  apply-IsCarriedOut staged es named apart = first-Returns (stop_changed D M es) (λ _.
      >>=-Returns (λ _ v. All (IsCarriedOut staged v) es)
        (activate_changed-IsCarriedOut staged es named apart)
        (λ started.
          next (migrate D M (migrating D M es))
            (At-Same D M C _ (λ id. migrate-Keeps D M C id (migrating D M es)))
            (λ applied.
              next (host D M (M.start started))
                (At-Same D M C _ (λ id. start-Keeps D M C id started))
                (λ _.
                  next (roll_changed D M es)
                    (At-Same D M C _ (λ id. roll_changed-Keeps D M C id es))
                    (λ _.
                      next (wait_all D M started)
                        (At-Same D M C _ (λ id. wait_all-Keeps D M C id started))
                        (λ _. pure-Returns (λ w h. h)))))))
    where
      next :
          {A B : Type 0} (m : Host D M A) {f : A → Host D M B}
          → Keeps (Same D M) m
          → ((a : A)
              → Returns
                  (λ v. All (IsCarriedOut staged v) es)
                  (f a)
                  (λ _ v. All (IsCarriedOut staged v) es))
          → Returns
              (λ v. All (IsCarriedOut staged v) es)
              (m >>= f)
              (λ _ v. All (IsCarriedOut staged v) es)
      next m h k =
          >>=-Returns (λ _ v. All (IsCarriedOut staged v) es) (IsCarriedOut-stays staged es m h) k

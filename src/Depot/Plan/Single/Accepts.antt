-- ===== src/Depot/Plan/Single/Accepts.antt =====
-- When a plan for one module may go ahead (services/depot/plan.rs).
use text.Mathlib.Text.{◌==◌}
use mathlib.Core.List.{append-eq-nil_iff}
use fenrir.Prelude.{
  ◌≡◌, ◌↔◌, refl, Bool, true, false, Option, none, some, List, [], ◌∷◌, ◌++◌, arith, All, find,
  if◌then◌else◌,
}
use fenrir.Prelude.Dict.{lookup}
use fenrir.Depot.Protocol.{DepotProtocol}
use fenrir.Depot.State.{HostState, TargetModule, HostModule, Requirement}
use fenrir.Depot.Plan.{Problem, is_local_sync, is_local}
use fenrir.Depot.Plan.Single.{installed_problem, installed_problems, pin_problem, plan_module}

module _ (D : DepotProtocol) where
  -- The first installed module of the name has a version that the rule matches.
  abbrev pub Matched : List (HostModule D) → Requirement D → Type 0
  Matched installed r =
      (m : HostModule D) × (find (λ h. h.name == r.module_name) installed ≡ some m)
      × (D.matches r.rule m.version ≡ true)

  installed_problem_iff :
      (t : TargetModule D) (r : Requirement D) (o : Option (HostModule D))
      → (installed_problem D t r o ≡ [])
        ↔ ((m : HostModule D) × (o ≡ some m) × (D.matches r.rule m.version ≡ true))
  installed_problem_iff t r none = (λ e. absurd (cc), λ h. cc (h.1))
  installed_problem_iff t r (some m) = (λ e. (m, refl, ground arith), λ h. ground arith)

  installed_problems_iff :
      (installed : List (HostModule D)) (t : TargetModule D) (rs : List (Requirement D))
      → (installed_problems D installed t rs ≡ []) ↔ All (Matched installed) rs
  unfolding installed_problems
  installed_problems_iff installed t [] = (λ e. tt, λ h. refl)
  installed_problems_iff installed t (r ∷ rs) =
      let (f, b) = installed_problem_iff t r (find (λ h. h.name == r.module_name) installed) in
      let (g, c) = installed_problems_iff installed t rs in
      (
        λ e. let parts = append-eq-nil_iff.0 e in (f parts.0, g parts.1),
        λ h. append-eq-nil_iff.1 (b h.0, c h.1),
      )

  no_problems :
      (t : TargetModule D) (pin : Option D.Version) (synced : Bool) (rest : List (Problem D))
      → (pin_problem D t pin ++ ((if synced then is_local t.name ∷ [] else []) ++ rest) ≡ [])
        ↔ ((pin ≡ none) × (synced ≡ false) × (rest ≡ []))
  no_problems t none false rest = (λ e. (refl, refl, e), λ h. h.2)
  no_problems t none true rest = (λ e. absurd (cc), λ h. cc (h.1))
  no_problems t (some v) synced rest = (λ e. absurd (cc), λ h. cc (h.0))

  -- A plan for one module shows no problem exactly when the module is not pinned, is not locally
  -- synchronized, and each of its requirements is matched by an installed module.
  pub plan_module_iff :
      (target : TargetModule D) (installed : List (HostModule D)) (state : HostState D)
      → ((plan_module D target installed state).problems ≡ []) ↔ (
          (lookup target.name state.pins ≡ none)
          × (is_local_sync D (find (λ m. m.name == target.name) installed) ≡ false)
          × All (Matched installed) target.requires.modules)
  unfolding plan_module
  plan_module_iff target installed state =
      let (f, b) =
        no_problems target (lookup target.name state.pins)
          (is_local_sync D (find (λ m. m.name == target.name) installed))
          (installed_problems D installed target target.requires.modules) in
      let (g, c) = installed_problems_iff installed target target.requires.modules in
      (λ e. let parts = f e in (parts.0, parts.1, g parts.2), λ h. b (h.0, h.1, c h.2))

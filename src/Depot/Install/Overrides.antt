-- ===== src/Depot/Install/Overrides.antt =====
-- How installations end the overrides of single modules (`record_state` of
-- services/depot/installer.rs).
use text.Mathlib.Text.{◌==◌}
use fenrir.Prelude.{
  ◌≡◌, refl, ◌∙◌, String, Bool, true, false, ◌&&◌, ◌||◌, ap, Option, none, List, [], ◌∷◌, any,
  if◌then◌else◌,
}
use fenrir.Prelude.Dict.{Dict, lookup, remove, lookup-remove}
use fenrir.Depot.Protocol.{DepotProtocol}
use fenrir.Depot.State.{HostState, ModuleOverride}
use fenrir.Depot.Plan.{PlanEntry, settles}
use fenrir.Depot.Install.Record.{
  Prepared, Stamps, VerifiedRoot, distribution, end_overrides, record_state,
}

module _ (D : DepotProtocol) where
  -- The entry puts the distribution's module of the name in place, or finds it there.
  abbrev pub settles_name : String → PlanEntry D → Bool
  settles_name name e = settles e.action && (e.module_name == name)

  both_tests :
      {A : Type 0} (here rest : Bool) (found : Option A)
      → (if rest then none else if here then none else found)
        ≡ (if here || rest then none else found)
  both_tests true true found = refl
  both_tests true false found = refl
  both_tests false rest found = refl

  lookup-ended :
      (ends : Bool) (ended name : String) (overrides : Dict (ModuleOverride D))
      → lookup name (if ends then remove ended overrides else overrides)
        ≡ (if ends && (ended == name) then none else lookup name overrides)
  lookup-ended true ended name overrides = lookup-remove ended name overrides
  lookup-ended false ended name overrides = refl

  end_overrides-lookup :
      (name : String) (es : List (PlanEntry D)) (overrides : Dict (ModuleOverride D))
      → lookup name (end_overrides D es overrides)
        ≡ (if any (settles_name name) es then none else lookup name overrides)
  unfolding end_overrides
  end_overrides-lookup name [] overrides = refl
  end_overrides-lookup name (e ∷ es) overrides =
      let rest = any (settles_name name) es in
      let older = lookup name overrides in
      end_overrides-lookup name es
        (if settles e.action then remove e.module_name overrides else overrides)
      ∙ ap (λ found. if rest then none else found)
          (lookup-ended (settles e.action) e.module_name name overrides)
      ∙ both_tests (settles e.action && (e.module_name == name)) rest older

  -- The installation of a distribution ends the overrides of the modules that run it afterwards,
  -- and no other: the state that it records has no override of those, and the others unchanged.
  pub record_state-overrides :
      (prepared : Prepared D) (stamps : Stamps) (state : HostState D) (backup : Option String)
      (root : VerifiedRoot D) (rollback : Bool)
      → prepared.intent ≡ distribution root rollback
      → (name : String)
      → lookup name (record_state D prepared stamps state backup).0.overrides ≡ (
          if any (settles_name name) prepared.plan.entries
          then none
          else lookup name state.overrides)
  unfolding record_state
  record_state-overrides prepared stamps state backup root rollback is_distribution name =
      rw is_distribution (end_overrides-lookup name prepared.plan.entries state.overrides)

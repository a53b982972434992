-- ===== src/Depot/Plan/Distribution/Cover.antt =====
-- Which modules a plan has entries for, and in which order (services/depot/plan.rs).
use mathlib.Core.List.{Perm, map-append}
use mathlib.Core.List.Perm
use mathlib.Core.Path.{ap₂, subst}
use fenrir.Prelude.Dict.{Dict}
use fenrir.Prelude.{String, ap, ◌≡◌, refl, ◌∙◌, List, [], ◌∷◌, ◌++◌, map, keep, not}
use fenrir.Prelude.Sort.{sort_by, IsSorted, sort_by-perm, sort_by-IsSorted}
use fenrir.Prelude.Text.{compare-lt_of_gt}
use fenrir.Depot.Protocol.{DepotProtocol}
use fenrir.Depot.State.{HostState, TargetModule, HostModule}
use fenrir.Depot.Plan.{PlanEntry, compare_entries}
use fenrir.Depot.Plan.Distribution.{
  by_name, target_entry, kept_entry, planned_entries, plan_distribution, is_target,
}

module _ (D : DepotProtocol) where
  abbrev pub names_of : List (PlanEntry D) → List String
  names_of = map (λ e. e.module_name)

  target_names :
      (state : HostState D) (installed : Dict (HostModule D)) (targets : List (TargetModule D))
      → names_of (map (target_entry D state installed) targets) ≡ map (λ t. t.name) targets
  unfolding target_entry
  target_names state installed [] = refl
  target_names state installed (t ∷ ts) =
      ap (λ rest. t.name ∷ rest) (target_names state installed ts)

  kept_names : (ms : List (HostModule D)) → names_of (map (kept_entry D) ms) ≡ map (λ m. m.name) ms
  unfolding kept_entry
  kept_names [] = refl
  kept_names (m ∷ ms) = ap (λ rest. m.name ∷ rest) (kept_names ms)

  -- A plan for a distribution has, up to order, one entry for each target and one for each installed
  -- module that is no target, and no other.
  pub plan_distribution-perm :
      (title : String) (targets : List (TargetModule D)) (installed : List (HostModule D))
      (state : HostState D)
      → Perm (names_of (plan_distribution D title targets installed state).entries) (
          map (λ t. t.name) targets
          ++ map (λ m. m.name) (keep (λ m. not (is_target D targets m)) installed))
  unfolding plan_distribution planned_entries
  plan_distribution-perm title targets installed state =
      let here = by_name D [] installed in
      let entries =
        map (target_entry D state here) targets
        ++ map (kept_entry D) (keep (λ m. not (is_target D targets m)) installed) in
      subst (Perm (names_of (sort_by (compare_entries D) entries)))
        (map-append _ _ _ ∙ ap₂ (λ a b. a ++ b) (target_names state here targets) (kept_names _))
        (Perm.map _ (sort_by-perm (compare_entries D) entries))

  -- The entries of a plan for a distribution stand in the order of their modules' names.
  pub plan_distribution-IsSorted :
      (title : String) (targets : List (TargetModule D)) (installed : List (HostModule D))
      (state : HostState D)
      → IsSorted (compare_entries D) (plan_distribution D title targets installed state).entries
  unfolding plan_distribution planned_entries
  plan_distribution-IsSorted title targets installed state =
      sort_by-IsSorted (compare_entries D) (λ a b. compare-lt_of_gt a.module_name b.module_name) _

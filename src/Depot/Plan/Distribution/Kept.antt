-- ===== src/Depot/Plan/Distribution/Kept.antt =====
-- What an install leaves alone (services/depot/plan.rs).
use fenrir.Prelude.{
  String, ◌≡◌, true, false, not, ◌||◌, none, List, [], map, keep, arith, is_some, All, All-append,
  All-map, All-intro,
}
use fenrir.Prelude.Dict.{Dict, lookup}
use fenrir.Prelude.Sort.{sort_by-All}
use fenrir.Depot.Protocol.{DepotProtocol}
use fenrir.Depot.State.{HostState, TargetModule, HostModule}
use fenrir.Depot.Plan.{PlanEntry, changes, no_restart, is_local_sync, compare_entries}
use fenrir.Depot.Plan.Distribution.{
  by_name, target_entry, kept_entry, planned_entries, plan_distribution, is_target,
}

module _ (D : DepotProtocol) where
  -- The entry changes no file and restarts nothing: what runs is what is installed.
  pub record IsUntouched (e : PlanEntry D) : Type 0 where
    pub action : changes e.action ≡ false
    pub target : e.target ≡ e.installed
    pub restart : e.restart ≡ no_restart

  -- An entry of a pinned or locally synchronized module, or of one that is no target, is untouched.
  abbrev pub Respects : HostState D → Dict (HostModule D) → PlanEntry D → Type 0
  Respects state installed e =
      ((is_local_sync D (lookup e.module_name installed)
            || is_some (lookup e.module_name state.pins))
          ≡ true
        → IsUntouched e)
      × (e.source ≡ none → IsUntouched e)

  target_entry-Respects :
      (state : HostState D) (installed : Dict (HostModule D)) (t : TargetModule D)
      → Respects state installed (target_entry D state installed t)
  unfolding target_entry
  target_entry-Respects state installed t = (λ h. ground arith, λ h. cc)

  kept_entry-Respects :
      (state : HostState D) (installed : Dict (HostModule D)) (m : HostModule D)
      → Respects state installed (kept_entry D m)
  unfolding kept_entry
  kept_entry-Respects state installed m = (λ h. ground arith, λ h. ground arith)

  -- In a plan for a distribution every entry of a module that is pinned or locally synchronized, and
  -- every entry of a module that the distribution does not have, changes no files, restarts nothing
  -- and leaves running what is installed.
  pub plan_distribution-Respects :
      (title : String) (targets : List (TargetModule D)) (installed : List (HostModule D))
      (state : HostState D)
      → All
          (Respects state (by_name D [] installed))
          (plan_distribution D title targets installed state).entries
  unfolding plan_distribution planned_entries
  plan_distribution-Respects title targets installed state =
      let P = Respects state (by_name D [] installed) in
      sort_by-All (compare_entries D) P _ (
        All-append P (map (target_entry D state (by_name D [] installed)) targets) _
          (All-map P _ targets
            (All-intro _ targets (target_entry-Respects state (by_name D [] installed))))
          (All-map P (kept_entry D) (keep (λ m. not (is_target D targets m)) installed)
            (All-intro _ _ (kept_entry-Respects state (by_name D [] installed)))))

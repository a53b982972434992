-- ===== src/Depot/Plan/Distribution.antt =====
-- `plan_distribution` of services/depot/plan.rs: every target module against what is installed.
pub mod Kept
pub mod Changes
pub mod Cover
pub mod Requirements
use text.Mathlib.Text.{◌==◌}
use fenrir.Prelude.{
  String, Bool, not, ◌&&◌, Option, none, some, List, [], ◌∷◌, ◌++◌, map, if◌then◌else◌, any, keep,
  is_some,
}
use fenrir.Prelude.Dict.{Dict, lookup, insert}
use fenrir.Prelude.Sort.{sort_by}
use fenrir.Depot.Protocol.{DepotProtocol, version_eq}
use fenrir.Depot.State.{HostState, ModuleOverride, Requirement, TargetModule, HostModule}
use fenrir.Depot.Plan.{
  Action, pinned, local_sync, optional_skipped, kept, changes, settles, why, no_restart, Note,
  distribution_has, ends_override, Problem, stays, left_out, named, PlanEntry, Plan, restart_for,
  change_action, is_local_sync, version_of, compare_entries,
}

module _ (D : DepotProtocol) where
  -- The map by name, in which a later module of a name takes the place of an earlier one.
  unfoldable pub by_name : Dict (HostModule D) → List (HostModule D) → Dict (HostModule D)
  by_name acc [] = acc
  by_name acc (m ∷ ms) = by_name (insert m.name m acc) ms

  -- The action for a target module, from what is installed and what is pinned.
  unfoldable pub target_action : Option (HostModule D) → Option D.Version → TargetModule D → Action
  unfolding change_action
  target_action current pin target =
      if is_local_sync D current
      then local_sync
      else if is_some pin
      then pinned
      else if target.optional && not (is_some current)
      then optional_skipped
      else change_action D current target

  -- The note of the entry: the pin's, unless the entry settles a module that has an override.
  abbrev pub pin_note : Option D.Version → TargetModule D → Option (Note D)
  pin_note none target = none
  pin_note (some pin) target =
      if version_eq D pin target.version then none else some (distribution_has target.version)

  abbrev pub override_note : Option (ModuleOverride D) → Option (Note D) → Option (Note D)
  override_note none before = before
  override_note (some over) before = some (ends_override over.version over.from)

  unfoldable pub target_note :
      Action → Option D.Version → Option (ModuleOverride D) → TargetModule D → Option (Note D)
  target_note action pin over target =
      let note : Option (Note D) = elim action [ pinned ↦ pin_note pin target | _ ↦ none ] in
      if settles action then override_note over note else note

  -- What runs afterwards.
  abbrev pub runs_after : Action → Option (HostModule D) → TargetModule D → Option D.Version
  runs_after pinned current target = version_of D current
  runs_after local_sync current target = version_of D current
  runs_after optional_skipped current target = none
  runs_after _ current target = some target.version

  -- The entry that a target module adds.
  unfoldable pub target_entry : HostState D → Dict (HostModule D) → TargetModule D → PlanEntry D
  unfolding target_action target_note restart_for
  target_entry state installed target =
      let current = lookup target.name installed in
      let pin = lookup target.name state.pins in
      let action = target_action current pin target in
      record {
        module_name = target.name;
        rule = some target.rule;
        installed = version_of D current;
        target = runs_after action current target;
        size = if changes action then some target.size else none;
        action = action;
        restart = if changes action then restart_for D current else no_restart;
        migrations = [];
        via = target.via;
        note = target_note action pin (lookup target.name state.overrides) target;
        source = some target;
      }

  -- The entry of an installed module that is no target.
  unfoldable pub kept_entry : HostModule D → PlanEntry D
  kept_entry m = record {
    module_name = m.name;
    rule = none;
    installed = some m.version;
    target = some m.version;
    size = none;
    action = if m.local_sync then local_sync else kept;
    restart = no_restart;
    migrations = [];
    via = none;
    note = none;
    source = none;
  }

  abbrev pub is_target : List (TargetModule D) → HostModule D → Bool
  is_target targets m = any (λ t. t.name == m.name) targets

  unfoldable pub planned_entries :
      List (TargetModule D) → List (HostModule D) → HostState D → List (PlanEntry D)
  unfolding target_entry kept_entry by_name
  planned_entries targets installed state = sort_by (compare_entries D) (
      map (target_entry state (by_name [] installed)) targets
      ++ map kept_entry (keep (λ m. not (is_target targets m)) installed))

  -- `runs`: the version and the action of every module that runs afterwards.
  unfoldable pub runs_of :
      Dict (D.Version × Action) → List (PlanEntry D) → Dict (D.Version × Action)
  runs_of acc [] = acc
  runs_of acc (e ∷ es) =
      runs_of
        (elim e.target [ none ↦ acc | some version ↦ insert e.module_name (version, e.action) acc ])
        es

  -- The problem of one requirement of a signed module, if it has one.
  abbrev pub requirement_problem :
      TargetModule D → Requirement D → Option (D.Version × Action) → List (Problem D)
  requirement_problem source requirement none =
      left_out source.name source.version requirement.module_name requirement.rule ∷ []
  requirement_problem source requirement (some (version, action)) =
      if D.matches requirement.rule version
      then []
      else stays source.name source.version requirement.module_name requirement.rule (why action)
          version
        ∷ []

  unfoldable pub requirement_problems :
      Dict (D.Version × Action) → TargetModule D → List (Requirement D) → List (Problem D)
  requirement_problems runs source [] = []
  requirement_problems runs source (r ∷ rs) =
      requirement_problem source r (lookup r.module_name runs)
      ++ requirement_problems runs source rs

  abbrev pub entry_problems :
      Dict (D.Version × Action) → Action → Option (TargetModule D) → List (Problem D)
  entry_problems runs action none = []
  entry_problems runs action (some source) =
      if settles action then requirement_problems runs source source.requires.modules else []

  unfoldable pub collect_problems :
      Dict (D.Version × Action) → List (PlanEntry D) → List (Problem D)
  unfolding requirement_problems
  collect_problems runs [] = []
  collect_problems runs (e ∷ es) = entry_problems runs e.action e.source ++ collect_problems runs es

  unfoldable pub effective_requirements : List (PlanEntry D) → List (Problem D)
  unfolding runs_of collect_problems
  effective_requirements entries = collect_problems (runs_of [] entries) entries

  unfoldable pub plan_distribution :
      String → List (TargetModule D) → List (HostModule D) → HostState D → Plan D
  unfolding planned_entries effective_requirements
  plan_distribution title targets installed state =
      let entries = planned_entries targets installed state in
      record { title = named title; entries = entries; problems = effective_requirements entries }

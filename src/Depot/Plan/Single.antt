-- ===== src/Depot/Plan/Single.antt =====
-- `plan_module` and `plan_restore` of services/depot/plan.rs.
pub mod Accepts
pub mod Undo
use text.Mathlib.Text.{◌==◌}
use fenrir.Prelude.{
  String, Option, none, some, List, [], ◌∷◌, ◌++◌, map, if◌then◌else◌, find, is_some,
}
use fenrir.Prelude.Dict.{lookup}
use fenrir.Prelude.Sort.{sort_by}
use fenrir.Depot.Protocol.{DepotProtocol}
use fenrir.Depot.State.{
  HostState, Requirement, TargetModule, HostModule, BackupModule, BackupRecord,
}
use fenrir.Depot.Plan.{
  restore, remove, changes, stop, no_restart, from_backup, Problem, is_pinned, is_local, mismatched,
  not_installed, named, one_module, PlanEntry, Plan, restart_for, change_action, is_local_sync,
  version_of, compare_entries,
}

module _ (D : DepotProtocol) where
  -- The problem of one requirement of a single module against what is installed.
  abbrev pub installed_problem :
      TargetModule D → Requirement D → Option (HostModule D) → List (Problem D)
  installed_problem target requirement none =
      not_installed target.name target.version requirement.module_name requirement.rule ∷ []
  installed_problem target requirement (some m) =
      if D.matches requirement.rule m.version
      then []
      else mismatched target.name target.version requirement.module_name requirement.rule m.version
        ∷ []

  unfoldable pub installed_problems :
      List (HostModule D) → TargetModule D → List (Requirement D) → List (Problem D)
  installed_problems installed target [] = []
  installed_problems installed target (r ∷ rs) =
      installed_problem target r (find (λ m. m.name == r.module_name) installed)
      ++ installed_problems installed target rs

  abbrev pub pin_problem : TargetModule D → Option D.Version → List (Problem D)
  pin_problem target none = []
  pin_problem target (some pin) = is_pinned target.name pin ∷ []

  unfoldable pub plan_module : TargetModule D → List (HostModule D) → HostState D → Plan D
  unfolding change_action restart_for installed_problems
  plan_module target installed state =
      let current = find (λ m. m.name == target.name) installed in
      let action = change_action D current target in
      let entry : PlanEntry D = record {
        module_name = target.name;
        rule = none;
        installed = version_of D current;
        target = some target.version;
        size = if changes action then some target.size else none;
        action = action;
        restart = if changes action then restart_for D current else no_restart;
        migrations = [];
        via = none;
        note = none;
        source = some target;
      } in
      record {
        title = one_module target.name target.version;
        entries = entry ∷ [];
        problems =
            pin_problem target (lookup target.name state.pins)
            ++ ((if is_local_sync D current then is_local target.name ∷ [] else [])
                ++ installed_problems installed target target.requires.modules);
      }

  -- The entry that undoes the change of one backed-up module.
  unfoldable pub restore_entry : List (HostModule D) → BackupModule D → PlanEntry D
  unfolding restart_for
  restore_entry installed backed =
      let current = find (λ m. m.name == backed.module_name) installed in
      record {
        module_name = backed.module_name;
        rule = none;
        installed = version_of D current;
        target = elim backed.previous [ none ↦ none | some previous ↦ some previous.version ];
        size = none;
        action = elim backed.previous [ none ↦ remove | some previous ↦ restore ];
        restart = elim backed.previous [
          | none ↦ if is_some current then stop else no_restart
          | some previous ↦ restart_for D current
        ];
        migrations = [];
        via = none;
        note = some from_backup;
        source = none;
      }

  unfoldable pub plan_restore : String → BackupRecord D → List (HostModule D) → Plan D
  unfolding restore_entry
  plan_restore title backup installed = record {
    title = named title;
    entries = sort_by (compare_entries D) (map (restore_entry installed) backup.modules);
    problems = [];
  }

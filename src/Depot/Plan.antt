-- ===== src/Depot/Plan.antt =====
-- services/depot/plan.rs: what an install would change. The texts that the code formats for the
-- operator (titles, notes, problems) are constructors that carry what is put into them.
pub mod Distribution
pub mod Single
use Prim.Native.Nat.{Ordering}
use Prim.Native.String.{compare as compare_names}
use text.Mathlib.Text.{◌==◌}
use fenrir.Prelude.{
  ℕ, zero, suc, ◌+◌, min, u64_max, String, Bool, true, false, not, ◌&&◌, ◌||◌, Option, none, some,
  List, [], ◌∷◌, ◌++◌, map, ltb, if◌then◌else◌, any, find, keep, is_some,
}
use fenrir.Prelude.Dict.{Dict, lookup, insert}
use fenrir.Prelude.Text.{eq_ignore_ascii_case}
use fenrir.Prelude.Sort.{sort_by}
use fenrir.Depot.Protocol.{DepotProtocol, version_eq, version_lt}
use fenrir.Depot.State.{
  HostState, ModuleOverride, Requirement, Requires, TargetModule, HostModule, BackedUpModule,
  BackupModule, BackupRecord,
}

pub data Action : Type 0 where
  install update downgrade replace unchanged pinned local_sync optional_skipped kept restore
        remove :
      Action

-- `Action::changes`.
abbrev pub changes : Action → Bool
changes install = true
changes update = true
changes downgrade = true
changes replace = true
changes restore = true
changes remove = true
changes _ = false

-- `Action::label`.
unfoldable pub action_label : Action → String
action_label install = "install"
action_label update = "update"
action_label downgrade = "downgrade"
action_label replace = "replace (other build)"
action_label unchanged = "unchanged"
action_label pinned = "pinned, kept"
action_label local_sync = "local sync, kept"
action_label optional_skipped = "optional, not installed"
action_label kept = "not in distribution, kept"
action_label restore = "restore"
action_label remove = "remove"

pub data Restart : Type 0 where
  no_restart start restart rolling stop : Restart

-- `Restart::label`.
unfoldable pub restart_label : Restart → String
restart_label no_restart = ""
restart_label start = "start"
restart_label restart = "restart"
restart_label rolling = "rolling restart"
restart_label stop = "stop"

abbrev pub is_unchanged : Action → Bool
is_unchanged unchanged = true
is_unchanged _ = false

-- Whether the signed module runs after the plan: it is changed to, or there already.
abbrev pub settles : Action → Bool
settles action = changes action || is_unchanged action

-- What a problem says about why the required module stays where it is.
pub data Why : Type 0 where
  pinned_at synchronized_at kept_at at_all : Why

abbrev pub why : Action → Why
why pinned = pinned_at
why local_sync = synchronized_at
why kept = kept_at
why _ = at_all

module _ (D : DepotProtocol) where
  pub data Note : Type 0 where
    distribution_has : D.Version → Note
    ends_override : D.Version → String → Note
    from_backup : Note

  pub data Problem : Type 0 where
    -- name and version, what it requires and the rule, and where that stays
    stays : String → D.Version → String → D.Rule → Why → D.Version → Problem
    left_out : String → D.Version → String → D.Rule → Problem
    is_pinned : String → D.Version → Problem
    is_local : String → Problem
    mismatched : String → D.Version → String → D.Rule → D.Version → Problem
    not_installed : String → D.Version → String → D.Rule → Problem

  pub data Title : Type 0 where
    named : String → Title
    one_module : String → D.Version → Title

  pub record PlanEntry : Type 0 where
    pub module_name : String
    pub rule : Option String
    pub installed : Option D.Version
    pub target : Option D.Version
    pub size : Option ℕ
    pub action : Action
    pub restart : Restart
    pub migrations : List String
    pub via : Option String
    pub note : Option Note
    pub source : Option (TargetModule D)

  pub record Plan : Type 0 where
    pub title : Title
    pub entries : List PlanEntry
    pub problems : List Problem

  -- `Plan::changes`.
  abbrev pub changed : Plan → List PlanEntry
  changed plan = keep (λ e. changes e.action) plan.entries

  unfoldable pub has_changes : Plan → Bool
  has_changes plan = any (λ e. changes e.action) plan.entries

  -- `filter_map(size).fold(0, u64::saturating_add)`.
  unfoldable pub fold_sizes : ℕ → List PlanEntry → ℕ
  fold_sizes acc [] = acc
  fold_sizes acc (e ∷ es) =
      fold_sizes (elim e.size [ none ↦ acc | some size ↦ min (acc + size) u64_max ]) es

  unfoldable pub download_size : Plan → ℕ
  unfolding fold_sizes
  download_size plan = fold_sizes 0 (changed plan)

  unfoldable pub restart_for : Option (HostModule D) → Restart
  restart_for none = start
  restart_for (some m) =
      if m.running && ltb 1 m.instances then rolling else if m.running then restart else start

  unfoldable pub change_action : Option (HostModule D) → TargetModule D → Action
  change_action none target = install
  change_action (some m) target =
      if version_eq D m.version target.version
      then (if eq_ignore_ascii_case m.sha256 (D.to_hex target.sha256) then unchanged else replace)
      else if version_lt D m.version target.version
      then update
      else downgrade

  -- `current.is_some_and(|module| module.local_sync)`.
  abbrev pub is_local_sync : Option (HostModule D) → Bool
  is_local_sync none = false
  is_local_sync (some m) = m.local_sync

  abbrev pub version_of : Option (HostModule D) → Option D.Version
  version_of none = none
  version_of (some m) = some m.version

  abbrev pub compare_entries : PlanEntry → PlanEntry → Ordering
  compare_entries a b = compare_names a.module_name b.module_name

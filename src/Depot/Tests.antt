-- ===== src/Depot/Tests.antt =====
-- The plans' theorems at a concrete host, and runs of the planning code.
use mathlib.Core.List.{Perm}
use fenrir.Prelude.{◌≡◌, ◌↔◌, refl, true, false, none, some, List, [], ◌∷◌, find, All}
use fenrir.Prelude.Dict.{lookup, insert}
use fenrir.Prelude.Sort.{sort_by}
use fenrir.Prelude.Text.{eq_ignore_ascii_case}
use fenrir.Depot.Numbered.{numbered, manifest_of}
use fenrir.Depot.State.{HostState, TargetModule, HostModule, BackupRecord, default}
use fenrir.Depot.Plan.{has_changes, download_size, is_local_sync, stays, pinned_at}
use fenrir.Depot.Plan.Distribution.{plan_distribution, by_name}
use fenrir.Depot.Plan.Distribution.Kept.{Respects, plan_distribution-Respects}
use fenrir.Depot.Plan.Distribution.Changes.{IsSettled, has_changes_iff}
use fenrir.Depot.Plan.Distribution.Cover.{names_of, plan_distribution-perm}
use fenrir.Depot.Plan.Distribution.Requirements.{RequirementsMet, plan_distribution-RequirementsMet}
use fenrir.Depot.Plan.Single.{plan_module}
use fenrir.Depot.Plan.Single.Accepts.{Matched, plan_module_iff}
use text.Mathlib.Text.{◌==◌}

abbrev web : TargetModule numbered
web = record {
  name = "web";
  rule = "*";
  version = 3;
  platform = "any";
  sha256 = "aa";
  size = 40;
  optional = false;
  requires = record { modules = record { module_name = "api"; rule = 2 } ∷ []; fenrir_rule = none };
  via = none;
}

abbrev api : TargetModule numbered
api = record {
  name = "api";
  rule = "*";
  version = 2;
  platform = "any";
  sha256 = "bb";
  size = 2;
  optional = false;
  requires = record { modules = []; fenrir_rule = none };
  via = none;
}

abbrev api_here : HostModule numbered
api_here = record {
  name = "api";
  version = 1;
  sha256 = "CC";
  local_sync = false;
  running = true;
  instances = 2;
  migrations = [];
}

abbrev mail_here : HostModule numbered
mail_here = record {
  name = "mail";
  version = 9;
  sha256 = "dd";
  local_sync = false;
  running = true;
  instances = 1;
  migrations = [];
}

abbrev clean : HostState numbered
clean = default numbered

-- The host keeps `api` at the version that it has.
abbrev pinning : HostState numbered
pinning = record clean { pins = ("api", 1) ∷ [] }

abbrev targets : List (TargetModule numbered)
targets = web ∷ api ∷ []

abbrev here : List (HostModule numbered)
here = mail_here ∷ api_here ∷ []

pinned_problem :
    (plan_distribution numbered "p" targets here pinning).problems
    ≡ stays "web" 3 "api" 2 pinned_at 1 ∷ []
unfolding plan_distribution lookup insert sort_by
pinned_problem = refl

no_problem : (plan_distribution numbered "p" targets here clean).problems ≡ []
unfolding plan_distribution lookup insert sort_by
no_problem = refl

plan_distribution-Respects_example :
    All
      (Respects numbered pinning (by_name numbered [] here))
      (plan_distribution numbered "p" targets here pinning).entries
plan_distribution-Respects_example = plan_distribution-Respects numbered "p" targets here pinning

has_changes_iff_example :
    (has_changes numbered (plan_distribution numbered "p" targets here clean) ≡ false)
    ↔ All (IsSettled numbered clean (by_name numbered [] here)) targets
has_changes_iff_example = has_changes_iff numbered "p" targets here clean

size_of_both : download_size numbered (plan_distribution numbered "p" targets here clean) ≡ 42
unfolding download_size plan_distribution lookup insert sort_by eq_ignore_ascii_case
size_of_both = refl

plan_distribution-perm_example :
    Perm
      (names_of numbered (plan_distribution numbered "p" targets here clean).entries)
      ("web" ∷ "api" ∷ "mail" ∷ [])
plan_distribution-perm_example = plan_distribution-perm numbered "p" targets here clean

plan_distribution-RequirementsMet_example :
    All
      (RequirementsMet numbered (plan_distribution numbered "p" targets here clean).entries)
      (plan_distribution numbered "p" targets here clean).entries
plan_distribution-RequirementsMet_example =
    plan_distribution-RequirementsMet numbered "p" targets here clean no_problem

plan_module_iff_example : ((plan_module numbered web here pinning).problems ≡ []) ↔ (
    (lookup "web" pinning.pins ≡ none)
    × (is_local_sync numbered (find (λ m. m.name == "web") here) ≡ false)
    × All (Matched numbered here) web.requires.modules)
plan_module_iff_example = plan_module_iff numbered web here pinning

abbrev backup : BackupRecord numbered
backup = record {
  format = "fenrir/depot-backup/v1";
  created_at = "now";
  before = none;
  after = "p-1";
  modules =
      record { module_name = "web"; previous = none }
      ∷ record {
        module_name = "api";
        previous = some (record {
          version = 1;
          archive = "api.tgz";
          manifest = manifest_of "api" 1;
          archive_sha256 = "ee";
        });
      }
      ∷ [];
}

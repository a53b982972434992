-- ===== src/Depot/Install/Tests.antt =====
-- The installer's theorems at a small host.
use text.Mathlib.Text.{◌==◌}
use fenrir.Prelude.{
  if◌then◌else◌, ℕ, ◌≡◌, ◌≢◌, refl, eq_iff, arith, Bool-cases, inl, inr, String, true, false, none,
  some, List, [], ◌∷◌, Option, All,
}
use fenrir.Prelude.Exec.{ok, err}
use fenrir.Prelude.Dict.{lookup, insert}
use fenrir.Depot.Numbered.{numbered, manifest_of}
use fenrir.Depot.State.{TargetModule, BackupModule, HostState, default}
use fenrir.Depot.Plan.{PlanEntry, update, restart, one_module}
use fenrir.Depot.Machine.{FilePath, blob, Manifest, installing, plain}
use fenrir.Depot.Install.Record.{
  Prepared, Stamps, one_candidate, distribution, VerifiedRoot, Outcome, backup_name,
}
use fenrir.Depot.Install.Bundles.{archive_name}
use fenrir.Depot.Install.Restore.{restore}
use fenrir.Depot.Install.Backup.{backup_all}
use fenrir.Depot.Install.Applied.{IsCarriedOut}
use fenrir.Depot.Install.RoundTrip.{backup_all-restore}
use fenrir.Depot.Install.Desk.{Desk, desk, desk_keeps}
use fenrir.Depot.Install.{execute}
use fenrir.Depot.Install.Failure.{execute-leaves_all}
use fenrir.Depot.Install.Success.{execute-IsCarriedOut, execute-others}

abbrev modules_here : String → Option (Manifest numbered × List ℕ)
modules_here id = if id == "api" then some (manifest_of "api" 1, 7 ∷ []) else none

-- The new bundle is in the cache, with the given bytes.
abbrev cache_of : List ℕ → FilePath → Option (List ℕ)
cache_of bytes (blob digest) = some bytes
cache_of bytes _ = none

abbrev here : List ℕ → Desk
here bytes = record { contents = modules_here; file = cache_of bytes }

abbrev api_update : PlanEntry numbered
api_update = record {
  module_name = "api";
  rule = none;
  installed = some 1;
  target = some 2;
  size = some 1;
  action = update;
  restart = restart;
  migrations = "m1" ∷ [];
  via = none;
  note = none;
  source = none;
}

abbrev api_two : TargetModule numbered
api_two = record {
  name = "api";
  rule = "*";
  version = 2;
  platform = "any";
  sha256 = "bb";
  size = 1;
  optional = false;
  requires = record { modules = []; fenrir_rule = none };
  via = none;
}

abbrev prepared_with : String → ℕ → Prepared numbered
prepared_with digest size = record {
  intent = one_candidate (record { candidate = api_two; from = "stable" });
  plan = record { title = one_module "api" 2; entries = api_update ∷ []; problems = [] };
  skipped = [];
  host_includes = [];
  staged =
      (
        "api",
        record { manifest = manifest_of "api" 2; path = blob digest; sha256 = digest; size = size },
      )
      ∷ [];
  downloaded = size;
}

abbrev stamps : Stamps
stamps = record { named_at = "2026"; created_at = "2026"; installed_at = "2026" }

-- An empty archive never gets healthy, so that the installation is rolled back.
abbrev empty_update : Prepared numbered
empty_update = prepared_with "aa" 0

empty_fails :
    (execute numbered desk empty_update stamps (here [])).0
    ≡ err (installing (plain "unhealthy") true)
unfolding execute backup_name archive_name lookup insert
empty_fails = refl

execute-leaves_all_example :
    desk.contents (execute numbered desk empty_update stamps (here [])).1 "api"
    ≡ some (manifest_of "api" 1, 7 ∷ [])
execute-leaves_all_example =
    execute-leaves_all numbered desk desk_keeps (here []) empty_update stamps (refl, tt) (tt, tt)
      (installing (plain "unhealthy") true) empty_fails refl "api"

abbrev good_update : Prepared numbered
good_update = prepared_with "bb" 1

abbrev good_outcome : Outcome numbered
good_outcome = record {
  title = one_module "api" 2;
  changed = api_update ∷ [];
  migrations = "api" ∷ [];
  backup = none;
}

good_succeeds : (execute numbered desk good_update stamps (here (9 ∷ []))).0 ≡ ok good_outcome
unfolding execute backup_name archive_name lookup insert
good_succeeds = refl

execute-IsCarriedOut_example :
    All
      (IsCarriedOut numbered desk desk_keeps good_update.staged
        (execute numbered desk good_update stamps (here (9 ∷ []))).1)
      (api_update ∷ [])
execute-IsCarriedOut_example =
    execute-IsCarriedOut numbered desk desk_keeps (here (9 ∷ [])) good_update stamps (refl, tt)
      (tt, tt) good_outcome good_succeeds

web_apart : ◌≢◌ {A = String} "web" "api"
web_apart e = absurd (ground (arith, (eq_iff "web" "api").1 e))

execute-others_example :
    desk.contents (execute numbered desk good_update stamps (here (9 ∷ []))).1 "web" ≡ none
execute-others_example =
    execute-others numbered desk desk_keeps (here (9 ∷ [])) good_update stamps (refl, tt) (tt, tt)
      good_outcome good_succeeds "web" (web_apart, tt)

abbrev api_backed : List (BackupModule numbered)
api_backed =
    record {
      module_name = "api";
      previous = some (record {
        version = 1;
        archive = "api.tar.gz";
        archive_sha256 = "bb";
        manifest = manifest_of "api" 1;
      });
    }
    ∷ []

backs_up : (backup_all numbered desk "b" (api_update ∷ []) (here [])).0 ≡ ok api_backed
unfolding backup_all archive_name
backs_up = refl

-- The module is gone since.
abbrev bare : Desk
bare = record {
  contents = λ id. none;
  file = (backup_all numbered desk "b" (api_update ∷ []) (here [])).1.file;
}

restores_bare : (restore numbered desk "b" api_backed bare).0 ≡ ok tt
unfolding restore backup_all archive_name lookup insert
restores_bare = refl

others_bare :
    (id : String)
    → All (λ (b : BackupModule numbered). id ≢ b.module_name) api_backed
    → none ≡ modules_here id
others_bare id apart = elim (Bool-cases (id == "api")) [
  | inl h ↦ absurd (apart.0 ((eq_iff id "api").0 h))
  | inr h ↦ rw h refl
]

backup_all-restore_example :
    desk.contents (restore numbered desk "b" api_backed bare).1 "api"
    ≡ some (manifest_of "api" 1, 7 ∷ [])
backup_all-restore_example =
    backup_all-restore numbered desk desk_keeps "b" (api_update ∷ []) (here []) (tt, tt) api_backed
      backs_up bare (λ path. refl) others_bare restores_bare "api"

abbrev overridden : HostState numbered
overridden = record (default numbered) {
  overrides =
      (
        "api",
        record { version = 1; sha256 = "aa"; size = 1; from = "stable"; installed_at = "2025" },
      )
      ∷ [];
}

abbrev release : VerifiedRoot numbered
release = record { id = "r1"; digest = "aa"; channel = "stable"; key_id = "k" }

abbrev release_update : Prepared numbered
release_update = record good_update { intent = distribution release false }

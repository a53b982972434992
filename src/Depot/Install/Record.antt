-- ===== src/Depot/Install/Record.antt =====
-- What an installation leaves in the host's state (services/depot/installer.rs). The clock's
-- readings are `Stamps`.
use Prim.Native.String
use Prim.Native.Char.{code}
use text.Mathlib.Text.{◌==◌}
use fenrir.Prelude.{
  ℕ, String, Bool, true, false, not, ◌&&◌, ◌||◌, Option, none, some, List, [], ◌∷◌, ◌++◌,
  if◌then◌else◌, leb, is_some,
}
use fenrir.Prelude.Dict.{Dict, insert, remove}
use fenrir.Depot.Protocol.{DepotProtocol}
use fenrir.Depot.State.{
  HostState, InstalledDistribution, ModuleOverride, ModuleRecord, TargetModule, BackupModule,
  BackupRecord,
}
use fenrir.Depot.Plan.{Action, optional_skipped, Plan, PlanEntry, Title, named, one_module, settles}
use fenrir.Depot.Install.Bundles.{StagedBundle}

abbrev pub is_alphanumeric : ℕ → Bool
is_alphanumeric c =
    (leb b'0' c && leb c b'9') || (leb b'A' c && leb c b'Z') || (leb b'a' c && leb c b'z')

unfoldable pub keep_chars : (ℕ → Bool) → String → String
keep_chars p String.[] = ""
keep_chars p (String.◌∷◌ c s) =
    let rest = keep_chars p s in if p (code c) then String.◌∷◌ c rest else rest

-- `-` and `.` are 45 and 46.
abbrev pub is_label_char : ℕ → Bool
is_label_char c = is_alphanumeric c || (leb b'-' c && leb c b'.')

unfoldable pub label_chars : String → String
label_chars String.[] = ""
label_chars (String.◌∷◌ c s) =
    let rest = label_chars s in
    if is_label_char (code c) then String.◌∷◌ c rest else String.◌∷◌ "_" rest

-- The readings of the clock: for the backup's name, in its record, and in the host's state.
pub record Stamps : Type 0 where
  pub named_at : String
  pub created_at : String
  pub installed_at : String

module _ (D : DepotProtocol) where
  -- What recording reads of a verified distribution.
  pub record VerifiedRoot : Type 0 where
    pub id : String
    pub digest : D.Digest
    pub channel : String
    pub key_id : String

  pub record ModuleCandidate : Type 0 where
    pub candidate : TargetModule D
    pub from : String

  pub data Intent : Type 0 where
    distribution : VerifiedRoot → Bool → Intent
    one_candidate : ModuleCandidate → Intent
    restoring : String → BackupRecord D → Intent

  pub record Prepared : Type 0 where
    pub intent : Intent
    pub plan : Plan D
    pub skipped : List String
    pub host_includes : List String
    pub staged : Dict (StagedBundle D)
    pub downloaded : ℕ

  pub record Outcome : Type 0 where
    pub title : Title D
    pub changed : List (PlanEntry D)
    pub migrations : List String
    pub backup : Option String

  -- The title as the code formats it.
  abbrev pub title_text : Title D → String
  title_text (named title) = title
  title_text (one_module name version) =
      String.◌++◌ "module " (String.◌++◌ name (String.◌++◌ " " (D.version_text version)))

  unfoldable pub backup_name : Stamps → Title D → String
  unfolding keep_chars label_chars
  backup_name stamps title =
      String.◌++◌ (keep_chars is_alphanumeric stamps.named_at)
        (String.◌++◌ "-" (label_chars (title_text title)))

  abbrev pub after_id : Intent → Title D → String
  after_id (distribution root rollback) title = root.id
  after_id _ title = title_text title

  abbrev pub id_of : Option (InstalledDistribution D) → Option String
  id_of none = none
  id_of (some current) = some current.id

  abbrev pub backup_record :
      Prepared → Stamps → HostState D → List (BackupModule D) → BackupRecord D
  backup_record prepared stamps state modules = record {
    format = "fenrir/depot-backup/v1";
    created_at = stamps.created_at;
    before = id_of state.current;
    after = after_id prepared.intent prepared.plan.title;
    modules = modules;
  }

  abbrev pub is_optional_skipped : Action → Bool
  is_optional_skipped optional_skipped = true
  is_optional_skipped _ = false

  abbrev pub record_target :
      Bool → Option (TargetModule D) → Dict (ModuleRecord D) → Dict (ModuleRecord D)
  record_target true source acc = acc
  record_target false none acc = acc
  record_target false (some target) acc =
      insert target.name
        (record {
          version = target.version;
          sha256 = D.to_hex target.sha256;
          size = target.size;
          via = target.via;
        })
        acc

  -- `collect` into the map of the distribution's modules.
  unfoldable pub recorded_modules :
      Dict (ModuleRecord D) → List (PlanEntry D) → Dict (ModuleRecord D)
  recorded_modules acc [] = acc
  recorded_modules acc (e ∷ es) =
      recorded_modules (record_target (is_optional_skipped e.action) e.source acc) es

  -- The overrides without those of the modules that run the distribution.
  unfoldable pub end_overrides :
      List (PlanEntry D) → Dict (ModuleOverride D) → Dict (ModuleOverride D)
  end_overrides [] overrides = overrides
  end_overrides (e ∷ es) overrides =
      end_overrides es (if settles e.action then remove e.module_name overrides else overrides)

  unfoldable pub end_backed_up :
      List (BackupModule D) → Dict (ModuleOverride D) → Dict (ModuleOverride D)
  end_backed_up [] overrides = overrides
  end_backed_up (b ∷ bs) overrides = end_backed_up bs (remove b.module_name overrides)

  abbrev pub is_current : String → Option (InstalledDistribution D) → Bool
  is_current id none = false
  is_current id (some current) = current.id == id

  -- The state after the installation of a distribution.
  abbrev pub record_distribution :
      HostState D → List (PlanEntry D) → InstalledDistribution D → Option String → HostState D
  record_distribution state entries installed backup =
      let same = is_current installed.id state.current in
      record state {
        previous = if same then state.previous else state.current;
        current = some installed;
        backup = if is_some backup || not same then backup else state.backup;
        overrides = end_overrides entries state.overrides;
      }

  abbrev pub installed_as : VerifiedRoot → List (PlanEntry D) → Stamps → InstalledDistribution D
  installed_as root entries stamps = record {
    id = root.id;
    manifest_sha256 = D.to_hex root.digest;
    channel = root.channel;
    key_id = root.key_id;
    installed_at = stamps.installed_at;
    modules = recorded_modules [] entries;
  }

  abbrev pub record_intent :
      Intent
      → HostState D
      → List (PlanEntry D)
      → Stamps
      → Option String
      → HostState D × Option String
  record_intent (distribution root rollback) state entries stamps backup =
      let after = record_distribution state entries (installed_as root entries stamps) backup in
      (after, after.backup)
  record_intent (one_candidate c) state entries stamps backup = (
    record state {
      overrides =
          insert c.candidate.name
            (record {
              version = c.candidate.version;
              sha256 = D.to_hex c.candidate.sha256;
              size = c.candidate.size;
              from = c.from;
              installed_at = stamps.installed_at;
            })
            state.overrides;
    },
    state.backup,
  )
  record_intent (restoring name backed) state entries stamps backup = (
    record state {
      current = state.previous;
      previous = none;
      backup = none;
      overrides = end_backed_up backed.modules state.overrides;
    },
    none,
  )

  -- The new state of the host, and the backup that is kept.
  unfoldable pub record_state :
      Prepared → Stamps → HostState D → Option String → HostState D × Option String
  unfolding recorded_modules end_overrides end_backed_up
  record_state prepared stamps state backup =
      record_intent prepared.intent state prepared.plan.entries stamps backup

  abbrev pub digests : Dict (ModuleRecord D) → List String
  digests [] = []
  digests ((name, r) ∷ rest) = r.sha256 ∷ digests rest

  abbrev pub digests_of : Option (InstalledDistribution D) → List String
  digests_of none = []
  digests_of (some installed) = digests installed.modules

  abbrev pub override_digests : Dict (ModuleOverride D) → List String
  override_digests [] = []
  override_digests ((name, over) ∷ rest) = over.sha256 ∷ override_digests rest

  -- `keep` of `prune_cache`.
  unfoldable pub cached : HostState D → List String
  cached state =
      digests_of state.current ++ (digests_of state.previous ++ override_digests state.overrides)

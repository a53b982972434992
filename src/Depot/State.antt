-- ===== src/Depot/State.antt =====
-- The data of services/depot/: what the host keeps (state.rs), the signed modules (verify.rs) and
-- the modules as the host has them (ports.rs). `D` is the crate `depot_protocol`.
use fenrir.Prelude.{ℕ, String, Bool, Option, List, none, []}
use fenrir.Prelude.Dict.{Dict}
use fenrir.Domain.Manifest.{ModuleManifest}
use fenrir.Depot.Protocol.{DepotProtocol}

module _ (D : DepotProtocol) where
  pub record ModuleRecord : Type 0 where
    pub version : D.Version
    pub sha256 : String
    pub size : ℕ
    pub via : Option String

  pub record InstalledDistribution : Type 0 where
    pub id : String
    pub manifest_sha256 : String
    pub channel : String
    pub key_id : String
    pub installed_at : String
    pub modules : Dict ModuleRecord

  pub record ModuleOverride : Type 0 where
    pub version : D.Version
    pub sha256 : String
    pub size : ℕ
    pub from : String
    pub installed_at : String

  pub record HostState : Type 0 where
    pub format : String
    pub current : Option InstalledDistribution
    pub previous : Option InstalledDistribution
    pub backup : Option String
    pub pins : Dict D.Version
    pub overrides : Dict ModuleOverride

  -- `HostState::default`.
  abbrev pub default : HostState
  default = record {
    format = "fenrir/depot-state/v1";
    current = none;
    previous = none;
    backup = none;
    pins = [];
    overrides = [];
  }

  pub record Requirement : Type 0 where
    pub module_name : String
    pub rule : D.Rule

  pub record Requires : Type 0 where
    pub modules : List Requirement
    pub fenrir_rule : Option D.Rule

  pub record TargetModule : Type 0 where
    pub name : String
    pub rule : String
    pub version : D.Version
    pub platform : String
    pub sha256 : D.Digest
    pub size : ℕ
    pub optional : Bool
    pub requires : Requires
    pub via : Option String

  pub record HostModule : Type 0 where
    pub name : String
    pub version : D.Version
    pub sha256 : String
    pub local_sync : Bool
    pub running : Bool
    pub instances : ℕ
    pub migrations : List String

  pub record BackedUpModule : Type 0 where
    pub version : D.Version
    pub archive : String
    pub archive_sha256 : String
    pub manifest : ModuleManifest D.SemverVersion D.SemverReq

  pub record BackupModule : Type 0 where
    pub module_name : String
    pub previous : Option BackedUpModule

  pub record BackupRecord : Type 0 where
    pub format : String
    pub created_at : String
    pub before : Option String
    pub after : String
    pub modules : List BackupModule

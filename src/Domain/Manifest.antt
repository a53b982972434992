-- ===== src/Domain/Manifest.antt =====
-- domain/module/manifest.rs and bundle.rs: what a module says of itself. `Version` and `VersionReq`
-- are the crate `semver`'s types.
use fenrir.Prelude.{ℕ, String, Bool, Option, List}

pub data ChecksumAlgorithm : Type 0 where
  sha256 : ChecksumAlgorithm

pub data SignatureAlgorithm : Type 0 where
  ed25519 : SignatureAlgorithm

pub record ModuleChecksum : Type 0 where
  pub algorithm : ChecksumAlgorithm
  pub hash : String

pub record ModuleArtifactDescriptor : Type 0 where
  pub download_url : String
  pub checksum : ModuleChecksum
  pub content_type : Option String
  pub size_bytes : Option ℕ

pub record ModuleSignatureDescriptor : Type 0 where
  pub algorithm : SignatureAlgorithm
  pub key_id : String
  pub signature : String

module _ (Version VersionReq : Type 0) where
  pub record ModuleDependencySpec : Type 0 where
    pub id : String
    pub version : Option VersionReq
    pub required : Bool

  pub data ModuleDependency : Type 0 where
    by_id : String → ModuleDependency
    spec : ModuleDependencySpec → ModuleDependency

  pub record ModuleManifest : Type 0 where
    pub id : String
    pub version : Version
    pub title : Option String
    pub description : Option String
    pub fenrir_version : Option VersionReq
    pub authors : List String
    pub license : Option String
    pub artifact : ModuleArtifactDescriptor
    pub signature : ModuleSignatureDescriptor
    pub dependencies : List ModuleDependency
    pub tags : List String
    pub published_at : Option ℕ

  -- The archive's bytes are read to the end.
  pub record ModuleBundle : Type 0 where
    pub manifest : ModuleManifest
    pub archive : List ℕ
    pub signature : List ℕ
    pub checksum : List ℕ

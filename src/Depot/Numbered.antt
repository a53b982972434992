-- ===== src/Depot/Numbered.antt =====
-- A small stand-in for the crate `depot_protocol`, for the tests.
use Prim.Native.Nat.{compare}
use text.Mathlib.Text.{◌==◌}
use fenrir.Prelude.{ℕ, String, none, some, List, [], ◌∷◌, leb, eq_iff}
use fenrir.Prelude.Order.{compare-IsLawful}
use fenrir.Domain.Manifest.{ModuleManifest, sha256, ed25519}
use fenrir.Depot.Protocol.{DepotProtocol}

-- A digest that tells the archives of the tests apart.
abbrev pub hex_of : List ℕ → String
hex_of [] = "aa"
hex_of (b ∷ bytes) = "bb"

-- Versions are numbers, a rule is the least version that it matches, and a digest is its text.
abbrev pub numbered : DepotProtocol
numbered = record {
  Version = ℕ;
  cmp = compare;
  lawful = compare-IsLawful;
  version_text = λ version. "1";
  Rule = ℕ;
  matches = leb;
  Digest = String;
  to_hex = λ digest. digest;
  digest_of = hex_of;
  parse_digest = some;
  digest_eq = λ a b. a == b;
  digest_eq_iff = eq_iff;
  as_bytes = λ digest. [];
  SemverVersion = ℕ;
  SemverReq = ℕ;
  parse_version = some;
  core_version = λ version. version;
}

abbrev pub manifest_of : String → ℕ → ModuleManifest ℕ ℕ
manifest_of id version = record {
  id = id;
  version = version;
  title = none;
  description = none;
  fenrir_version = none;
  authors = [];
  license = none;
  artifact = record {
    download_url = "";
    checksum = record { algorithm = sha256; hash = "" };
    content_type = none;
    size_bytes = none;
  };
  signature = record { algorithm = ed25519; key_id = ""; signature = "" };
  dependencies = [];
  tags = [];
  published_at = none;
}

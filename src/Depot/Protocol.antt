-- ===== src/Depot/Protocol.antt =====
-- What the host takes from the crate `depot_protocol`: versions with their order, version rules,
-- digests, and the manifests' versions of the crate `semver`. The order is lawful and agrees with `==`, as `Ord` asks.
use Prim.Native.Nat.{Ordering}
use fenrir.Prelude.{ℕ, ◌≡◌, ◌↔◌, String, Bool, true, false, Option, List}
use fenrir.Prelude.Order.{IsLawful}

pub record DepotProtocol : Type 1 where
  pub Version : Type 0
  pub cmp : Version → Version → Ordering
  pub lawful : IsLawful cmp
  -- `Display`.
  pub version_text : Version → String
  pub Rule : Type 0
  pub matches : Rule → Version → Bool
  pub Digest : Type 0
  pub to_hex : Digest → String
  -- `Sha256Digest::of`, `parse`, `==` and `as_bytes`.
  pub digest_of : List ℕ → Digest
  pub parse_digest : String → Option Digest
  pub digest_eq : Digest → Digest → Bool
  pub digest_eq_iff : (a b : Digest) → (digest_eq a b ≡ true) ↔ (a ≡ b)
  pub as_bytes : Digest → List ℕ
  -- `Version` and `VersionReq` of the crate `semver`, as manifests hold them; the depot's form of a
  -- version, if it has one, and the depot's version of its core.
  pub SemverVersion : Type 0
  pub SemverReq : Type 0
  pub parse_version : SemverVersion → Option Version
  pub core_version : SemverVersion → Version

module _ (D : DepotProtocol) where
  abbrev pub version_eq : D.Version → D.Version → Bool
  version_eq a b = elim (D.cmp a b) [ Ordering.eq ↦ true | _ ↦ false ]

  abbrev pub version_lt : D.Version → D.Version → Bool
  version_lt a b = elim (D.cmp a b) [ Ordering.lt ↦ true | _ ↦ false ]

-- ===== src/Security/Identity/Verified.antt =====
-- What a token that the authority accepts has shown (identity/authority.rs).
use text.Mathlib.Text as T
use fenrir.Prelude.{ℕ, String, true, false, some, ◌≡◌}
use fenrir.Prelude.Int.{leb_int}
use fenrir.Prelude.Exec.{ok}
use fenrir.Security.Role.{from_str}
use fenrir.Security.Identity.Data.{RawClaims}
use fenrir.Security.Identity.Crates.{Crates}
use fenrir.Security.Identity.Store.{IdentityStore}
use fenrir.Security.Identity.Jwt.{ParsedHeader, ParsedClaims, dotted, parse_jwt}
use fenrir.Security.Identity.Authority.{
  Settings, IdentityClaims, unix_timestamp, from_unix_timestamp,
}
use fenrir.Security.Identity.Verify.{kept_claims, verify}

module _ (K : Crates) where
  -- What the claims of an accepted token say.
  pub record Agrees (settings : Settings) (now : ℕ) (key_id : String) (raw : RawClaims)
      (claims : IdentityClaims) : Type 0 where
    pub issuer : raw.iss ≡ settings.issuer
    pub audience : raw.aud ≡ settings.audience
    pub environment : raw.env ≡ settings.environment
    pub unexpired : leb_int raw.exp (unix_timestamp now) ≡ false
    pub on_role : from_str raw.role ≡ ok claims.role
    pub on_issued_at : from_unix_timestamp raw.iat ≡ some claims.issued_at
    pub on_expires_at : from_unix_timestamp raw.exp ≡ some claims.expires_at
    pub on_claims : claims ≡ kept_claims raw claims.role key_id claims.issued_at claims.expires_at

  -- What was found of a token that is accepted.
  pub record Vouched (settings : Settings) (token : String) (now : ℕ) (store : IdentityStore)
      (claims : IdentityClaims) : Type 0 where
    pub header : ParsedHeader
    pub body : ParsedClaims
    pub signature : K.Signature
    pub public : K.VerifyingKey
    pub raw : RawClaims
    pub unpoisoned : store.poisoned ≡ false
    pub parsed : parse_jwt K token ≡ ok (header, body, signature)
    pub algorithm : header.alg ≡ "EdDSA"
    pub key : header.kid ≡ store.state.current_key.key_id
    pub on_public : K.verifying_from_bytes store.state.current_key.public_key ≡ some public
    pub signed : K.verify public (dotted header.encoded_header body.encoded_claims) signature ≡ true
    pub read : K.claims_from_slice body.decoded ≡ ok raw
    pub agrees : Agrees settings now header.kid raw claims

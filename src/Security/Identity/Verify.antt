-- ===== src/Security/Identity/Verify.antt =====
-- `IdentityAuthority::verify` (identity/authority.rs), which changes nothing.
use text.Mathlib.Text as T
use fenrir.Prelude.{ℕ, String, not, if◌then◌else◌}
use fenrir.Prelude.Int.{ℤ, leb_int}
use fenrir.Prelude.Exec.{Result, ok, err, wrap, and_then}
use fenrir.Security.Role.{Role, from_str}
use fenrir.Security.Identity.{
  IdentityError, IdentityState, state_poisoned, invalid, unsupported_signing_algorithm,
  unknown_signing_key, signature_verification_failed, invalid_token_claims_payload, issuer_mismatch,
  audience_mismatch, environment_mismatch, token_expired, invalid_issued_at_timestamp,
  invalid_expiry_timestamp,
}
use fenrir.Security.Identity.Data.{RawClaims}
use fenrir.Security.Identity.Crates.{Crates}
use fenrir.Security.Identity.Store.{IdentityStore}
use fenrir.Security.Identity.Jwt.{
  ParsedHeader, ParsedClaims, ok_or, or_else, dotted, parse_jwt, verifying_key,
}
use fenrir.Security.Identity.Authority.{
  Settings, IdentityClaims, unix_timestamp, from_unix_timestamp, ensure, unknown_role,
}

-- `self.store.read(|state| state.clone())?`
abbrev pub snapshot : IdentityStore → Result IdentityError IdentityState
snapshot store = if store.poisoned then err state_poisoned else ok store.state

abbrev pub kept_claims : RawClaims → Role → String → ℤ → ℤ → IdentityClaims
kept_claims claims role key_id issued_at expires_at = record {
  user_id = claims.sub;
  role = role;
  environment = claims.env;
  instance_id = claims.inst;
  app_version = claims.ver;
  issued_at = issued_at;
  expires_at = expires_at;
  key_id = key_id;
  token_id = claims.jti;
}

module _ (K : Crates) where
  -- The claims of a token whose signature is right.
  unfoldable pub check_claims :
      Settings → ℕ → String → RawClaims → Result IdentityError IdentityClaims
  check_claims settings now key_id claims =
      and_then (ensure (T.◌==◌ claims.iss settings.issuer) issuer_mismatch) λ a.
        and_then (ensure (T.◌==◌ claims.aud settings.audience) audience_mismatch) λ b.
          and_then (ensure (T.◌==◌ claims.env settings.environment) environment_mismatch) λ c.
            and_then (ensure (not (leb_int claims.exp (unix_timestamp now))) token_expired) λ d.
              and_then (wrap unknown_role (from_str claims.role)) λ role.
                and_then
                  (ok_or (invalid invalid_issued_at_timestamp) (from_unix_timestamp claims.iat))
                  λ iat.
                    and_then
                      (ok_or (invalid invalid_expiry_timestamp) (from_unix_timestamp claims.exp))
                      λ exp. ok (kept_claims claims role key_id iat exp)

  abbrev pub check_parsed :
      Settings
      → ℕ
      → IdentityStore
      → ParsedHeader
      → ParsedClaims
      → K.Signature
      → Result IdentityError IdentityClaims
  check_parsed settings now store header body signature =
      and_then (ensure (T.◌==◌ header.alg "EdDSA") unsupported_signing_algorithm) λ a.
        and_then (snapshot store) λ state.
          and_then (ensure (T.◌==◌ header.kid state.current_key.key_id) unknown_signing_key) λ b.
            and_then (verifying_key K state.current_key) λ public.
              and_then
                (ensure
                  (K.verify public (dotted header.encoded_header body.encoded_claims) signature)
                  signature_verification_failed)
                λ c.
                  and_then (or_else invalid_token_claims_payload (K.claims_from_slice body.decoded))
                    λ claims. check_claims settings now header.kid claims

  unfoldable pub verify :
      Settings → String → ℕ → IdentityStore → Result IdentityError IdentityClaims
  unfolding parse_jwt check_claims
  verify settings token now store =
      and_then (parse_jwt K token)
        λ (header, body, signature). check_parsed settings now store header body signature

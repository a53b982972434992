-- ===== src/Security/Identity/RoundTrip.antt =====
-- A token that the authority issues, it accepts until the token expires (identity/authority.rs).
use Prim.Native.Nat.{◌/◌}
use native.Mathlib.Nat.{div-lt_iff_lt-mul}
use text.Mathlib.TextPositions.{eq_refl}
use fenrir.Prelude.{ℕ, suc, ◌*◌, ◌<◌, ◌≤◌, second, false, some, leb, ◌≡◌, sym, ap, ◌∙◌, arith}
use fenrir.Prelude.Int.{pos}
use fenrir.Prelude.Exec.{ok}
use fenrir.Security.Role.{from_str-as_str}
use fenrir.Security.Identity.Crates.{Crates, IsLawful}
use fenrir.Security.Identity.Store.{IdentityStore}
use fenrir.Security.Identity.Keys.{encode_jwt-Encoded, parse_jwt-Encoded}
use fenrir.Security.Identity.Authority.{
  Settings, IdentityAuthority, IssueTokenRequest, IssuedToken, IdentityClaims, Moment, last_second,
  expiry, unix_timestamp, from_unix_timestamp, claims_of,
}
use fenrir.Security.Identity.Issue.{issue_token}
use fenrir.Security.Identity.Verify.{check_claims, verify}
use fenrir.Security.Identity.Issued.{issue_token-Issued}

expiry-range :
    (now seconds expires_at : ℕ)
    → expiry now seconds ≡ some expires_at
    → (now ≤ expires_at) × (expires_at < suc last_second * second)
expiry-range now seconds expires_at h = ground arith

from_unix_timestamp-unix_timestamp :
    (time : ℕ)
    → time < suc last_second * second
    → from_unix_timestamp (unix_timestamp time) ≡ some (pos (time / second * second))
from_unix_timestamp-unix_timestamp time h =
    let below : time / second < suc last_second =
      (div-lt_iff_lt-mul {k = second} {x = time} {y = suc last_second} (omega arith)).1 h in
    ground arith

-- What the claims of an issued token say.
abbrev pub claims_for : Settings → IssueTokenRequest → Moment → IssuedToken → IdentityClaims
claims_for settings request moment issued = record {
  user_id = request.user_id;
  role = request.role;
  environment = settings.environment;
  instance_id = settings.instance_id;
  app_version = settings.app_version;
  issued_at = pos (moment.now / second * second);
  expires_at = pos (issued.expires_at / second * second);
  key_id = issued.key_id;
  token_id = moment.token_id;
}

module _ (K : Crates) (L : IsLawful K) where
  check_claims-claims_of :
      (settings : Settings) (request : IssueTokenRequest) (moment : Moment) (issued : IssuedToken)
      (now : ℕ)
      → expiry moment.now settings.exp_seconds ≡ some issued.expires_at
      → now / second < issued.expires_at / second
      → check_claims K settings now issued.key_id
          (claims_of settings request moment issued.expires_at)
        ≡ ok (claims_for settings request moment issued)
  unfolding check_claims
  check_claims-claims_of settings request moment issued now on_time early =
      let (after, below) = expiry-range moment.now settings.exp_seconds issued.expires_at on_time in
      let late : leb (issued.expires_at / second) (now / second) ≡ false = ground arith in
      rw (
        eq_refl settings.issuer,
        eq_refl settings.audience,
        eq_refl settings.environment,
        late,
        from_str-as_str request.role,
        from_unix_timestamp-unix_timestamp moment.now (omega arith),
        from_unix_timestamp-unix_timestamp issued.expires_at below,
      )

  -- A token that is issued verifies, with any store whose lock is not poisoned and which still has
  -- the key, at every time before the second in which it expires; the answer has the user, the role
  -- of the request and the instance, and the times cut to seconds.
  pub issue_token-verify :
      (request : IssueTokenRequest) (moment : Moment) (a : IdentityAuthority) (issued : IssuedToken)
      (later : IdentityStore) (now : ℕ)
      → (issue_token K request moment a).0 ≡ ok issued
      → later.poisoned ≡ false
      → later.state.current_key ≡ a.store.state.current_key
      → now / second < issued.expires_at / second
      → verify K a.settings issued.token now later
        ≡ ok (claims_for a.settings request moment issued)
  unfolding verify
  issue_token-verify request moment a issued later now h up same early =
      let parts = issue_token-Issued K request moment a issued h in
      let key = a.store.state.current_key in
      let claims = claims_of a.settings request moment issued.expires_at in
      let enc = encode_jwt-Encoded K key claims issued.token parts.encoded in
      rw
        (
          parse_jwt-Encoded K L key claims issued.token enc,
          up,
          same,
          eq_refl key.key_id,
          L.keypair_halves key.secret_key key.public_key enc.pair enc.on_pair,
          L.verify-sign,
          L.claims_reads claims enc.claims_json enc.on_claims,
        )
        (ap (λ k. check_claims K a.settings now k claims)
            (sym (ap (λ (x : IssuedToken). x.key_id) parts.answer))
          ∙ check_claims-claims_of a.settings request moment issued now parts.on_time early)

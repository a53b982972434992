-- ===== src/Security/Identity/Issue.antt =====
-- `IdentityAuthority::issue_token` (identity/authority.rs).
use Prim.Native.String.{◌++◌}
use fenrir.Prelude.{ℕ, String, Option, none, some, [], ◌∷◌}
use fenrir.Prelude.Exec.{Exec, pure, raise, map_err, from_result, ◌>>=◌, ◌>>◌}
use fenrir.Prelude.Dict.{lookup}
use fenrir.Audit.{AuditMetadata, AuditEventBuilder, Log, builder, record_event}
use fenrir.Security.Role.{as_str}
use fenrir.Security.Identity.{IdentityKeyMaterial, IdentityUserRecord}
use fenrir.Security.Identity.Crates.{Crates}
use fenrir.Security.Identity.Store.{StateCall, write}
use fenrir.Security.Identity.Users.{put_user}
use fenrir.Security.Identity.Jwt.{encode_jwt, fingerprint_token}
use fenrir.Security.Identity.Authority.{
  Settings, IdentityAuthority, IssueTokenRequest, IssuedToken, Stop, Moment, failed, panicked,
  expiry, entry, counted, with_token, claims_of, in_store,
}

abbrev pub put_audit : Log → Exec IdentityAuthority Stop (Unit {0})
put_audit log a = pure tt (record a { audit = log })

module _ (K : Crates) where
  abbrev pub issued_by : IssueTokenRequest → Moment → ℕ → String → String → IssuedToken
  issued_by request moment expires_at key_id token = record {
    token = token;
    issued_at = moment.now;
    expires_at = expires_at;
    user_id = request.user_id;
    key_id = key_id;
    fingerprint = fingerprint_token K token;
    token_id = moment.token_id;
  }

  -- The closure under the lock. The record is changed in place: a token that cannot be written
  -- leaves it counted.
  abbrev pub issue_for :
      Settings
      → IssueTokenRequest
      → Moment
      → ℕ
      → IdentityKeyMaterial
      → IdentityUserRecord
      → StateCall IssuedToken
  issue_for settings request moment expires_at key user = do
    put_user request.user_id user
    token ← from_result (encode_jwt K key (claims_of settings request moment expires_at))
    put_user request.user_id
        (with_token (issued_by request moment expires_at key.key_id token) user)
    pure (issued_by request moment expires_at key.key_id token)

  unfoldable pub issue_in : Settings → IssueTokenRequest → Moment → ℕ → StateCall IssuedToken
  unfolding encode_jwt fingerprint_token
  issue_in settings request moment expires_at state =
      issue_for settings request moment expires_at state.current_key
        (counted request moment.now (entry request moment.now (lookup request.user_id state.users)))
        state

  -- `role_label` is always given, so that the store is not asked for the role.
  abbrev pub issue_metadata : Settings → IssuedToken → String → AuditMetadata
  issue_metadata settings issued role =
      ("environment", settings.environment)
      ∷ ("instance", settings.instance_id)
      ∷ ("key_id", issued.key_id)
      ∷ ("fingerprint", issued.fingerprint)
      ∷ ("issued_at", K.time_text issued.issued_at)
      ∷ ("expires_at", K.time_text issued.expires_at)
      ∷ ("token_id", issued.token_id)
      ∷ ("role", role)
      ∷ []

  abbrev pub issue_event : Settings → IssueTokenRequest → IssuedToken → AuditEventBuilder
  issue_event settings request issued = record builder {
    actor = some request.actor;
    action = some "identity.token.issue";
    target = some ("identity://" ++ settings.environment ++ "/" ++ issued.user_id);
    metadata = issue_metadata settings issued (as_str request.role);
  }

  abbrev pub record_issue_audit :
      IssueTokenRequest → Moment → IssuedToken → Exec IdentityAuthority Stop (Unit {0})
  record_issue_audit request moment issued a =
      put_audit
        (record_event moment.refuses (issue_event a.settings request issued) moment.audited_at
          a.audit)
        a

  abbrev pub issue_until :
      Settings → IssueTokenRequest → Moment → Option ℕ → Exec IdentityAuthority Stop IssuedToken
  issue_until settings request moment none = raise panicked
  issue_until settings request moment (some expires_at) = do
    issued ←
        map_err failed
          (in_store (write K (issue_in settings request moment expires_at) moment.fault))
    record_issue_audit request moment issued
    pure issued

  unfoldable pub issue_token : IssueTokenRequest → Moment → Exec IdentityAuthority Stop IssuedToken
  unfolding issue_in write record_event
  issue_token request moment a =
      issue_until a.settings request moment (expiry moment.now a.settings.exp_seconds) a

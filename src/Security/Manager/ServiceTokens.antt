-- ===== src/Security/Manager/ServiceTokens.antt =====
-- The service tokens' part of the security manager (security/manager.rs).
use Prim.Native.String.{◌++◌}
use fenrir.Prelude.{String, Option, none, some, [], ◌∷◌}
use fenrir.Prelude.Exec.{Result, ok, err}
use fenrir.Audit.{AuditMetadata, AuditEventBuilder, builder, record_event, system}
use fenrir.Security.Role.{as_str, service_as_str}
use fenrir.Security.ServiceToken.{
  DelegatedActor, DelegatedToken, DelegatedTokenClaims, DelegatedTokenRequest, ServiceTokenError,
}
use fenrir.Security.ServiceToken as Tokens
use fenrir.Security.Manager.{
  SecurityManager, SecurityError, service_token, Moment, Formats, Call, noted, scopes_text,
}

-- `DelegatedActor::kind` and `DelegatedActor::identifier`.
abbrev pub kind : DelegatedActor → String
kind (Tokens.user user_id role) = "user"
kind (Tokens.service service_id role) = "service"

abbrev pub identifier : DelegatedActor → String
identifier (Tokens.user user_id role) = user_id
identifier (Tokens.service service_id role) = service_id

abbrev role_entry : DelegatedActor → String × String
role_entry (Tokens.user user_id role) = ("user_role", as_str role)
role_entry (Tokens.service service_id role) = ("service_role", service_as_str role)

abbrev reason_entries : Option String → AuditMetadata
reason_entries none = []
reason_entries (some reason) = ("reason", reason) ∷ []

module _ (F : Formats) where
  abbrev pub service_token_metadata : DelegatedTokenClaims → Option String → AuditMetadata
  service_token_metadata claims reason =
      ("tenant_id", claims.tenant_id)
      ∷ ("actor_kind", kind claims.actor)
      ∷ ("actor_id", identifier claims.actor)
      ∷ ("scopes", scopes_text claims.scopes)
      ∷ ("expires_at", F.time_text claims.expires_at)
      ∷ role_entry claims.actor
      ∷ reason_entries reason

  abbrev pub token_event : String → DelegatedTokenClaims → Option String → AuditEventBuilder
  token_event action claims reason = record builder {
    actor = some system;
    action = some action;
    target = some ("service-token:" ++ claims.token_id);
    metadata = service_token_metadata claims reason;
  }

  abbrev issued :
      Moment → Result ServiceTokenError DelegatedToken → Call SecurityError DelegatedToken
  issued moment (ok t) m =
      (ok t, noted (token_event "security.service_token.issue" t.claims none) moment m)
  issued moment (err e) m = (err (service_token e), m)

  -- `token` and `token_id` are the random texts.
  unfoldable pub issue_service_token :
      String → String → DelegatedTokenRequest → Moment → Call SecurityError DelegatedToken
  unfolding record_event
  issue_service_token token token_id request moment m =
      let (result, tokens) = Tokens.issue token token_id moment.now request m.service_tokens in
      issued moment result (record m { service_tokens = tokens })

  abbrev checked :
      Result ServiceTokenError DelegatedTokenClaims → Result SecurityError DelegatedTokenClaims
  checked (ok claims) = ok claims
  checked (err e) = err (service_token e)

  unfoldable pub validate_service_token : String → Moment → Call SecurityError DelegatedTokenClaims
  validate_service_token token moment m =
      let (result, tokens) = Tokens.validate token moment.now moment.elapsed m.service_tokens in
      (checked result, record m { service_tokens = tokens })

  unfoldable pub validate_service_token_for_refresh :
      String → Moment → Call SecurityError DelegatedTokenClaims
  validate_service_token_for_refresh token moment m =
      let (result, tokens) =
        Tokens.validate_for_refresh token moment.now moment.elapsed m.service_tokens in
      (checked result, record m { service_tokens = tokens })

  abbrev note_revoked :
      String
      → Moment
      → Result ServiceTokenError DelegatedTokenClaims
      → SecurityManager
      → SecurityManager
  note_revoked reason moment (ok claims) m =
      noted (token_event "security.service_token.revoke" claims (some reason)) moment m
  note_revoked reason moment (err e) m = m

  abbrev revoke_result :
      Result ServiceTokenError (Unit {0})
      → SecurityManager
      → SecurityManager
      → Result SecurityError (Unit {0}) × SecurityManager
  revoke_result (ok u) after m = (ok tt, after)
  revoke_result (err e) after m = (err (service_token e), m)

  unfoldable pub revoke_service_token : String → String → Moment → Call SecurityError (Unit {0})
  unfolding record_event
  revoke_service_token token reason moment m =
      let (found, validated) = Tokens.validate token moment.now moment.elapsed m.service_tokens in
      let (result, tokens) = Tokens.revoke token validated in
      let after : SecurityManager = record m { service_tokens = tokens } in
      revoke_result result (note_revoked reason moment found after) after

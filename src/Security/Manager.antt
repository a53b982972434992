-- ===== src/Security/Manager.antt =====
-- security/manager.rs: the sessions and the service tokens, with an audit event for what is done to
-- them. The cryptographic calls are not modelled.
pub mod ServiceTokens
pub mod History
pub mod Revoked
pub mod Audited
mod Tests
use Prim.Native.String
use Prim.Native.String.{◌++◌, len, slice}
use fenrir.Prelude.{
  ℕ, min, String, Bool, true, false, Option, none, some, List, [], ◌∷◌, if◌then◌else◌,
}
use fenrir.Prelude.Exec.{Result, ok, err, Exec, pure, raise}
use fenrir.Audit.{
  AuditActor, AuditMetadata, AuditEventBuilder, Log, builder, record_event, denied, system, user,
}
use fenrir.Security.Role.{Role, ServiceRole, satisfies, as_str, service_as_str}
use fenrir.Security.Session.{Session, SessionError, SessionStore, create_session}
use fenrir.Security.Session as Sessions
use fenrir.Security.ServiceToken.{
  DelegatedActor, DelegatedToken, DelegatedTokenClaims, DelegatedTokenRequest, ServiceTokenError,
  ServiceTokenStore,
}
use fenrir.Security.ServiceToken as Tokens

pub data SecurityError : Type 0 where
  session : SessionError → SecurityError
  service_token : ServiceTokenError → SecurityError

pub data AuthError : Type 0 where
  unauthorized forbidden : AuthError

pub record SecurityManager : Type 0 where
  pub sessions : SessionStore
  pub service_tokens : ServiceTokenStore
  pub audit : Log

-- What one call reads from outside: the clocks, and whether the audit sink refuses the event. The
-- store of service tokens reads the time since its own epoch.
pub record Moment : Type 0 where
  pub now_instant : ℕ
  pub now : ℕ
  pub elapsed : ℕ
  pub audited_at : ℕ
  pub refuses : Bool

-- `to_string` of numbers and of times.
pub record Formats : Type 0 where
  pub decimal : ℕ → String
  pub time_text : ℕ → String

abbrev pub Call : Type 0 → Type 0 → Type 0
Call E A = Exec SecurityManager E A

-- A text that is not empty has its first 6 bytes shown. The source panics where these end inside a
-- character; the tokens that it shows are those of sessions, which are ASCII.
unfoldable pub token_fingerprint : Formats → String → String
token_fingerprint F String.[] = "<empty>"
token_fingerprint F (String.◌∷◌ c rest) =
    let token = String.◌∷◌ c rest in
    slice token 0 (min (len token) 6) ++ "...(" ++ F.decimal (len token) ++ " bytes)"

-- `SessionError::to_string`.
abbrev pub error_text : SessionError → String
error_text Sessions.not_found = "session not found"
error_text Sessions.expired = "session expired"
error_text Sessions.idle_timeout = "session idle timeout exceeded"
error_text Sessions.store = "session store unavailable"

abbrev pub noted : AuditEventBuilder → Moment → SecurityManager → SecurityManager
noted b moment m = record m { audit = record_event moment.refuses b moment.audited_at m.audit }

-- `join(",")`.
unfoldable pub joined : List String → String
joined [] = ""
joined (scope ∷ []) = scope
joined (scope ∷ rest) = scope ++ "," ++ joined rest

abbrev pub scopes_text : List String → String
scopes_text [] = "-"
scopes_text (scope ∷ rest) = joined (scope ∷ rest)

module _ (F : Formats) where
  abbrev pub session_target : Session → String
  session_target s = "session:" ++ token_fingerprint F s.id

  abbrev pub as_user : Session → AuditActor
  as_user s = user s.user_id (as_str s.role)

  abbrev pub issue_event : String → Role → Session → AuditEventBuilder
  issue_event user_id role s = record builder {
    actor = some (user user_id (as_str role));
    action = some "security.session.issue";
    target = some (session_target s);
    metadata = ("role", as_str role) ∷ ("expires_at", F.time_text s.expires_at) ∷ [];
  }

  abbrev issued :
      String
      → Role
      → Moment
      → Result SessionError Session
      → SecurityManager
      → Result SecurityError Session × SecurityManager
  issued user_id role moment (ok s) m = (ok s, noted (issue_event user_id role s) moment m)
  issued user_id role moment (err e) m = (err (session e), m)

  -- `token` is the random text.
  unfoldable pub issue_session : String → String → Role → Moment → Call SecurityError Session
  unfolding token_fingerprint record_event
  issue_session token user_id role moment m =
      let (result, sessions) = create_session token user_id role moment.now m.sessions in
      issued user_id role moment result (record m { sessions = sessions })

  abbrev wrapped_session : Result SessionError Session → Result SecurityError Session
  wrapped_session (ok s) = ok s
  wrapped_session (err e) = err (session e)

  unfoldable pub validate_session : String → Moment → Call SecurityError Session
  validate_session token moment m =
      let (result, sessions) = Sessions.validate token moment.now_instant moment.now m.sessions in
      (wrapped_session result, record m { sessions = sessions })

  abbrev pub revoke_event : String → Session → AuditEventBuilder
  revoke_event reason s = record builder {
    actor = some system;
    action = some "security.session.revoke";
    target = some (session_target s);
    metadata = ("user_id", s.user_id) ∷ ("role", as_str s.role) ∷ ("reason", reason) ∷ [];
  }

  abbrev note_revoked :
      String → Moment → Result SessionError Session → SecurityManager → SecurityManager
  note_revoked reason moment (ok s) m = noted (revoke_event reason s) moment m
  note_revoked reason moment (err e) m = m

  -- A token that is not there is no error.
  abbrev revoke_result :
      Result SessionError (Unit {0})
      → SecurityManager
      → SecurityManager
      → Result SecurityError (Unit {0}) × SecurityManager
  revoke_result (ok u) noted m = (ok tt, noted)
  revoke_result (err Sessions.not_found) noted m = (ok tt, noted)
  revoke_result (err e) noted m = (err (session e), m)

  unfoldable pub revoke_session : String → String → Moment → Call SecurityError (Unit {0})
  unfolding token_fingerprint record_event
  revoke_session token reason moment m =
      let (found, validated) = Sessions.validate token moment.now_instant moment.now m.sessions in
      let (result, sessions) = Sessions.revoke token validated in
      let after : SecurityManager = record m { sessions = sessions } in
      revoke_result result (note_revoked reason moment found after) after

  abbrev pub access_metadata : Session → Role → AuditMetadata
  access_metadata s required =
      ("required_role", as_str required) ∷ ("granted_role", as_str s.role) ∷ []

  abbrev pub allow_event : Session → Role → AuditEventBuilder
  allow_event s required = record builder {
    actor = some (as_user s);
    action = some "security.rbac.allow";
    target = some (session_target s);
    metadata = access_metadata s required;
  }

  abbrev pub deny_event : Session → Role → AuditEventBuilder
  deny_event s required = record builder {
    actor = some (as_user s);
    action = some "security.rbac.denied";
    outcome = denied;
    target = some (session_target s);
    metadata = access_metadata s required;
  }

  abbrev pub invalid_event : SessionError → Role → AuditEventBuilder
  invalid_event e required = record builder {
    actor = some system;
    action = some "security.rbac.denied";
    outcome = denied;
    target = some "session:invalid";
    metadata = ("reason", error_text e) ∷ ("required_role", as_str required) ∷ [];
  }

  abbrev pub access : Role → Moment → Result SessionError Session → Call AuthError Session
  access required moment (ok s) m =
      if satisfies s.role required
      then (ok s, noted (allow_event s required) moment m)
      else (err forbidden, noted (deny_event s required) moment m)
  access required moment (err e) m = (err unauthorized, noted (invalid_event e required) moment m)

  unfoldable pub ensure_role : String → Role → Moment → Call AuthError Session
  unfolding token_fingerprint record_event
  ensure_role token required moment m =
      let (result, sessions) = Sessions.validate token moment.now_instant moment.now m.sessions in
      access required moment result (record m { sessions = sessions })

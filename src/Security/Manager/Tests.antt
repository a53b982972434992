-- ===== src/Security/Manager/Tests.antt =====
-- The security manager's theorems at a concrete manager, and runs of its code.
use fenrir.Prelude.{ℕ, ◌*◌, second, String, List, [], ◌∷◌, ◌≡◌, refl, false}
use fenrir.Prelude.Exec.{err}
use fenrir.Security.Role.{Role}
use fenrir.Security.Session.{SessionSection, SessionStore, new}
use fenrir.Security.Session.Validate.{Unlocked}
use fenrir.Security.ServiceToken.{ServiceTokenSection}
use fenrir.Security.ServiceToken as Tokens
use fenrir.Security.Manager.{
  SecurityManager, Moment, Formats, unauthorized, forbidden, issue_session, revoke_session,
  ensure_role,
}
use fenrir.Security.Manager.History.{Action, ensures, issues, run}
use fenrir.Security.Manager.Revoked.{revoke_session-ensure_role}
use fenrir.Security.Manager.Audited.{Audited, ensure_role-Audited}

abbrev formats : Formats
formats = record { decimal = λ n. "n"; time_text = λ t. "t" }

abbrev at : ℕ → Moment
at seconds = record {
  now_instant = seconds * second;
  now = seconds * second;
  elapsed = seconds * second;
  audited_at = seconds * second;
  refuses = false;
}

abbrev sessions : SessionSection
sessions = record {
  lifetime_seconds = 100;
  idle_timeout_seconds = 10;
  cleanup_interval_seconds = 60;
}

abbrev tokens : ServiceTokenSection
tokens = record {
  lifetime_seconds = 100;
  idle_timeout_seconds = 10;
  refresh_grace_seconds = 20;
  cleanup_interval_seconds = 60;
}

abbrev empty : SecurityManager
empty = record { sessions = new sessions 0; service_tokens = Tokens.new tokens; audit = [] }

abbrev used : SecurityManager
used = (issue_session formats "tok-alice" "alice" Role.operator (at 1) empty).1

used-Unlocked : Unlocked used.sessions
unfolding issue_session fenrir.Security.Session.create_session new
used-Unlocked = record { sessions = refl; schedule = refl }

-- The operator may do what an operator may, and not what an admin may.
operator_access :
    ((ensure_role formats "tok-alice" Role.admin (at 2) used).0 ≡ err forbidden)
    × ((ensure_role formats "other" Role.viewer (at 2) used).0 ≡ err unauthorized)
unfolding issue_session ensure_role fenrir.Security.Session.create_session
    fenrir.Security.Session.validate new fenrir.Prelude.Dict.lookup fenrir.Prelude.Dict.insert
    fenrir.Security.Role.satisfies
operator_access = (refl, refl)

abbrev between : List (Action × Moment)
between = (issues "tok-bob" "bob" Role.viewer, at 3) ∷ (ensures "tok-alice" Role.viewer, at 4) ∷ []

revoke_session-ensure_role_example :
    (ensure_role formats "tok-alice" Role.viewer
      (at 5)
      (run formats between (revoke_session formats "tok-alice" "left" (at 2) used).1)).0
    ≡ err unauthorized
revoke_session-ensure_role_example =
    revoke_session-ensure_role formats "tok-alice" "left" Role.viewer (at 2) (at 5) between used
      used-Unlocked (refl, (refl, tt))

ensure_role-Audited_example :
    Audited formats Role.viewer used.audit (ensure_role formats "tok-alice" Role.viewer (at 2) used)
ensure_role-Audited_example = ensure_role-Audited formats "tok-alice" Role.viewer (at 2) used refl

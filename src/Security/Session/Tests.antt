-- ===== src/Security/Session/Tests.antt =====
-- The session store's theorems at concrete stores, and runs of its code.
use fenrir.Prelude.{◌*◌, ◌+◌, ◌≡◌, refl, ◌<◌, [], ◌∷◌, arith, second}
use fenrir.Prelude.Exec.{ok, err}
use fenrir.Prelude.Dict.{lookup, insert, remove, retain}
use fenrir.Security.Role.{Role}
use fenrir.Security.Session.{
  SessionSection, SessionStore, Session, new, create_session, validate, revoke, idle_timeout,
  not_found,
}
use fenrir.Security.Session.Validate.{Unlocked}
use fenrir.Security.Session.History.{Event, creates, step, run}
use fenrir.Security.Session.Lifetime.{validate_within_lifetime}
use fenrir.Security.Session.Revocation.{revoke_final, create-validate}

abbrev section : SessionSection
section = record {
  lifetime_seconds = 100;
  idle_timeout_seconds = 10;
  cleanup_interval_seconds = 60;
}

abbrev alice : Event
alice = record { now_instant = 0; now = 5 * second; call = creates "t1" "alice" Role.operator }

abbrev bob : Event
bob = record { now_instant = 0; now = 6 * second; call = creates "t2" "bob" Role.viewer }

abbrev used : SessionStore
used = run (new section 0) (alice ∷ bob ∷ [])

used-Unlocked : Unlocked used
unfolding run step new create_session
used-Unlocked = record { sessions = refl; schedule = refl }

-- An idle session is removed, with the error that says so.
idle_session : (validate "t1" 0 (20 * second) used).0 ≡ err idle_timeout
unfolding run step new create_session validate lookup insert retain remove
idle_session = refl

-- When a cleanup is due it is the cleanup that removes the session.
idle_session_swept : (validate "t1" (60 * second) (20 * second) used).0 ≡ err not_found
unfolding run step new create_session validate lookup insert retain remove
idle_session_swept = refl

abbrev alice_session : Session
alice_session = record {
  id = "t1";
  user_id = "alice";
  role = Role.operator;
  created_at = 5 * second;
  expires_at = 105 * second;
  last_activity = 9 * second;
}

alice_validates :
    (validate "t1" 0 (9 * second) (run (new section 0) (alice ∷ bob ∷ []))).0 ≡ ok alice_session
unfolding run step new create_session validate lookup insert retain remove
alice_validates = refl

validate_within_lifetime_example :
    (alice_session.id ≡ "t1")
    × (9 * second < alice_session.created_at + section.lifetime_seconds * second)
    × (alice_session.last_activity ≡ 9 * second)
validate_within_lifetime_example =
    validate_within_lifetime section 0 (alice ∷ bob ∷ []) "t1" 0 (9 * second) alice_session
      alice_validates

revoke_final_example :
    (validate "t1" 0 (9 * second) (run (revoke "t1" used).1 (bob ∷ []))).0 ≡ err not_found
revoke_final_example = revoke_final "t1" used (bob ∷ []) 0 (9 * second) used-Unlocked (refl, tt)

create-validate_example :
    (validate "t3" 0 (9 * second) (create_session "t3" "carol" Role.admin (8 * second) used).1).0
    ≡ ok (record {
      id = "t3";
      user_id = "carol";
      role = Role.admin;
      created_at = 8 * second;
      expires_at = 8 * second + used.lifetime;
      last_activity = 9 * second;
    })
unfolding run step new create_session
create-validate_example =
    create-validate "t3" "carol" Role.admin (8 * second) 0 (9 * second) used used-Unlocked
      (omega arith) (omega arith)

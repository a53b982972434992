-- ===== src/Security/Session/History.antt =====
-- Histories of calls on a `SessionStore` (security/session/store.rs).
use text.Mathlib.Text.{◌==◌}
use fenrir.Prelude.{ℕ, ◌≡◌, ◌+◌, String, none, some, List, [], ◌∷◌, arith, if◌then◌else◌}
use fenrir.Prelude.Dict.{lookup, lookup-insert, lookup-remove}
use fenrir.Security.Role.{Role}
use fenrir.Security.Session.{SessionStore, validate, create_session, revoke}
use fenrir.Security.Session.Validate.{Unlocked}

pub data Call : Type 0 where
  creates : String → String → Role → Call
  validates : String → Call
  revokes : String → Call

-- A call with the two clocks' readings.
pub record Event : Type 0 where
  pub now_instant : ℕ
  pub now : ℕ
  pub call : Call

abbrev pub dispatch : Call → ℕ → ℕ → SessionStore → SessionStore
dispatch (creates token user_id role) now_instant now s =
    (create_session token user_id role now s).1
dispatch (validates token) now_instant now s = (validate token now_instant now s).1
dispatch (revokes token) now_instant now s = (revoke token s).1

unfoldable pub step : SessionStore → Event → SessionStore
step s event = dispatch event.call event.now_instant event.now s

unfoldable pub run : SessionStore → List Event → SessionStore
run s [] = s
run s (event ∷ events) = run (step s event) events

-- What every call leaves alone.
pub record Frame (s t : SessionStore) : Type 0 where
  pub times : t.times ≡ s.times
  pub unlocked : Unlocked s → Unlocked t

pub dispatch-Frame :
    (c : Call) (now_instant now : ℕ) (s : SessionStore) → Frame s (dispatch c now_instant now s)
unfolding create_session validate revoke
dispatch-Frame (creates token user_id role) now_instant now s = ground arith
dispatch-Frame (validates token) now_instant now s = ground arith
dispatch-Frame (revokes token) now_instant now s = ground arith

pub lookup-create :
    (token j user_id : String) (role : Role) (now : ℕ) (s : SessionStore)
    → Unlocked s
    → lookup j (create_session token user_id role now s).1.sessions ≡ (
        if token == j
        then some (record {
          id = token;
          user_id = user_id;
          role = role;
          created_at = now;
          expires_at = now + s.lifetime;
          last_activity = now;
        })
        else lookup j s.sessions)
unfolding create_session
lookup-create token j user_id role now s u = rw u.sessions (lookup-insert token j _ s.sessions)

pub lookup-revoke :
    (token j : String) (s : SessionStore)
    → Unlocked s
    → lookup j (revoke token s).1.sessions ≡ (if token == j then none else lookup j s.sessions)
unfolding revoke
lookup-revoke token j s u = ground (arith, lookup-remove token j s.sessions)

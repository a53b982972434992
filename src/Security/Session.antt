-- ===== src/Security/Session.antt =====
-- security/session/store.rs: the operators' sessions. Times are numbers (nanoseconds of one clock
-- each: `OffsetDateTime` and `Instant`), read once per call and passed in, as is the random token.
-- A lock is poisoned when a thread has panicked under it; a flag stands for each of the two locks.
mod Tests
pub mod History
pub mod Lifetime
pub mod Revocation
pub mod Validate
use fenrir.Prelude.{
  ℕ, ◌+◌, ◌*◌, second, String, Bool, true, false, not, ◌&&◌, Option, none, some, [], ltb, leb,
  if◌then◌else◌,
}
use fenrir.Prelude.Exec.{Exec, pure, raise, ◌>>=◌, ◌>>◌}
use fenrir.Prelude.Dict.{Dict, lookup, insert, remove, retain}
use fenrir.Security.Role.{Role}

pub record Session : Type 0 where
  pub id : String
  pub user_id : String
  pub role : Role
  pub created_at : ℕ
  pub expires_at : ℕ
  pub last_activity : ℕ

pub data SessionError : Type 0 where
  not_found expired idle_timeout store : SessionError

-- The configured seconds are below 2 ^ 63, so that the cast to `i64` changes none.
pub record SessionSection : Type 0 where
  pub lifetime_seconds : ℕ
  pub idle_timeout_seconds : ℕ
  pub cleanup_interval_seconds : ℕ

-- The three durations of a store, which no call changes.
pub record Times : Type 0 where
  pub lifetime : ℕ
  pub idle_timeout : ℕ
  pub cleanup_interval : ℕ

abbrev pub times_of : SessionSection → Times
times_of cfg = record {
  lifetime = cfg.lifetime_seconds * second;
  idle_timeout = cfg.idle_timeout_seconds * second;
  cleanup_interval = cfg.cleanup_interval_seconds * second;
}

pub record SessionStore : Type 0 where
  pub times : Times
  pub open times use *
  pub sessions : Dict Session
  pub next_cleanup : ℕ
  pub sessions_poisoned : Bool
  pub schedule_poisoned : Bool

abbrev pub Store : Type 0 → Type 0
Store A = Exec SessionStore SessionError A

unfoldable pub new : SessionSection → ℕ → SessionStore
new cfg now_instant = record {
  times = times_of cfg;
  sessions = [];
  next_cleanup = now_instant + (times_of cfg).cleanup_interval;
  sessions_poisoned = false;
  schedule_poisoned = false;
}

-- `self.sessions.write()?`
abbrev pub write_sessions : Store (Unit {0})
write_sessions s = (if s.sessions_poisoned then raise store else pure tt) s

-- `self.next_cleanup.lock()?`
abbrev pub lock_schedule : Store (Unit {0})
lock_schedule s = (if s.schedule_poisoned then raise store else pure tt) s

unfoldable pub create_session : String → String → Role → ℕ → Store Session
create_session token user_id role now = do
  write_sessions
  (λ s.
      let session : Session = record {
        id = token;
        user_id = user_id;
        role = role;
        created_at = now;
        expires_at = now + s.lifetime;
        last_activity = now;
      } in
      pure session (record s { sessions = insert token session s.sessions }))

-- `now - last_activity > idle_timeout`, without a subtraction.
abbrev pub is_idle : ℕ → ℕ → Session → Bool
is_idle limit now session = ltb (session.last_activity + limit) now

-- The test under which a cleanup keeps a session.
abbrev pub is_live : ℕ → ℕ → Session → Bool
is_live limit now session =
    if leb session.expires_at now then false else not (is_idle limit now session)

-- The critical section under the write lock.
unfoldable pub sweep : ℕ → Store (Unit {0})
sweep now s = pure tt (record s { sessions = retain (is_live s.idle_timeout now) s.sessions })

unfoldable pub cleanup_if_needed : ℕ → ℕ → Store (Unit {0})
unfolding sweep
cleanup_if_needed now_instant now = do
  lock_schedule
  (λ s.
      if ltb now_instant s.next_cleanup
      then pure tt s
      else (write_sessions >> sweep now)
          (record s { next_cleanup = now_instant + s.cleanup_interval }))

-- What `validate` does with the entry that it finds.
unfoldable pub validate_entry : String → ℕ → Option Session → Store Session
validate_entry token now none s = raise not_found s
validate_entry token now (some session) s =
    if leb session.expires_at now
    then raise expired (record s { sessions = remove token s.sessions })
    else if is_idle s.idle_timeout now session
    then raise idle_timeout (record s { sessions = remove token s.sessions })
    else let touched = record session { last_activity = now } in
      pure touched (record s { sessions = insert token touched s.sessions })

unfoldable pub validate : String → ℕ → ℕ → Store Session
unfolding cleanup_if_needed validate_entry
validate token now_instant now = do
  cleanup_if_needed now_instant now
  write_sessions
  (λ s. validate_entry token now (lookup token s.sessions) s)

-- What `revoke` does with the entry that it removes.
abbrev pub revoked : Option Session → Store (Unit {0})
revoked none = raise not_found
revoked (some session) = pure tt

unfoldable pub revoke : String → Store (Unit {0})
revoke token = do
  write_sessions
  (λ s. revoked (lookup token s.sessions) (record s { sessions = remove token s.sessions }))

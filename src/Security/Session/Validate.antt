-- ===== src/Security/Session/Validate.antt =====
-- What `SessionStore::validate` answers and leaves behind, on every branch.
use fenrir.Prelude.{
  ℕ, ◌≡◌, refl, ◌+◌, String, Bool, false, Option, none, some, not, arith, ltb, leb, keep_if,
  if◌then◌else◌, eq_iff,
}
use fenrir.Prelude.Exec.{Result, ok, err}
use fenrir.Prelude.Dict.{lookup, retain, lookup-insert, lookup-remove, lookup-retain}
use text.Mathlib.Text.{◌==◌}
use fenrir.Security.Session.{
  SessionStore, Session, SessionError, not_found, expired, idle_timeout, is_live, validate,
  validate_entry,
}

-- No thread has panicked under a lock of the store.
pub record Unlocked (s : SessionStore) : Type 0 where
  pub sessions : s.sessions_poisoned ≡ false
  pub schedule : s.schedule_poisoned ≡ false

abbrev pub is_due : ℕ → SessionStore → Bool
is_due now_instant s = not (ltb now_instant s.next_cleanup)

abbrev pub touch : ℕ → Session → Session
touch now session = record session { last_activity = now }

-- The answer to a validation, by the entry before the call and whether a cleanup is due: the
-- cleanup of the same call hides why a dead session is refused.
abbrev pub answer : Bool → ℕ → ℕ → Option Session → Result SessionError Session
answer due limit now none = err not_found
answer due limit now (some session) =
    if is_live limit now session
    then ok (touch now session)
    else if due
    then err not_found
    else if leb session.expires_at now
    then err expired
    else err idle_timeout

abbrev pub touched : ℕ → Option Session → Option Session
touched now none = none
touched now (some session) = some (touch now session)

-- On a store whose locks are sound, `validate` answers with the touched session exactly when there
-- is an entry that is neither expired nor idle; otherwise the error is `expired` or `idle_timeout`
-- by the entry where no cleanup is due, and `not_found` where one is due or there is no entry.
pub validate-answer :
    (token : String) (now_instant now : ℕ) (s : SessionStore)
    → Unlocked s
    → (validate token now_instant now s).0
      ≡ answer (is_due now_instant s) s.idle_timeout now (lookup token s.sessions)
unfolding validate
validate-answer token now_instant now s u =
    ground (arith, lookup-retain (is_live s.idle_timeout now) token s.sessions)

-- What `validate_entry` leaves, from the entry that it is handed.
lookup-validate_entry :
    (token j : String) (now : ℕ) (found : Option Session) (s : SessionStore)
    → lookup token s.sessions ≡ found
    → lookup j (validate_entry token now found s).1.sessions ≡ (
        if token == j
        then touched now (keep_if (is_live s.idle_timeout now) found)
        else lookup j s.sessions)
unfolding validate_entry
lookup-validate_entry token j now none s e = ground (arith, eq_iff token j)
lookup-validate_entry token j now (some session) s e =
    ground (
      arith,
      lookup-insert token j (touch now session) s.sessions,
      lookup-remove token j s.sessions,
    )

keep_if_twice :
    (limit now : ℕ) (found : Option Session)
    → keep_if (is_live limit now) (keep_if (is_live limit now) found)
      ≡ keep_if (is_live limit now) found
keep_if_twice limit now none = refl
keep_if_twice limit now (some session) = ground arith

-- What a validation leaves under every key, on a store whose locks are sound: under its own token
-- the touched session, if it is neither expired nor idle, and nothing otherwise; under any other key
-- what was there, or where a cleanup is due what was there if it is neither expired nor idle.
pub lookup-validate :
    (token j : String) (now_instant now : ℕ) (s : SessionStore)
    → Unlocked s
    → lookup j (validate token now_instant now s).1.sessions ≡ (
        if token == j
        then touched now (keep_if (is_live s.idle_timeout now) (lookup token s.sessions))
        else if is_due now_instant s
        then keep_if (is_live s.idle_timeout now) (lookup j s.sessions)
        else lookup j s.sessions)
unfolding validate
lookup-validate token j now_instant now s u =
    let live = is_live s.idle_timeout now in
    let swept = record s {
      next_cleanup = now_instant + s.cleanup_interval;
      sessions = retain live s.sessions;
    } in
    ground (
      arith,
      lookup-retain live token s.sessions,
      lookup-retain live j s.sessions,
      keep_if_twice s.idle_timeout now (lookup token s.sessions),
      lookup-validate_entry token j now (lookup token s.sessions) s refl,
      lookup-validate_entry token j now (lookup token swept.sessions) swept refl,
    )

-- ===== src/Security/Session/Lifetime.antt =====
-- How long a session can be used, over every history of calls on a new store.
use text.Mathlib.Text.{◌==◌}
use mathlib.Core.Path.{subst}
use fenrir.Prelude.{
  ℕ, ◌≡◌, refl, sym, ◌∙◌, ◌<◌, ◌≤◌, ◌+◌, ◌*◌, second, String, Bool, false, true, Option, none, some,
  List, [], ◌∷◌, inl, inr, Bool-cases, arith, if◌then◌else◌, eq_iff, keep_if,
}
use fenrir.Prelude.Exec.{ok}
use fenrir.Prelude.Dict.{lookup, lookup-empty}
use fenrir.Security.Session.{
  SessionStore, SessionSection, Times, times_of, Session, is_live, new, validate,
}
use fenrir.Security.Session.Validate.{
  Unlocked, is_due, touched, answer, validate-answer, lookup-validate,
}
use fenrir.Security.Session.History.{
  Call, Event, creates, validates, revokes, dispatch, step, run, dispatch-Frame, lookup-create,
  lookup-revoke,
}

-- An entry is filed under its own id, and expires a lifetime after it was made.
pub record IsGenuine (lifetime : ℕ) (token : String) (session : Session) : Type 0 where
  pub id : session.id ≡ token
  pub expires_at : session.expires_at ≡ session.created_at + lifetime
  pub last_activity : session.last_activity ≤ session.expires_at

abbrev pub Holds : (Session → Type 0) → Option Session → Type 0
Holds P none = Unit {0}
Holds P (some session) = P session

pub record IsValid (s : SessionStore) : Type 0 where
  pub at : (token : String) → Holds (IsGenuine s.lifetime token) (lookup token s.sessions)

Holds-if :
    (P : Session → Type 0) (b : Bool) (o p : Option Session)
    → Holds P o
    → Holds P p
    → Holds P (if b then o else p)
Holds-if P true o p h k = h
Holds-if P false o p h k = k

Holds-keep_if :
    (P : Session → Type 0) (p : Session → Bool) (o : Option Session)
    → Holds P o
    → Holds P (keep_if p o)
Holds-keep_if P p none h = tt
Holds-keep_if P p (some session) h = Holds-if P (p session) (some session) none h tt

-- A live session is touched before it expires.
Holds-touched :
    (lifetime limit now : ℕ) (token : String) (o : Option Session)
    → Holds (IsGenuine lifetime token) o
    → Holds (IsGenuine lifetime token) (touched now (keep_if (is_live limit now) o))
Holds-touched lifetime limit now token none h = tt
Holds-touched lifetime limit now token (some session) h = ground arith

dispatch-IsValid :
    (c : Call) (now_instant now : ℕ) (s : SessionStore)
    → Unlocked s
    → IsValid s
    → (j : String)
    → Holds (IsGenuine s.lifetime j) (lookup j (dispatch c now_instant now s).sessions)
dispatch-IsValid (creates token user_id role) now_instant now s u v j =
    rw (lookup-create token j user_id role now s u) (elim (Bool-cases (token == j)) [
      | inl e ↦
          rw e
            (record { id = (eq_iff token j).0 e; expires_at = refl; last_activity = omega arith })
      | inr e ↦ rw e (v.at j)
    ])
dispatch-IsValid (validates token) now_instant now s u v j =
    rw (lookup-validate token j now_instant now s u) (elim (Bool-cases (token == j)) [
      | inl e ↦
          rw (e, ← (eq_iff token j).0 e)
            (Holds-touched s.lifetime s.idle_timeout now token _ (v.at token))
      | inr e ↦ rw e (
          Holds-if _ (is_due now_instant s) _ _
            (Holds-keep_if (IsGenuine s.lifetime j) (is_live s.idle_timeout now)
              (lookup j s.sessions) (v.at j))
            (v.at j))
    ])
dispatch-IsValid (revokes token) now_instant now s u v j =
    rw (lookup-revoke token j s u) (Holds-if _ (token == j) _ _ tt (v.at j))

-- What holds after any history from an empty store of the configuration.
record Reachable (cfg : Times) (s : SessionStore) : Type 0 where
  times : s.times ≡ cfg
  unlocked : Unlocked s
  valid : (j : String) → Holds (IsGenuine cfg.lifetime j) (lookup j s.sessions)

step-Reachable :
    (cfg : Times) (s : SessionStore) (event : Event)
    → Reachable cfg s
    → Reachable cfg (step s event)
unfolding step
step-Reachable cfg s event r =
    let frame = dispatch-Frame event.call event.now_instant event.now s in
    record {
      times = frame.times ∙ r.times;
      unlocked = frame.unlocked r.unlocked;
      valid = λ j.
          subst (λ (c : Times). Holds (IsGenuine c.lifetime j) (lookup j (step s event).sessions))
            r.times
            (dispatch-IsValid event.call event.now_instant event.now s r.unlocked
              (record {
                at = λ k.
                    subst (λ (c : Times). Holds (IsGenuine c.lifetime k) (lookup k s.sessions))
                      (sym r.times) (r.valid k);
              })
              j);
    }

run-Reachable :
    (cfg : Times) (events : List Event) (s : SessionStore)
    → Reachable cfg s
    → Reachable cfg (run s events)
unfolding run
run-Reachable cfg [] s r = r
run-Reachable cfg (event ∷ events) s r =
    run-Reachable cfg events (step s event) (step-Reachable cfg s event r)

new-Reachable :
    (cfg : SessionSection) (now_instant : ℕ) → Reachable (times_of cfg) (new cfg now_instant)
unfolding new
new-Reachable cfg now_instant = record {
  times = refl;
  unlocked = record { sessions = refl; schedule = refl };
  valid = λ j. rw (lookup-empty j) tt;
}

answer-ok :
    (due : Bool) (limit now lifetime : ℕ) (token : String) (o : Option Session) (session : Session)
    → Holds (IsGenuine lifetime token) o
    → answer due limit now o ≡ ok session
    → (session.id ≡ token) × (now < session.created_at + lifetime) × (session.last_activity ≡ now)
answer-ok due limit now lifetime token none session h e = cc
answer-ok due limit now lifetime token (some old) session h e = ground arith

-- After any history of calls on a new store, a session that `validate` hands out is the one of the
-- token asked for, was made less than a lifetime ago, and is stamped with the time of the call.
pub validate_within_lifetime :
    (cfg : SessionSection) (start : ℕ) (events : List Event) (token : String) (now_instant now : ℕ)
    (session : Session)
    → (validate token now_instant now (run (new cfg start) events)).0 ≡ ok session
    → (session.id ≡ token)
      × (now < session.created_at + cfg.lifetime_seconds * second)
      × (session.last_activity ≡ now)
validate_within_lifetime cfg start events token now_instant now session e =
    let s = run (new cfg start) events in
    let r = run-Reachable (times_of cfg) events (new cfg start) (new-Reachable cfg start) in
    answer-ok (is_due now_instant s) s.idle_timeout now (cfg.lifetime_seconds * second) token
      (lookup token s.sessions) session (r.valid token)
      (sym (validate-answer token now_instant now s r.unlocked) ∙ e)

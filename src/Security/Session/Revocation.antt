-- ===== src/Security/Session/Revocation.antt =====
-- What creating and revoking a session mean for later validations.
use text.Mathlib.Text.{◌==◌}
use text.Mathlib.TextPositions.{eq_refl}
use fenrir.Prelude.{
  ℕ, ◌≡◌, ◌<◌, ◌≤◌, ◌+◌, String, Bool, false, none, List, [], ◌∷◌, arith, eq_iff, All,
}
use fenrir.Prelude.Exec.{ok, err}
use fenrir.Prelude.Dict.{lookup}
use fenrir.Security.Role.{Role}
use fenrir.Security.Session.{SessionStore, not_found, validate, create_session, revoke}
use fenrir.Security.Session.Validate.{Unlocked, validate-answer, lookup-validate}
use fenrir.Security.Session.History.{
  Call, Event, creates, validates, revokes, dispatch, step, run, dispatch-Frame, lookup-create,
  lookup-revoke,
}

abbrev pub makes : String → Call → Bool
makes token (creates other user_id role) = other == token
makes token (validates other) = false
makes token (revokes other) = false

dispatch_absent :
    (token : String) (c : Call) (now_instant now : ℕ) (s : SessionStore)
    → Unlocked s
    → makes token c ≡ false
    → lookup token s.sessions ≡ none
    → lookup token (dispatch c now_instant now s).sessions ≡ none
dispatch_absent token (creates other user_id role) now_instant now s u m e =
    rw (lookup-create other token user_id role now s u, m) e
dispatch_absent token (validates other) now_instant now s u m e =
    rw (lookup-validate other token now_instant now s u) (ground (arith, eq_iff other token))
dispatch_absent token (revokes other) now_instant now s u m e =
    rw (lookup-revoke other token s u) (ground arith)

run_absent :
    (token : String) (events : List Event) (s : SessionStore)
    → Unlocked s
    → All (λ (event : Event). makes token event.call ≡ false) events
    → lookup token s.sessions ≡ none
    → (Unlocked (run s events)) × (lookup token (run s events).sessions ≡ none)
unfolding run step
run_absent token [] s u m e = (u, e)
run_absent token (event ∷ events) s u m e =
    run_absent token events (step s event)
      ((dispatch-Frame event.call event.now_instant event.now s).unlocked u) m.1
      (dispatch_absent token event.call event.now_instant event.now s u m.0 e)

-- On a store whose locks are sound, once a token is revoked every later validation of it answers
-- `not_found`, whatever calls come between, as long as none of them makes a session of that token.
pub revoke_final :
    (token : String) (s : SessionStore) (events : List Event) (now_instant now : ℕ)
    → Unlocked s
    → All (λ (event : Event). makes token event.call ≡ false) events
    → (validate token now_instant now (run (revoke token s).1 events)).0 ≡ err not_found
revoke_final token s events now_instant now u m =
    let t = (revoke token s).1 in
    let gone =
      run_absent token events t ((dispatch-Frame (revokes token) 0 0 s).unlocked u) m
        (simp (lookup-revoke token token s u, eq_refl)) in
    rw (validate-answer token now_instant now (run t events) gone.0, gone.1)

-- On a store whose locks are sound, a new session is validated, with its user and role, at every
-- time before its lifetime ends at which it has not been idle for longer than the idle limit.
pub create-validate :
    (token user_id : String) (role : Role) (now now_instant later : ℕ) (s : SessionStore)
    → Unlocked s
    → later < now + s.lifetime
    → later ≤ now + s.idle_timeout
    → (validate token now_instant later (create_session token user_id role now s).1).0
      ≡ ok (record {
        id = token;
        user_id = user_id;
        role = role;
        created_at = now;
        expires_at = now + s.lifetime;
        last_activity = later;
      })
create-validate token user_id role now now_instant later s u alive active =
    let made = (create_session token user_id role now s).1 in
    let frame = dispatch-Frame (creates token user_id role) 0 now s in
    rw
      (
        validate-answer token now_instant later made (frame.unlocked u),
        lookup-create token token user_id role now s u,
        eq_refl token,
        frame.times,
      )
      (ground arith)

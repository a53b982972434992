-- ===== src/Security/Manager/Revoked.antt =====
-- A revoked session gives no access any more (security/manager.rs).
use text.Mathlib.Text.{◌==◌}
use fenrir.Prelude.{
  String, Bool, false, List, [], ◌∷◌, ◌++◌, ◌≡◌, refl, ap, sym, ◌∙◌, All, All-append, arith,
}
use fenrir.Prelude.Exec.{err}
use fenrir.Security.Role.{Role}
use fenrir.Security.Session.{Session, SessionError, SessionStore, not_found}
use fenrir.Security.Session as Sessions
use fenrir.Security.Session.Validate.{Unlocked}
use fenrir.Security.Session.History.{Event, creates, validates, revokes, dispatch-Frame}
use fenrir.Security.Session.History as Steps
use fenrir.Security.Session.Revocation.{makes, revoke_final}
use fenrir.Security.Manager.{
  SecurityManager, SecurityError, AuthError, Moment, Formats, unauthorized, access, ensure_role,
  revoke_session, issue_session, validate_session,
}
use fenrir.Security.Manager.History.{
  Action, issues, validates_session, revokes_session, ensures, issues_token, validates_token,
  refreshes_token, revokes_service_token, act, run, session_events, all_events,
}
use fenrir.Security.Manager.ServiceTokens.{
  issue_service_token, validate_service_token, validate_service_token_for_refresh,
  revoke_service_token,
}

run-append :
    (s : SessionStore) (front back : List Event)
    → Steps.run s (front ++ back) ≡ Steps.run (Steps.run s front) back
unfolding Steps.run
run-append s [] back = refl
run-append s (event ∷ front) back = run-append (Steps.step s event) front back

module _ (F : Formats) where
  act-sessions :
      (action : Action) (moment : Moment) (m : SecurityManager)
      → (act F action moment m).sessions ≡ Steps.run m.sessions (session_events action moment)
  unfolding Steps.run Steps.step issue_session validate_session revoke_session ensure_role
      issue_service_token validate_service_token validate_service_token_for_refresh
      revoke_service_token
  act-sessions (issues token user_id role) moment m = ground arith
  act-sessions (validates_session token) moment m = refl
  act-sessions (revokes_session token reason) moment m = ground arith
  act-sessions (ensures token required) moment m = ground arith
  act-sessions (issues_token token token_id request) moment m = ground arith
  act-sessions (validates_token token) moment m = refl
  act-sessions (refreshes_token token) moment m = refl
  act-sessions (revokes_service_token token reason) moment m = ground arith

  run-sessions :
      (calls : List (Action × Moment)) (m : SecurityManager)
      → (run F calls m).sessions ≡ Steps.run m.sessions (all_events calls)
  unfolding fenrir.Security.Manager.History.run all_events Steps.run
  run-sessions [] m = refl
  run-sessions ((action, moment) ∷ rest) m =
      run-sessions rest (act F action moment m)
      ∙ ap (λ s. Steps.run s (all_events rest)) (act-sessions action moment m)
      ∙ sym (run-append m.sessions (session_events action moment) (all_events rest))

  abbrev pub makes_session : String → Action → Bool
  makes_session token (issues other user_id role) = other == token
  makes_session token _ = false

  abbrev Fresh : String → List (Action × Moment) → Type 0
  Fresh token calls = All (λ (call : Action × Moment). makes_session token call.0 ≡ false) calls

  events-Fresh :
      (token : String) (action : Action) (moment : Moment)
      → makes_session token action ≡ false
      → All (λ (event : Event). makes token event.call ≡ false) (session_events action moment)
  events-Fresh token (issues other user_id role) moment h = (h, tt)
  events-Fresh token (validates_session other) moment h = (refl, tt)
  events-Fresh token (revokes_session other reason) moment h = (refl, (refl, tt))
  events-Fresh token (ensures other required) moment h = (refl, tt)
  events-Fresh token (issues_token other token_id request) moment h = tt
  events-Fresh token (validates_token other) moment h = tt
  events-Fresh token (refreshes_token other) moment h = tt
  events-Fresh token (revokes_service_token other reason) moment h = tt

  all_events-Fresh :
      (token : String) (calls : List (Action × Moment))
      → Fresh token calls
      → All (λ (event : Event). makes token event.call ≡ false) (all_events calls)
  unfolding all_events
  all_events-Fresh token [] h = tt
  all_events-Fresh token ((action, moment) ∷ rest) h =
      All-append (λ (event : Event). makes token event.call ≡ false) (session_events action moment)
        (all_events rest) (events-Fresh token action moment h.0) (all_events-Fresh token rest h.1)

  -- Once a session is revoked through the manager, its token gives no role any more: whatever calls
  -- come between, if none of them issues a session under the same token, `ensure_role` answers that
  -- the token is unauthorized. The locks of the session store are taken to be sound.
  pub revoke_session-ensure_role :
      (token reason : String) (required : Role) (before now : Moment)
      (calls : List (Action × Moment)) (m : SecurityManager)
      → Unlocked m.sessions
      → Fresh token calls
      → (ensure_role F token required now
          (run F calls (revoke_session F token reason before m).1)).0
        ≡ err unauthorized
  unfolding ensure_role revoke_session
  revoke_session-ensure_role token reason required before now calls m up new =
      let validated = (Sessions.validate token before.now_instant before.now m.sessions).1 in
      let still =
        (dispatch-Frame (validates token) before.now_instant before.now m.sessions).unlocked up in
      let after = (revoke_session F token reason before m).1 in
      let gone : after.sessions ≡ (Sessions.revoke token validated).1 = ground arith in
      let last = run-sessions calls after ∙ ap (λ s. Steps.run s (all_events calls)) gone in
      let refused =
        revoke_final token validated (all_events calls) now.now_instant now.now still
          (all_events-Fresh token calls new) in
      let b = run F calls after in
      ap
        (λ r.
          (access F required now r (record b {
            sessions = (Sessions.validate token now.now_instant now.now b.sessions).1;
          })).0)
        (ap (λ s. (Sessions.validate token now.now_instant now.now s).0) last ∙ refused)

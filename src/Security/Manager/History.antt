-- ===== src/Security/Manager/History.antt =====
-- Sequences of calls of the security manager (security/manager.rs), and what they do to the sessions.
use fenrir.Prelude.{String, List, [], ◌∷◌, ◌++◌}
use fenrir.Security.Role.{Role}
use fenrir.Security.ServiceToken.{DelegatedTokenRequest}
use fenrir.Security.Session.History.{Event, creates, validates, revokes}
use fenrir.Security.Session.History as Steps
use fenrir.Security.Manager.{
  SecurityManager, Moment, Formats, issue_session, validate_session, revoke_session, ensure_role,
}
use fenrir.Security.Manager.ServiceTokens.{
  issue_service_token, validate_service_token, validate_service_token_for_refresh,
  revoke_service_token,
}

pub data Action : Type 0 where
  issues : String → String → Role → Action
  validates_session validates_token refreshes_token : String → Action
  revokes_session revokes_service_token : String → String → Action
  ensures : String → Role → Action
  issues_token : String → String → DelegatedTokenRequest → Action

module _ (F : Formats) where
  abbrev pub act : Action → Moment → SecurityManager → SecurityManager
  act (issues token user_id role) moment m = (issue_session F token user_id role moment m).1
  act (validates_session token) moment m = (validate_session F token moment m).1
  act (revokes_session token reason) moment m = (revoke_session F token reason moment m).1
  act (ensures token required) moment m = (ensure_role F token required moment m).1
  act (issues_token token token_id request) moment m =
      (issue_service_token F token token_id request moment m).1
  act (validates_token token) moment m = (validate_service_token F token moment m).1
  act (refreshes_token token) moment m = (validate_service_token_for_refresh F token moment m).1
  act (revokes_service_token token reason) moment m =
      (revoke_service_token F token reason moment m).1

  unfoldable pub run : List (Action × Moment) → SecurityManager → SecurityManager
  unfolding issue_session validate_session revoke_session ensure_role issue_service_token
      validate_service_token validate_service_token_for_refresh revoke_service_token
  run [] m = m
  run ((action, moment) ∷ rest) m = run rest (act action moment m)

abbrev at : Moment → Steps.Call → Event
at moment call = record { now_instant = moment.now_instant; now = moment.now; call = call }

-- What an action does to the sessions, as calls of their store.
abbrev pub session_events : Action → Moment → List Event
session_events (issues token user_id role) moment = at moment (creates token user_id role) ∷ []
session_events (validates_session token) moment = at moment (validates token) ∷ []
session_events (revokes_session token reason) moment =
    at moment (validates token) ∷ at moment (revokes token) ∷ []
session_events (ensures token required) moment = at moment (validates token) ∷ []
session_events _ moment = []

unfoldable pub all_events : List (Action × Moment) → List Event
all_events [] = []
all_events ((action, moment) ∷ rest) = session_events action moment ++ all_events rest

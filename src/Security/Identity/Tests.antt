-- ===== src/Security/Identity/Tests.antt =====
-- The identity theorems at a concrete server, and runs of its code.
use fenrir.Prelude.{
  ℕ, ◌*◌, second, String, Option, none, some, List, [], ◌∷◌, ◌≡◌, refl, true, false, arith, ◌<◌,
}
use fenrir.Prelude.Exec.{ok, err}
use fenrir.Audit.{system}
use fenrir.Security.Role.{Role}
use fenrir.Security.Identity.{
  IdentityError, IdentityState, unauthorized, token_expired, invalid_credentials,
}
use fenrir.Security.Identity.Data.{RawHeader, RawClaims}
use fenrir.Security.Identity.Crates.{Crates}
use fenrir.Security.Identity.Persisted.{persisted}
use fenrir.Security.Identity.Store.{Fresh, no_faults, fresh_state}
use fenrir.Security.Identity.Users.{password_writer, set_password}
use fenrir.Security.Identity.Keys.{header_of}
use fenrir.Security.Identity.Authority.{
  Settings, IdentityAuthority, IssueTokenRequest, IssuedToken, Moment, claims_of,
}
use fenrir.Security.Identity.Issue.{issue_in, issue_token}
use fenrir.Security.Identity.Verify.{verify}
use fenrir.Security.Identity.Logins.{settings_of, bootstrap}
use fenrir.Security.Identity.History.{Call, sets_password, logs_in, run}
use fenrir.Security.Identity.Toy.{toy, toy-IsLawful}
use fenrir.Prelude.{ap, sym, eq_iff, ◌∙◌}
use fenrir.Prelude.Dict.{lookup}
use fenrir.Security.Identity.Crates.{IsLawful}
use fenrir.Security.Identity.Store.{load_or_initialize}
use fenrir.Security.Identity.Logins.{authenticate_user}
use fenrir.Security.Identity.RoundTrip.{claims_for}
use fenrir.Security.Identity.Login.{IsHashOf, set_password-authenticate_user}
use fenrir.Security.Identity.Reload.{IsWell}
use fenrir.Security.Identity.Evolution.{AllFew}
use fenrir.Security.Identity.Resumed.{bootstrap-verify}
use fenrir.Security.Identity.History.{issue_token-run-verify, run-IsWell}

abbrev fresh : Fresh
fresh = record { secret_bytes = []; key_id = "kid-1"; now = 0 }

abbrev settings : Settings
settings = settings_of "prod" "one" "fenrir" "1.0" 60

abbrev request : IssueTokenRequest
request = record {
  actor = system;
  user_id = "alice";
  display_name = some " Alice ";
  role = Role.operator;
}

abbrev moment : Moment
moment = record {
  now = 100 * second;
  token_id = "t-1";
  fault = none;
  audited_at = 100 * second;
  refuses = false;
}

abbrev bare : Crates
bare = toy [] [] []

abbrev first : IdentityState
first = fresh_state bare "prod" "one" "1.0" fresh

abbrev header : RawHeader
header = header_of bare first.current_key

abbrev claims : RawClaims
claims = claims_of settings request moment (160 * second)

-- What can be written as JSON in these tests: the states at the start, with a password, and then
-- with a token too.
abbrev with_alice : IdentityState
with_alice = (password_writer "alice" "secret" Role.admin (50 * second) first).1

abbrev signing : Crates
signing = toy [] (header ∷ []) (claims ∷ [])

abbrev with_token_too : IdentityState
with_token_too = (issue_in signing settings request moment (160 * second) with_alice).1

abbrev crates : Crates
crates =
    toy (persisted bare first ∷ persisted bare with_alice ∷ persisted bare with_token_too ∷ [])
      (header ∷ []) (claims ∷ [])

abbrev started : IdentityAuthority
started = record {
  settings = settings;
  store = record { state = first; poisoned = false; file = some (0 ∷ []) };
  audit = [];
}

starts : bootstrap crates "prod" "one" "fenrir" "1.0" 60 fresh no_faults none [] ≡ ok started
unfolding bootstrap toy fenrir.Security.Identity.Toy.number_discrete
starts = refl

abbrev known : IdentityAuthority
known = record started {
  store = record { state = with_alice; poisoned = false; file = some (1 ∷ []) };
}

loads : load_or_initialize crates "prod" "one" "1.0" fresh no_faults none ≡ ok started.store
unfolding load_or_initialize toy fenrir.Security.Identity.Toy.number_discrete
loads = refl

started-IsWell : IsWell started.store.state
unfolding toy
started-IsWell = record { ascending = tt; named = tt; secret = refl; public = refl }

abbrev knows_alice : List (Call crates)
knows_alice = sets_password "alice" "secret" Role.admin (50 * second) none ∷ []

knows : run crates knows_alice started ≡ known
unfolding run toy fenrir.Security.Identity.Toy.number_discrete fenrir.Prelude.Ordered.insert
    fenrir.Prelude.Dict.lookup fenrir.Security.Role.as_str
knows = refl

abbrev issued : IssuedToken
issued = record {
  token = "b.b.aaab";
  issued_at = 100 * second;
  expires_at = 160 * second;
  user_id = "alice";
  key_id = "kid-1";
  fingerprint = "aaaaaaaab";
  token_id = "t-1";
}

issues_alice : (issue_token crates request moment known).0 ≡ ok issued
unfolding issue_token toy fenrir.Security.Identity.Toy.number_discrete fenrir.Prelude.Ordered.insert
    fenrir.Prelude.Dict.lookup fenrir.Security.Role.as_str fenrir.Prelude.Text.trim
issues_alice = refl

abbrev lawful : IsLawful crates
lawful =
    toy-IsLawful
      (persisted bare first ∷ persisted bare with_alice ∷ persisted bare with_token_too ∷ [])
      (header ∷ []) (claims ∷ [])

after_start : (issue_token crates request moment (run crates knows_alice started)).0 ≡ ok issued
after_start = ap (λ a. (issue_token crates request moment a).0) knows ∙ issues_alice

abbrev later_calls : List (Call crates)
later_calls =
    logs_in "alice" "secret" (110 * second) (some "disk full")
    ∷ sets_password "bob" "other" Role.viewer (120 * second) none
    ∷ []

bootstrap-verify_example :
    let left = (issue_token crates request moment (run crates knows_alice started)).1.store in
    (restarted : IdentityAuthority) × (bootstrap crates "prod" "one" "fenrir" "1.0" 60 fresh
        no_faults left.file []
      ≡ ok restarted)
    × (restarted.store.state ≡ left.state)
    × (let b = run crates later_calls restarted in
        verify crates b.settings issued.token (159 * second) b.store
        ≡ ok (claims_for settings request moment issued))
bootstrap-verify_example =
    bootstrap-verify crates lawful "prod" "one" "fenrir" "1.0" 60 fresh fresh no_faults none [] []
      started knows_alice later_calls request moment issued (159 * second) starts after_start
      (omega arith)

issue_token-run-verify_example :
    let b = run crates later_calls (issue_token crates request moment known).1 in
    verify crates b.settings issued.token (159 * second) b.store
    ≡ ok (claims_for settings request moment issued)
issue_token-run-verify_example =
    issue_token-run-verify crates lawful request moment later_calls known issued (159 * second)
      issues_alice (omega arith)

-- The second in which it expires is too late.
expired_token :
    verify crates settings "b.b.aaab" (160 * second) known.store ≡ err (unauthorized token_expired)
unfolding verify toy fenrir.Prelude.Text.trim fenrir.Prelude.Text.trim_start
expired_token = refl

sets_alice :
    (set_password crates "alice" "secret" Role.admin (50 * second) none started.store).0 ≡ ok tt
unfolding set_password toy fenrir.Security.Identity.Toy.number_discrete
    fenrir.Prelude.Ordered.insert fenrir.Prelude.Dict.lookup fenrir.Security.Role.as_str
sets_alice = refl

secret-IsHashOf : IsHashOf crates "secret" "secret"
unfolding toy
secret-IsHashOf = record {
  parsed = "secret";
  parses = refl;
  fits_iff = λ attempt.
      (λ h. sym ((eq_iff "secret" attempt).0 h), λ h. (eq_iff "secret" attempt).1 (sym h));
}

set_password-authenticate_user_example :
    (authenticate_user crates "alice" "guess"
      (60 * second)
      (some "disk full")
      (set_password crates "alice" "secret" Role.admin (50 * second) none started.store).1).0
    ≡ err (unauthorized invalid_credentials)
set_password-authenticate_user_example =
    set_password-authenticate_user crates "alice" "secret" "secret" "guess" Role.admin (50 * second)
      (60 * second) none (some "disk full") started.store tt secret-IsHashOf sets_alice

run-IsWell_example :
    IsWell (run crates later_calls started).store.state
    × AllFew (run crates later_calls started).store.state
run-IsWell_example = run-IsWell crates later_calls started started-IsWell tt

-- ===== src/Security/ServiceToken/Tests.antt =====
-- The token store's theorems at concrete stores, and runs of its code.
use fenrir.Prelude.{◌*◌, ◌≡◌, ◌↔◌, refl, false, List, [], ◌∷◌, arith, All, second, keep_if}
use fenrir.Prelude.Exec.{ok, err}
use fenrir.Prelude.Dict.{lookup, insert, remove, retain}
use fenrir.Security.Role.{ServiceRole}
use fenrir.Security.ServiceToken.{
  ServiceTokenSection, ServiceTokenStore, DelegatedTokenClaims, DelegatedTokenRequest, Limits,
  service, new, issue, validate, verdict, validate_for_refresh, validate_with, idle_timeout,
  outlives, sweep, duration_nanos, claim_cleanup,
}
use fenrir.Security.ServiceToken.Verdict.{lookup-sweep, refreshes}
use fenrir.Security.ServiceToken.Answer.{answer, is_due, InTime, validate_with-answer, validate_iff}
use fenrir.Security.ServiceToken.Schedule.{
  World, Event, advances, validates, revokes, start, step, run,
}
use fenrir.Security.ServiceToken.Schedule.Revocation.{
  Later, IsRefused, makes, run-Later, revoke_exact,
}
use fenrir.Security.ServiceToken.Schedule.Sweeps.{sweep_once}

abbrev section : ServiceTokenSection
section = record {
  lifetime_seconds = 900;
  idle_timeout_seconds = 300;
  refresh_grace_seconds = 600;
  cleanup_interval_seconds = 60;
}

abbrev request : DelegatedTokenRequest
request = record {
  actor = service "tickets" ServiceRole.read;
  tenant_id = "acme";
  scopes = "db:read" ∷ [];
}

abbrev claims : DelegatedTokenClaims
claims = record {
  token_id = "u1";
  actor = service "tickets" ServiceRole.read;
  tenant_id = "acme";
  scopes = "db:read" ∷ [];
  issued_at = 1 * second;
  expires_at = 901 * second;
}

abbrev issued : ServiceTokenStore
issued = (issue "k1" "u1" (1 * second) request (new section)).1

abbrev strict : Limits
strict = record { expiry_grace = 0; idle = 300 * second }

-- Past the idle limit a token is refused by `validate` and accepted for a refresh.
idle_token :
    ((validate "k1" (400 * second) 0 issued).0 ≡ err idle_timeout)
    × ((validate_for_refresh "k1" (400 * second) 0 issued).0 ≡ ok claims)
unfolding issue new validate validate_for_refresh lookup insert remove retain
idle_token = (refl, refl)

validate_with-answer_example :
    (validate_with "k1" strict (400 * second) (60 * second) issued).0
    ≡ answer
        (is_due (60 * second) issued)
        (outlives issued (400 * second))
        (λ e. verdict e (400 * second) strict)
        (lookup "k1" issued.tokens)
unfolding issue new
validate_with-answer_example =
    validate_with-answer "k1" strict (400 * second) (60 * second) issued refl

validate_iff_example :
    ((validate "k1" (2 * second) (60 * second) issued).0 ≡ ok claims)
    ↔ InTime issued "k1"
        (2 * second)
        (record { expiry_grace = 0; idle = issued.idle_timeout })
        claims
unfolding issue new
validate_iff_example = validate_iff "k1" (2 * second) (60 * second) issued claims refl

lookup-sweep_example :
    lookup "k1" (sweep (950 * second) issued).1.tokens
    ≡ keep_if (refreshes issued (950 * second)) (lookup "k1" issued.tokens)
unfolding issue new
lookup-sweep_example = lookup-sweep (950 * second) "k1" issued refl

-- A validation that has not read yet, and two events after which it will have.
abbrev under_way : World
under_way = record { tokens = issued; calls = start "k1" strict (2 * second) 0 ∷ [] }

abbrev goes_on : List Event
goes_on =
    advances 0
    ∷ advances 0
    ∷ advances 0
    ∷ validates "k1" (3 * second) 0
    ∷ advances 1
    ∷ advances 1
    ∷ []

none_issued : All (λ event. makes "k1" event ≡ false) goes_on
none_issued = (refl, (refl, (refl, (refl, (refl, (refl, tt))))))

run-Later_example :
    Later (lookup "k1" under_way.tokens.tokens) (lookup "k1" (run under_way goes_on).tokens.tokens)
run-Later_example = run-Later "k1" under_way goes_on none_issued

revoke_exact_example : All (IsRefused "k1") (run (step under_way (revokes "k1")) goes_on).calls
unfolding issue new
revoke_exact_example =
    revoke_exact "k1" under_way goes_on refl ((λ same claims. cc), tt) none_issued

sweep_once_example :
    (claim_cleanup
      (60 * second)
      (62 * second)
      (run
        (record {
          tokens = (claim_cleanup (60 * second) (61 * second) issued).1;
          calls = under_way.calls;
        })
        goes_on).tokens).0
    ≡ false
unfolding issue new duration_nanos claim_cleanup
sweep_once_example =
    sweep_once (60 * second) (61 * second) (62 * second) issued under_way.calls goes_on
      (omega arith) (omega arith) (omega arith) refl (tt, tt)

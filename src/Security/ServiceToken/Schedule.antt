-- ===== src/Security/ServiceToken/Schedule.antt =====
-- Validations of service tokens that run at the same time (security/service_tokens.rs): each is a
-- small machine whose steps are the atomic actions of `validate_with`, and a schedule interleaves
-- them with new calls, revocations and issues.
pub mod Revocation
pub mod Sweeps
use fenrir.Prelude.{
  ℕ, zero, suc, ◌≡◌, refl, String, Bool, true, false, Option, none, some, List, [], ◌∷◌, ◌++◌,
  arith,
}
use fenrir.Prelude.Exec.{Result, ok, err}
use fenrir.Security.ServiceToken.{
  ServiceTokenStore, ServiceTokenError, DelegatedTokenClaims, DelegatedTokenRequest, Limits,
  lifetime_limits, refresh_limits, load_cleanup, claim_cleanup, sweep, read_section, write_section,
  issue, revoke, validate_with,
}

abbrev pub Answer : Type 0
Answer = Result ServiceTokenError DelegatedTokenClaims

-- Where a validation stands: what it does next, or its answer.
pub data Phase : Type 0 where
  load : Phase
  claim : ℕ → Phase
  sweeping : Phase
  reading : Phase
  writing : Phase
  done : Answer → Phase

pub record Validation : Type 0 where
  pub token : String
  pub limits : Limits
  pub now : ℕ
  pub elapsed : ℕ
  pub phase : Phase

abbrev pub after_load : Option ℕ → Phase
after_load none = reading
after_load (some due) = claim due

abbrev pub after_claim : Bool × ServiceTokenStore → Phase × ServiceTokenStore
after_claim (true, s) = (sweeping, s)
after_claim (false, s) = (reading, s)

abbrev pub after_sweep :
    Result ServiceTokenError (Unit {0}) × ServiceTokenStore → Phase × ServiceTokenStore
after_sweep (ok u, s) = (reading, s)
after_sweep (err e, s) = (done (err e), s)

abbrev pub after_read :
    Result ServiceTokenError (Option DelegatedTokenClaims) × ServiceTokenStore
    → Phase × ServiceTokenStore
after_read (ok none, s) = (writing, s)
after_read (ok (some claims), s) = (done (ok claims), s)
after_read (err e, s) = (done (err e), s)

-- One atomic action of a validation of `token` in the given phase.
unfoldable pub advance :
    Phase → String → Limits → ℕ → ℕ → ServiceTokenStore → Phase × ServiceTokenStore
advance load token limits now elapsed s = (after_load (load_cleanup elapsed s), s)
advance (claim due) token limits now elapsed s = after_claim (claim_cleanup due elapsed s)
advance sweeping token limits now elapsed s = after_sweep (sweep now s)
advance reading token limits now elapsed s = after_read (read_section token now limits s)
advance writing token limits now elapsed s =
    let (r, t) = write_section token now limits s in (done r, t)
advance (done r) token limits now elapsed s = (done r, s)

pub record World : Type 0 where
  pub tokens : ServiceTokenStore
  pub calls : List Validation

-- The call at a place in the list makes its next step.
unfoldable pub advance_at : ℕ → List Validation → ServiceTokenStore → World
advance_at i [] s = record { tokens = s; calls = [] }
advance_at zero (c ∷ cs) s =
    let (p, t) = advance c.phase c.token c.limits c.now c.elapsed s in
    record { tokens = t; calls = record c { phase = p } ∷ cs }
advance_at (suc i) (c ∷ cs) s =
    let w = advance_at i cs s in record { tokens = w.tokens; calls = c ∷ w.calls }

pub data Event : Type 0 where
  advances : ℕ → Event
  validates refreshes : String → ℕ → ℕ → Event
  revokes : String → Event
  issues : String → String → ℕ → DelegatedTokenRequest → Event

abbrev pub start : String → Limits → ℕ → ℕ → Validation
start token limits now elapsed = record {
  token = token;
  limits = limits;
  now = now;
  elapsed = elapsed;
  phase = load;
}

unfoldable pub step : World → Event → World
unfolding advance_at
step w (advances i) = advance_at i w.calls w.tokens
step w (validates token now elapsed) = record w {
  calls = w.calls ++ start token (lifetime_limits w.tokens) now elapsed ∷ [];
}
step w (refreshes token now elapsed) = record w {
  calls = w.calls ++ start token (refresh_limits w.tokens) now elapsed ∷ [];
}
step w (revokes token) = record w { tokens = (revoke token w.tokens).1 }
step w (issues token token_id now request) = record w {
  tokens = (issue token token_id now request w.tokens).1;
}

unfoldable pub run : World → List Event → World
unfolding step
run w [] = w
run w (event ∷ events) = run (step w event) events

-- `n` steps of one validation with no other in between.
abbrev pub alone :
    ℕ → Phase → String → Limits → ℕ → ℕ → ServiceTokenStore → Phase × ServiceTokenStore
alone zero p token limits now elapsed s = (p, s)
alone (suc n) p token limits now elapsed s =
    let (q, t) = advance p token limits now elapsed s in alone n q token limits now elapsed t

-- A validation whose five steps nothing interrupts gives the answer and the store of
-- `validate_with`.
pub alone-eq-validate_with :
    (token : String) (limits : Limits) (now elapsed : ℕ) (s : ServiceTokenStore)
    → alone 5 load token limits now elapsed s ≡ (
      done (validate_with token limits now elapsed s).0,
      (validate_with token limits now elapsed s).1,
    )
unfolding advance validate_with
alone-eq-validate_with token limits now elapsed s = ground arith

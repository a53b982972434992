-- ===== src/Security/ServiceToken.antt =====
-- security/service_tokens.rs: the delegated tokens of services. Times are nanoseconds since the
-- Unix epoch, elapsed times nanoseconds since the store's own epoch; the clocks' readings and the
-- random texts are arguments. Each function below that takes the store is one atomic action of the
-- code: a load, a compare-and-exchange, or a section under the lock. `validate_with` composes them
-- for a caller that runs alone; the module Schedule interleaves them.
mod Tests
pub mod Verdict
pub mod Answer
pub mod Schedule
use fenrir.Prelude.{
  ℕ, ◌+◌, ◌*◌, second, u64_max, i64_max, min, max, String, Bool, true, false, not, ◌&&◌, Option,
  none, some, List, [], ltb, leb, ◌==◌, if◌then◌else◌,
}
use fenrir.Prelude.Exec.{Result, ok, err, Exec, pure, raise, ◌>>=◌, ◌>>◌}
use fenrir.Prelude.Dict.{Dict, lookup, insert, remove, retain}
use fenrir.Security.Role.{Role, ServiceRole}

pub data DelegatedActor : Type 0 where
  user : String → Role → DelegatedActor
  service : String → ServiceRole → DelegatedActor

pub record DelegatedTokenRequest : Type 0 where
  pub actor : DelegatedActor
  pub tenant_id : String
  pub scopes : List String

pub record DelegatedTokenClaims : Type 0 where
  pub token_id : String
  pub actor : DelegatedActor
  pub tenant_id : String
  pub scopes : List String
  pub issued_at : ℕ
  pub expires_at : ℕ

pub record DelegatedToken : Type 0 where
  pub token : String
  pub claims : DelegatedTokenClaims

pub record ServiceTokenEntry : Type 0 where
  pub claims : DelegatedTokenClaims
  pub last_activity_ns : ℕ

unfoldable pub unix_nanos : ℕ → ℕ
unix_nanos time = min time i64_max

-- `fetch_max`.
unfoldable pub touch : ℕ → ServiceTokenEntry → ServiceTokenEntry
unfolding unix_nanos
touch now entry = record entry { last_activity_ns = max entry.last_activity_ns (unix_nanos now) }

pub data TokenVerdict : Type 0 where
  valid expired idle : TokenVerdict

pub record Limits : Type 0 where
  pub expiry_grace : ℕ
  pub idle : ℕ

pub data ServiceTokenError : Type 0 where
  not_found expired idle_timeout : ServiceTokenError
  store : String → ServiceTokenError

-- The configured seconds are below 2 ^ 63, so that the cast to `i64` changes none.
pub record ServiceTokenSection : Type 0 where
  pub lifetime_seconds : ℕ
  pub idle_timeout_seconds : ℕ
  pub refresh_grace_seconds : ℕ
  pub cleanup_interval_seconds : ℕ

pub record ServiceTokenStore : Type 0 where
  pub lifetime : ℕ
  pub idle_timeout : ℕ
  pub refresh_grace : ℕ
  pub cleanup_interval : ℕ
  pub tokens : Dict ServiceTokenEntry
  pub poisoned : Bool
  pub next_cleanup_ns : ℕ

unfoldable pub duration_nanos : ℕ → ℕ
duration_nanos duration = min duration u64_max

abbrev pub saturating_add : ℕ → ℕ → ℕ
saturating_add a b = min (a + b) u64_max

abbrev pub Action : Type 0 → Type 0
Action A = Exec ServiceTokenStore ServiceTokenError A

abbrev pub lock_poisoned : ServiceTokenError
lock_poisoned = store "service token store lock poisoned"

-- `self.tokens.write().map_err(…)?`, and `read()` alike.
abbrev pub lock_tokens : Action (Unit {0})
lock_tokens s = (if s.poisoned then raise lock_poisoned else pure tt) s

unfoldable pub new : ServiceTokenSection → ServiceTokenStore
unfolding duration_nanos
new cfg = record {
  lifetime = cfg.lifetime_seconds * second;
  idle_timeout = cfg.idle_timeout_seconds * second;
  refresh_grace = cfg.refresh_grace_seconds * second;
  cleanup_interval = cfg.cleanup_interval_seconds * second;
  tokens = [];
  poisoned = false;
  next_cleanup_ns = duration_nanos (cfg.cleanup_interval_seconds * second);
}

-- `token` and `token_id` are the random texts, `now` the clock.
unfoldable pub issue : String → String → ℕ → DelegatedTokenRequest → Action DelegatedToken
unfolding unix_nanos
issue token token_id now request = do
  lock_tokens
  (λ s.
      let claims : DelegatedTokenClaims = record {
        token_id = token_id;
        actor = request.actor;
        tenant_id = request.tenant_id;
        scopes = request.scopes;
        issued_at = now;
        expires_at = now + s.lifetime;
      } in
      pure (record { token = token; claims = claims })
        (record s {
          tokens =
              insert token (record { claims = claims; last_activity_ns = unix_nanos now }) s.tokens;
        }))

unfoldable pub revoke : String → Action (Unit {0})
revoke token = do lock_tokens; (λ s. pure tt (record s { tokens = remove token s.tokens }))

unfoldable pub lifetime_limits : ServiceTokenStore → Limits
lifetime_limits s = record { expiry_grace = 0; idle = s.idle_timeout }

unfoldable pub refresh_limits : ServiceTokenStore → Limits
refresh_limits s = record {
  expiry_grace = s.refresh_grace;
  idle = s.idle_timeout + s.refresh_grace;
}

-- `now - last_activity > limits.idle` without a subtraction: the source's difference is signed.
unfoldable pub verdict : ServiceTokenEntry → ℕ → Limits → TokenVerdict
verdict entry now limits =
    if leb (entry.claims.expires_at + limits.expiry_grace) now
    then TokenVerdict.expired
    else if ltb (entry.last_activity_ns + limits.idle) now
    then TokenVerdict.idle
    else valid

-- `self.next_cleanup_ns.load`: the due time, if it has come.
unfoldable pub load_cleanup : ℕ → ServiceTokenStore → Option ℕ
unfolding duration_nanos
load_cleanup elapsed s =
    if ltb (duration_nanos elapsed) s.next_cleanup_ns then none else some s.next_cleanup_ns

-- `compare_exchange`: whether this caller won the interval's sweep.
unfoldable pub claim_cleanup : ℕ → ℕ → ServiceTokenStore → Bool × ServiceTokenStore
unfolding duration_nanos
claim_cleanup due elapsed s =
    if s.next_cleanup_ns == due
    then (
      true,
      record s {
        next_cleanup_ns =
            saturating_add (duration_nanos elapsed) (duration_nanos s.cleanup_interval);
      },
    )
    else (false, s)

-- The test by which the sweep keeps an entry.
abbrev pub outlives : ServiceTokenStore → ℕ → ServiceTokenEntry → Bool
outlives s now entry =
    if leb (entry.claims.expires_at + s.refresh_grace) now
    then false
    else leb now (entry.last_activity_ns + (s.idle_timeout + s.refresh_grace))

unfoldable pub sweep : ℕ → Action (Unit {0})
sweep now = do lock_tokens; (λ s. pure tt (record s { tokens = retain (outlives s now) s.tokens }))

abbrev pub sweep_if :
    ℕ → Bool × ServiceTokenStore → Result ServiceTokenError (Unit {0}) × ServiceTokenStore
sweep_if now (true, s) = sweep now s
sweep_if now (false, s) = (ok tt, s)

unfoldable pub cleanup_if_needed : ℕ → ℕ → Action (Unit {0})
unfolding load_cleanup claim_cleanup sweep
cleanup_if_needed now elapsed s = elim (load_cleanup elapsed s) [
  | none ↦ (ok tt, s)
  | some due ↦ sweep_if now (claim_cleanup due elapsed s)
]

-- What the section under the read lock does with the entry; `none` goes on to the write lock.
abbrev pub read_entry :
    String → ℕ → Limits → Option ServiceTokenEntry → Action (Option DelegatedTokenClaims)
read_entry token now limits none s = raise not_found s
read_entry token now limits (some entry) s = elim (verdict entry now limits) [
  | valid ↦ pure (some entry.claims) (record s { tokens = insert token (touch now entry) s.tokens })
  | _ ↦ pure none s
]

unfoldable pub read_section : String → ℕ → Limits → Action (Option DelegatedTokenClaims)
unfolding verdict touch
read_section token now limits = do
  lock_tokens
  (λ s. read_entry token now limits (lookup token s.tokens) s)

-- What the section under the write lock does with the entry, checked anew.
abbrev pub write_entry :
    String → ℕ → Limits → Option ServiceTokenEntry → Action DelegatedTokenClaims
write_entry token now limits none s = raise not_found s
write_entry token now limits (some entry) s = elim (verdict entry now limits) [
  | valid ↦ pure entry.claims (record s { tokens = insert token (touch now entry) s.tokens })
  | TokenVerdict.expired ↦
      raise ServiceTokenError.expired (record s { tokens = remove token s.tokens })
  | TokenVerdict.idle ↦ raise idle_timeout (record s { tokens = remove token s.tokens })
]

unfoldable pub write_section : String → ℕ → Limits → Action DelegatedTokenClaims
unfolding verdict touch
write_section token now limits = do
  lock_tokens
  (λ s. write_entry token now limits (lookup token s.tokens) s)

abbrev pub or_write :
    String → ℕ → Limits → Option DelegatedTokenClaims → Action DelegatedTokenClaims
or_write token now limits none = write_section token now limits
or_write token now limits (some claims) = pure claims

unfoldable pub validate_with : String → Limits → ℕ → ℕ → Action DelegatedTokenClaims
unfolding cleanup_if_needed read_section write_section
validate_with token limits now elapsed = do
  cleanup_if_needed now elapsed
  found ← read_section token now limits
  or_write token now limits found

unfoldable pub validate : String → ℕ → ℕ → Action DelegatedTokenClaims
unfolding validate_with lifetime_limits
validate token now elapsed s = validate_with token (lifetime_limits s) now elapsed s

unfoldable pub validate_for_refresh : String → ℕ → ℕ → Action DelegatedTokenClaims
unfolding validate_with refresh_limits
validate_for_refresh token now elapsed s = validate_with token (refresh_limits s) now elapsed s

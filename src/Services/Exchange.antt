-- ===== src/Services/Exchange.antt =====
-- services/token_exchange.rs: the tokens that a module may ask for, limited in each window of half a
-- minute. The module service (services/module/service.rs) is a parameter, as its answers; the clocks
-- are arguments, and a reading of `Instant` never goes back.
pub mod Window
pub mod Limit
mod Tests
use fenrir.Prelude.{
  ℕ, zero, suc, ◌+◌, ◌-◌, ◌*◌, second, String, Bool, true, false, Option, none, some, List, [], ◌∷◌,
  ltb, leb, if◌then◌else◌,
}
use fenrir.Prelude.Exec.{Result, ok, err, Exec, pure, raise, map_err, from_result, ◌>>=◌, ◌>>◌}
use fenrir.Prelude.Dict.{Dict, lookup, insert}

abbrev pub rate_limit_window : ℕ
rate_limit_window = 30 * second

abbrev pub rate_limit_max_requests : ℕ
rate_limit_max_requests = 60

pub record RateBucket : Type 0 where
  pub start : ℕ
  pub count : ℕ

-- `RateBucket::new`, and what `RateBucket::reset` makes of a bucket.
abbrev pub fresh_bucket : ℕ → RateBucket
fresh_bucket now = record { start = now; count = 0 }

-- The calls of the module service, each an answer with what it leaves of its own state.
pub record ModuleService : Type 1 where
  pub State : Type 0
  pub Token : Type 0
  pub Lease : Type 0
  pub ModuleError : Type 0
  pub issue_default_service_token : String → Exec State ModuleError Token
  pub issue_scoped_service_token : String → List String → Exec State ModuleError Token
  pub record_service_token : String → Token → State → State
  pub refresh_service_token : String → Exec State ModuleError Lease

pub data TokenExchangeError (E : Type 0) : Type 0 where
  rate_limited : TokenExchangeError E
  module_error : E → TokenExchangeError E

-- A probe of the diagnostics, with the outcome; the latency is left out.
pub record TokenExchange (S : Type 0) : Type 0 where
  pub modules : S
  pub windows : Dict RateBucket
  -- A thread has panicked under the lock of the windows.
  pub poisoned : Bool
  pub probes : List Bool

-- `entry.start.elapsed() > RATE_LIMIT_WINDOW`.
abbrev pub current : ℕ → RateBucket → RateBucket
current now bucket = if ltb rate_limit_window (now - bucket.start) then fresh_bucket now else bucket

-- `or_insert_with`.
abbrev pub bucket_of : ℕ → Option RateBucket → RateBucket
bucket_of now none = fresh_bucket now
bucket_of now (some bucket) = bucket

-- Whether the request is granted, and the bucket that it leaves.
abbrev pub counted : RateBucket → Bool × RateBucket
counted bucket =
    if leb rate_limit_max_requests bucket.count
    then (false, bucket)
    else (true, record bucket { count = suc bucket.count })

unfoldable pub ask : ℕ → Option RateBucket → Bool × RateBucket
ask now found = counted (current now (bucket_of now found))

module _ (M : ModuleService) where
  abbrev pub Call : Type 0 → Type 0
  Call A = Exec (TokenExchange M.State) (TokenExchangeError M.ModuleError) A

  abbrev answer : Bool → Call (Unit {0})
  answer true = pure tt
  answer false = raise rate_limited

  abbrev under_lock : String → ℕ → Call (Unit {0})
  under_lock module_id now s =
      let (granted, bucket) = ask now (lookup module_id s.windows) in
      answer granted (record s { windows = insert module_id bucket s.windows })

  -- A poisoned lock limits every request.
  unfoldable pub check_rate_limit : String → ℕ → Call (Unit {0})
  unfolding ask
  check_rate_limit module_id now s =
      (if s.poisoned then raise rate_limited else under_lock module_id now) s

  abbrev record_probe : Bool → Call (Unit {0})
  record_probe success s = pure tt (record s { probes = success ∷ s.probes })

  abbrev issued : String → Result M.ModuleError M.Token → Call M.Token
  issued module_id (err e) = record_probe false >> raise (module_error e)
  issued module_id (ok token) = do
    (λ s. pure tt (record s { modules = M.record_service_token module_id token s.modules }))
    record_probe true
    pure token

  -- A call of the module service.
  abbrev in_modules : {A : Type 0} → Exec M.State M.ModuleError A → Call (Result M.ModuleError A)
  in_modules call s =
      let (result, modules) = call s.modules in pure result (record s { modules = modules })

  unfoldable pub issue_default_token : String → ℕ → Call M.Token
  unfolding check_rate_limit
  issue_default_token module_id now = do
    check_rate_limit module_id now
    result ← in_modules (M.issue_default_service_token module_id)
    issued module_id result

  unfoldable pub issue_scoped_token : String → List String → ℕ → Call M.Token
  unfolding check_rate_limit
  issue_scoped_token module_id scopes now = do
    check_rate_limit module_id now
    result ← in_modules (M.issue_scoped_service_token module_id scopes)
    issued module_id result

  abbrev reset_found : String → ℕ → Option RateBucket → Dict RateBucket → Dict RateBucket
  reset_found module_id now none windows = windows
  reset_found module_id now (some bucket) windows = insert module_id (fresh_bucket now) windows

  -- Under a poisoned lock nothing is reset.
  abbrev reset : String → ℕ → Call (Unit {0})
  reset module_id now s = pure tt (
      if s.poisoned
      then s
      else record s { windows = reset_found module_id now (lookup module_id s.windows) s.windows })

  abbrev refreshed : String → ℕ → Result M.ModuleError M.Lease → Call M.Lease
  refreshed module_id now (err e) = record_probe false >> raise (module_error e)
  refreshed module_id now (ok lease) = do record_probe true; reset module_id now; pure lease

  unfoldable pub force_refresh : String → ℕ → Call M.Lease
  force_refresh module_id now = do
    result ← in_modules (M.refresh_service_token module_id)
    refreshed module_id now result

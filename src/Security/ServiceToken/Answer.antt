-- ===== src/Security/ServiceToken/Answer.antt =====
-- What the two validations answer to a caller that runs alone, on every branch.
use fenrir.Prelude.{
  ℕ, ◌≡◌, refl, ◌<◌, ◌≤◌, ◌+◌, String, Bool, false, Option, none, some, not, arith, ltb,
  if◌then◌else◌, ◌↔◌,
}
use fenrir.Prelude.Exec.{Result, ok, err}
use fenrir.Prelude.Dict.{lookup, lookup-retain}
use fenrir.Security.ServiceToken.{
  ServiceTokenStore, ServiceTokenEntry, ServiceTokenError, DelegatedTokenClaims, TokenVerdict,
  Limits, valid, verdict, lifetime_limits, refresh_limits, outlives, validate_with, validate,
  validate_for_refresh, not_found, idle_timeout, duration_nanos,
}

abbrev pub is_due : ℕ → ServiceTokenStore → Bool
is_due elapsed s = not (ltb (duration_nanos elapsed) s.next_cleanup_ns)

abbrev pub by_verdict :
    DelegatedTokenClaims → TokenVerdict → Result ServiceTokenError DelegatedTokenClaims
by_verdict claims valid = ok claims
by_verdict claims TokenVerdict.expired = err ServiceTokenError.expired
by_verdict claims TokenVerdict.idle = err idle_timeout

-- The answer, by whether the sweep is due, the sweep's test and the verdict on the entry.
abbrev pub answer :
    Bool
    → (ServiceTokenEntry → Bool)
    → (ServiceTokenEntry → TokenVerdict)
    → Option ServiceTokenEntry
    → Result ServiceTokenError DelegatedTokenClaims
answer due survives judge none = err not_found
answer due survives judge (some entry) =
    if due
    then (if survives entry then by_verdict entry.claims (judge entry) else err not_found)
    else by_verdict entry.claims (judge entry)

-- On a store with a sound lock a validation under any limits answers by the verdict on the entry,
-- and `not_found` where there is none or where the sweep is due and the entry does not outlive it.
pub validate_with-answer :
    (token : String) (limits : Limits) (now elapsed : ℕ) (s : ServiceTokenStore)
    → s.poisoned ≡ false
    → (validate_with token limits now elapsed s).0
      ≡ answer
          (is_due elapsed s)
          (outlives s now)
          (λ e. verdict e now limits)
          (lookup token s.tokens)
unfolding validate_with verdict
validate_with-answer token limits now elapsed s u =
    ground (arith, lookup-retain (outlives s now) token s.tokens)

-- An entry under the token with these claims that has not expired, with the grace, and has not been
-- idle for longer than the limit.
abbrev pub InTime : ServiceTokenStore → String → ℕ → Limits → DelegatedTokenClaims → Type 0
InTime s token now limits claims =
    (entry : ServiceTokenEntry) × (lookup token s.tokens ≡ some entry)
    × (entry.claims ≡ claims)
    × (now < entry.claims.expires_at + limits.expiry_grace)
    × (now ≤ entry.last_activity_ns + limits.idle)

-- The answer under limits within which every entry outlives the sweep.
answer_in_time :
    (due : Bool) (s : ServiceTokenStore) (now grace idle : ℕ) (claims : DelegatedTokenClaims)
    (o : Option ServiceTokenEntry)
    → grace ≤ s.refresh_grace
    → idle ≤ s.idle_timeout + s.refresh_grace
    → let limits : Limits = record { expiry_grace = grace; idle = idle } in
      (answer due (outlives s now) (λ e. verdict e now limits) o ≡ ok claims) ↔ (
        (entry : ServiceTokenEntry) × (o ≡ some entry)
        × (entry.claims ≡ claims)
        × (now < entry.claims.expires_at + grace)
        × (now ≤ entry.last_activity_ns + idle))
unfolding verdict
answer_in_time due s now grace idle claims none g i = (λ e. cc, λ h. cc (h.1))
answer_in_time due s now grace idle claims (some entry) g i =
    (λ e. (entry, refl, ground arith, ground arith, ground arith), λ h. ground arith)

-- On a store with a sound lock, `validate` succeeds with claims exactly when they are the token's and
-- the entry is neither expired nor idle, whether or not a sweep is due.
pub validate_iff :
    (token : String) (now elapsed : ℕ) (s : ServiceTokenStore) (claims : DelegatedTokenClaims)
    → s.poisoned ≡ false
    → ((validate token now elapsed s).0 ≡ ok claims)
      ↔ InTime s token now (record { expiry_grace = 0; idle = s.idle_timeout }) claims
unfolding validate lifetime_limits
validate_iff token now elapsed s claims u =
    rw (validate_with-answer token (lifetime_limits s) now elapsed s u) (
      answer_in_time (is_due elapsed s) s now 0 s.idle_timeout claims (lookup token s.tokens)
        (omega arith) (omega arith))

-- On a store with a sound lock, `validate_for_refresh` succeeds with claims exactly when they are the
-- token's and the entry is within the grace of its expiry and of the idle limit, whether or not a
-- sweep is due.
pub validate_for_refresh_iff :
    (token : String) (now elapsed : ℕ) (s : ServiceTokenStore) (claims : DelegatedTokenClaims)
    → s.poisoned ≡ false
    → ((validate_for_refresh token now elapsed s).0 ≡ ok claims)
      ↔ InTime s token now
          (record { expiry_grace = s.refresh_grace; idle = s.idle_timeout + s.refresh_grace })
          claims
unfolding validate_for_refresh refresh_limits
validate_for_refresh_iff token now elapsed s claims u =
    rw (validate_with-answer token (refresh_limits s) now elapsed s u) (
      answer_in_time (is_due elapsed s) s now s.refresh_grace (s.idle_timeout + s.refresh_grace)
        claims (lookup token s.tokens) (omega arith) (omega arith))

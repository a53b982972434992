-- ===== src/Security/ServiceToken/Schedule/Sweeps.antt =====
-- How often the service tokens are swept when validations run at the same time.
use fenrir.Prelude.{
  ℕ, zero, suc, ◌≡◌, ◌≤◌, ◌<◌, String, true, false, List, [], ◌∷◌, arith, All, All-append, u64_max,
}
use fenrir.Security.ServiceToken.{
  ServiceTokenStore, Limits, load_cleanup, claim_cleanup, sweep, read_section, write_section, issue,
  revoke, duration_nanos,
}
use fenrir.Security.ServiceToken.Schedule.{
  World, Event, Phase, Validation, load, claim, sweeping, reading, writing, done, advances,
  validates, refreshes, revokes, issues, advance, advance_at, step, run,
}

-- A caller that goes for the sweep saw its time come.
abbrev pub IsTimely : ℕ → Phase → Type 0
IsTimely elapsed (claim due) = due ≤ duration_nanos elapsed
IsTimely elapsed _ = Unit {0}

-- What an action leaves of the clock of the sweeps: the interval, and a due time that does not fall.
record Forward (s t : ServiceTokenStore) : Type 0 where
  interval : t.cleanup_interval ≡ s.cleanup_interval
  due : s.next_cleanup_ns ≤ t.next_cleanup_ns

advance-Forward :
    (p : Phase) (token : String) (limits : Limits) (now elapsed : ℕ) (s : ServiceTokenStore)
    → IsTimely elapsed p
    → Forward s (advance p token limits now elapsed s).1
unfolding advance claim_cleanup read_section write_section sweep duration_nanos
advance-Forward load token limits now elapsed s h = ground arith
advance-Forward (claim due) token limits now elapsed s h = ground arith
advance-Forward sweeping token limits now elapsed s h = ground arith
advance-Forward reading token limits now elapsed s h = ground arith
advance-Forward writing token limits now elapsed s h = ground arith
advance-Forward (done r) token limits now elapsed s h = ground arith

advance-IsTimely :
    (p : Phase) (token : String) (limits : Limits) (now elapsed : ℕ) (s : ServiceTokenStore)
    → IsTimely elapsed p
    → IsTimely elapsed (advance p token limits now elapsed s).0
unfolding advance load_cleanup claim_cleanup read_section write_section sweep duration_nanos
advance-IsTimely load token limits now elapsed s h = ground arith
advance-IsTimely (claim due) token limits now elapsed s h = ground arith
advance-IsTimely sweeping token limits now elapsed s h = ground arith
advance-IsTimely reading token limits now elapsed s h = ground arith
advance-IsTimely writing token limits now elapsed s h = ground arith
advance-IsTimely (done r) token limits now elapsed s h = ground arith

abbrev pub Timely : Validation → Type 0
Timely c = IsTimely c.elapsed c.phase

record Advanced (s : ServiceTokenStore) (w : World) : Type 0 where
  forward : Forward s w.tokens
  timely : All Timely w.calls

advance_at-Advanced :
    (i : ℕ) (cs : List Validation) (s : ServiceTokenStore)
    → All Timely cs
    → Advanced s (advance_at i cs s)
unfolding advance_at
advance_at-Advanced i [] s h = record { forward = omega arith; timely = tt }
advance_at-Advanced zero (c ∷ cs) s h = record {
  forward = advance-Forward c.phase c.token c.limits c.now c.elapsed s h.0;
  timely = (advance-IsTimely c.phase c.token c.limits c.now c.elapsed s h.0, h.1);
}
advance_at-Advanced (suc i) (c ∷ cs) s h =
    let rest = advance_at-Advanced i cs s h.1 in
    record { forward = rest.forward; timely = (h.0, rest.timely) }

step-Advanced : (w : World) (event : Event) → All Timely w.calls → Advanced w.tokens (step w event)
unfolding step revoke issue
step-Advanced w (advances i) h = advance_at-Advanced i w.calls w.tokens h
step-Advanced w (validates token now elapsed) h = record {
  forward = omega arith;
  timely = All-append Timely w.calls _ h (tt, tt);
}
step-Advanced w (refreshes token now elapsed) h = record {
  forward = omega arith;
  timely = All-append Timely w.calls _ h (tt, tt);
}
step-Advanced w (revokes token) h = record { forward = ground arith; timely = h }
step-Advanced w (issues token token_id now request) h = record {
  forward = ground arith;
  timely = h;
}

run-due :
    (w : World) (events : List Event)
    → All Timely w.calls
    → w.tokens.next_cleanup_ns ≤ (run w events).tokens.next_cleanup_ns
unfolding run
run-due w [] h = omega arith
run-due w (event ∷ events) h =
    let one = step-Advanced w event h in
    omega (arith, run-due (step w event) events one.timely, one.forward.due)

-- Once a caller whose time has come wins the sweep of a due time, with a cleanup interval that is
-- not zero and an elapsed time that a `u64` of nanoseconds holds with one to spare, no other caller
-- wins the sweep of that due time, whatever the validations, revocations and issues after it do.
pub sweep_once :
    (due elapsed other : ℕ) (s : ServiceTokenStore) (calls : List Validation) (events : List Event)
    → due ≤ duration_nanos elapsed
    → duration_nanos elapsed < u64_max
    → 0 < s.cleanup_interval
    → (claim_cleanup due elapsed s).0 ≡ true
    → All Timely calls
    → (claim_cleanup due other
        (run (record { tokens = (claim_cleanup due elapsed s).1; calls = calls }) events).tokens).0
      ≡ false
unfolding claim_cleanup duration_nanos
sweep_once due elapsed other s calls events d e p won h =
    let t = (claim_cleanup due elapsed s).1 in
    ground (arith, run-due (record { tokens = t; calls = calls }) events h)

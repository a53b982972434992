-- ===== src/Security/ServiceToken/Verdict.antt =====
-- The sweep of the service tokens against the validations.
use fenrir.Prelude.{ℕ, ◌≡◌, String, Bool, false, true, arith, keep_if}
use mathlib.Core.Path.{refl, fun_ext}
use fenrir.Prelude.Dict.{lookup, lookup-retain}
use fenrir.Security.ServiceToken.{
  ServiceTokenStore, ServiceTokenEntry, valid, verdict, refresh_limits, outlives, sweep,
}

-- Whether a validation for refresh would accept the entry.
abbrev pub refreshes : ServiceTokenStore → ℕ → ServiceTokenEntry → Bool
refreshes s now entry = elim (verdict entry now (refresh_limits s)) [ valid ↦ true | _ ↦ false ]

pub outlives-eq-refreshes :
    (s : ServiceTokenStore) (now : ℕ) (entry : ServiceTokenEntry)
    → outlives s now entry ≡ refreshes s now entry
unfolding verdict refresh_limits
outlives-eq-refreshes s now entry = ground arith

-- On a store with a sound lock the sweep keeps exactly the entries that a validation for refresh at
-- the same time would accept.
pub lookup-sweep :
    (now : ℕ) (j : String) (s : ServiceTokenStore)
    → s.poisoned ≡ false
    → lookup j (sweep now s).1.tokens ≡ keep_if (refreshes s now) (lookup j s.tokens)
unfolding sweep refresh_limits
lookup-sweep now j s u =
    rw (u, lookup-retain (outlives s now) j s.tokens, fun_ext (outlives-eq-refreshes s now)) refl

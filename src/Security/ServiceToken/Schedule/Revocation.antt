-- ===== src/Security/ServiceToken/Schedule/Revocation.antt =====
-- What interleaved validations, revocations and issues do to one token.
use text.Mathlib.Text.{◌==◌}
use text.Mathlib.TextPositions.{eq_refl}
use fenrir.Prelude.{
  ℕ, zero, suc, ◌≡◌, ◌≢◌, refl, ◌∙◌, keep_if, ◌≤◌, String, Bool, false, Option, none, some, List,
  [], ◌∷◌, arith, All, All-append, eq_iff, Bool-cases, inl, inr,
}
use fenrir.Prelude.Exec.{ok}
use fenrir.Prelude.Dict.{Dict, lookup, insert, remove, lookup-insert, lookup-remove, lookup-retain}
use fenrir.Security.ServiceToken.{
  ServiceTokenStore, ServiceTokenEntry, DelegatedTokenClaims, Limits, load_cleanup, claim_cleanup,
  sweep, read_section, write_section, read_entry, write_entry, issue, revoke, touch, outlives,
}
use fenrir.Security.ServiceToken.Schedule.{
  World, Event, Phase, Validation, load, claim, sweeping, reading, writing, done, advances,
  validates, refreshes, revokes, issues, advance, advance_at, step, run,
}

-- The entry after, against the entry before: gone, or with the same claims and no less recent.
abbrev pub Later : Option ServiceTokenEntry → Option ServiceTokenEntry → Type 0
Later old none = Unit {0}
Later none (some new) = ⊥
Later (some old) (some new) =
    (new.claims ≡ old.claims) × (old.last_activity_ns ≤ new.last_activity_ns)

Later-refl : (o : Option ServiceTokenEntry) → Later o o
Later-refl none = tt
Later-refl (some e) = (refl, omega arith)

Later-trans : (o p q : Option ServiceTokenEntry) → Later o p → Later p q → Later o q
Later-trans o p none h k = tt
Later-trans none none (some e) h k = k
Later-trans none (some d) (some e) h k = h
Later-trans (some c) none (some e) h k = absurd k
Later-trans (some c) (some d) (some e) h k = (k.0 ∙ h.0, omega arith)

Later-keep_if :
    (p : ServiceTokenEntry → Bool) (o : Option ServiceTokenEntry) → Later o (keep_if p o)
Later-keep_if p none = tt
Later-keep_if p (some e) = ground arith

-- Under an entry's own key a touch keeps the claims, and under any other key everything.
touch-Later :
    (token j : String) (now : ℕ) (entry : ServiceTokenEntry) (tokens : Dict ServiceTokenEntry)
    → lookup token tokens ≡ some entry
    → Later (lookup j tokens) (lookup j (insert token (touch now entry) tokens))
unfolding touch
touch-Later token j now entry tokens e =
    rw (lookup-insert token j (touch now entry) tokens) (elim (Bool-cases (token == j)) [
      | inl h ↦ rw (h, ← (eq_iff token j).0 h, e) (refl, omega arith)
      | inr h ↦ rw h (Later-refl (lookup j tokens))
    ])

remove-Later :
    (token j : String) (tokens : Dict ServiceTokenEntry)
    → Later (lookup j tokens) (lookup j (remove token tokens))
remove-Later token j tokens = rw (lookup-remove token j tokens) (elim (Bool-cases (token == j)) [
  | inl h ↦ rw h tt
  | inr h ↦ rw h (Later-refl (lookup j tokens))
])

sweep-Later :
    (now : ℕ) (j : String) (s : ServiceTokenStore)
    → Later (lookup j s.tokens) (lookup j (sweep now s).1.tokens)
unfolding sweep
sweep-Later now j s = elim (Bool-cases s.poisoned) [
  | inl h ↦ simp h (Later-refl (lookup j s.tokens))
  | inr h ↦ simp (h, lookup-retain) (Later-keep_if (outlives s now) (lookup j s.tokens))
]

read_entry-Later :
    (token j : String) (now : ℕ) (limits : Limits) (found : Option ServiceTokenEntry)
    (s : ServiceTokenStore)
    → lookup token s.tokens ≡ found
    → Later (lookup j s.tokens) (lookup j (read_entry token now limits found s).1.tokens)
read_entry-Later token j now limits none s e = Later-refl (lookup j s.tokens)
read_entry-Later token j now limits (some entry) s e =
    ground (arith, touch-Later token j now entry s.tokens e, Later-refl (lookup j s.tokens))

write_entry-Later :
    (token j : String) (now : ℕ) (limits : Limits) (found : Option ServiceTokenEntry)
    (s : ServiceTokenStore)
    → lookup token s.tokens ≡ found
    → Later (lookup j s.tokens) (lookup j (write_entry token now limits found s).1.tokens)
write_entry-Later token j now limits none s e = Later-refl (lookup j s.tokens)
write_entry-Later token j now limits (some entry) s e =
    ground (arith, touch-Later token j now entry s.tokens e, remove-Later token j s.tokens)

advance-Later :
    (p : Phase) (token j : String) (limits : Limits) (now elapsed : ℕ) (s : ServiceTokenStore)
    → Later (lookup j s.tokens) (lookup j (advance p token limits now elapsed s).1.tokens)
unfolding advance claim_cleanup read_section write_section
advance-Later load token j limits now elapsed s = Later-refl (lookup j s.tokens)
advance-Later (claim due) token j limits now elapsed s =
    ground (arith, Later-refl (lookup j s.tokens))
advance-Later sweeping token j limits now elapsed s = ground (arith, sweep-Later now j s)
advance-Later reading token j limits now elapsed s = ground (
  arith,
  Later-refl (lookup j s.tokens),
  read_entry-Later token j now limits (lookup token s.tokens) s refl,
)
advance-Later writing token j limits now elapsed s = ground (
  arith,
  Later-refl (lookup j s.tokens),
  write_entry-Later token j now limits (lookup token s.tokens) s refl,
)
advance-Later (done r) token j limits now elapsed s = Later-refl (lookup j s.tokens)

advance_at-Later :
    (i : ℕ) (j : String) (cs : List Validation) (s : ServiceTokenStore)
    → Later (lookup j s.tokens) (lookup j (advance_at i cs s).tokens.tokens)
unfolding advance_at
advance_at-Later i j [] s = Later-refl (lookup j s.tokens)
advance_at-Later zero j (c ∷ cs) s = advance-Later c.phase c.token j c.limits c.now c.elapsed s
advance_at-Later (suc i) j (c ∷ cs) s = advance_at-Later i j cs s

abbrev pub makes : String → Event → Bool
makes token (issues other token_id now request) = other == token
makes token _ = false

step-Later :
    (j : String) (w : World) (event : Event)
    → makes j event ≡ false
    → Later (lookup j w.tokens.tokens) (lookup j (step w event).tokens.tokens)
unfolding step revoke issue
step-Later j w (advances i) m = advance_at-Later i j w.calls w.tokens
step-Later j w (validates token now elapsed) m = Later-refl (lookup j w.tokens.tokens)
step-Later j w (refreshes token now elapsed) m = Later-refl (lookup j w.tokens.tokens)
step-Later j w (revokes token) m = elim (Bool-cases w.tokens.poisoned) [
  | inl h ↦ simp h (Later-refl (lookup j w.tokens.tokens))
  | inr h ↦ simp h (remove-Later token j w.tokens.tokens)
]
step-Later j w (issues token token_id now request) m = elim (Bool-cases w.tokens.poisoned) [
  | inl h ↦ simp h (Later-refl (lookup j w.tokens.tokens))
  | inr h ↦ simp (h, lookup-insert, m) (Later-refl (lookup j w.tokens.tokens))
]

-- Over any schedule in which the token is not issued anew, its entry is either gone or has the claims
-- it had, and its time of last activity has not moved back; an entry that is gone stays gone.
pub run-Later :
    (token : String) (w : World) (events : List Event)
    → All (λ event. makes token event ≡ false) events
    → Later (lookup token w.tokens.tokens) (lookup token (run w events).tokens.tokens)
unfolding run
run-Later token w [] m = Later-refl (lookup token w.tokens.tokens)
run-Later token w (event ∷ events) m =
    Later-trans (lookup token w.tokens.tokens) (lookup token (step w event).tokens.tokens)
      (lookup token (run (step w event) events).tokens.tokens) (step-Later token w event m.0)
      (run-Later token (step w event) events m.1)

-- No validation of the token has succeeded.
abbrev pub IsRefused : String → Validation → Type 0
IsRefused token c = c.token ≡ token → (claims : DelegatedTokenClaims) → c.phase ≢ done (ok claims)

-- With no entry under it a validation cannot succeed in its next step.
advance-IsRefused :
    (p : Phase) (token : String) (limits : Limits) (now elapsed : ℕ) (s : ServiceTokenStore)
    → lookup token s.tokens ≡ none
    → ((claims : DelegatedTokenClaims) → p ≢ done (ok claims))
    → (claims : DelegatedTokenClaims) → (advance p token limits now elapsed s).0 ≢ done (ok claims)
unfolding advance claim_cleanup read_section write_section sweep load_cleanup
advance-IsRefused load token limits now elapsed s e h claims = ground arith
advance-IsRefused (claim due) token limits now elapsed s e h claims = ground arith
advance-IsRefused sweeping token limits now elapsed s e h claims = ground arith
advance-IsRefused reading token limits now elapsed s e h claims = ground arith
advance-IsRefused writing token limits now elapsed s e h claims = ground arith
advance-IsRefused (done r) token limits now elapsed s e h claims = h claims

advance_at-IsRefused :
    (i : ℕ) (token : String) (cs : List Validation) (s : ServiceTokenStore)
    → lookup token s.tokens ≡ none
    → All (IsRefused token) cs
    → All (IsRefused token) (advance_at i cs s).calls
unfolding advance_at
advance_at-IsRefused i token [] s e h = tt
advance_at-IsRefused zero token (c ∷ cs) s e h = (
  λ same. advance-IsRefused c.phase c.token c.limits c.now c.elapsed s (rw same e) (h.0 same),
  h.1,
)
advance_at-IsRefused (suc i) token (c ∷ cs) s e h = (h.0, advance_at-IsRefused i token cs s e h.1)

step-IsRefused :
    (token : String) (w : World) (event : Event)
    → lookup token w.tokens.tokens ≡ none
    → All (IsRefused token) w.calls
    → All (IsRefused token) (step w event).calls
unfolding step
step-IsRefused token w (advances i) e h = advance_at-IsRefused i token w.calls w.tokens e h
step-IsRefused token w (validates other now elapsed) e h =
    All-append (IsRefused token) w.calls _ h ((λ same claims. cc), tt)
step-IsRefused token w (refreshes other now elapsed) e h =
    All-append (IsRefused token) w.calls _ h ((λ same claims. cc), tt)
step-IsRefused token w (revokes other) e h = h
step-IsRefused token w (issues other token_id now request) e h = h

Later-none : (o : Option ServiceTokenEntry) → Later none o → o ≡ none
Later-none none h = refl
Later-none (some e) h = absurd h

run-IsRefused :
    (token : String) (w : World) (events : List Event)
    → All (λ event. makes token event ≡ false) events
    → lookup token w.tokens.tokens ≡ none
    → All (IsRefused token) w.calls
    → All (IsRefused token) (run w events).calls
unfolding run
run-IsRefused token w [] m e h = h
run-IsRefused token w (event ∷ events) m e h =
    run-IsRefused token (step w event) events m.1
      (Later-none _ (rw e at (step-Later token w event m.0))) (step-IsRefused token w event e h)

-- With a sound lock, once `revoke` has returned no validation of the token succeeds that had not
-- succeeded before, neither one that was under way nor one that starts later, of either kind and in
-- whatever order the actions interleave, as long as the token is not issued anew.
pub revoke_exact :
    (token : String) (w : World) (events : List Event)
    → w.tokens.poisoned ≡ false
    → All (IsRefused token) w.calls
    → All (λ event. makes token event ≡ false) events
    → All (IsRefused token) (run (step w (revokes token)) events).calls
unfolding step revoke
revoke_exact token w events u h m =
    run-IsRefused token _ events m (simp (u, lookup-remove, eq_refl token)) h

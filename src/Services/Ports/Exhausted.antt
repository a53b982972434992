-- ===== src/Services/Ports/Exhausted.antt =====
-- When an allocation finds no port (services/module/ports.rs).
use text.Mathlib.Text as T
use fenrir.Prelude.{
  ℕ, zero, suc, ◌+◌, ◌-◌, ◌≤◌, ◌<◌, ◌≡◌, ◌≢◌, ◌↔◌, ◌⊎◌, Any, eq_iff, inl, inr, refl, String, Bool,
  true, false, Option, none, some, [], ◌∷◌, find, ◌==◌, arith, Bool-cases,
}
use fenrir.Prelude.Dict.{Dict, lookup, remove}
use fenrir.Prelude.Exec.{Result, err}
use fenrir.Services.Ports.{
  assigned_by, reuse_if, ModuleRuntimeError, ModulePortStrategy, ModulePortAllocator, Probes,
  dynamic, fixed, ModulePortRange, no_available_ports, contains, is_assigned, ports_from,
  candidates, is_free, take_port, scan, reuse_or_scan, allocate_dynamic, assigned_port,
}

remove_absent : (k : String) (m : Dict ℕ) → lookup k m ≡ none → remove k m ≡ m
unfolding lookup remove
remove_absent k [] h = refl
remove_absent k ((j, p) ∷ m) h = ground (arith, remove_absent k m)

-- The candidates are the ports of the range: what finding none among them says.
find-ports_from-none :
    (p : ℕ → Bool) (first count : ℕ)
    → find p (ports_from first count) ≡ none
    → (port : ℕ) → first ≤ port
    → port < first + count
    → p port ≡ false
unfolding ports_from
find-ports_from-none p first zero h port a b = absurd (omega arith)
find-ports_from-none p first (suc count) h port a b = elim (Bool-cases (first == port)) [
  | inl e ↦ ground arith
  | inr e ↦
      find-ports_from-none p (suc first) count (ground arith) port (ground arith) (omega arith)
]

none-find-ports_from :
    (p : ℕ → Bool) (first count : ℕ)
    → ((port : ℕ) → first ≤ port → port < first + count → p port ≡ false)
    → find p (ports_from first count) ≡ none
unfolding ports_from
none-find-ports_from p first zero h = refl
none-find-ports_from p first (suc count) h = rw (
  h first (omega arith) (omega arith),
  none-find-ports_from p (suc first) count (λ port a b. h port (omega arith) (omega arith)),
)

-- What the scan chooses from: the assignments without the module's own.
abbrev without : String → ModulePortAllocator → Dict ℕ
without id s = remove id s.assignments

-- The scan passes every port of the range over.
abbrev IsPassedOver : Probes → ModulePortRange → Dict ℕ → Type 0
IsPassedOver probes range m =
    (port : ℕ) → contains range port ≡ true → is_free probes m port ≡ false

-- An entry of the assignments gives the port to another module.
abbrev pub IsOthers : String → ℕ → Dict ℕ → Type 0
IsOthers id port m = Any (λ (entry : String × ℕ). (entry.0 ≢ id) × (entry.1 ≡ port)) m

-- Every port of the range is another module's, or cannot be bound.
abbrev pub IsExhausted : String → Probes → ModulePortAllocator → Type 0
IsExhausted id probes s =
    (port : ℕ)
    → s.range.min ≤ port
    → port ≤ s.range.max
    → IsOthers id port s.assignments ⊎ (probes.is_port_available port ≡ false)

is_assigned-IsOthers :
    (id : String) (port : ℕ) (m : Dict ℕ)
    → is_assigned port (remove id m) ≡ true
    → IsOthers id port m
unfolding is_assigned remove
is_assigned-IsOthers id port [] h = absurd (ground arith)
is_assigned-IsOthers id port ((j, p) ∷ m) h = elim (Bool-cases (T.◌==◌ j id)) [
  | inl e ↦ inr (is_assigned-IsOthers id port m (ground arith))
  | inr e ↦ elim (Bool-cases (p == port)) [
    | inl k ↦ inl (ground (arith, eq_iff j id), ground arith)
    | inr k ↦ inr (is_assigned-IsOthers id port m (ground arith))
  ]
]

IsOthers-is_assigned :
    (id : String) (port : ℕ) (m : Dict ℕ)
    → IsOthers id port m
    → is_assigned port (remove id m) ≡ true
unfolding is_assigned remove
IsOthers-is_assigned id port [] h = absurd h
IsOthers-is_assigned id port ((j, p) ∷ m) (inl here) = ground (arith, here.0, here.1, eq_iff j id)
IsOthers-is_assigned id port ((j, p) ∷ m) (inr there) =
    ground (arith, IsOthers-is_assigned id port m there)

IsExhausted-iff :
    (id : String) (probes : Probes) (s : ModulePortAllocator)
    → IsPassedOver probes s.range (without id s) ↔ IsExhausted id probes s
IsExhausted-iff id probes s = (
  λ h port low high. elim (Bool-cases (is_assigned port (without id s))) [
    | inl e ↦ inl (is_assigned-IsOthers id port s.assignments e)
    | inr e ↦ inr (ground (arith, h port))
  ],
  λ h port within. elim (h port (ground arith) (ground arith)) [
    | inl others ↦ ground (arith, IsOthers-is_assigned id port s.assignments others)
    | inr busy ↦ ground arith
  ],
)

take_port-err :
    (id : String) (s : ModulePortAllocator) (found : Option ℕ)
    → ((take_port id found s).0 ≡ err (no_available_ports s.range.min s.range.max)) ↔ (found ≡ none)
take_port-err id s none = (λ h. refl, λ h. refl)
take_port-err id s (some p) = (λ h. absurd (ground arith), λ h. absurd (ground arith))

scan-err_iff :
    (id : String) (probes : Probes) (s : ModulePortAllocator)
    → ((scan id probes s).0 ≡ err (no_available_ports s.range.min s.range.max))
      ↔ IsPassedOver probes s.range s.assignments
unfolding scan candidates
scan-err_iff id probes s =
    let p = is_free probes s.assignments in
    let (f, b) = take_port-err id s (find p (candidates s.range)) in
    (
      λ h port within.
          find-ports_from-none p s.range.min (suc s.range.max - s.range.min) (f h) port
            (ground arith) (ground arith),
      λ h. b (
          none-find-ports_from p s.range.min (suc s.range.max - s.range.min)
            (λ port low high. h port (ground arith))),
    )

-- The module keeps no port that it can bind.
abbrev pub IsUnplaced : Probes → Option ℕ → Type 0
IsUnplaced probes none = Unit
IsUnplaced probes (some current) = probes.current_is_available ≡ false

abbrev IsRefused :
    ModulePortAllocator → Result ModuleRuntimeError (Option ℕ) × ModulePortAllocator → Type 0
IsRefused s answer = answer.0 ≡ err (no_available_ports s.range.min s.range.max)

reuse_if-err_iff :
    (id : String) (probes : Probes) (s : ModulePortAllocator) (current : ℕ) (available : Bool)
    → IsRefused s (reuse_if available id probes current s)
      ↔ (available ≡ false) × IsPassedOver probes s.range (without id s)
reuse_if-err_iff id probes s current true =
    (λ h. absurd (ground arith), λ h. absurd (ground (arith, h.0)))
reuse_if-err_iff id probes s current false =
    let (f, b) = scan-err_iff id probes (record s { assignments = remove id s.assignments }) in
    (λ h. (refl, f h), λ h. b h.1)

reuse_or_scan-err_iff :
    (id : String) (probes : Probes) (s : ModulePortAllocator) (current : Option ℕ)
    → lookup id s.assignments ≡ current
    → IsRefused s (reuse_or_scan id probes current s)
      ↔ IsUnplaced probes current × IsPassedOver probes s.range (without id s)
reuse_or_scan-err_iff id probes s none e =
    let (f, b) = scan-err_iff id probes s in
    rw (remove_absent id s.assignments e) (λ h. (tt, f h), λ h. b h.1)
reuse_or_scan-err_iff id probes s (some current) e =
    reuse_if-err_iff id probes s current probes.current_is_available

assigned_by-err_iff :
    (id : String) (probes : Probes) (s : ModulePortAllocator) (strategy : ModulePortStrategy)
    → IsRefused s (assigned_by strategy id probes s)
      ↔ (strategy ≡ dynamic)
        × IsUnplaced probes (lookup id s.assignments)
        × IsPassedOver probes s.range (without id s)
unfolding allocate_dynamic
assigned_by-err_iff id probes s fixed =
    (λ h. absurd (ground arith), λ h. absurd (ground (arith, h.0)))
assigned_by-err_iff id probes s dynamic =
    let (f, b) = reuse_or_scan-err_iff id probes s (lookup id s.assignments) refl in
    (λ h. let (a, c) = f h in (refl, a, c), λ h. b (h.1, h.2))

-- An allocation answers with the error exactly when the strategy is dynamic, the module has no port
-- that can be bound, and every port of the range is assigned to another module or cannot be bound.
pub assigned_port-err_iff :
    (id : String) (probes : Probes) (s : ModulePortAllocator)
    → ((assigned_port id probes s).0 ≡ err (no_available_ports s.range.min s.range.max))
      ↔ (s.strategy ≡ dynamic)
        × IsUnplaced probes (lookup id s.assignments)
        × IsExhausted id probes s
unfolding assigned_port
assigned_port-err_iff id probes s =
    let (f, b) = assigned_by-err_iff id probes s s.strategy in
    let (f', b') = IsExhausted-iff id probes s in
    (λ h. let (on, unplaced, over) = f h in (on, unplaced, f' over), λ h. b (h.0, h.1, b' h.2))

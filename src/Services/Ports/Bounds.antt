-- ===== src/Services/Ports/Bounds.antt =====
-- Which port an allocation answers with, and when there is none (services/module/ports.rs).
use fenrir.Prelude.{
  ℕ, zero, suc, ◌+◌, ◌-◌, ◌≤◌, ◌<◌, ◌≡◌, ◌≢◌, ◌⊎◌, inl, inr, refl, ◌∙◌, String, Bool, true, false,
  Option, none, some, List, [], ◌∷◌, find, arith, Bool-cases, eq_iff,
}
use fenrir.Prelude.Dict.{Dict, lookup, remove, lookup-insert_self, lookup-remove}
use fenrir.Prelude.Exec.{Result, ok}
use fenrir.Services.Ports.{
  assigned_by, reuse_if, ModuleRuntimeError, ModulePortStrategy, ModulePortAllocator, Probes,
  dynamic, fixed, contains, is_assigned, ports_from, candidates, is_free, take_port, scan,
  reuse_or_scan, allocate_dynamic, assigned_port,
}

-- No module has the port that the scan does not find among the assignments.
pub is_assigned-false :
    (port : ℕ) (m : Dict ℕ) → is_assigned port m ≡ false → (id : String) → lookup id m ≢ some port
unfolding is_assigned lookup
is_assigned-false port [] h id e = ground arith
is_assigned-false port ((j, p) ∷ m) h id e =
    ground (arith, is_assigned-false port m (ground arith) id)

-- The candidate that is found passes, and is in the range.
find-ports_from :
    (p : ℕ → Bool) (first count port : ℕ)
    → find p (ports_from first count) ≡ some port
    → (p port ≡ true) × (first ≤ port) × (port < first + count)
unfolding ports_from
find-ports_from p first zero port e = absurd (ground arith)
find-ports_from p first (suc count) port e = elim (Bool-cases (p first)) [
  | inl h ↦
      let same : first ≡ port = ground arith in
      (ground arith, omega (arith, same), omega (arith, same))
  | inr h ↦
      let (a, b, c) = find-ports_from p (suc first) count port (ground arith) in
      (a, omega arith, omega arith)
]

take_port-ok :
    (id : String) (s : ModulePortAllocator) (port : ℕ) (found : Option ℕ)
    → (take_port id found s).0 ≡ ok (some port)
    → (found ≡ some port) × (lookup id (take_port id found s).1.assignments ≡ some port)
take_port-ok id s port none h = absurd (ground arith)
take_port-ok id s port (some p) h =
    (ground arith, lookup-insert_self id p s.assignments ∙ ground arith)

pub find_passes : (p : ℕ → Bool) (xs : List ℕ) (port : ℕ) → find p xs ≡ some port → p port ≡ true
find_passes p [] port e = absurd (ground arith)
find_passes p (x ∷ xs) port e = elim (Bool-cases (p x)) [
  | inl h ↦ ground arith
  | inr h ↦ find_passes p xs port (ground arith)
]

-- What the scan answers: the port that the module has from now on, in the range and free before.
pub scan-ok :
    (id : String) (probes : Probes) (s : ModulePortAllocator) (port : ℕ)
    → (scan id probes s).0 ≡ ok (some port)
    → (lookup id (scan id probes s).1.assignments ≡ some port)
      × (contains s.range port ≡ true)
      × (is_free probes s.assignments port ≡ true)
unfolding scan candidates
scan-ok id probes s port h =
    let p = is_free probes s.assignments in
    let (found, held) = take_port-ok id s port (find p (candidates s.range)) h in
    let (free, low, high) =
      find-ports_from p s.range.min (suc s.range.max - s.range.min) port found in
    (held, ground arith, free)

-- The module has the port already, and it can be bound.
abbrev pub IsReused : String → Probes → ModulePortAllocator → ℕ → Type 0
IsReused id probes s port =
    (lookup id s.assignments ≡ some port) × (probes.current_is_available ≡ true)

-- The port is in the range, can be bound, and is no other module's.
abbrev pub IsTaken : String → Probes → ModulePortAllocator → ℕ → Type 0
IsTaken id probes s port =
    (contains s.range port ≡ true)
    × (probes.is_port_available port ≡ true)
    × ((other : String) → other ≢ id → lookup other s.assignments ≢ some port)

abbrev Answered :
    String
    → Probes
    → ModulePortAllocator
    → ℕ
    → Result ModuleRuntimeError (Option ℕ) × ModulePortAllocator
    → Type 0
Answered id probes s port answer =
    answer.0 ≡ ok (some port)
    → (lookup id answer.1.assignments ≡ some port)
      × (IsReused id probes s port ⊎ IsTaken id probes s port)

others_differ :
    (id : String) (m : Dict ℕ) (port : ℕ)
    → is_assigned port (remove id m) ≡ false
    → (other : String) → other ≢ id
    → lookup other m ≢ some port
others_differ id m port h other e f =
    is_assigned-false port (remove id m) h other
      (ground (arith, lookup-remove id other m, eq_iff id other))

reuse_if-ok :
    (id : String) (probes : Probes) (s : ModulePortAllocator) (port current : ℕ) (available : Bool)
    → probes.current_is_available ≡ available
    → lookup id s.assignments ≡ some current
    → Answered id probes s port (reuse_if available id probes current s)
reuse_if-ok id probes s port current true e f h = (f ∙ ground arith, inl (f ∙ ground arith, e))
reuse_if-ok id probes s port current false e f h =
    let (held, within, free) = scan-ok id probes _ port h in
    (held, inr (within, ground arith, others_differ id s.assignments port (ground arith)))

reuse_or_scan-ok :
    (id : String) (probes : Probes) (s : ModulePortAllocator) (port : ℕ) (current : Option ℕ)
    → lookup id s.assignments ≡ current
    → Answered id probes s port (reuse_or_scan id probes current s)
reuse_or_scan-ok id probes s port none e h =
    let (held, within, free) = scan-ok id probes s port h in
    (
      held,
      inr (
        within,
        ground arith,
        λ other f. is_assigned-false port s.assignments (ground arith) other,
      ),
    )
reuse_or_scan-ok id probes s port (some current) e h =
    reuse_if-ok id probes s port current probes.current_is_available refl e h

assigned_by-ok :
    (id : String) (probes : Probes) (s : ModulePortAllocator) (port : ℕ)
    (strategy : ModulePortStrategy)
    → Answered id probes s port (assigned_by strategy id probes s)
unfolding allocate_dynamic
assigned_by-ok id probes s port fixed h = absurd (ground arith)
assigned_by-ok id probes s port dynamic h =
    reuse_or_scan-ok id probes s port (lookup id s.assignments) refl h

-- A port that an allocation answers with is the one that the module has afterwards; either it had
-- the port before and the port can be bound, or the port is in the range, can be bound, and no other
-- module has it.
pub assigned_port-ok :
    (id : String) (probes : Probes) (s : ModulePortAllocator) (port : ℕ)
    → (assigned_port id probes s).0 ≡ ok (some port)
    → (lookup id (assigned_port id probes s).1.assignments ≡ some port)
      × (IsReused id probes s port ⊎ IsTaken id probes s port)
unfolding assigned_port
assigned_port-ok id probes s port = assigned_by-ok id probes s port s.strategy

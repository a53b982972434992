-- ===== src/Services/Ports/Unique.antt =====
-- Which modules may share a port (services/module/ports.rs).
use fenrir.Prelude.{
  ℕ, ◌≡◌, refl, String, Bool, true, false, Option, none, some, find, arith, eq_iff, if◌then◌else◌,
  List, [], ◌∷◌, All, ◌≢◌,
}
use fenrir.Prelude.Dict.{Dict, lookup, insert, remove, lookup-insert, lookup-remove}
use fenrir.Services.Ports.{
  ModulePortAllocator, Probes, ModulePortStrategy, dynamic, fixed, candidates, is_free, take_port,
  scan, reuse_or_scan, reuse_if, allocate_dynamic, assigned_port, assigned_by, if_dynamic, release,
  record_assigned, has_port,
}
use fenrir.Services.Ports.Bounds.{is_assigned-false, find_passes}

-- No two modules have one port, but for the ports of the list.
abbrev pub AreUnique : List ℕ → Dict ℕ → Type 0
AreUnique ports m =
    (i j : String) (port : ℕ)
    → All (λ p. p ≢ port) ports
    → lookup i m ≡ some port
    → lookup j m ≡ some port
    → i ≡ j

-- No other module has the port.
abbrev IsUnshared : String → ℕ → Dict ℕ → Type 0
IsUnshared id port m = (other : String) → lookup other m ≡ some port → other ≡ id

insert-AreUnique :
    (ports : List ℕ) (id : String) (port : ℕ) (m : Dict ℕ)
    → AreUnique ports m
    → IsUnshared id port m
    → AreUnique ports (insert id port m)
insert-AreUnique ports id port m unique unshared i j p unlisted of_i of_j = ground (
  arith,
  lookup-insert id i port m,
  lookup-insert id j port m,
  eq_iff id i,
  eq_iff id j,
  unique i j p unlisted,
  unshared i,
  unshared j,
)

-- A port that is inserted unchecked is on the list from then on.
insert_listed-AreUnique :
    (ports : List ℕ) (id : String) (port : ℕ) (m : Dict ℕ)
    → AreUnique ports m
    → AreUnique (port ∷ ports) (insert id port m)
insert_listed-AreUnique ports id port m unique i j p (apart, unlisted) of_i of_j = ground (
  arith,
  lookup-insert id i port m,
  lookup-insert id j port m,
  eq_iff id i,
  eq_iff id j,
  apart,
  unique i j p unlisted,
)

remove-AreUnique :
    (ports : List ℕ) (id : String) (m : Dict ℕ) → AreUnique ports m → AreUnique ports (remove id m)
remove-AreUnique ports id m unique i j p unlisted of_i of_j =
    ground (arith, lookup-remove id i m, lookup-remove id j m, unique i j p unlisted)

module _ (ports : List ℕ) where
  take_port-AreUnique :
      (id : String) (probes : Probes) (s : ModulePortAllocator) (found : Option ℕ)
      → ((port : ℕ) → found ≡ some port → is_free probes s.assignments port ≡ true)
      → AreUnique ports s.assignments
      → AreUnique ports (take_port id found s).1.assignments
  take_port-AreUnique id probes s none free unique = unique
  take_port-AreUnique id probes s (some port) free unique =
      insert-AreUnique ports id port s.assignments unique (λ other e.
        absurd (is_assigned-false port s.assignments (ground (arith, free port refl)) other e))

  scan-AreUnique :
      (id : String) (probes : Probes) (s : ModulePortAllocator)
      → AreUnique ports s.assignments
      → AreUnique ports (scan id probes s).1.assignments
  unfolding scan
  scan-AreUnique id probes s =
      take_port-AreUnique id probes s (find (is_free probes s.assignments) (candidates s.range))
        (find_passes (is_free probes s.assignments) (candidates s.range))

  reuse_if-AreUnique :
      (id : String) (probes : Probes) (s : ModulePortAllocator) (current : ℕ) (available : Bool)
      → AreUnique ports s.assignments
      → AreUnique ports (reuse_if available id probes current s).1.assignments
  reuse_if-AreUnique id probes s current true unique = unique
  reuse_if-AreUnique id probes s current false unique =
      scan-AreUnique id probes _ (remove-AreUnique ports id s.assignments unique)

  reuse_or_scan-AreUnique :
      (id : String) (probes : Probes) (s : ModulePortAllocator) (current : Option ℕ)
      → AreUnique ports s.assignments
      → AreUnique ports (reuse_or_scan id probes current s).1.assignments
  reuse_or_scan-AreUnique id probes s none = scan-AreUnique id probes s
  reuse_or_scan-AreUnique id probes s (some current) =
      reuse_if-AreUnique id probes s current probes.current_is_available

  assigned_by-AreUnique :
      (id : String) (probes : Probes) (s : ModulePortAllocator) (strategy : ModulePortStrategy)
      → AreUnique ports s.assignments
      → AreUnique ports (assigned_by strategy id probes s).1.assignments
  unfolding allocate_dynamic
  assigned_by-AreUnique id probes s fixed unique = unique
  assigned_by-AreUnique id probes s dynamic unique =
      reuse_or_scan-AreUnique id probes s (lookup id s.assignments) unique

  if_dynamic-AreUnique :
      (strategy : ModulePortStrategy) (s : ModulePortAllocator) (m : Dict ℕ)
      → AreUnique ports s.assignments
      → AreUnique ports m
      → AreUnique ports (if_dynamic strategy s m).assignments
  if_dynamic-AreUnique fixed s m before after = before
  if_dynamic-AreUnique dynamic s m before after = after

record_if-AreUnique :
    (ports : List ℕ) (id : String) (port : ℕ) (m : Dict ℕ) (known : Bool)
    → AreUnique ports m
    → AreUnique (port ∷ ports) (if known then m else insert id port m)
record_if-AreUnique ports id port m true unique = λ i j p unlisted. unique i j p unlisted.1
record_if-AreUnique ports id port m false unique = insert_listed-AreUnique ports id port m unique

-- One call; the list has the ports that were recorded until then.
pub data Call (s : ModulePortAllocator) (ports : List ℕ)
    : ModulePortAllocator → List ℕ → Type 0 where
  assign : (id : String) (probes : Probes) → Call s ports (assigned_port id probes s).1 ports
  release_call : (id : String) → Call s ports (release id s) ports
  record_call : (id : String) (port : ℕ) → Call s ports (record_assigned id port s) (port ∷ ports)

-- What calls make of an allocator, with the ports that `record_assigned` was called for.
pub data Calls (s : ModulePortAllocator) : ModulePortAllocator → List ℕ → Type 0 where
  no_call : Calls s s []
  then_call :
      (t u : ModulePortAllocator) (before after : List ℕ)
      → Calls s t before
      → Call t before u after
      → Calls s u after

call-AreUnique :
    (s t : ModulePortAllocator) (before after : List ℕ)
    → Call s before t after
    → AreUnique before s.assignments
    → AreUnique after t.assignments
unfolding assigned_port release record_assigned
call-AreUnique s t before _ (assign id probes) unique =
    assigned_by-AreUnique before id probes s s.strategy unique
call-AreUnique s t before _ (release_call id) unique =
    if_dynamic-AreUnique before s.strategy s _ unique
      (remove-AreUnique before id s.assignments unique)
call-AreUnique s t before _ (record_call id port) unique =
    if_dynamic-AreUnique (port ∷ before) s.strategy s _ (λ i j p unlisted. unique i j p unlisted.1)
      (record_if-AreUnique before id port s.assignments (has_port (lookup id s.assignments) port)
        unique)

-- Two modules share a port only if it was given to one of them by `record_assigned`, which does not
-- look at the other assignments: where no two have one port at first, then after any calls of
-- `assigned_port`, `release` and `record_assigned` none share a port for which the last was not
-- called.
pub calls-AreUnique :
    (s t : ModulePortAllocator) (recorded : List ℕ)
    → Calls s t recorded
    → AreUnique [] s.assignments
    → AreUnique recorded t.assignments
calls-AreUnique s t _ no_call unique = unique
calls-AreUnique s t _ (then_call u _ before after calls call) unique =
    call-AreUnique u t before after call (calls-AreUnique s u before calls unique)

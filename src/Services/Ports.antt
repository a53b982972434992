-- ===== src/Services/Ports.antt =====
-- services/module/ports.rs: the ports that the host assigns to its modules. Probing a port and
-- saving the assignments are the operating system's: the probes are arguments, and a failed save is
-- only logged by the code, so that the state in memory does not depend on it.
pub mod Bounds
pub mod Exhausted
pub mod Unique
use fenrir.Prelude.{
  ℕ, zero, suc, ◌-◌, String, Bool, true, false, not, ◌&&◌, ◌||◌, Option, none, some, List, [], ◌∷◌,
  find, if◌then◌else◌, leb, ◌==◌,
}
use fenrir.Prelude.Dict.{Dict, lookup, insert, remove}
use fenrir.Prelude.Exec.{Exec, pure, raise}

pub data ModulePortStrategy : Type 0 where
  dynamic fixed : ModulePortStrategy

pub record ModulePortRange : Type 0 where
  pub min : ℕ
  pub max : ℕ

-- `ModulePortRange::contains`.
abbrev pub contains : ModulePortRange → ℕ → Bool
contains range port = leb range.min port && leb port range.max

pub data ModuleRuntimeError : Type 0 where
  no_available_ports : ℕ → ℕ → ModuleRuntimeError

pub record ModulePortAllocator : Type 0 where
  pub strategy : ModulePortStrategy
  pub range : ModulePortRange
  pub assignments : Dict ℕ

abbrev pub Allocator : Type 0 → Type 0
Allocator A = Exec ModulePortAllocator ModuleRuntimeError A

-- What `is_port_available` answers in one allocation: for the port that the module has, and for the
-- candidates of the range, each of which is probed once.
pub record Probes : Type 0 where
  pub current_is_available : Bool
  pub is_port_available : ℕ → Bool

-- `guard.values().any(|assigned| assigned == &candidate)`.
unfoldable pub is_assigned : ℕ → Dict ℕ → Bool
is_assigned candidate [] = false
is_assigned candidate ((id, port) ∷ rest) = port == candidate || is_assigned candidate rest

unfoldable pub ports_from : ℕ → ℕ → List ℕ
ports_from port zero = []
ports_from port (suc count) = port ∷ ports_from (suc port) count

-- `self.range.min..=self.range.max`.
unfoldable pub candidates : ModulePortRange → List ℕ
unfolding ports_from
candidates range = ports_from range.min (suc range.max - range.min)

-- Whether the scan takes the candidate.
abbrev pub is_free : Probes → Dict ℕ → ℕ → Bool
is_free probes assignments candidate =
    not (is_assigned candidate assignments) && probes.is_port_available candidate

abbrev pub take_port : String → Option ℕ → Allocator (Option ℕ)
take_port module_id none s = raise (no_available_ports s.range.min s.range.max) s
take_port module_id (some port) s =
    pure (some port) (record s { assignments = insert module_id port s.assignments })

-- The scan of the range for a port.
unfoldable pub scan : String → Probes → Allocator (Option ℕ)
unfolding is_assigned candidates
scan module_id probes s =
    take_port module_id (find (is_free probes s.assignments) (candidates s.range)) s

-- The port that the module has is reused if it can be bound, and given up otherwise.
abbrev pub reuse_if : Bool → String → Probes → ℕ → Allocator (Option ℕ)
reuse_if true module_id probes current s = pure (some current) s
reuse_if false module_id probes current s =
    scan module_id probes (record s { assignments = remove module_id s.assignments })

abbrev pub reuse_or_scan : String → Probes → Option ℕ → Allocator (Option ℕ)
reuse_or_scan module_id probes none s = scan module_id probes s
reuse_or_scan module_id probes (some current) s =
    reuse_if probes.current_is_available module_id probes current s

unfoldable pub allocate_dynamic : String → Probes → Allocator (Option ℕ)
unfolding scan
allocate_dynamic module_id probes s =
    reuse_or_scan module_id probes (lookup module_id s.assignments) s

abbrev pub assigned_by : ModulePortStrategy → String → Probes → Allocator (Option ℕ)
assigned_by fixed module_id probes = pure none
assigned_by dynamic module_id probes = allocate_dynamic module_id probes

unfoldable pub assigned_port : String → Probes → Allocator (Option ℕ)
unfolding allocate_dynamic
assigned_port module_id probes s = assigned_by s.strategy module_id probes s

-- The early return of the operations that do nothing under a fixed strategy.
abbrev pub if_dynamic : ModulePortStrategy → ModulePortAllocator → Dict ℕ → ModulePortAllocator
if_dynamic fixed s changed = s
if_dynamic dynamic s changed = record s { assignments = changed }

unfoldable pub release : String → ModulePortAllocator → ModulePortAllocator
release module_id s = if_dynamic s.strategy s (remove module_id s.assignments)

-- `guard.get(module_id) == Some(&port)`.
abbrev pub has_port : Option ℕ → ℕ → Bool
has_port none port = false
has_port (some current) port = current == port

unfoldable pub record_assigned : String → ℕ → ModulePortAllocator → ModulePortAllocator
record_assigned module_id port s = if_dynamic s.strategy s (
    if has_port (lookup module_id s.assignments) port
    then s.assignments
    else insert module_id port s.assignments)

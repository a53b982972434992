-- ===== src/Services/Tests.antt =====
-- Runs of the services' code, and its theorems at concrete inputs.
use fenrir.Prelude.{◌≡◌, ◌↔◌, refl, true, false, not, some, [], ◌∷◌, ◌==◌, arith, eq_iff, All}
use fenrir.Prelude.Dict.{lookup, remove}
use fenrir.Prelude.Exec.{ok, err}
use fenrir.Services.Ports.{
  ModulePortAllocator, Probes, dynamic, no_available_ports, assigned_port, release, record_assigned,
}
use fenrir.Services.Ports.Exhausted.{IsUnplaced, IsExhausted, assigned_port-err_iff}
use fenrir.Services.Ports.Unique.{
  AreUnique, Calls, no_call, then_call, assign, release_call, record_call, calls-AreUnique,
}
use fenrir.Security.Role.{ServiceRole, service_satisfies}
use fenrir.Security.ServiceToken.{DelegatedActor, DelegatedTokenClaims}
use fenrir.Services.Access.{ServiceSecurityMetadata, fixed, allows_claims}
use fenrir.Services.Access.Grants.{IsAdmitted, IsTenant, Carries, allows_claims_iff}

-- Three ports, of which `web` has the first.
abbrev allocator : ModulePortAllocator
allocator = record {
  strategy = dynamic;
  range = record { min = 7000; max = 7002 };
  assignments = ("web", 7000) ∷ [];
}

-- Port 7001 is another program's.
abbrev probes : Probes
probes = record { current_is_available = true; is_port_available = λ port. not (port == 7001) }

abbrev no_port : Probes
no_port = record { current_is_available = false; is_port_available = λ port. false }

next_port : (assigned_port "api" probes allocator).0 ≡ ok (some 7002)
unfolding assigned_port lookup remove
next_port = refl

reused_port : (assigned_port "web" probes allocator).0 ≡ ok (some 7000)
unfolding assigned_port lookup remove
reused_port = refl

refused_port : (assigned_port "web" no_port allocator).0 ≡ err (no_available_ports 7000 7002)
unfolding assigned_port lookup remove
refused_port = refl

assigned_port-err_iff_example :
    ((assigned_port "web" no_port allocator).0 ≡ err (no_available_ports 7000 7002))
    ↔ (dynamic ≡ dynamic)
      × IsUnplaced no_port (lookup "web" allocator.assignments)
      × IsExhausted "web" no_port allocator
assigned_port-err_iff_example = assigned_port-err_iff "web" no_port allocator

allocator-AreUnique : AreUnique [] allocator.assignments
unfolding lookup
allocator-AreUnique i j port unlisted of_i of_j = ground (arith, eq_iff "web" i, eq_iff "web" j)

-- `job` is recorded on the port that `web` has.
abbrev later : ModulePortAllocator
later = release "web" (assigned_port "api" probes (record_assigned "job" 7000 allocator)).1

calls : Calls allocator later (7000 ∷ [])
calls =
    then_call _ _ _ _
      (then_call _ _ _ _ (then_call _ _ _ _ no_call (record_call "job" 7000)) (assign "api" probes))
      (release_call "web")

calls-AreUnique_example : AreUnique (7000 ∷ []) later.assignments
calls-AreUnique_example = calls-AreUnique allocator later (7000 ∷ []) calls allocator-AreUnique

-- An internal service of one tenant, which asks for a scope.
abbrev ledger : ServiceSecurityMetadata
ledger = record {
  internal_only = true;
  allowed_roles = ServiceRole.write ∷ [];
  required_scopes = "ledger:read" ∷ [];
  tenant = fixed "acme";
}

abbrev claims : ServiceRole → DelegatedTokenClaims
claims role = record {
  token_id = "t1";
  actor = DelegatedActor.service "billing" role;
  tenant_id = "acme";
  scopes = "ledger:write" ∷ "ledger:read" ∷ [];
  issued_at = 0;
  expires_at = 10;
}

writer_is_allowed : allows_claims ledger (claims ServiceRole.write) ≡ true
unfolding allows_claims service_satisfies
writer_is_allowed = refl

reader_is_refused : allows_claims ledger (claims ServiceRole.read) ≡ false
unfolding allows_claims service_satisfies
reader_is_refused = refl

allows_claims_iff_example :
    (allows_claims ledger (claims ServiceRole.write) ≡ true)
    ↔ (ledger.internal_only ≡ true
        → IsAdmitted ledger.allowed_roles (claims ServiceRole.write).actor)
      × IsTenant ledger.tenant "acme"
      × All (Carries (claims ServiceRole.write).scopes) ledger.required_scopes
allows_claims_iff_example = allows_claims_iff ledger (claims ServiceRole.write)

admin_satisfies_write : service_satisfies ServiceRole.admin ServiceRole.write ≡ true
unfolding service_satisfies
admin_satisfies_write = refl

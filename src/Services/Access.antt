-- ===== src/Services/Access.antt =====
-- services/types.rs: who may call a service, from the claims of a delegated token.
pub mod Grants
use text.Mathlib.Text.{◌==◌}
use fenrir.Prelude.{
  ℕ, ◌≡◌, ◌↔◌, ◌⊎◌, ◌||◌, inl, inr, refl, String, Bool, true, false, not, ◌&&◌, Option, none, some,
  List, [], ◌∷◌, any, all, if◌then◌else◌, arith, All, Any,
}
use fenrir.Security.Role.{ServiceRole, service_satisfies}
use fenrir.Security.ServiceToken.{DelegatedActor, DelegatedTokenClaims}

pub data ServiceTenantGuard : Type 0 where
  any_tenant : ServiceTenantGuard
  fixed : String → ServiceTenantGuard
  allow_list : List String → ServiceTenantGuard

-- `ServiceTenantGuard::allows`.
unfoldable pub allows : ServiceTenantGuard → String → Bool
allows any_tenant tenant_id = true
allows (fixed value) tenant_id = value == tenant_id
allows (allow_list values) tenant_id = any (λ value. value == tenant_id) values

pub record ServiceSecurityMetadata : Type 0 where
  pub internal_only : Bool
  pub allowed_roles : List ServiceRole
  pub required_scopes : List String
  pub tenant : ServiceTenantGuard

abbrev pub is_nil {ℓ} : {A : Type ℓ} → List A → Bool
is_nil [] = true
is_nil (x ∷ xs) = false

unfoldable pub allows_role : ServiceSecurityMetadata → ServiceRole → Bool
allows_role metadata role =
    if is_nil metadata.allowed_roles
    then true
    else any (λ allowed. service_satisfies role allowed) metadata.allowed_roles

-- The guard of an internal service: services in an allowed role.
abbrev pub allows_actor : ServiceSecurityMetadata → DelegatedActor → Bool
allows_actor metadata (DelegatedActor.service name role) = allows_role metadata role
allows_actor metadata (DelegatedActor.user name role) = false

-- The loop over the required scopes.
unfoldable pub has_scopes : List String → List String → Bool
has_scopes [] scopes = true
has_scopes (required ∷ rest) scopes =
    let others = has_scopes rest scopes in
    if any (λ scope. scope == required) scopes then others else false

unfoldable pub allows_claims : ServiceSecurityMetadata → DelegatedTokenClaims → Bool
unfolding allows_role has_scopes allows
allows_claims metadata claims =
    if metadata.internal_only && not (allows_actor metadata claims.actor)
    then false
    else if not (allows metadata.tenant claims.tenant_id)
    then false
    else if not (is_nil metadata.required_scopes)
    then has_scopes metadata.required_scopes claims.scopes
    else true

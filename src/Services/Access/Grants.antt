-- ===== src/Services/Access/Grants.antt =====
-- To whom a service is open (services/types.rs).
use text.Mathlib.Text.{◌==◌}
use fenrir.Prelude.{
  ◌≡◌, ◌↔◌, ◌⊎◌, ◌||◌, inl, inr, refl, String, Bool, true, not, ◌&&◌, List, [], ◌∷◌, any,
  if◌then◌else◌, arith, All, Any, Any-imp, Bool-cases, eq_iff,
}
use fenrir.Security.Role.{ServiceRole, service_satisfies}
use fenrir.Security.ServiceToken.{DelegatedActor, DelegatedTokenClaims}
use fenrir.Services.Access.{
  ServiceTenantGuard, any_tenant, fixed, allow_list, allows, ServiceSecurityMetadata, is_nil,
  allows_role, allows_actor, has_scopes, allows_claims,
}

-- The role reaches one of the allowed roles, if there are any.
abbrev pub MayAct : List ServiceRole → ServiceRole → Type 0
MayAct allowed_roles role =
    (allowed_roles ≡ []) ⊎ Any (λ allowed. service_satisfies role allowed ≡ true) allowed_roles

-- The actor is a service in a role that may act.
abbrev pub IsAdmitted : List ServiceRole → DelegatedActor → Type 0
IsAdmitted allowed_roles (DelegatedActor.service name role) = MayAct allowed_roles role
IsAdmitted allowed_roles (DelegatedActor.user name role) = ⊥

abbrev pub IsTenant : ServiceTenantGuard → String → Type 0
IsTenant any_tenant tenant_id = Unit
IsTenant (fixed value) tenant_id = value ≡ tenant_id
IsTenant (allow_list values) tenant_id = Any (λ value. value ≡ tenant_id) values

abbrev pub Carries : List String → String → Type 0
Carries scopes required = Any (λ scope. scope ≡ required) scopes

-- A walk with `any`, read as a statement about some member.
any_iff {ℓ} :
    {A : Type ℓ} (p : A → Bool) (P : A → Type 0)
    → ((x : A) → (p x ≡ true) ↔ P x)
    → (xs : List A) → (any p xs ≡ true) ↔ Any P xs
any_iff p P at_each [] = (λ h. absurd (ground arith), λ h. absurd h)
any_iff p P at_each (x ∷ xs) =
    let (f, b) = at_each x in
    let (g, c) = any_iff p P at_each xs in
    (
      λ h. elim (Bool-cases (p x)) [ inl e ↦ inl (f e) | inr e ↦ inr (g (ground arith)) ],
      λ h. elim h [ inl e ↦ ground (arith, b e) | inr e ↦ ground (arith, c e) ],
    )

any_equal_iff :
    (texts : List String) (text : String)
    → (any (λ t. t == text) texts ≡ true) ↔ Any (λ t. t ≡ text) texts
any_equal_iff texts text = any_iff (λ t. t == text) (λ t. t ≡ text) (λ t. eq_iff t text) texts

allows_iff :
    (guard : ServiceTenantGuard) (tenant_id : String)
    → (allows guard tenant_id ≡ true) ↔ IsTenant guard tenant_id
unfolding allows
allows_iff any_tenant tenant_id = (λ h. tt, λ h. refl)
allows_iff (fixed value) tenant_id = eq_iff value tenant_id
allows_iff (allow_list values) tenant_id = any_equal_iff values tenant_id

has_scopes_iff :
    (required scopes : List String)
    → (has_scopes required scopes ≡ true) ↔ All (Carries scopes) required
unfolding has_scopes
has_scopes_iff [] scopes = (λ h. tt, λ h. refl)
has_scopes_iff (r ∷ rs) scopes =
    let (f, b) = any_equal_iff scopes r in
    let (g, c) = has_scopes_iff rs scopes in
    (λ h. (f (ground arith), g (ground arith)), λ h. rw (b h.0, c h.1))

reaches_iff :
    (allowed_roles : List ServiceRole) (role : ServiceRole)
    → ((if is_nil allowed_roles
          then true
          else any (λ allowed. service_satisfies role allowed) allowed_roles)
        ≡ true)
      ↔ MayAct allowed_roles role
reaches_iff [] role = (λ h. inl refl, λ h. refl)
reaches_iff (r ∷ rs) role =
    let test = λ (allowed : ServiceRole). service_satisfies role allowed in
    let (f, b) = any_iff test (λ allowed. test allowed ≡ true) (λ x. (λ h. h, λ h. h)) (r ∷ rs) in
    (λ h. inr (f h), λ h. elim h [ inl e ↦ absurd (ground arith) | inr some_role ↦ b some_role ])

allows_actor_iff :
    (metadata : ServiceSecurityMetadata) (actor : DelegatedActor)
    → (allows_actor metadata actor ≡ true) ↔ IsAdmitted metadata.allowed_roles actor
unfolding allows_role
allows_actor_iff metadata (DelegatedActor.service name role) =
    reaches_iff metadata.allowed_roles role
allows_actor_iff metadata (DelegatedActor.user name role) =
    (λ h. absurd (ground arith), λ h. absurd h)

scopes_if :
    (required scopes : List String)
    → (if not (is_nil required) then has_scopes required scopes else true)
      ≡ has_scopes required scopes
unfolding has_scopes
scopes_if [] scopes = refl
scopes_if (r ∷ rs) scopes = refl

-- The guards, one after the other, as one test.
guards :
    (metadata : ServiceSecurityMetadata) (claims : DelegatedTokenClaims)
    → allows_claims metadata claims ≡ (
        (not metadata.internal_only || allows_actor metadata claims.actor)
        && (allows metadata.tenant claims.tenant_id
            && has_scopes metadata.required_scopes claims.scopes))
unfolding allows_claims
guards metadata claims = ground (arith, scopes_if metadata.required_scopes claims.scopes)

-- The claims are allowed exactly when, for an internal service, the actor is a service whose role
-- reaches an allowed role (any role where none is listed), the tenant passes the guard, and every
-- required scope is among the claims' scopes.
pub allows_claims_iff :
    (metadata : ServiceSecurityMetadata) (claims : DelegatedTokenClaims)
    → (allows_claims metadata claims ≡ true)
      ↔ (metadata.internal_only ≡ true → IsAdmitted metadata.allowed_roles claims.actor)
        × IsTenant metadata.tenant claims.tenant_id
        × All (Carries claims.scopes) metadata.required_scopes
allows_claims_iff metadata claims =
    let (f, b) = allows_actor_iff metadata claims.actor in
    let (g, c) = allows_iff metadata.tenant claims.tenant_id in
    let (h, d) = has_scopes_iff metadata.required_scopes claims.scopes in
    let same = guards metadata claims in
    (
      λ e. (λ internal. f (ground arith), g (ground arith), h (ground arith)),
      λ (actor, tenant, scopes). elim (Bool-cases metadata.internal_only) [
        | inl internal ↦ ground (arith, b (actor internal), c tenant, d scopes)
        | inr public ↦ ground (arith, c tenant, d scopes)
      ],
    )

satisfies_chain :
    (a b c : ServiceRole)
    → service_satisfies a b ≡ true
    → service_satisfies b c ≡ true
    → service_satisfies a c ≡ true
unfolding service_satisfies
satisfies_chain a b c h k = ground arith

MayAct-stronger :
    (allowed_roles : List ServiceRole) (stronger role : ServiceRole)
    → service_satisfies stronger role ≡ true
    → MayAct allowed_roles role
    → MayAct allowed_roles stronger
MayAct-stronger allowed_roles stronger role h (inl none_listed) = inl none_listed
MayAct-stronger allowed_roles stronger role h (inr some_role) = inr (
    Any-imp (λ allowed. service_satisfies role allowed ≡ true)
      (λ allowed. service_satisfies stronger allowed ≡ true) allowed_roles
      (λ allowed e. satisfies_chain stronger role allowed h e) some_role)

-- What a service may call in some role, it may call in a role that satisfies it.
pub allows_claims-stronger :
    (metadata : ServiceSecurityMetadata) (claims : DelegatedTokenClaims) (name : String)
    (stronger role : ServiceRole)
    → service_satisfies stronger role ≡ true
    → allows_claims metadata (record claims { actor = DelegatedActor.service name role }) ≡ true
    → allows_claims metadata (record claims { actor = DelegatedActor.service name stronger }) ≡ true
allows_claims-stronger metadata claims name stronger role h e =
    let before = record claims { actor = DelegatedActor.service name role } in
    let after = record claims { actor = DelegatedActor.service name stronger } in
    let (admitted, tenant, scopes) = (allows_claims_iff metadata before).0 e in
    (allows_claims_iff metadata after).1 (
      λ internal. MayAct-stronger metadata.allowed_roles stronger role h (admitted internal),
      tenant,
      scopes,
    )

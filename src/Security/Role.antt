-- ===== src/Security/Role.antt =====
-- The roles of operators (security/auth/role.rs) and of services (security/service.rs).
use fenrir.Prelude.{◌≡◌, refl, String, Bool, true, false, if◌then◌else◌}
use fenrir.Prelude.Exec.{Result, ok, err}
use fenrir.Prelude.Text.{eq_ignore_ascii_case, trim}

pub data Role : Type 0 where
  admin operator viewer : Role

pub data ServiceRole : Type 0 where
  admin write read : ServiceRole

-- `Role::satisfies`.
unfoldable pub satisfies : Role → Role → Bool
satisfies Role.admin required = true
satisfies Role.operator Role.operator = true
satisfies Role.operator Role.viewer = true
satisfies Role.viewer Role.viewer = true
satisfies _ _ = false

-- `ServiceRole::satisfies`.
unfoldable pub service_satisfies : ServiceRole → ServiceRole → Bool
service_satisfies ServiceRole.admin required = true
service_satisfies ServiceRole.write ServiceRole.write = true
service_satisfies ServiceRole.write ServiceRole.read = true
service_satisfies ServiceRole.read ServiceRole.read = true
service_satisfies _ _ = false

-- `Role::as_str`.
unfoldable pub as_str : Role → String
as_str Role.admin = "admin"
as_str Role.operator = "operator"
as_str Role.viewer = "viewer"

-- The text that a `RoleParseError` carries.
pub record RoleParseError : Type 0 where
  pub value : String

abbrev pub named_role : String → Result RoleParseError Role
named_role normalized =
    if eq_ignore_ascii_case normalized "admin"
    then ok Role.admin
    else if eq_ignore_ascii_case normalized "operator"
    then ok Role.operator
    else if eq_ignore_ascii_case normalized "viewer"
    then ok Role.viewer
    else err (record { value = normalized })

-- `Role::from_str`.
unfoldable pub from_str : String → Result RoleParseError Role
from_str value = named_role (trim value)

pub from_str-as_str : (role : Role) → from_str (as_str role) ≡ ok role
unfolding from_str as_str trim fenrir.Prelude.Text.trim_start fenrir.Prelude.Text.trim_end
    eq_ignore_ascii_case
from_str-as_str Role.admin = refl
from_str-as_str Role.operator = refl
from_str-as_str Role.viewer = refl

-- `ServiceRole::as_str`.
unfoldable pub service_as_str : ServiceRole → String
service_as_str ServiceRole.admin = "service-admin"
service_as_str ServiceRole.write = "service-write"
service_as_str ServiceRole.read = "service-read"

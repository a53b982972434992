-- ===== src/Security/Identity/Authority.antt =====
-- security/identity/authority.rs: tokens that the server issues and verifies, and logins.
use Prim.Native.Nat.{◌/◌}
use fenrir.Prelude.{
  ℕ, suc, ◌+◌, ◌-◌, ◌*◌, min, second, i64_max, u64_max, String, Bool, true, false, Option, none,
  some, List, [], ◌∷◌, ltb, leb, length, take, if◌then◌else◌,
}
use fenrir.Prelude.Int.{ℤ, pos, negsuc}
use fenrir.Prelude.Exec.{Result, ok, err, Exec}
use fenrir.Prelude.Text.{trim, is_empty}
use fenrir.Audit.{AuditActor, Log}
use fenrir.Security.Role.{Role, RoleParseError, as_str}
use fenrir.Security.Identity.{
  Reason, IdentityError, IdentityTokenRecord, IdentityUserRecord, unauthorized, unknown_role_claim,
}
use fenrir.Security.Identity.Data.{RawClaims}
use fenrir.Security.Identity.Store.{IdentityStore, StoreCall}

-- The fields of the authority that no call changes.
pub record Settings : Type 0 where
  pub environment : String
  pub instance_id : String
  pub issuer : String
  pub audience : String
  pub app_version : String
  pub exp_seconds : ℕ

pub record IdentityAuthority : Type 0 where
  pub settings : Settings
  pub store : IdentityStore
  pub audit : Log

pub record IssueTokenRequest : Type 0 where
  pub actor : AuditActor
  pub user_id : String
  pub display_name : Option String
  pub role : Role

pub record IssuedToken : Type 0 where
  pub token : String
  pub issued_at : ℕ
  pub expires_at : ℕ
  pub user_id : String
  pub key_id : String
  pub fingerprint : String
  pub token_id : String

-- A time in a token is a number of nanoseconds that may be before 1970.
pub record IdentityClaims : Type 0 where
  pub user_id : String
  pub role : Role
  pub environment : String
  pub instance_id : String
  pub app_version : String
  pub issued_at : ℤ
  pub expires_at : ℤ
  pub key_id : String
  pub token_id : String

pub record IdentityUserProfile : Type 0 where
  pub user_id : String
  pub display_name : Option String
  pub role : Role
  pub password_updated_at : Option ℕ
  pub last_login_at : Option ℕ

-- A call that fails, or that panics before it takes the store's lock.
pub data Stop : Type 0 where
  failed : IdentityError → Stop
  panicked : Stop

-- What one issue reads from outside: the clock, the random identifier, the fault of the save, the
-- clock when the audit event is built, and whether the sink refuses it.
pub record Moment : Type 0 where
  pub now : ℕ
  pub token_id : String
  pub fault : Option String
  pub audited_at : ℕ
  pub refuses : Bool

abbrev pub max_tokens_per_user : ℕ
max_tokens_per_user = 20

-- The last second of the year 9999, after which `OffsetDateTime` ends, and the first of -9999.
abbrev pub last_second : ℕ
last_second = 253_402_300_799

abbrev pub seconds_before_1970 : ℕ
seconds_before_1970 = 377_705_116_800

-- `now + Duration::seconds(ttl)`, which panics where it is out of range.
abbrev pub expiry : ℕ → ℕ → Option ℕ
expiry now exp_seconds =
    let expires_at = now + min exp_seconds i64_max * second in
    if ltb expires_at (suc last_second * second) then some expires_at else none

-- `OffsetDateTime::unix_timestamp`.
abbrev pub unix_timestamp : ℕ → ℤ
unix_timestamp time = pos (time / second)

-- `OffsetDateTime::from_unix_timestamp`.
abbrev pub from_unix_timestamp : ℤ → Option ℤ
from_unix_timestamp (pos n) = if leb n last_second then some (pos (n * second)) else none
from_unix_timestamp (negsuc n) =
    if leb (suc n) seconds_before_1970 then some (negsuc (suc n * second - 1)) else none

-- The name that a request gives, where it is more than blanks.
abbrev pub non_blank : String → Option String → Option String
non_blank trimmed old = if is_empty trimmed then old else some trimmed

abbrev pub display_name : Option String → Option String → Option String
display_name none old = old
display_name (some name) old = non_blank (trim name) old

-- `or_insert_with`.
abbrev pub entry : IssueTokenRequest → ℕ → Option IdentityUserRecord → IdentityUserRecord
entry request now (some user) = user
entry request now none = record {
  user_id = request.user_id;
  display_name = request.display_name;
  role = request.role;
  created_at = now;
  last_issued_at = none;
  token_count = 0;
  last_token_fingerprint = none;
  tokens = [];
  password_hash = none;
  password_updated_at = none;
  last_login_at = none;
}

-- The record before the token is made.
abbrev pub counted : IssueTokenRequest → ℕ → IdentityUserRecord → IdentityUserRecord
counted request now user = record user {
  role = request.role;
  display_name = display_name request.display_name user.display_name;
  last_issued_at = some now;
  token_count = min (suc user.token_count) u64_max;
}

abbrev pub truncated : List IdentityTokenRecord → List IdentityTokenRecord
truncated tokens =
    if ltb max_tokens_per_user (length tokens) then take max_tokens_per_user tokens else tokens

abbrev pub new_token : IssuedToken → IdentityTokenRecord
new_token issued = record {
  token_id = issued.token_id;
  fingerprint = issued.fingerprint;
  issued_at = issued.issued_at;
  expires_at = issued.expires_at;
  key_id = issued.key_id;
}

-- The record with the token, the newest first.
abbrev pub with_token : IssuedToken → IdentityUserRecord → IdentityUserRecord
with_token issued user = record user {
  last_token_fingerprint = some issued.fingerprint;
  tokens = truncated (new_token issued ∷ user.tokens);
}

abbrev pub claims_of : Settings → IssueTokenRequest → Moment → ℕ → RawClaims
claims_of settings request moment expires_at = record {
  iss = settings.issuer;
  aud = settings.audience;
  sub = request.user_id;
  env = settings.environment;
  inst = settings.instance_id;
  role = as_str request.role;
  ver = settings.app_version;
  iat = unix_timestamp moment.now;
  exp = unix_timestamp expires_at;
  jti = moment.token_id;
}

abbrev pub ensure : Bool → Reason → Result IdentityError (Unit {0})
ensure true reason = ok tt
ensure false reason = err (unauthorized reason)

abbrev pub unknown_role : RoleParseError → IdentityError
unknown_role e = unauthorized (unknown_role_claim e.value)

abbrev pub in_store : {A : Type 0} → StoreCall A → Exec IdentityAuthority IdentityError A
in_store call a = let (result, store) = call a.store in (result, record a { store = store })

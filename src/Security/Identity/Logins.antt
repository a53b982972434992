-- ===== src/Security/Identity/Logins.antt =====
-- Logins and the lists that the authority gives out (identity/authority.rs).
use Prim.Native.String.{◌++◌}
use fenrir.Prelude.{ℕ, String, Option, none, List, map}
use fenrir.Prelude.Exec.{Result, ok, pure, from_result, ignoring, and_then, ◌>>=◌, ◌>>◌}
use fenrir.Prelude.Ordered.{values}
use fenrir.Audit.{Log}
use fenrir.Security.Identity.{
  Bytes, IdentityError, IdentityKeyMaterial, IdentityUserRecord, invalid, password_not_set,
  invalid_password_hash_format, invalid_credentials,
}
use fenrir.Security.Identity.Crates.{Crates}
use fenrir.Security.Identity.Store.{
  IdentityStore, StoreCall, Fresh, Faults, read, load_or_initialize,
}
use fenrir.Security.Identity.Users.{get_user, record_login}
use fenrir.Security.Identity.Jwt.{ok_or}
use fenrir.Security.Identity.Authority.{Settings, IdentityAuthority, IdentityUserProfile, ensure}

-- `list_users`, which shows no password hash.
unfoldable pub list_users : StoreCall (List IdentityUserRecord)
list_users = read λ state.
    map (λ (user : IdentityUserRecord). record user { password_hash = none }) (values state.users)

unfoldable pub current_key : StoreCall IdentityKeyMaterial
current_key = read λ state. state.current_key

abbrev pub profile : IdentityUserRecord → IdentityUserProfile
profile user = record {
  user_id = user.user_id;
  display_name = user.display_name;
  role = user.role;
  password_updated_at = user.password_updated_at;
  last_login_at = user.last_login_at;
}

-- The settings that a start takes from the configuration.
abbrev pub settings_of : String → String → String → String → ℕ → Settings
settings_of environment instance_id audience app_version exp_seconds = record {
  environment = environment;
  instance_id = instance_id;
  issuer = "urn:fenrir:" ++ environment ++ ":" ++ instance_id;
  audience = audience;
  app_version = app_version;
  exp_seconds = exp_seconds;
}

module _ (K : Crates) where
  unfoldable pub authenticate_user :
      String → String → ℕ → Option String → StoreCall IdentityUserProfile
  unfolding get_user record_login
  authenticate_user user_id password now fault = do
    found ← get_user user_id
    user ← from_result (ok_or (password_not_set user_id) found)
    hash ← from_result (ok_or (password_not_set user_id) user.password_hash)
    parsed ← from_result (ok_or (invalid invalid_password_hash_format) (K.parse_hash hash))
    from_result (ensure (K.verify_password parsed password) invalid_credentials)
    ignoring (record_login K user_id now fault)
    pure (profile user)

  abbrev pub with_settings : Settings → Log → IdentityStore → Result IdentityError IdentityAuthority
  with_settings settings audit store =
      ok (record { settings = settings; store = store; audit = audit })

  -- `bootstrap`, with the file backend.
  unfoldable pub bootstrap :
      String
      → String
      → String
      → String
      → ℕ
      → Fresh
      → Faults
      → Option Bytes
      → Log
      → Result IdentityError IdentityAuthority
  unfolding load_or_initialize
  bootstrap environment instance_id audience app_version exp_seconds fresh faults file audit =
      and_then (load_or_initialize K environment instance_id app_version fresh faults file)
        (with_settings (settings_of environment instance_id audience app_version exp_seconds) audit)

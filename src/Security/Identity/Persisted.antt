-- ===== src/Security/Identity/Persisted.antt =====
-- The conversions between the identity state and what its file holds (identity/store.rs).
use fenrir.Prelude.{ℕ, String, List, map, length, ◌==◌, not, if◌then◌else◌}
use fenrir.Prelude.Exec.{Result, ok, err, wrap, and_then, collect_all}
use fenrir.Prelude.Ordered.{values}
use fenrir.Security.Role.{Role, RoleParseError, as_str, from_str}
use fenrir.Security.Identity.{
  Bytes, IdentityError, IdentityKeyMaterial, IdentityTokenRecord, IdentityUserRecord, IdentityState,
  invalid, unknown_role_in_identity_store, invalid_base64, unexpected_key_length_in_store,
}
use fenrir.Security.Identity.Data.{
  PersistedIdentityKey, PersistedIdentityToken, PersistedIdentityUser, PersistedIdentityState,
}
use fenrir.Security.Identity.Crates.{Crates}

abbrev pub store_version : ℕ
store_version = 1

abbrev pub persisted_token : IdentityTokenRecord → PersistedIdentityToken
persisted_token t = record {
  token_id = t.token_id;
  fingerprint = t.fingerprint;
  issued_at = t.issued_at;
  expires_at = t.expires_at;
  key_id = t.key_id;
}

abbrev pub restored_token : PersistedIdentityToken → Result IdentityError IdentityTokenRecord
restored_token t = ok (record {
  token_id = t.token_id;
  fingerprint = t.fingerprint;
  issued_at = t.issued_at;
  expires_at = t.expires_at;
  key_id = t.key_id;
})

abbrev pub persisted_user : IdentityUserRecord → PersistedIdentityUser
persisted_user u = record {
  user_id = u.user_id;
  display_name = u.display_name;
  role = as_str u.role;
  created_at = u.created_at;
  last_issued_at = u.last_issued_at;
  token_count = u.token_count;
  last_token_fingerprint = u.last_token_fingerprint;
  tokens = map persisted_token u.tokens;
  password_hash = u.password_hash;
  password_updated_at = u.password_updated_at;
  last_login_at = u.last_login_at;
}

abbrev pub restored_with :
    PersistedIdentityUser → Role → List IdentityTokenRecord → IdentityUserRecord
restored_with u role tokens = record {
  user_id = u.user_id;
  display_name = u.display_name;
  role = role;
  created_at = u.created_at;
  last_issued_at = u.last_issued_at;
  token_count = u.token_count;
  last_token_fingerprint = u.last_token_fingerprint;
  tokens = tokens;
  password_hash = u.password_hash;
  password_updated_at = u.password_updated_at;
  last_login_at = u.last_login_at;
}

abbrev unknown_role : RoleParseError → IdentityError
unknown_role e = invalid (unknown_role_in_identity_store e.value)

unfoldable pub restored_user : PersistedIdentityUser → Result IdentityError IdentityUserRecord
unfolding from_str collect_all
restored_user u = and_then (wrap unknown_role (from_str u.role)) λ role.
    and_then (collect_all restored_token u.tokens) λ tokens. ok (restored_with u role tokens)

module _ (K : Crates) where
  abbrev pub persisted_key : IdentityKeyMaterial → PersistedIdentityKey
  persisted_key key = record {
    key_id = key.key_id;
    created_at = key.created_at;
    secret_key = K.encode key.secret_key;
    public_key = K.encode key.public_key;
  }

  abbrev pub persisted : IdentityState → PersistedIdentityState
  persisted state = record {
    version = store_version;
    environment = state.environment;
    instance_id = state.instance_id;
    app_version = state.app_version;
    current_key = persisted_key state.current_key;
    users = map persisted_user (values state.users);
  }

  unfoldable pub decode_key_component : String → Result IdentityError Bytes
  decode_key_component encoded =
      and_then (wrap (λ text. invalid (invalid_base64 text)) (K.decode encoded)) λ bytes.
        if not (length bytes == 32) then err (invalid unexpected_key_length_in_store) else ok bytes

  unfoldable pub restored_key : PersistedIdentityKey → Result IdentityError IdentityKeyMaterial
  unfolding decode_key_component
  restored_key key = and_then (decode_key_component key.secret_key) λ secret.
      and_then (decode_key_component key.public_key) λ public. ok (record {
        key_id = key.key_id;
        created_at = key.created_at;
        secret_key = secret;
        public_key = public;
      })

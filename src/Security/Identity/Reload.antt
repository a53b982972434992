-- ===== src/Security/Identity/Reload.antt =====
-- What the identity store writes, a later start reads back (identity/store.rs).
use text.Mathlib.TextPositions.{eq_refl}
use fenrir.Prelude.{false, none, some, List, [], ◌∷◌, ◌≡◌, refl, map, length}
use fenrir.Prelude.Exec.{ok, collect_all}
use fenrir.Prelude.Ordered.{IsAscending, IsNamed, values, collect-values}
use fenrir.Security.Role.{from_str-as_str}
use fenrir.Security.Identity.{
  Bytes, IdentityKeyMaterial, IdentityTokenRecord, IdentityUserRecord, IdentityState,
}
use fenrir.Security.Identity.Crates.{Crates, IsLawful}
use fenrir.Security.Identity.Persisted.{
  persisted_token, restored_token, persisted_user, restored_user, persisted_key, restored_key,
  decode_key_component, persisted,
}
use fenrir.Security.Identity.Store.{
  Fresh, no_faults, loaded_state, persist_state, persist, load_or_initialize, started,
}

-- The users are in the order of their identifiers, each under its own, and the keys have 32 bytes.
pub record IsWell (state : IdentityState) : Type 0 where
  pub ascending : IsAscending state.users
  pub named : IsNamed (λ (u : IdentityUserRecord). u.user_id) state.users
  pub secret : length state.current_key.secret_key ≡ 32
  pub public : length state.current_key.public_key ≡ 32

restored_token-persisted_token :
    (tokens : List IdentityTokenRecord)
    → collect_all restored_token (map persisted_token tokens) ≡ ok tokens
unfolding collect_all
restored_token-persisted_token [] = refl
restored_token-persisted_token (t ∷ rest) = rw (restored_token-persisted_token rest)

restored_user-persisted_user :
    (user : IdentityUserRecord) → restored_user (persisted_user user) ≡ ok user
unfolding restored_user
restored_user-persisted_user user =
    rw (from_str-as_str user.role, restored_token-persisted_token user.tokens)

restored_users :
    (users : List IdentityUserRecord)
    → collect_all restored_user (map persisted_user users) ≡ ok users
unfolding collect_all
restored_users [] = refl
restored_users (user ∷ rest) = rw (restored_user-persisted_user user, restored_users rest)

module _ (K : Crates) (L : IsLawful K) where
  decode_key_component-encode :
      (bytes : Bytes) → length bytes ≡ 32 → decode_key_component K (K.encode bytes) ≡ ok bytes
  unfolding decode_key_component
  decode_key_component-encode bytes h = rw (L.decode-encode bytes, h)

  restored_key-persisted_key :
      (key : IdentityKeyMaterial)
      → length key.secret_key ≡ 32
      → length key.public_key ≡ 32
      → restored_key K (persisted_key K key) ≡ ok key
  unfolding restored_key
  restored_key-persisted_key key on_secret on_public = rw (
    decode_key_component-encode key.secret_key on_secret,
    decode_key_component-encode key.public_key on_public,
  )

  loaded_state-persisted :
      (state : IdentityState)
      → IsWell state
      → loaded_state K state.environment state.instance_id state.app_version (persisted K state)
        ≡ ok state
  loaded_state-persisted state well = rw (
    eq_refl state.environment,
    eq_refl state.instance_id,
    restored_key-persisted_key state.current_key well.secret well.public,
    restored_users (values state.users),
    collect-values (λ (u : IdentityUserRecord). u.user_id) state.users well.ascending well.named,
  )

  module _ (fresh : Fresh) (state : IdentityState) (json : Bytes) where
    started-persisted :
        K.state_to_vec_pretty (persisted K state) ≡ ok json
        → started K none (some json) state
          ≡ ok (record { state = state; poisoned = false; file = some json })
    unfolding persist persist_state
    started-persisted h = rw h

    pub load_or_initialize-persisted :
        IsWell state
        → K.state_to_vec_pretty (persisted K state) ≡ ok json
        → load_or_initialize K state.environment state.instance_id state.app_version fresh no_faults
            (some json)
          ≡ ok (record { state = state; poisoned = false; file = some json })
    unfolding load_or_initialize
    load_or_initialize-persisted well h = rw (
      L.state_reads (persisted K state) json h,
      loaded_state-persisted state well,
      started-persisted h,
    )

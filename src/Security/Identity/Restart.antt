-- ===== src/Security/Identity/Restart.antt =====
-- Starts of the identity store: what one gives, and that it gives back what was saved
-- (identity/store.rs, identity/authority.rs).
use text.Mathlib.Text as T
use fenrir.Prelude.{
  ◌==◌, String, Bool, true, false, not, Option, none, some, [], length, if◌then◌else◌, ◌≡◌, refl,
  sym, ap, subst, ◌∙◌, arith,
}
use fenrir.Prelude.Exec.{Result, ok, err, wrap, collect_all}
use fenrir.Prelude.Exec.Rules.{and_then-ok, ok_injective}
use fenrir.Prelude.Ordered.{collect-ordered}
use fenrir.Security.Identity.{
  Bytes, IdentityError, IdentityState, IdentityUserRecord, IdentityKeyMaterial, serde, invalid,
  invalid_base64, unexpected_key_length_in_store,
}
use fenrir.Security.Identity.Data.{PersistedIdentityKey, PersistedIdentityState}
use fenrir.Security.Identity.Crates.{Crates, IsLawful}
use fenrir.Security.Identity.Persisted.{
  store_version, decode_key_component, restored_key, restored_user,
}
use fenrir.Security.Identity.Store.{
  IdentityStore, Fresh, Faults, made, persist, loaded_state, fresh_state, from_json, from_file,
  initial_state, started, load_or_initialize,
}
use fenrir.Security.Identity.Reload.{IsWell}
use fenrir.Security.Identity.Moves.{persist-Keeps}

-- Where the test fails there is an error.
guarded :
    {A : Type 0} (test : Bool) (e : IdentityError) (r : Result IdentityError A) (a : A)
    → (if not test then err e else r) ≡ ok a
    → (test ≡ true) × (r ≡ ok a)
guarded true e r a h = (refl, h)
guarded false e r a h = absurd (ground arith)

-- What a start gives.
pub record Loaded (environment instance_id app_version : String) (state : IdentityState)
    : Type 0 where
  pub on_environment : state.environment ≡ environment
  pub on_instance : state.instance_id ≡ instance_id
  pub on_version : state.app_version ≡ app_version
  pub well : IsWell state

module _ (K : Crates) (L : IsLawful K) where
  decode_key_component-length :
      (encoded : String) (bytes : Bytes)
      → decode_key_component K encoded ≡ ok bytes
      → length bytes ≡ 32
  unfolding decode_key_component
  decode_key_component-length encoded bytes h =
      let (found, e, k) =
        and_then-ok (wrap (λ text. invalid (invalid_base64 text)) (K.decode encoded)) _ bytes h in
      let (same, last) =
        guarded (length found == 32) (invalid unexpected_key_length_in_store) (ok found) bytes k in
      subst (λ b. length b ≡ 32) (ok_injective last) (ground arith)

  restored_key-length :
      (p : PersistedIdentityKey) (key : IdentityKeyMaterial)
      → restored_key K p ≡ ok key
      → (length key.secret_key ≡ 32) × (length key.public_key ≡ 32)
  unfolding restored_key
  restored_key-length p key h =
      let (secret, e1, h1) = and_then-ok (decode_key_component K p.secret_key) _ key h in
      let (public, e2, h2) = and_then-ok (decode_key_component K p.public_key) _ key h1 in
      subst (λ (k : IdentityKeyMaterial). (length k.secret_key ≡ 32) × (length k.public_key ≡ 32))
        (ok_injective h2)
        (
          decode_key_component-length p.secret_key secret e1,
          decode_key_component-length p.public_key public e2,
        )

  module _ (environment instance_id app_version : String) where
    fresh_state-Loaded :
        (fresh : Fresh)
        → Loaded environment instance_id app_version
            (fresh_state K environment instance_id app_version fresh)
    fresh_state-Loaded fresh = record {
      on_environment = refl;
      on_instance = refl;
      on_version = refl;
      well = record {
        ascending = tt;
        named = tt;
        secret = L.length-signing_to_bytes (K.signing_from_bytes fresh.secret_bytes);
        public =
            L.length-verifying_to_bytes (K.verifying_key (K.signing_from_bytes fresh.secret_bytes));
      };
    }

    loaded_state-Loaded :
        (p : PersistedIdentityState) (state : IdentityState)
        → loaded_state K environment instance_id app_version p ≡ ok state
        → Loaded environment instance_id app_version state
    loaded_state-Loaded p state h =
        let (a, h1) = guarded (p.version == store_version) _ _ state h in
        let (b, h2) = guarded (T.◌==◌ p.environment environment) _ _ state h1 in
        let (c, h3) = guarded (T.◌==◌ p.instance_id instance_id) _ _ state h2 in
        let (key, e4, h4) = and_then-ok (restored_key K p.current_key) _ state h3 in
        let (users, e5, h5) = and_then-ok (collect_all restored_user p.users) _ state h4 in
        let (up, named) = collect-ordered (λ (u : IdentityUserRecord). u.user_id) [] users tt tt in
        let (secret, public) = restored_key-length p.current_key key e4 in
        subst (Loaded environment instance_id app_version) (ok_injective h5) (record {
          on_environment = refl;
          on_instance = refl;
          on_version = refl;
          well = record { ascending = up; named = named; secret = secret; public = public };
        })

    from_json-Loaded :
        (unread : Option String) (json : Bytes) (state : IdentityState)
        → from_json K environment instance_id app_version unread json ≡ ok state
        → Loaded environment instance_id app_version state
    from_json-Loaded (some fault) json state h = absurd (ground arith)
    from_json-Loaded none json state h =
        let (p, e, k) = and_then-ok (wrap serde (K.state_from_slice json)) _ state h in
        loaded_state-Loaded p state k

    from_file-Loaded :
        (fresh : Fresh) (unread : Option String) (file : Option Bytes) (state : IdentityState)
        → from_file K environment instance_id app_version fresh unread file ≡ ok state
        → Loaded environment instance_id app_version state
    from_file-Loaded fresh unread none state h =
        subst (Loaded environment instance_id app_version) (ok_injective h)
          (fresh_state-Loaded fresh)
    from_file-Loaded fresh unread (some json) state h = from_json-Loaded unread json state h

    started-state :
        (fault : Option String) (file : Option Bytes) (state : IdentityState)
        (store : IdentityStore)
        → started K fault file state ≡ ok store
        → (state ≡ store.state) × (store.poisoned ≡ false)
    started-state fault file state store h =
        let before : IdentityStore = record { state = state; poisoned = false; file = file } in
        let (u, e, k) = and_then-ok (persist K fault before).0 _ store h in
        let moved =
          (persist-Keeps K (λ s t. s ≡ t) (λ s. refl) (λ s t u p q. p ∙ q) fault).holds before in
        let same = ok_injective k in
        (
          moved.0 ∙ ap (λ (s : IdentityStore). s.state) same,
          sym (ap (λ (s : IdentityStore). s.poisoned) same) ∙ moved.1,
        )

    -- A start that succeeds, whatever the file holds, gives a well-formed state of the instance that
    -- was asked for, under a lock that is not poisoned.
    pub load_or_initialize-Loaded :
        (fresh : Fresh) (faults : Faults) (file : Option Bytes) (store : IdentityStore)
        → load_or_initialize K environment instance_id app_version fresh faults file ≡ ok store
        → Loaded environment instance_id app_version store.state × (store.poisoned ≡ false)
    unfolding load_or_initialize
    load_or_initialize-Loaded fresh faults file store h =
        let (state, e1, h1) =
          and_then-ok (initial_state K environment instance_id app_version fresh faults file) _
            store h in
        let (u, e2, h2) = and_then-ok (made faults.create_dir_all) _ state e1 in
        let (same, up) = started-state faults.save file state store h1 in
        (
          subst (Loaded environment instance_id app_version) same
              (from_file-Loaded fresh faults.read file state h2),
          up,
        )

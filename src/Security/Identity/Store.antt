-- ===== src/Security/Identity/Store.antt =====
-- The identity store: the state in memory under its lock, and the file that is replaced after each
-- change by a rename (identity/store.rs). Before the rename the file is as it was, so that one
-- argument stands for the first call of a save that the file system refuses.
use fenrir.Prelude.{ℕ, String, Bool, false, Option, none, some, [], not, ◌==◌, if◌then◌else◌}
use text.Mathlib.Text as T
use fenrir.Prelude.Exec.{
  Result, ok, err, Exec, pure, raise, wrap, from_result, and_then, collect_all, ◌>>=◌, ◌>>◌,
}
use fenrir.Prelude.Ordered.{collect}
use fenrir.Security.Identity.{
  Bytes, IdentityError, IdentityUserRecord, IdentityState, io, serde, state_poisoned, invalid,
  unsupported_identity_store_version, identity_store_environment_mismatch,
  identity_store_instance_mismatch,
}
use fenrir.Security.Identity.Data.{PersistedIdentityState}
use fenrir.Security.Identity.Crates.{Crates}
use fenrir.Security.Identity.Persisted.{store_version, persisted, restored_user, restored_key}

pub record IdentityStore : Type 0 where
  pub state : IdentityState
  -- A thread has panicked under the lock.
  pub poisoned : Bool
  pub file : Option Bytes

abbrev pub StoreCall : Type 0 → Type 0
StoreCall A = Exec IdentityStore IdentityError A

abbrev pub StateCall : Type 0 → Type 0
StateCall A = Exec IdentityState IdentityError A

-- `self.state.read()?` and `self.state.write()?`
abbrev pub lock : StoreCall (Unit {0})
lock s = from_result (if s.poisoned then err state_poisoned else ok tt) s

abbrev pub read : {A : Type 0} → (IdentityState → A) → StoreCall A
read reader = do lock; (λ s. pure (reader s.state) s)

-- Under the guard.
abbrev pub in_state : {A : Type 0} → StateCall A → StoreCall A
in_state writer s = let (result, state) = writer s.state in (result, record s { state = state })

-- The random key of a new store, with its identifier and the time.
pub record Fresh : Type 0 where
  pub secret_bytes : Bytes
  pub key_id : String
  pub now : ℕ

-- The calls of the file system that fail in a start, each with its text: the directory, the reading
-- of the file, and the save at the end.
pub record Faults : Type 0 where
  pub create_dir_all : Option String
  pub read : Option String
  pub save : Option String

abbrev pub no_faults : Faults
no_faults = record { create_dir_all = none; read = none; save = none }

abbrev pub made : Option String → Result IdentityError (Unit {0})
made none = ok tt
made (some fault) = err (io fault)

module _ (K : Crates) where
  -- The calls of the file system, of which the first that fails has the text.
  abbrev pub replace : Option String → Bytes → StoreCall (Unit {0})
  replace none json s = pure tt (record s { file = some json })
  replace (some fault) json s = raise (io fault) s

  unfoldable pub persist_state : Option String → IdentityState → StoreCall (Unit {0})
  persist_state fault state = do
    json ← from_result (wrap serde (K.state_to_vec_pretty (persisted K state)))
    replace fault json

  unfoldable pub write : {A : Type 0} → StateCall A → Option String → StoreCall A
  unfolding persist_state
  write writer fault = do
    lock
    result ← in_state writer
    (λ s. persist_state fault s.state s)
    pure result

  unfoldable pub persist : Option String → StoreCall (Unit {0})
  unfolding persist_state
  persist fault = do lock; (λ s. persist_state fault s.state s)

  abbrev pub loaded_state :
      String → String → String → PersistedIdentityState → Result IdentityError IdentityState
  loaded_state environment instance_id app_version p =
      if not (p.version == store_version)
      then err (invalid (unsupported_identity_store_version p.version))
      else if not (T.◌==◌ p.environment environment)
      then err (invalid (identity_store_environment_mismatch environment p.environment))
      else if not (T.◌==◌ p.instance_id instance_id)
      then err (invalid (identity_store_instance_mismatch instance_id p.instance_id))
      else and_then (restored_key K p.current_key) λ key.
        and_then (collect_all restored_user p.users) λ users. ok (record {
          environment = environment;
          instance_id = instance_id;
          app_version = app_version;
          current_key = key;
          users = collect (λ (u : IdentityUserRecord). u.user_id) [] users;
        })

  abbrev pub fresh_state : String → String → String → Fresh → IdentityState
  fresh_state environment instance_id app_version fresh =
      let secret = K.signing_from_bytes fresh.secret_bytes in
      record {
        environment = environment;
        instance_id = instance_id;
        app_version = app_version;
        current_key = record {
          key_id = fresh.key_id;
          created_at = fresh.now;
          secret_key = K.signing_to_bytes secret;
          public_key = K.verifying_to_bytes (K.verifying_key secret);
        };
        users = [];
      }

  abbrev pub from_json :
      String → String → String → Option String → Bytes → Result IdentityError IdentityState
  from_json environment instance_id app_version (some fault) json = err (io fault)
  from_json environment instance_id app_version none json =
      and_then (wrap serde (K.state_from_slice json))
        (loaded_state environment instance_id app_version)

  -- What the file says, or a new state where there is none.
  abbrev pub from_file :
      String
      → String
      → String
      → Fresh
      → Option String
      → Option Bytes
      → Result IdentityError IdentityState
  from_file environment instance_id app_version fresh unread none =
      ok (fresh_state environment instance_id app_version fresh)
  from_file environment instance_id app_version fresh unread (some json) =
      from_json environment instance_id app_version unread json

  abbrev pub initial_state :
      String → String → String → Fresh → Faults → Option Bytes → Result IdentityError IdentityState
  initial_state environment instance_id app_version fresh faults file =
      and_then (made faults.create_dir_all)
        λ u. from_file environment instance_id app_version fresh faults.read file

  -- The store that a start gives, with its file: a start that fails leaves the file as it was.
  abbrev pub started :
      Option String → Option Bytes → IdentityState → Result IdentityError IdentityStore
  started fault file state =
      let store : IdentityStore = record { state = state; poisoned = false; file = file } in
      let (result, after) = persist fault store in and_then result λ u. ok after

  unfoldable pub load_or_initialize :
      String → String → String → Fresh → Faults → Option Bytes → Result IdentityError IdentityStore
  unfolding persist restored_user restored_key
  load_or_initialize environment instance_id app_version fresh faults file =
      and_then (initial_state environment instance_id app_version fresh faults file)
        (started faults.save file)

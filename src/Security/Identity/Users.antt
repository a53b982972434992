-- ===== src/Security/Identity/Users.antt =====
-- The calls of the identity store on its users, and the password that a setup script leaves
-- (identity/store.rs).
use fenrir.Prelude.{ℕ, String, Bool, false, Option, none, some, [], is_some, if◌then◌else◌}
use fenrir.Prelude.Exec.{pure}
use fenrir.Prelude.Dict.{lookup}
use fenrir.Prelude.Ordered.{insert}
use fenrir.Prelude.Text.{trim, is_empty}
use fenrir.Security.Role.{Role}
use fenrir.Security.Identity.{IdentityUserRecord}
use fenrir.Security.Identity.Crates.{Crates}
use fenrir.Security.Identity.Store.{StoreCall, StateCall, read, write}

-- `state.users.get(user_id).map(…).unwrap_or(false)`
abbrev pub has_password : Option IdentityUserRecord → Bool
has_password none = false
has_password (some user) = is_some user.password_hash

unfoldable pub is_password_set : String → StoreCall Bool
is_password_set user_id = read λ state. has_password (lookup user_id state.users)

unfoldable pub get_user : String → StoreCall (Option IdentityUserRecord)
get_user user_id = read λ state. lookup user_id state.users

abbrev pub put_user : String → IdentityUserRecord → StateCall (Unit {0})
put_user user_id user state = pure tt (record state { users = insert user_id user state.users })

-- The record that a password is set for: the one there is, or a new one.
abbrev pub with_password :
    String → String → Role → ℕ → Option IdentityUserRecord → IdentityUserRecord
with_password user_id password_hash role now (some user) = record user {
  password_hash = some password_hash;
  password_updated_at = some now;
}
with_password user_id password_hash role now none = record {
  user_id = user_id;
  display_name = some user_id;
  role = role;
  created_at = now;
  last_issued_at = none;
  token_count = 0;
  last_token_fingerprint = none;
  tokens = [];
  password_hash = some password_hash;
  password_updated_at = some now;
  last_login_at = none;
}

abbrev pub logged_in : String → ℕ → Option IdentityUserRecord → StateCall (Unit {0})
logged_in user_id now none = pure tt
logged_in user_id now (some user) = put_user user_id (record user { last_login_at = some now })

abbrev pub password_writer : String → String → Role → ℕ → StateCall (Unit {0})
password_writer user_id password_hash role now state =
    put_user user_id (with_password user_id password_hash role now (lookup user_id state.users))
      state

abbrev pub login_writer : String → ℕ → StateCall (Unit {0})
login_writer user_id now state = logged_in user_id now (lookup user_id state.users) state

module _ (K : Crates) where
  unfoldable pub set_password : String → String → Role → ℕ → Option String → StoreCall (Unit {0})
  unfolding write
  set_password user_id password_hash role now =
      write K (password_writer user_id password_hash role now)

  unfoldable pub record_login : String → ℕ → Option String → StoreCall (Unit {0})
  unfolding write
  record_login user_id now = write K (login_writer user_id now)

-- What `take_pending_password` finds: no file, one that cannot be read, or a text. The answer is
-- beside whether a file is left: its removal may fail, which is ignored.
pub data Pending : Type 0 where
  missing unreadable : Pending
  content : String → Pending

abbrev pub non_empty : String → Option String
non_empty trimmed = if is_empty trimmed then none else some trimmed

unfoldable pub take_pending_password : Bool → Pending → Option String × Pending
unfolding trim
take_pending_password removed missing = (none, missing)
take_pending_password removed unreadable = (none, if removed then missing else unreadable)
take_pending_password removed (content password) =
    (non_empty (trim password), if removed then missing else content password)

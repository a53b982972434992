-- ===== src/Security/Identity/Login.antt =====
-- A password that is set is the one that logs in (identity/store.rs, identity/authority.rs).
use text.Mathlib.Text as T
use text.Mathlib.TextPositions.{eq_refl}
use fenrir.Prelude.{
  ℕ, String, true, false, ◌↔◌, eq_iff, Option, none, some, ◌≡◌, refl, ap, ◌∙◌, arith, if◌then◌else◌,
}
use fenrir.Prelude.Exec.{Result, ok, err}
use fenrir.Prelude.Dict.{lookup}
use fenrir.Prelude.Ordered.{lookup-insert}
use fenrir.Security.Role.{Role}
use fenrir.Security.Identity.{
  IdentityError, IdentityUserRecord, invalid, unauthorized, password_not_set,
  invalid_password_hash_format, invalid_credentials,
}
use fenrir.Security.Identity.Crates.{Crates}
use fenrir.Security.Identity.Store.{IdentityStore}
use fenrir.Security.Identity.Users.{password_writer, with_password, set_password, get_user}
use fenrir.Security.Identity.Authority.{IdentityUserProfile}
use fenrir.Security.Identity.Logins.{profile, authenticate_user}
use fenrir.Security.Identity.Saved.{write-Saved}

module _ (K : Crates) where
  -- What a login answers of a password and the hash that it is checked against.
  abbrev pub checked :
      String → IdentityUserRecord → Option K.PasswordHash → Result IdentityError IdentityUserProfile
  checked password user none = err (invalid invalid_password_hash_format)
  checked password user (some parsed) =
      if K.verify_password parsed password
      then ok (profile user)
      else err (unauthorized invalid_credentials)

  abbrev pub against :
      String
      → String
      → IdentityUserRecord
      → Option String
      → Result IdentityError IdentityUserProfile
  against user_id password user none = err (password_not_set user_id)
  against user_id password user (some hash) = checked password user (K.parse_hash hash)

  abbrev pub login_answer :
      String → String → Option IdentityUserRecord → Result IdentityError IdentityUserProfile
  login_answer user_id password none = err (password_not_set user_id)
  login_answer user_id password (some user) = against user_id password user user.password_hash

  -- A login answers by the record in memory, whether or not the time of the login is saved.
  pub authenticate_user-answer :
      (user_id password : String) (now : ℕ) (fault : Option String) (s : IdentityStore)
      → s.poisoned ≡ false
      → (authenticate_user K user_id password now fault s).0
        ≡ login_answer user_id password (lookup user_id s.state.users)
  unfolding authenticate_user get_user
  authenticate_user-answer user_id password now fault s up = ground arith

  password_hash_of :
      (user_id hash : String) (role : Role) (now : ℕ) (o : Option IdentityUserRecord)
      → (with_password user_id hash role now o).password_hash ≡ some hash
  password_hash_of user_id hash role now none = refl
  password_hash_of user_id hash role now (some user) = refl

  -- A login after a password was set goes by the hash that was given.
  set_password-login :
      (user_id hash attempt : String) (role : Role) (set_at now : ℕ) (fault later : Option String)
      (s : IdentityStore) (u : Unit {0})
      → (set_password K user_id hash role set_at fault s).0 ≡ ok u
      → (authenticate_user K user_id attempt now later
          (set_password K user_id hash role set_at fault s).1).0
        ≡ checked attempt
            (with_password user_id hash role set_at (lookup user_id s.state.users))
            (K.parse_hash hash)
  unfolding set_password
  set_password-login user_id hash attempt role set_at now fault later s u h =
      let sv = write-Saved K (password_writer user_id hash role set_at) fault s u h in
      let t = (set_password K user_id hash role set_at fault s).1 in
      let user = with_password user_id hash role set_at (lookup user_id s.state.users) in
      let found : lookup user_id t.state.users ≡ some user =
        ap (λ (x : IdentityStore). lookup user_id x.state.users) sv.left
        ∙ lookup-insert user_id user_id user s.state.users
        ∙ ap (λ b. if b then some user else lookup user_id s.state.users) (eq_refl user_id) in
      let up : t.poisoned ≡ false =
        ap (λ (x : IdentityStore). x.poisoned) sv.left ∙ sv.unpoisoned in
      authenticate_user-answer user_id attempt now later t up
      ∙ ap (login_answer user_id attempt) found
      ∙ ap (against user_id attempt user)
          (password_hash_of user_id hash role set_at (lookup user_id s.state.users))

  -- The hash is one that `argon2` has made of the password: it can be parsed, and no other password
  -- fits it.
  pub record IsHashOf (hash password : String) : Type 0 where
    pub parsed : K.PasswordHash
    pub parses : K.parse_hash hash ≡ some parsed
    pub fits_iff :
        (attempt : String) → (K.verify_password parsed attempt ≡ true) ↔ (attempt ≡ password)

  -- After the hash of a password was set and saved, exactly that password logs the user in, whatever
  -- hash the user had before and whether or not the time of the login is saved: the answer is the
  -- user's profile, with the role that the user had, or the one given to a new user. Every other
  -- password is refused. The hash is taken to fit no second password.
  pub set_password-authenticate_user :
      (user_id hash password attempt : String) (role : Role) (set_at now : ℕ)
      (fault later : Option String) (s : IdentityStore) (u : Unit {0})
      → IsHashOf hash password
      → (set_password K user_id hash role set_at fault s).0 ≡ ok u
      → (authenticate_user K user_id attempt now later
          (set_password K user_id hash role set_at fault s).1).0
        ≡ (if T.◌==◌ attempt password
            then ok
                (profile (with_password user_id hash role set_at (lookup user_id s.state.users)))
            else err (unauthorized invalid_credentials))
  set_password-authenticate_user user_id hash password attempt role set_at now fault later s u h k =
      let user = with_password user_id hash role set_at (lookup user_id s.state.users) in
      let same : K.verify_password h.parsed attempt ≡ T.◌==◌ attempt password =
        ground (arith, h.fits_iff attempt, eq_iff attempt password) in
      set_password-login user_id hash attempt role set_at now fault later s u k
      ∙ ap (checked attempt user) h.parses
      ∙ ap (λ fits. if fits then ok (profile user) else err (unauthorized invalid_credentials)) same

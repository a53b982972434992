-- ===== src/Security/Identity/History.antt =====
-- Every sequence of issues, password changes and logins (identity/authority.rs).
use Prim.Native.Nat.{◌/◌}
use fenrir.Prelude.{second, ◌<◌, ap, ℕ, String, Option, List, [], ◌∷◌, ◌≡◌, refl, ◌∙◌}
use fenrir.Prelude.Exec.{
  Result, ok, ignoring, Keeps, >>=-Keeps, from_result-Keeps, ignoring-Keeps, pure-Keeps, pure,
  from_result, ◌>>=◌, ◌>>◌,
}
use fenrir.Prelude.Dict.{lookup}
use fenrir.Security.Role.{Role}
use fenrir.Security.Identity.{
  password_not_set, invalid, invalid_password_hash_format, invalid_credentials, IdentityError,
  IdentityUserRecord,
}
use fenrir.Security.Identity.Crates.{Crates, IsLawful}
use fenrir.Security.Identity.Store.{IdentityStore, StoreCall, lock}
use fenrir.Security.Identity.Users.{
  password_writer, login_writer, with_password, set_password, record_login, get_user,
}
use fenrir.Security.Identity.Jwt.{ok_or}
use fenrir.Security.Identity.Authority.{
  IdentityAuthority, IssueTokenRequest, IssuedToken, IdentityUserProfile, ensure, expiry, Moment,
}
use fenrir.Security.Identity.Issue.{issue_token}
use fenrir.Security.Identity.Logins.{profile, authenticate_user}
use fenrir.Security.Identity.Verify.{verify}
use fenrir.Security.Identity.Reload.{IsWell}
use fenrir.Security.Identity.Moves.{Moves, Moves-trans, Moves-refl, write-Keeps}
use fenrir.Security.Identity.Evolution.{
  AllFew, Evolves, Evolves_refl, Evolves_trans, put-Evolves, with_password-Fits, logged_in-Evolves,
  Follows, Follows-refl, Follows-trans, issue_until-Follows,
}
use fenrir.Security.Identity.Issued.{issue_token-Issued}
use fenrir.Security.Identity.RoundTrip.{issue_token-verify, claims_for}

module _ (K : Crates) where
  -- The calls that change something.
  pub data Call : Type 0 where
    issues : IssueTokenRequest → Moment → Call
    sets_password : String → String → Role → ℕ → Option String → Call
    logs_in : String → String → ℕ → Option String → Call

  abbrev on_store : {A : Type 0} → StoreCall A → IdentityAuthority → IdentityAuthority
  on_store call a = record a { store = (call a.store).1 }

  unfoldable pub step : Call → IdentityAuthority → IdentityAuthority
  unfolding issue_token set_password authenticate_user
  step (issues request moment) a = (issue_token K request moment a).1
  step (sets_password user_id hash role now fault) a =
      on_store (set_password K user_id hash role now fault) a
  step (logs_in user_id password now fault) a =
      on_store (authenticate_user K user_id password now fault) a

  unfoldable pub run : List Call → IdentityAuthority → IdentityAuthority
  unfolding step
  run [] a = a
  run (call ∷ rest) a = run rest (step call a)

  abbrev Moved : IdentityStore → IdentityStore → Type 0
  Moved = Moves K Evolves Evolves_refl Evolves_trans

  Moved-trans : (s t u : IdentityStore) → Moved s t → Moved t u → Moved s u
  Moved-trans = Moves-trans K Evolves Evolves_refl Evolves_trans

  Moved-refl : (s : IdentityStore) → Moved s s
  Moved-refl = Moves-refl K Evolves Evolves_refl Evolves_trans

  set_password-Keeps :
      (user_id hash : String) (role : Role) (now : ℕ) (fault : Option String)
      → Keeps Moved (set_password K user_id hash role now fault)
  unfolding set_password
  set_password-Keeps user_id hash role now fault =
      write-Keeps K Evolves Evolves_refl Evolves_trans (password_writer user_id hash role now) fault
        (record {
          holds = λ state.
              put-Evolves user_id (with_password user_id hash role now (lookup user_id state.users))
                state
                (with_password-Fits user_id hash role now state (lookup user_id state.users) refl);
        })

  record_login-Keeps :
      (user_id : String) (now : ℕ) (fault : Option String)
      → Keeps Moved (record_login K user_id now fault)
  unfolding record_login
  record_login-Keeps user_id now fault =
      write-Keeps K Evolves Evolves_refl Evolves_trans (login_writer user_id now) fault (record {
        holds = λ state. logged_in-Evolves user_id now state (lookup user_id state.users) refl;
      })

  after_result :
      {A B : Type 0} (r : Result IdentityError A) (f : A → StoreCall B)
      → ((a : A) → Keeps Moved (f a))
      → Keeps Moved (from_result r >>= f)
  after_result r f h =
      >>=-Keeps Moved Moved-trans (from_result r) f (from_result-Keeps Moved r Moved-refl) h

  get_user-Keeps : (user_id : String) → Keeps Moved (get_user user_id)
  unfolding get_user
  get_user-Keeps user_id =
      >>=-Keeps Moved Moved-trans lock (λ u s. pure (lookup user_id s.state.users) s)
        (record { holds = Moved-refl }) (λ u. record { holds = Moved-refl })

  authenticate_user-Keeps :
      (user_id password : String) (now : ℕ) (fault : Option String)
      → Keeps Moved (authenticate_user K user_id password now fault)
  unfolding authenticate_user get_user
  authenticate_user-Keeps user_id password now fault =
      let last : IdentityUserRecord → StoreCall IdentityUserProfile = λ user.
        ignoring {F = IdentityError} (record_login K user_id now fault) >> pure (profile user) in
      let verified : IdentityUserRecord → K.PasswordHash → StoreCall IdentityUserProfile =
        λ user parsed.
          from_result (ensure (K.verify_password parsed password) invalid_credentials)
          >> last user in
      let hashed : IdentityUserRecord → String → StoreCall IdentityUserProfile = λ user hash.
        from_result (ok_or (invalid invalid_password_hash_format) (K.parse_hash hash))
        >>= verified user in
      let known : IdentityUserRecord → StoreCall IdentityUserProfile =
        λ user. from_result (ok_or (password_not_set user_id) user.password_hash) >>= hashed user in
      let then_known : Option IdentityUserRecord → StoreCall IdentityUserProfile =
        λ found. from_result (ok_or (password_not_set user_id) found) >>= known in
      let last-Keeps : (user : IdentityUserRecord) → Keeps Moved (last user) = λ user.
        >>=-Keeps Moved Moved-trans
          (ignoring {F = IdentityError} (record_login K user_id now fault))
          (λ u. pure (profile user))
          (ignoring-Keeps Moved (record_login K user_id now fault)
            (record_login-Keeps user_id now fault))
          (λ u. pure-Keeps Moved (profile user) Moved-refl) in
      >>=-Keeps Moved Moved-trans (get_user user_id) then_known (get_user-Keeps user_id) (λ found.
        after_result (ok_or (password_not_set user_id) found) known (λ user.
          after_result (ok_or (password_not_set user_id) user.password_hash) (hashed user) (λ hash.
            after_result (ok_or (invalid invalid_password_hash_format) (K.parse_hash hash))
              (verified user)
              (λ parsed.
                after_result (ensure (K.verify_password parsed password) invalid_credentials)
                  (λ u. last user) (λ u. last-Keeps user)))))

  pub step-Follows : (call : Call) (a : IdentityAuthority) → Follows K a (step call a)
  unfolding step issue_token
  step-Follows (issues request moment) a =
      issue_until-Follows K request moment a (expiry moment.now a.settings.exp_seconds)
  step-Follows (sets_password user_id hash role now fault) a =
      let moved = (set_password-Keeps user_id hash role now fault).holds a.store in
      record { evolves = moved.0; poisoned = moved.1; settings = refl }
  step-Follows (logs_in user_id password now fault) a =
      let moved = (authenticate_user-Keeps user_id password now fault).holds a.store in
      record { evolves = moved.0; poisoned = moved.1; settings = refl }

  pub run-Follows : (calls : List Call) (a : IdentityAuthority) → Follows K a (run calls a)
  unfolding run
  run-Follows [] a = Follows-refl K a
  run-Follows (call ∷ rest) a =
      Follows-trans K a (step call a) (run rest (step call a)) (step-Follows call a)
        (run-Follows rest (step call a))

  -- Every sequence of issues, password changes and logins, those included that fail or whose save
  -- fails, keeps a state well formed and every user at 20 tokens or fewer: each user is under its
  -- own identifier, in order, and the two halves of the key have 32 bytes.
  pub run-IsWell :
      (calls : List Call) (a : IdentityAuthority)
      → IsWell a.store.state
      → AllFew a.store.state
      → IsWell (run calls a).store.state × AllFew (run calls a).store.state
  run-IsWell calls a well few =
      let after = (run-Follows calls a).evolves in (after.well well, after.few few)

  -- A token that is issued verifies after every further sequence of issues, password changes and
  -- logins, at every time before the second in which it expires.
  pub issue_token-run-verify :
      (L : IsLawful K) (request : IssueTokenRequest) (moment : Moment) (calls : List Call)
      (a : IdentityAuthority) (issued : IssuedToken) (now : ℕ)
      → (issue_token K request moment a).0 ≡ ok issued
      → now / second < issued.expires_at / second
      → let b = run calls (issue_token K request moment a).1 in
        verify K b.settings issued.token now b.store
        ≡ ok (claims_for a.settings request moment issued)
  unfolding step
  issue_token-run-verify L request moment calls a issued now h early =
      let c = (issue_token K request moment a).1 in
      let parts = issue_token-Issued K request moment a issued h in
      let first = step-Follows (issues request moment) a in
      let later = run-Follows calls c in
      let b = run calls c in
      ap (λ x. verify K x issued.token now b.store) (later.settings ∙ first.settings)
      ∙ issue_token-verify K L request moment a issued b.store now h
          (later.poisoned ∙ first.poisoned ∙ parts.saved.unpoisoned)
          (later.evolves.current_key ∙ first.evolves.current_key) early

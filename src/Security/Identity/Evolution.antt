-- ===== src/Security/Identity/Evolution.antt =====
-- What each change keeps of the identity state: the key, the instance, and that it is sound
-- (identity/store.rs, identity/authority.rs).
use text.Mathlib.TextPositions.{eq_refl}
use fenrir.Prelude.{
  ap, ℕ, ◌≤◌, String, Option, none, some, List, ◌∷◌, All, length, length-take-le, if◌then◌else◌,
  ◌≡◌, refl, ◌∙◌, arith,
}
use fenrir.Prelude.Exec.{Keeps, continue_post, pure, wrap, ◌>>◌}
use fenrir.Prelude.Dict.{Dict, lookup}
use fenrir.Prelude.Ordered.{
  insert, insert-IsAscending, insert-IsNamed, insert-All, lookup-insert, lookup-All, lookup-IsNamed,
}
use fenrir.Security.Role.{Role}
use fenrir.Security.Identity.{
  IdentityState, IdentityKeyMaterial, IdentityTokenRecord, IdentityUserRecord,
}
use fenrir.Security.Identity.Crates.{Crates}
use fenrir.Security.Identity.Store.{IdentityStore, StateCall, write}
use fenrir.Security.Identity.Users.{put_user, with_password, logged_in}
use fenrir.Security.Identity.Jwt.{encode_jwt}
use fenrir.Security.Identity.Authority.{
  Settings, IdentityAuthority, IssueTokenRequest, IssuedToken, Moment, max_tokens_per_user,
  truncated, new_token, entry, failed, counted, with_token, claims_of,
}
use fenrir.Security.Identity.Issue.{issued_by, issue_for, issue_in, issue_until, record_issue_audit}
use fenrir.Security.Identity.Reload.{IsWell}
use fenrir.Security.Identity.Moves.{Moves, write-Keeps}

abbrev pub HasFew : IdentityUserRecord → Type 0
HasFew user = length user.tokens ≤ max_tokens_per_user

-- No user has more than the most tokens.
abbrev pub AllFew : IdentityState → Type 0
AllFew state = All (λ (e : String × IdentityUserRecord). HasFew e.1) state.users

-- What a change of the state keeps.
pub record Evolves (s t : IdentityState) : Type 0 where
  pub environment : t.environment ≡ s.environment
  pub instance_id : t.instance_id ≡ s.instance_id
  pub app_version : t.app_version ≡ s.app_version
  pub current_key : t.current_key ≡ s.current_key
  pub well : IsWell s → IsWell t
  pub few : AllFew s → AllFew t

pub Evolves_refl : (s : IdentityState) → Evolves s s
Evolves_refl s = record {
  environment = refl;
  instance_id = refl;
  app_version = refl;
  current_key = refl;
  well = λ h. h;
  few = λ h. h;
}

pub Evolves_trans : (s t u : IdentityState) → Evolves s t → Evolves t u → Evolves s u
Evolves_trans s t u h k = record {
  environment = k.environment ∙ h.environment;
  instance_id = k.instance_id ∙ h.instance_id;
  app_version = k.app_version ∙ h.app_version;
  current_key = k.current_key ∙ h.current_key;
  well = λ x. k.well (h.well x);
  few = λ x. k.few (h.few x);
}

-- A record that may stand under the identifier.
pub record Fits (state : IdentityState) (user_id : String) (user : IdentityUserRecord)
    : Type 0 where
  pub named : IsWell state → user.user_id ≡ user_id
  pub few : AllFew state → HasFew user

lookup-insert_same :
    (user_id : String) (user : IdentityUserRecord) (users : Dict IdentityUserRecord)
    → lookup user_id (insert user_id user users) ≡ some user
lookup-insert_same user_id user users =
    lookup-insert user_id user_id user users
    ∙ ap (λ b. if b then some user else lookup user_id users) (eq_refl user_id)

pub put-Evolves :
    (user_id : String) (user : IdentityUserRecord) (state : IdentityState)
    → Fits state user_id user
    → Evolves state (record state { users = insert user_id user state.users })
put-Evolves user_id user state fits = record {
  environment = refl;
  instance_id = refl;
  app_version = refl;
  current_key = refl;
  well = λ h. record {
    ascending = insert-IsAscending user_id user state.users h.ascending;
    named =
        insert-IsNamed (λ (u : IdentityUserRecord). u.user_id) user_id user state.users
          (fits.named h) h.named;
    secret = h.secret;
    public = h.public;
  };
  few = λ h. insert-All HasFew user_id user state.users (fits.few h) h;
}

lookup-Fits :
    (user_id : String) (user : IdentityUserRecord) (state : IdentityState)
    → lookup user_id state.users ≡ some user
    → Fits state user_id user
lookup-Fits user_id user state e = record {
  named = λ h.
      lookup-IsNamed (λ (u : IdentityUserRecord). u.user_id) user_id user state.users h.named e;
  few = λ h. lookup-All HasFew user_id user state.users h e;
}

pub with_password-Fits :
    (user_id hash : String) (role : Role) (now : ℕ) (state : IdentityState)
    (o : Option IdentityUserRecord)
    → lookup user_id state.users ≡ o
    → Fits state user_id (with_password user_id hash role now o)
with_password-Fits user_id hash role now state none e = record {
  named = λ h. refl;
  few = λ h. omega arith;
}
with_password-Fits user_id hash role now state (some user) e =
    let fits = lookup-Fits user_id user state e in record { named = fits.named; few = fits.few }

pub logged_in-Evolves :
    (user_id : String) (now : ℕ) (state : IdentityState) (o : Option IdentityUserRecord)
    → lookup user_id state.users ≡ o
    → Evolves state (logged_in user_id now o state).1
logged_in-Evolves user_id now state none e = Evolves_refl state
logged_in-Evolves user_id now state (some user) e =
    let fits = lookup-Fits user_id user state e in
    put-Evolves user_id (record user { last_login_at = some now }) state
      (record { named = fits.named; few = fits.few })

entry-Fits :
    (request : IssueTokenRequest) (now : ℕ) (state : IdentityState) (o : Option IdentityUserRecord)
    → lookup request.user_id state.users ≡ o
    → Fits state request.user_id (counted request now (entry request now o))
entry-Fits request now state none e = record { named = λ h. refl; few = λ h. omega arith }
entry-Fits request now state (some user) e =
    let fits = lookup-Fits request.user_id user state e in
    record { named = fits.named; few = fits.few }

length-truncated-le :
    (tokens : List IdentityTokenRecord) → length (truncated tokens) ≤ max_tokens_per_user
length-truncated-le tokens = ground (arith, length-take-le max_tokens_per_user tokens)

module _ (K : Crates) where
  issue_for-Evolves :
      (settings : Settings) (request : IssueTokenRequest) (moment : Moment) (expires_at : ℕ)
      (key : IdentityKeyMaterial) (user : IdentityUserRecord) (state : IdentityState)
      → Fits state request.user_id user
      → Evolves state (issue_for K settings request moment expires_at key user state).1
  issue_for-Evolves settings request moment expires_at key user state fits =
      let first : IdentityState = record state {
        users = insert request.user_id user state.users;
      } in
      let counted_first = put-Evolves request.user_id user state fits in
      let made : String → IdentityUserRecord =
        λ token. with_token (issued_by K request moment expires_at key.key_id token) user in
      let written : String → StateCall IssuedToken = λ token.
        put_user request.user_id (made token)
        >> pure (issued_by K request moment expires_at key.key_id token) in
      let found : lookup request.user_id first.users ≡ some user =
        lookup-insert_same request.user_id user state.users in
      let again : (token : String) → Fits first request.user_id (made token) = λ token. record {
        named = (lookup-Fits request.user_id user first found).named;
        few = λ h.
            length-truncated-le
              (new_token (issued_by K request moment expires_at key.key_id token) ∷ user.tokens);
      } in
      continue_post (λ p. Evolves state p.1) written first
        (encode_jwt K key (claims_of settings request moment expires_at))
        (λ token e.
          Evolves_trans state first _ counted_first
            (put-Evolves request.user_id (made token) first (again token)))
        (λ e k. counted_first)

  issue_in-Keeps :
      (settings : Settings) (request : IssueTokenRequest) (moment : Moment) (expires_at : ℕ)
      → Keeps Evolves (issue_in K settings request moment expires_at)
  unfolding issue_in
  issue_in-Keeps settings request moment expires_at = record {
    holds = λ state.
        issue_for-Evolves settings request moment expires_at state.current_key _ state
          (entry-Fits request moment.now state (lookup request.user_id state.users) refl);
  }

  -- The states of memory, where neither the settings nor the lock change.
  pub record Follows (a b : IdentityAuthority) : Type 0 where
    pub evolves : Evolves a.store.state b.store.state
    pub poisoned : b.store.poisoned ≡ a.store.poisoned
    pub settings : b.settings ≡ a.settings

  pub Follows-refl : (a : IdentityAuthority) → Follows a a
  Follows-refl a = record { evolves = Evolves_refl a.store.state; poisoned = refl; settings = refl }

  pub Follows-trans : (a b c : IdentityAuthority) → Follows a b → Follows b c → Follows a c
  Follows-trans a b c h k = record {
    evolves = Evolves_trans a.store.state b.store.state c.store.state h.evolves k.evolves;
    poisoned = k.poisoned ∙ h.poisoned;
    settings = k.settings ∙ h.settings;
  }

  write-Moves :
      {A : Type 0} (writer : StateCall A) (fault : Option String) (s : IdentityStore)
      → Keeps Evolves writer
      → Moves K Evolves Evolves_refl Evolves_trans s (write K writer fault s).1
  write-Moves writer fault s h =
      (write-Keeps K Evolves Evolves_refl Evolves_trans writer fault h).holds s

  pub issue_until-Follows :
      (request : IssueTokenRequest) (moment : Moment) (a : IdentityAuthority) (e : Option ℕ)
      → Follows a (issue_until K a.settings request moment e a).1
  issue_until-Follows request moment a none = Follows-refl a
  issue_until-Follows request moment a (some expires_at) =
      let writer = issue_in K a.settings request moment expires_at in
      let moved =
        write-Moves writer moment.fault a.store
          (issue_in-Keeps a.settings request moment expires_at) in
      let b : IdentityAuthority = record a { store = (write K writer moment.fault a.store).1 } in
      let after : Follows a b = record { evolves = moved.0; poisoned = moved.1; settings = refl } in
      continue_post (λ p. Follows a p.1)
        (λ issued. record_issue_audit K request moment issued >> pure issued) b
        (wrap failed (write K writer moment.fault a.store).0)
        (λ issued e. record { evolves = moved.0; poisoned = moved.1; settings = refl })
        (λ e k. after)

-- ===== src/Security/Identity/Issued.antt =====
-- What an issue that succeeds has done (identity/authority.rs).
use fenrir.Prelude.{String, Option, none, some, ◌≡◌, refl, sym, ap, subst, ◌∙◌, arith, ℕ}
use fenrir.Prelude.Exec.{ok, Exec, pure, map_err, from_result, ◌>>◌}
use fenrir.Prelude.Exec.Rules.{>>=-ok, wrap-ok, ok_injective}
use fenrir.Prelude.Dict.{lookup}
use fenrir.Prelude.Ordered.{insert}
use fenrir.Audit.{record_event}
use fenrir.Security.Identity.{IdentityKeyMaterial, IdentityUserRecord, IdentityState}
use fenrir.Security.Identity.Crates.{Crates}
use fenrir.Security.Identity.Store.{IdentityStore, StateCall, write}
use fenrir.Security.Identity.Users.{put_user}
use fenrir.Security.Identity.Jwt.{encode_jwt}
use fenrir.Security.Identity.Authority.{
  Settings, IdentityAuthority, IssueTokenRequest, IssuedToken, Stop, Moment, failed, expiry, entry,
  counted, with_token, claims_of, in_store,
}
use fenrir.Security.Identity.Issue.{
  issued_by, issue_for, issue_in, issue_event, record_issue_audit, issue_until, issue_token,
}
use fenrir.Security.Identity.Saved.{Saved, write-Saved}

module _ (K : Crates) where
  abbrev pub user_before : IssueTokenRequest → Moment → IdentityState → IdentityUserRecord
  user_before request moment state =
      counted request moment.now (entry request moment.now (lookup request.user_id state.users))

  -- The parts of an issue that succeeds: the token was written with the key in memory, the user's
  -- record was changed, the state was saved, and the audit event was given to the sink.
  pub record Issued (request : IssueTokenRequest) (moment : Moment) (a : IdentityAuthority)
      (issued : IssuedToken) (b : IdentityAuthority) : Type 0 where
    pub on_time : expiry moment.now a.settings.exp_seconds ≡ some issued.expires_at
    pub encoded :
        encode_jwt K a.store.state.current_key
          (claims_of a.settings request moment issued.expires_at)
        ≡ ok issued.token
    pub answer :
        issued
        ≡ issued_by K request moment issued.expires_at a.store.state.current_key.key_id issued.token
    pub saved :
        Saved K (issue_in K a.settings request moment issued.expires_at) a.store issued b.store
    pub users : b.store.state ≡ record a.store.state {
      users =
          insert request.user_id
            (with_token issued (user_before request moment a.store.state))
            (insert request.user_id (user_before request moment a.store.state) a.store.state.users);
    }
    pub settings : b.settings ≡ a.settings
    pub audited :
        b.audit
        ≡ record_event moment.refuses
            (issue_event K a.settings request issued)
            moment.audited_at
            a.audit

  issue_for-ok :
      (settings : Settings) (request : IssueTokenRequest) (moment : Moment) (expires_at : ℕ)
      (key : IdentityKeyMaterial) (user : IdentityUserRecord) (state : IdentityState)
      (issued : IssuedToken)
      → (issue_for K settings request moment expires_at key user state).0 ≡ ok issued
      → (token : String) × (encode_jwt K key (claims_of settings request moment expires_at)
          ≡ ok token)
        × (issued_by K request moment expires_at key.key_id token ≡ issued)
        × ((issue_for K settings request moment expires_at key user state).1 ≡ record state {
          users =
              insert request.user_id
                (with_token (issued_by K request moment expires_at key.key_id token) user)
                (insert request.user_id user state.users);
        })
  issue_for-ok settings request moment expires_at key user state issued h =
      let written : String → StateCall IssuedToken = λ token.
        put_user request.user_id
          (with_token (issued_by K request moment expires_at key.key_id token) user)
        >> pure (issued_by K request moment expires_at key.key_id token) in
      let (token, e, h1, left) =
        >>=-ok written
          (from_result (encode_jwt K key (claims_of settings request moment expires_at)))
          (record state { users = insert request.user_id user state.users }) issued h in
      (token, e, ok_injective h1, left)

  issue_until-Issued :
      (request : IssueTokenRequest) (moment : Moment) (a : IdentityAuthority) (issued : IssuedToken)
      (e : Option ℕ)
      → expiry moment.now a.settings.exp_seconds ≡ e
      → (issue_until K a.settings request moment e a).0 ≡ ok issued
      → Issued request moment a issued (issue_until K a.settings request moment e a).1
  unfolding issue_in
  issue_until-Issued request moment a issued none on_time h = absurd (ground arith)
  issue_until-Issued request moment a issued (some expires_at) on_time h =
      let writer = issue_in K a.settings request moment expires_at in
      let state = a.store.state in
      let key_id = state.current_key.key_id in
      let audit_then : IssuedToken → Exec IdentityAuthority Stop IssuedToken =
        λ i. record_issue_audit K request moment i >> pure i in
      let call = map_err failed (in_store (write K writer moment.fault)) in
      let (i, e1, h1, k1) = >>=-ok audit_then call a issued h in
      let sv = write-Saved K writer moment.fault a.store i (wrap-ok failed _ i e1) in
      let (token, e2, made, left) =
        issue_for-ok a.settings request moment expires_at state.current_key
          (user_before request moment state) state i sv.answered in
      let on_store = ap (λ (b : IdentityAuthority). b.store) k1 ∙ sv.left in
      let b = (issue_until K a.settings request moment (some expires_at) a).1 in
      subst (λ x. Issued request moment a x b) (made ∙ ok_injective h1)
        (record {
          on_time = on_time;
          encoded = e2;
          answer = refl;
          saved = record {
            unpoisoned = sv.unpoisoned;
            answered = sv.answered ∙ ap ok (sym made);
            json = sv.json;
            serialized = sv.serialized;
            left = on_store;
          };
          users = ap (λ (s : IdentityStore). s.state) on_store ∙ left;
          settings = ap (λ (b : IdentityAuthority). b.settings) k1;
          audited =
              ap (λ (b : IdentityAuthority). b.audit) k1
              ∙ ap
                  (λ x.
                    record_event moment.refuses (issue_event K a.settings request x)
                      moment.audited_at a.audit)
                  (sym made);
        })

  pub issue_token-Issued :
      (request : IssueTokenRequest) (moment : Moment) (a : IdentityAuthority) (issued : IssuedToken)
      → (issue_token K request moment a).0 ≡ ok issued
      → Issued request moment a issued (issue_token K request moment a).1
  unfolding issue_token
  issue_token-Issued request moment a issued h =
      issue_until-Issued request moment a issued (expiry moment.now a.settings.exp_seconds) refl h

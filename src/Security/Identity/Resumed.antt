-- ===== src/Security/Identity/Resumed.antt =====
-- A server that is started again resumes where the last save left it (identity/authority.rs).
use Prim.Native.Nat.{◌/◌}
use fenrir.Prelude.{
  ℕ, second, ◌<◌, String, false, Option, some, List, ◌≡◌, refl, sym, ap, subst, ◌∙◌,
}
use fenrir.Prelude.Exec.{ok, and_then}
use fenrir.Prelude.Exec.Rules.{and_then-ok, ok_injective}
use fenrir.Audit.{Log}
use fenrir.Security.Identity.{Bytes, IdentityState}
use fenrir.Security.Identity.Crates.{Crates, IsLawful}
use fenrir.Security.Identity.Persisted.{persisted}
use fenrir.Security.Identity.Store.{IdentityStore, Fresh, Faults, no_faults, load_or_initialize}
use fenrir.Security.Identity.Authority.{IdentityAuthority, IssueTokenRequest, IssuedToken, Moment}
use fenrir.Security.Identity.Issue.{issue_token}
use fenrir.Security.Identity.Logins.{settings_of, with_settings, bootstrap}
use fenrir.Security.Identity.Reload.{load_or_initialize-persisted}
use fenrir.Security.Identity.Issued.{issue_token-Issued}
use fenrir.Security.Identity.Verify.{verify}
use fenrir.Security.Identity.RoundTrip.{claims_for, issue_token-verify}
use fenrir.Security.Identity.Evolution.{Follows}
use fenrir.Security.Identity.History.{Call, issues, step, run, step-Follows, run-Follows}
use fenrir.Security.Identity.Restart.{Loaded, load_or_initialize-Loaded}

module _ (K : Crates) (L : IsLawful K) (environment instance_id audience app_version : String)
    (exp_seconds : ℕ) where
  -- Where a server has been started, and its state is still of that start's instance.
  record Serves (a : IdentityAuthority) : Type 0 where
    on_settings : a.settings ≡ settings_of environment instance_id audience app_version exp_seconds
    loaded : Loaded environment instance_id app_version a.store.state

  bootstrap-Serves :
      (fresh : Fresh) (faults : Faults) (file : Option Bytes) (log : Log) (a : IdentityAuthority)
      → bootstrap K environment instance_id audience app_version exp_seconds fresh faults file log
        ≡ ok a
      → Serves a
  unfolding bootstrap
  bootstrap-Serves fresh faults file log a h =
      let (store, e, k) =
        and_then-ok (load_or_initialize K environment instance_id app_version fresh faults file) _ a
          h in
      subst Serves (ok_injective k) (record {
        on_settings = refl;
        loaded =
            (load_or_initialize-Loaded K L environment instance_id app_version fresh faults file
              store e).0;
      })

  Follows-Serves : (a b : IdentityAuthority) → Follows K a b → Serves a → Serves b
  Follows-Serves a b f h = record {
    on_settings = f.settings ∙ h.on_settings;
    loaded = record {
      on_environment = f.evolves.environment ∙ h.loaded.on_environment;
      on_instance = f.evolves.instance_id ∙ h.loaded.on_instance;
      on_version = f.evolves.app_version ∙ h.loaded.on_version;
      well = f.evolves.well h.loaded.well;
    };
  }

  reload :
      (fresh : Fresh) (state : IdentityState) (json : Bytes)
      → Loaded environment instance_id app_version state
      → K.state_to_vec_pretty (persisted K state) ≡ ok json
      → load_or_initialize K environment instance_id app_version fresh no_faults (some json)
        ≡ ok (record { state = state; poisoned = false; file = some json })
  reload fresh state json h e =
      let call =
        λ (env inst ver : String). load_or_initialize K env inst ver fresh no_faults (some json) in
      sym (
        ap (λ env. call env state.instance_id state.app_version) h.on_environment
        ∙ ap (λ inst. call environment inst state.app_version) h.on_instance
        ∙ ap (λ ver. call environment instance_id ver) h.on_version)
      ∙ load_or_initialize-persisted K L fresh state json h.well e

  -- A start from the file that an issue leaves gives the very same settings, users and key.
  bootstrap-issue_token :
      (fresh fresh' : Fresh) (faults : Faults) (file : Option Bytes) (log log' : Log)
      (a : IdentityAuthority) (calls : List (Call K)) (request : IssueTokenRequest)
      (moment : Moment) (issued : IssuedToken)
      → bootstrap K environment instance_id audience app_version exp_seconds fresh faults file log
        ≡ ok a
      → (issue_token K request moment (run K calls a)).0 ≡ ok issued
      → let b = (issue_token K request moment (run K calls a)).1 in
        bootstrap K environment instance_id audience app_version exp_seconds fresh' no_faults
          b.store.file log'
        ≡ ok (record b { audit = log' })
  unfolding bootstrap step
  bootstrap-issue_token fresh fresh' faults file log log' a calls request moment issued h k =
      let c = run K calls a in
      let b = (issue_token K request moment c).1 in
      let parts = issue_token-Issued K request moment c issued k in
      let serves =
        Follows-Serves c b (step-Follows K (issues request moment) c) (
          Follows-Serves a c (run-Follows K calls a)
            (bootstrap-Serves fresh faults file log a h)) in
      let json = parts.saved.json in
      let same_state = ap (λ (s : IdentityStore). s.state) parts.saved.left in
      let same_file : b.store.file ≡ some json =
        ap (λ (s : IdentityStore). s.file) parts.saved.left in
      let same_lock =
        ap (λ (s : IdentityStore). s.poisoned) parts.saved.left ∙ parts.saved.unpoisoned in
      let serialized =
        ap (λ s. K.state_to_vec_pretty (persisted K s)) same_state ∙ parts.saved.serialized in
      let again =
        ap (load_or_initialize K environment instance_id app_version fresh' no_faults) same_file
        ∙ reload fresh' b.store.state json serves.loaded serialized in
      ap
        (λ r. and_then r (
          with_settings K (settings_of environment instance_id audience app_version exp_seconds)
            log'))
        again
      ∙ (λ i. ok (record {
        settings = sym serves.on_settings i;
        store = record {
          state = b.store.state;
          poisoned = sym same_lock i;
          file = sym same_file i;
        };
        audit = log';
      }))

  -- A server was started, from whatever its file held, has served any sequence of calls, and then
  -- issues a token. A start from the file that this leaves succeeds, and the new process, with the
  -- same users and key, accepts the token with its claims after every further sequence of its own
  -- calls, at every time before the second in which the token expires.
  pub bootstrap-verify :
      (fresh fresh' : Fresh) (faults : Faults) (file : Option Bytes) (log log' : Log)
      (a : IdentityAuthority) (calls later : List (Call K)) (request : IssueTokenRequest)
      (moment : Moment) (issued : IssuedToken) (now : ℕ)
      → bootstrap K environment instance_id audience app_version exp_seconds fresh faults file log
        ≡ ok a
      → (issue_token K request moment (run K calls a)).0 ≡ ok issued
      → now / second < issued.expires_at / second
      → let left = (issue_token K request moment (run K calls a)).1.store in
        (restarted : IdentityAuthority) × (bootstrap K environment instance_id audience app_version
            exp_seconds fresh' no_faults left.file log'
          ≡ ok restarted)
        × (restarted.store.state ≡ left.state)
        × (let b = run K later restarted in
            verify K b.settings issued.token now b.store
            ≡ ok (claims_for a.settings request moment issued))
  unfolding step
  bootstrap-verify fresh fresh' faults file log log' a calls later request moment issued now h k
        early =
      let c = run K calls a in
      let d = (issue_token K request moment c).1 in
      let restarted : IdentityAuthority = record d { audit = log' } in
      let parts = issue_token-Issued K request moment c issued k in
      let before = run-Follows K calls a in
      let first = step-Follows K (issues request moment) c in
      let after = run-Follows K later restarted in
      let b = run K later restarted in
      (
        restarted,
        bootstrap-issue_token fresh fresh' faults file log log' a calls request moment issued h k,
        refl,
        ap (λ x. verify K x issued.token now b.store) (after.settings ∙ first.settings)
            ∙ issue_token-verify K L request moment c issued b.store now k
                (after.poisoned ∙ first.poisoned ∙ parts.saved.unpoisoned)
                (after.evolves.current_key ∙ first.evolves.current_key) early
            ∙ ap (λ x. ok (claims_for x request moment issued)) before.settings,
      )

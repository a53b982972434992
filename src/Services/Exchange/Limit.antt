-- ===== src/Services/Exchange/Limit.antt =====
-- The limit on the requests for tokens, over every sequence of them (services/token_exchange.rs).
use text.Mathlib.Text as T
use fenrir.Prelude.{
  ℕ, ◌+◌, ◌*◌, ◌≤◌, String, Bool, true, false, ◌&&◌, List, [], ◌∷◌, All, if◌then◌else◌, ◌≡◌, refl,
  sym, ap, ◌∙◌, arith, Bool-cases, inl, inr, eq_iff, subst,
}
use fenrir.Prelude.Exec.{Result, ok, err}
use fenrir.Prelude.Dict.{lookup, insert, lookup-insert}
use fenrir.Services.Exchange.{
  ModuleService, TokenExchange, TokenExchangeError, rate_limited, rate_limit_max_requests, ask,
  check_rate_limit, issue_default_token, issue_scoped_token,
}
use fenrir.Services.Exchange.Window.{one_if, grants, Within, grants-le}

pub data Request : Type 0 where
  default_token : String → ℕ → Request
  scoped_token : String → List String → ℕ → Request

abbrev pub requester : Request → String
requester (default_token module_id now) = module_id
requester (scoped_token module_id scopes now) = module_id

abbrev pub asked_at : Request → ℕ
asked_at (default_token module_id now) = now
asked_at (scoped_token module_id scopes now) = now

-- The times of one module's requests.
unfoldable pub times_of : String → List Request → List ℕ
times_of id [] = []
times_of id (request ∷ rest) =
    let later = times_of id rest in
    if T.◌==◌ (requester request) id then asked_at request ∷ later else later

module _ (M : ModuleService) where
  abbrev pub is_passed : {A : Type 0} → Result (TokenExchangeError M.ModuleError) A → Bool
  is_passed (ok a) = true
  is_passed (err rate_limited) = false
  is_passed (err e) = true

  abbrev pub serve : Request → TokenExchange M.State → Bool × TokenExchange M.State
  serve (default_token module_id now) s =
      let (result, t) = issue_default_token M module_id now s in (is_passed result, t)
  serve (scoped_token module_id scopes now) s =
      let (result, t) = issue_scoped_token M module_id scopes now s in (is_passed result, t)

  -- How many of one module's requests come through the limit to the module service.
  unfoldable pub passed : String → List Request → TokenExchange M.State → ℕ
  unfolding issue_default_token issue_scoped_token
  passed id [] s = 0
  passed id (request ∷ rest) s =
      let (through, t) = serve request s in
      one_if (T.◌==◌ (requester request) id && through) + passed id rest t

  -- What a request leaves of the limit, and whether it comes through.
  record Served (request : Request) (s : TokenExchange M.State) (through : Bool)
      (t : TokenExchange M.State) : Type 0 where
    on_lock : t.poisoned ≡ s.poisoned
    on_through : through ≡ (ask (asked_at request) (lookup (requester request) s.windows)).0
    on_windows :
        t.windows
        ≡ insert
            (requester request)
            (ask (asked_at request) (lookup (requester request) s.windows)).1
            s.windows

  serve-Served :
      (request : Request) (s : TokenExchange M.State)
      → s.poisoned ≡ false
      → Served request s (serve request s).0 (serve request s).1
  unfolding issue_default_token issue_scoped_token check_rate_limit
  serve-Served (default_token module_id now) s up = record {
    on_lock = ground arith;
    on_through = ground arith;
    on_windows = ground arith;
  }
  serve-Served (scoped_token module_id scopes now) s up = record {
    on_lock = ground arith;
    on_through = ground arith;
    on_windows = ground arith;
  }

  passed-grants :
      (id : String) (requests : List Request) (s : TokenExchange M.State)
      → s.poisoned ≡ false
      → passed id requests s ≡ grants (times_of id requests) (lookup id s.windows)
  unfolding passed times_of grants
  passed-grants id [] s up = refl
  passed-grants id (request ∷ rest) s up =
      let t = (serve request s).1 in
      let served = serve-Served request s up in
      let later = passed-grants id rest t (served.on_lock ∙ up) in
      let bucket = (ask (asked_at request) (lookup (requester request) s.windows)).1 in
      let at_id =
        ap (lookup id) served.on_windows ∙ lookup-insert (requester request) id bucket s.windows in
      elim (Bool-cases (T.◌==◌ (requester request) id)) [
        | inl e ↦
            let same = ap (λ r. lookup r s.windows) ((eq_iff (requester request) id).0 e) in
            rw (e, later, at_id, e, served.on_through, same) refl
        | inr e ↦ rw (e, later, at_id, e) (omega arith)
      ]

  -- In half a minute at most 120 requests of a module come through the limit, whatever came before
  -- and whatever the module service answers, as long as no refresh is forced.
  pub passed-le :
      (id : String) (from : ℕ) (requests : List Request) (s : TokenExchange M.State)
      → s.poisoned ≡ false
      → All (Within from) (times_of id requests)
      → passed id requests s ≤ 2 * rate_limit_max_requests
  passed-le id from requests s up h =
      subst (λ n. n ≤ 2 * rate_limit_max_requests) (sym (passed-grants id requests s up))
        (grants-le from (times_of id requests) (lookup id s.windows) h)

-- ===== src/Security/Identity/Saved.antt =====
-- What a change of the identity store that succeeds has done (identity/store.rs).
use fenrir.Prelude.{String, false, Option, none, some, ◌≡◌, refl, arith, ◌∙◌}
use fenrir.Prelude.Exec.{continue_post, ok, pure, wrap, from_result, ◌>>=◌}
use fenrir.Prelude.Exec.Rules.{>>=-ok, wrap-ok}
use fenrir.Security.Identity.{Bytes, IdentityState, serde}
use fenrir.Security.Identity.Crates.{Crates}
use fenrir.Security.Identity.Persisted.{persisted}
use fenrir.Security.Identity.Store.{
  IdentityStore, StateCall, StoreCall, lock, in_state, replace, persist_state, write,
}

module _ (K : Crates) where
  lock-ok : (s : IdentityStore) (u : Unit {0}) → (lock s).0 ≡ ok u → s.poisoned ≡ false
  lock-ok s u h = ground arith

  replace-ok :
      (fault : Option String) (json : Bytes) (s : IdentityStore) (u : Unit {0})
      → (replace K fault json s).0 ≡ ok u
      → (replace K fault json s).1 ≡ record s { file = some json }
  replace-ok none json s u h = refl
  replace-ok (some e) json s u h = absurd (ground arith)

  -- What a successful write leaves.
  pub record Saved {A : Type 0} (writer : StateCall A) (s : IdentityStore) (a : A)
      (t : IdentityStore) : Type 0 where
    pub unpoisoned : s.poisoned ≡ false
    pub answered : (writer s.state).0 ≡ ok a
    pub json : Bytes
    pub serialized : K.state_to_vec_pretty (persisted K (writer s.state).1) ≡ ok json
    pub left : t ≡ record s { state = (writer s.state).1; file = some json }

  persist_state-ok :
      (fault : Option String) (state : IdentityState) (s : IdentityStore) (u : Unit {0})
      → (persist_state K fault state s).0 ≡ ok u
      → (json : Bytes) × (K.state_to_vec_pretty (persisted K state) ≡ ok json)
        × ((persist_state K fault state s).1 ≡ record s { file = some json })
  unfolding persist_state
  persist_state-ok fault state s u h =
      let (json, e, k, left) =
        >>=-ok (replace K fault)
          (from_result (wrap serde (K.state_to_vec_pretty (persisted K state)))) s u h in
      (json, wrap-ok serde _ json e, left ∙ replace-ok fault json s u k)

  pub write-Saved :
      {A : Type 0} (writer : StateCall A) (fault : Option String) (s : IdentityStore) (a : A)
      → (write K writer fault s).0 ≡ ok a
      → Saved writer s a (write K writer fault s).1
  unfolding write
  write-Saved {A = A} writer fault s a h =
      let save : StoreCall (Unit {0}) = λ t. persist_state K fault t.state t in
      let answer : A → StoreCall A = λ result. save >>= λ v. pure result in
      let (u, e1, h1, k1) = >>=-ok (λ u. in_state writer >>= answer) lock s a h in
      let (r, e2, h2, k2) = >>=-ok answer (in_state writer) s a h1 in
      let t : IdentityStore = record s { state = (writer s.state).1 } in
      let (v, e3, h3, k3) = >>=-ok (λ v. pure r) save t a h2 in
      let (json, e4, k4) = persist_state-ok fault t.state t v e3 in
      record {
        unpoisoned = lock-ok s u e1;
        answered = e2 ∙ h3;
        json = json;
        serialized = e4;
        left = k1 ∙ k2 ∙ k3 ∙ k4;
      }

  replace-state :
      (fault : Option String) (json : Bytes) (s : IdentityStore)
      → (replace K fault json s).1.state ≡ s.state
  replace-state none json s = refl
  replace-state (some text) json s = refl

  persist_state-state :
      (fault : Option String) (state : IdentityState) (s : IdentityStore)
      → (persist_state K fault state s).1.state ≡ s.state
  unfolding persist_state
  persist_state-state fault state s =
      continue_post (λ p. p.1.state ≡ s.state) (replace K fault) s
        (wrap serde (K.state_to_vec_pretty (persisted K state)))
        (λ json e. replace-state fault json s) (λ e failed. refl)

  -- A write under a sound lock leaves in memory what its closure has made of the state, also where the
  -- closure fails or the file is not saved.
  pub write-in_state :
      {A : Type 0} (writer : StateCall A) (fault : Option String) (state : IdentityState)
      (file : Option Bytes)
      → (write K writer fault (record { state = state; poisoned = false; file = file })).1.state
        ≡ (writer state).1
  unfolding write
  write-in_state {A = A} writer fault state file =
      let t : IdentityStore = record { state = (writer state).1; poisoned = false; file = file } in
      continue_post (λ p. p.1.state ≡ t.state) _ t (writer state).0
        (λ a e.
          continue_post (λ p. p.1.state ≡ t.state) (λ u. pure a) (persist_state K fault t.state t).1
            (persist_state K fault t.state t).0 (λ u e'. persist_state-state fault t.state t)
            (λ e' failed. persist_state-state fault t.state t))
        (λ e failed. refl)

-- ===== src/Security/Identity/Moves.antt =====
-- What a change that goes through the store's lock leaves, whether or not it is saved
-- (identity/store.rs).
use fenrir.Prelude.{String, Option, none, some, ◌≡◌, refl, ◌∙◌}
use fenrir.Prelude.Exec.{Keeps, pure, wrap, from_result-Keeps, >>=-Keeps, ◌>>=◌}
use fenrir.Security.Identity.{Bytes, serde, IdentityState}
use fenrir.Security.Identity.Crates.{Crates}
use fenrir.Security.Identity.Persisted.{persisted}
use fenrir.Security.Identity.Store.{
  IdentityStore, StateCall, StoreCall, lock, in_state, persist_state, persist, replace, write,
}

module _ (K : Crates) (R : IdentityState → IdentityState → Type 0)
    (same : (s : IdentityState) → R s s)
    (chain : (s t u : IdentityState) → R s t → R t u → R s u) where
  -- The states of memory are related, and the lock is as it was.
  abbrev pub Moves : IdentityStore → IdentityStore → Type 0
  Moves s t = R s.state t.state × (t.poisoned ≡ s.poisoned)

  pub Moves-trans : (s t u : IdentityStore) → Moves s t → Moves t u → Moves s u
  Moves-trans s t u h k = (chain s.state t.state u.state h.0 k.0, k.1 ∙ h.1)

  pub Moves-refl : (s : IdentityStore) → Moves s s
  Moves-refl s = (same s.state, refl)

  replace-Keeps : (fault : Option String) (json : Bytes) → Keeps Moves (replace K fault json)
  replace-Keeps none json = record { holds = Moves-refl }
  replace-Keeps (some e) json = record { holds = Moves-refl }

  persist_state-Keeps :
      (fault : Option String) (state : IdentityState) → Keeps Moves (persist_state K fault state)
  unfolding persist_state
  persist_state-Keeps fault state =
      >>=-Keeps Moves Moves-trans _ _
        (from_result-Keeps Moves (wrap serde (K.state_to_vec_pretty (persisted K state)))
          Moves-refl)
        (replace-Keeps fault)

  pub persist-Keeps : (fault : Option String) → Keeps Moves (persist K fault)
  unfolding persist
  persist-Keeps fault =
      let save : StoreCall (Unit {0}) = λ t. persist_state K fault t.state t in
      >>=-Keeps Moves Moves-trans lock (λ u. save) (record { holds = Moves-refl })
        (λ u. record { holds = λ s. (persist_state-Keeps fault s.state).holds s })

  pub write-Keeps :
      {A : Type 0} (writer : StateCall A) (fault : Option String)
      → Keeps R writer
      → Keeps Moves (write K writer fault)
  unfolding write
  write-Keeps {A = A} writer fault h =
      let save : StoreCall (Unit {0}) = λ t. persist_state K fault t.state t in
      let answer : A → StoreCall A = λ result. save >>= λ v. pure result in
      >>=-Keeps Moves Moves-trans lock (λ u. in_state writer >>= answer)
        (record { holds = Moves-refl })
        (λ u.
          >>=-Keeps Moves Moves-trans (in_state writer) answer
            (record { holds = λ s. (h.holds s.state, refl) })
            (λ a.
              >>=-Keeps Moves Moves-trans save (λ v. pure a)
                (record { holds = λ s. (persist_state-Keeps fault s.state).holds s })
                (λ v. record { holds = Moves-refl })))

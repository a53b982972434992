-- ===== src/Depot/Verify/Walked.antt =====
-- The walk of `fetch_verified` keeps what verifies a distribution (services/depot/verify.rs).
use fenrir.Prelude.{
  ℕ, zero, suc, ◌≡◌, refl, subst, String, Option, none, some, List, [], ◌∷◌, ◌++◌, All-imp, Any,
  arith, inl, inr, Bool-cases,
}
use fenrir.Prelude.Exec.{Exec, Result, ok, err, continue_post, continue, pure}
use fenrir.Depot.Verify.{
  Releases, VerifyError, VerifiedDistribution, Queue, seen_has, extend, included, fetch_one,
  fetch_queue, finished, fetch_verified,
}
use fenrir.Depot.Verify.Vouched.{IsFetched, IsPending, IsVerified, Walks}
use fenrir.Depot.Verify.Steps.{
  answered-ok, included-ok, skipped, fetched_one, Walks-IsVerified, All-extend, All-members,
  extended,
}

module _ (R : Releases) (World : Type 0)
    (distribution : R.DistributionId → Exec World VerifyError (Option R.Detail)) where
  fetch_one-IsFetched :
      (id : R.DistributionId) (w : World) (c : R.CheckedDistribution)
      → (fetch_one R World distribution id w).0 ≡ ok c
      → IsFetched R id c
  fetch_one-IsFetched id w c =
      continue_post (λ p. p.0 ≡ ok c → IsFetched R id c) _ (distribution id w).1
        (distribution id w).0 (λ detail given. answered-ok R id detail c)
        (λ e failed e'. absurd (ground arith))

  -- What the walk answers of the includes, if it does.
  Answers :
      R.DistributionId
      → R.CheckedDistribution
      → Result VerifyError (Option (List R.CheckedDistribution)) × World
      → Type 0
  Answers asked root (r, w) =
      (cs : List R.CheckedDistribution)
      → r ≡ ok (some cs)
      → IsVerified R asked (record { root = root; includes = cs })

  module _ (asked : R.DistributionId) (root : R.CheckedDistribution)
      (made : IsFetched R asked root) where
    fetch_queue-Answers :
        (fuel : ℕ) (queue : Queue R) (seen : List R.DistributionId)
        (includes : List R.CheckedDistribution) (w : World)
        → Walks R root includes seen queue
        → Answers asked root (fetch_queue R World distribution fuel queue seen includes w)
    unfolding fetch_queue Answers
    fetch_queue-Answers zero queue seen includes w h = λ cs e. absurd (ground arith)
    fetch_queue-Answers (suc fuel) [] seen includes w h = λ cs e.
        let same : includes ≡ cs = ground arith in
        subst (λ x. IsVerified R asked (record { root = root; includes = x })) same
          (Walks-IsVerified R asked root includes seen made h)
    fetch_queue-Answers (suc fuel) ((parent, include) ∷ queue) seen includes w h =
        let id = R.include_id include in
        let fetch = fetch_one R World distribution id w in
        elim (Bool-cases (seen_has R id seen)) [
          | inl e ↦ rw e (
              fetch_queue-Answers fuel queue seen includes w
                (skipped R root includes seen parent include queue h e))
          | inr e ↦ rw e (
              continue_post (Answers asked root) _ fetch.1 fetch.0
                (λ c got.
                  continue_post (Answers asked root) _ fetch.1
                    (included R (R.check_include parent include c))
                    (λ u fits. fetch_queue-Answers fuel _ (id ∷ seen) (includes ++ (c ∷ [])) _ (
                      fetched_one R root includes seen parent include queue h c
                        (fetch_one-IsFetched id w c got)
                        (included-ok R (R.check_include parent include c) fits)))
                    (λ e failed cs e'. absurd (ground arith)))
                (λ e failed cs e'. absurd (ground arith)))
        ]

    -- The walk begins with the root alone.
    starts : Walks R root [] (asked ∷ []) (extend R asked (R.includes_of root) [])
    starts =
        let is = R.includes_of root in
        record {
          vouched = tt;
          pending =
              All-extend R _ asked is []
                (All-imp (λ i. Any (λ j. j ≡ i) is) (IsPending R (root ∷ []) asked) is
                  (λ i member. record {
                    source = root;
                    known = inl refl;
                    fetched = made;
                    has_include = member;
                  })
                  (All-members is))
                tt;
          fetched = (inl made, tt);
          done = (All-imp _ _ is (λ i queued. inr queued) (extended R asked is []), tt);
        }

    finished-IsVerified :
        (p : Result VerifyError (Option (List R.CheckedDistribution)) × World)
        → Answers asked root p
        → (d : VerifiedDistribution R)
        → (continue p.0 (λ found. pure (finished R World distribution root found)) p.1).0
          ≡ ok (some d)
        → IsVerified R asked d
    unfolding Answers
    finished-IsVerified (ok none, v) h d e = absurd (ground arith)
    finished-IsVerified (ok (some found), v) h d e =
        let same : record { root = root; includes = found } ≡ d = ground arith in
        subst (IsVerified R asked) same (h found refl)
    finished-IsVerified (err x, v) h d e = absurd (ground arith)

  -- A distribution that `fetch_verified` answers with is verified.
  pub fetch_verified-IsVerified :
      (fuel : ℕ) (keys : List String) (id : R.DistributionId) (w : World)
      (d : VerifiedDistribution R)
      → (fetch_verified R World distribution fuel keys id w).0 ≡ ok (some d)
      → IsVerified R id d
  unfolding fetch_verified Answers
  fetch_verified-IsVerified fuel [] id w d = λ e. absurd (ground arith)
  fetch_verified-IsVerified fuel (key ∷ keys) id w d =
      continue_post (λ p. p.0 ≡ ok (some d) → IsVerified R id d) _
        (fetch_one R World distribution id w).1 (fetch_one R World distribution id w).0
        (λ root got.
          let made = fetch_one-IsFetched id w root got in
          finished-IsVerified id root made _
            (fetch_queue-Answers id root made fuel (extend R id (R.includes_of root) []) (id ∷ [])
              [] (fetch_one R World distribution id w).1 (starts id root made))
            d)
        (λ e failed e'. absurd (ground arith))

-- ===== src/Depot/Verify/Answers.antt =====
-- The answer of `fetch_verified` (services/depot/verify.rs).
use fenrir.Prelude.{
  ℕ, ◌+◌, ◌*◌, ◌≤◌, ◌<◌, ◌≡◌, ◌≢◌, refl, String, Option, none, some, List, length, ◌⊎◌, inl, inr,
}
use fenrir.Prelude.Exec.{Exec, Result, ok, err}
use fenrir.Depot.Verify.{Releases, VerifyError, VerifiedDistribution, fetch_one, fetch_verified}
use fenrir.Depot.Verify.Terminates.{AreKnown, fetch_verified-Ends}
use fenrir.Depot.Verify.Vouched.{IsVerified}
use fenrir.Depot.Verify.Walked.{fetch_verified-IsVerified}

module _ (R : Releases) (World : Type 0)
    (distribution : R.DistributionId → Exec World VerifyError (Option R.Detail)) where
  result_cases :
      (id : R.DistributionId) (r : Result VerifyError (Option (VerifiedDistribution R)))
      → r ≢ ok none
      → ((d : VerifiedDistribution R) → r ≡ ok (some d) → IsVerified R id d)
      → ((d : VerifiedDistribution R) × (r ≡ ok (some d)) × IsVerified R id d)
        ⊎ ((e : VerifyError) × (r ≡ err e))
  result_cases id (ok none) ends vouched = absurd (ends refl)
  result_cases id (ok (some d)) ends vouched = inl (d, refl, vouched d refl)
  result_cases id (err e) ends vouched = inr (e, refl)

  -- Where the distributions that the depot answers with include only those of a list, and none
  -- more than `m`, `fetch_verified` comes to an end, also where they include one another in a
  -- circle: with fuel for more steps than `m` for each of the list and for the root, it answers with
  -- an error, or with a distribution whose root was fetched and checked under the identity asked
  -- for, whose includes were each fetched under the identity of an include of the root or of one
  -- before them and checked against it, and which lacks nothing that one of its manifests includes.
  pub fetch_verified-answer :
      (us : List R.DistributionId) (m : ℕ)
      (closed : (id : R.DistributionId) (w : World) (c : R.CheckedDistribution)
        → (fetch_one R World distribution id w).0 ≡ ok c
        → (length (R.includes_of c) ≤ m) × AreKnown R us (R.includes_of c))
      (fuel : ℕ)
      → m + length us * m < fuel
      → (keys : List String) (id : R.DistributionId) (w : World)
      → ((d : VerifiedDistribution R) × ((fetch_verified R World distribution fuel keys id w).0
            ≡ ok (some d))
          × IsVerified R id d)
        ⊎ ((e : VerifyError) × ((fetch_verified R World distribution fuel keys id w).0 ≡ err e))
  fetch_verified-answer us m closed fuel enough keys id w =
      result_cases id (fetch_verified R World distribution fuel keys id w).0
        (fetch_verified-Ends R World distribution us m closed fuel enough keys id w)
        (fetch_verified-IsVerified R World distribution fuel keys id w)

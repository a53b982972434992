-- ===== src/Depot/Verify/Vouched.antt =====
-- What a distribution that was fetched with its includes has been checked for
-- (services/depot/verify.rs).
use fenrir.Prelude.{◌≡◌, ◌⊎◌, none, List, [], ◌∷◌, ◌++◌, All, Any, true}
use fenrir.Prelude.Exec.{ok}
use fenrir.Depot.Verify.{Releases, VerifiedDistribution, Queue, seen_has}

module _ (R : Releases) where
  -- The manifest is what the depot's answer was found to be for this identity.
  abbrev pub IsFetched : R.DistributionId → R.CheckedDistribution → Type 0
  IsFetched id c = (detail : R.Detail) × (R.check_distribution detail id ≡ ok c)

  -- The parent is an identity under which one of the manifests was fetched, which has the include.
  pub record IsPending (cs : List R.CheckedDistribution) (parent : R.DistributionId)
      (include : R.ManifestInclude) : Type 0 where
    pub source : R.CheckedDistribution
    pub known : Any (λ c. c ≡ source) cs
    pub fetched : IsFetched parent source
    pub has_include : Any (λ i. i ≡ include) (R.includes_of source)

  -- The manifest was fetched under the identity of an include of one of the others, and fits it.
  pub record IsVouched (cs : List R.CheckedDistribution) (c : R.CheckedDistribution) : Type 0 where
    pub parent : R.DistributionId
    pub include : R.ManifestInclude
    pub pending : IsPending cs parent include
    pub fetched : IsFetched (R.include_id include) c
    pub fits : R.check_include parent include c ≡ none

  -- Each of the manifests is vouched for by those that come before it.
  abbrev pub AreVouched : List R.CheckedDistribution → List R.CheckedDistribution → Type 0
  AreVouched before [] = Unit
  AreVouched before (c ∷ rest) = IsVouched before c × AreVouched (before ++ (c ∷ [])) rest

  -- Some manifest was fetched for the include.
  abbrev pub IsCovered : List R.CheckedDistribution → R.ManifestInclude → Type 0
  IsCovered cs include = Any (IsFetched (R.include_id include)) cs

  -- What is verified of a distribution: its root was fetched under the identity asked for, each
  -- include was checked against an include of the root or of one that comes before it, and nothing
  -- that one of them includes is missing.
  pub record IsVerified (id : R.DistributionId) (d : VerifiedDistribution R) : Type 0 where
    pub asked : IsFetched id d.root
    pub vouched : AreVouched (d.root ∷ []) d.includes
    pub covered :
        All (λ c. All (IsCovered (d.root ∷ d.includes)) (R.includes_of c)) (d.root ∷ d.includes)

  abbrev pub IsDone : List R.DistributionId → Queue R → R.ManifestInclude → Type 0
  IsDone seen queue include =
      (seen_has R (R.include_id include) seen ≡ true)
      ⊎ Any (λ (entry : R.DistributionId × R.ManifestInclude). entry.1 ≡ include) queue

  -- What the walk keeps.
  pub record Walks (root : R.CheckedDistribution) (includes : List R.CheckedDistribution)
      (seen : List R.DistributionId) (queue : Queue R) : Type 0 where
    pub vouched : AreVouched (root ∷ []) includes
    pub pending :
        All
          (λ (entry : R.DistributionId × R.ManifestInclude).
            IsPending (root ∷ includes) entry.0 entry.1)
          queue
    pub fetched : All (λ id. Any (IsFetched id) (root ∷ includes)) seen
    pub done : All (λ c. All (IsDone seen queue) (R.includes_of c)) (root ∷ includes)

-- ===== src/Depot/Verify.antt =====
-- services/depot/verify.rs: a distribution is fetched with all that it includes. The crate
-- `depot_protocol` is a record of its identities, manifests and checks.
pub mod Terminates
pub mod Vouched
pub mod Steps
pub mod Walked
pub mod Answers
mod Tests
use fenrir.Prelude.{
  ℕ, zero, suc, ◌≡◌, ◌↔◌, String, Bool, true, false, ◌||◌, Option, none, some, List, [], ◌∷◌, ◌++◌,
  map, if◌then◌else◌, any,
}
use fenrir.Prelude.Exec.{Exec, Result, ok, err, pure, raise, ◌>>=◌, ◌>>◌, wrap, from_result}

pub record Releases : Type 1 where
  pub DistributionId : Type 0
  pub id_eq : DistributionId → DistributionId → Bool
  pub id_eq_iff : (a b : DistributionId) → (id_eq a b ≡ true) ↔ (a ≡ b)
  pub ManifestInclude : Type 0
  pub include_id : ManifestInclude → DistributionId
  pub CheckedDistribution : Type 0
  -- What the depot answers, unverified, and `check_distribution` of it.
  pub Detail : Type 0
  pub check_distribution : Detail → DistributionId → Result String CheckedDistribution
  pub includes_of : CheckedDistribution → List ManifestInclude
  -- `check_include`: what is wrong, if something is.
  pub check_include : DistributionId → ManifestInclude → CheckedDistribution → Option String

pub data VerifyError : Type 0 where
  no_trusted_key : VerifyError
  not_found : VerifyError
  verification : String → VerifyError
  source_error : String → VerifyError

module _ (R : Releases) where
  pub record VerifiedDistribution : Type 0 where
    pub root : R.CheckedDistribution
    pub includes : List R.CheckedDistribution

  abbrev pub Queue : Type 0
  Queue = List (R.DistributionId × R.ManifestInclude)

  -- `seen.contains`.
  abbrev pub seen_has : R.DistributionId → List R.DistributionId → Bool
  seen_has id seen = any (λ other. R.id_eq other id) seen

  -- The queue is a stack, whose last entry is the head here: `extend` puts the includes before it,
  -- the last of them first.
  unfoldable pub extend : R.DistributionId → List R.ManifestInclude → Queue → Queue
  extend parent [] queue = queue
  extend parent (include ∷ includes) queue = extend parent includes ((parent, include) ∷ queue)

  abbrev pub included : Option String → Result VerifyError (Unit {0})
  included none = ok tt
  included (some problem) = err (verification problem)

  abbrev pub answered :
      R.DistributionId → Option R.Detail → Result VerifyError R.CheckedDistribution
  answered id none = err not_found
  answered id (some detail) = wrap verification (R.check_distribution detail id)

  -- `distribution` is the depot's answer (`DepotSource` of services/depot/ports.rs).
  module _ (World : Type 0)
      (distribution : R.DistributionId → Exec World VerifyError (Option R.Detail)) where
    abbrev pub Fetch : Type 0 → Type 0
    Fetch A = Exec World VerifyError A

    abbrev pub fetch_one : R.DistributionId → Fetch R.CheckedDistribution
    fetch_one id = distribution id >>= λ detail. from_result (answered id detail)

    -- The loop, on fuel: `none` where it runs out.
    unfoldable pub fetch_queue :
        ℕ
        → Queue
        → List R.DistributionId
        → List R.CheckedDistribution
        → Fetch (Option (List R.CheckedDistribution))
    unfolding extend
    fetch_queue zero queue seen includes = pure none
    fetch_queue (suc fuel) [] seen includes = pure (some includes)
    fetch_queue (suc fuel) ((parent, include) ∷ queue) seen includes =
        let id = R.include_id include in
        let passed_over = fetch_queue fuel queue seen includes in
        let fetched = (do
          checked ← fetch_one id
          from_result (included (R.check_include parent include checked))
          fetch_queue fuel (extend id (R.includes_of checked) queue) (id ∷ seen)
              (includes ++ (checked ∷ []))) in
        if seen_has id seen then passed_over else fetched

    abbrev pub finished :
        R.CheckedDistribution → Option (List R.CheckedDistribution) → Option VerifiedDistribution
    finished root none = none
    finished root (some includes) = some (record { root = root; includes = includes })

    -- `fetch_verified`, with the number of trusted keys.
    unfoldable pub fetch_verified :
        ℕ → List String → R.DistributionId → Fetch (Option VerifiedDistribution)
    unfolding fetch_queue
    fetch_verified fuel [] id = raise no_trusted_key
    fetch_verified fuel (key ∷ keys) id = do
      root ← fetch_one id
      found ← fetch_queue fuel (extend id (R.includes_of root) []) (id ∷ []) []
      pure (finished root found)

-- ===== src/Depot/Verify/Tests.antt =====
-- The walk over includes at a depot whose two distributions include each other.
use fenrir.Prelude.{
  ℕ, ◌≡◌, ◌↔◌, ◌⊎◌, refl, Option, none, some, List, [], ◌∷◌, ◌==◌, if◌then◌else◌, arith, ◌≤◌,
  length, Bool-cases, inl, inr, subst, true,
}
use fenrir.Prelude.Exec.{Exec, ok, err}
use fenrir.Depot.Verify.{Releases, VerifyError, VerifiedDistribution, fetch_one, fetch_verified}
use fenrir.Depot.Verify.Terminates.{AreKnown}
use fenrir.Depot.Verify.Answers.{fetch_verified-answer}
use fenrir.Depot.Verify.Vouched.{IsVerified}

same_number : (a b : ℕ) → ((a == b) ≡ true) ↔ (a ≡ b)
same_number a b = (λ h. ground arith, λ h. ground arith)

-- A distribution is its number and its includes' numbers.
abbrev numbers : Releases
numbers = record {
  DistributionId = ℕ;
  id_eq = ◌==◌;
  id_eq_iff = same_number;
  ManifestInclude = ℕ;
  include_id = λ include. include;
  CheckedDistribution = ℕ × List ℕ;
  Detail = ℕ × List ℕ;
  check_distribution = λ detail id. ok detail;
  includes_of = λ c. c.1;
  check_include = λ parent include c. if c.0 == include then none else some "another manifest";
}

abbrev depot : ℕ → Exec (Unit {0}) VerifyError (Option (ℕ × List ℕ))
depot id w =
    if id == 1
    then (ok (some (1, 2 ∷ [])), w)
    else if id == 2
    then (ok (some (2, 1 ∷ [])), w)
    else (ok none, w)

abbrev IsClosed : ℕ × List ℕ → Type 0
IsClosed c = (length c.1 ≤ 1) × AreKnown numbers (1 ∷ 2 ∷ []) c.1

depot-IsClosed :
    (id : ℕ) (w : Unit {0}) (c : ℕ × List ℕ)
    → (fetch_one numbers (Unit {0}) depot id w).0 ≡ ok c
    → IsClosed c
depot-IsClosed id w c e = elim (Bool-cases (id == 1)) [
  | inl h ↦
      let same : (1, 2 ∷ []) ≡ c = ground arith in subst IsClosed same (omega arith, (refl, tt))
  | inr h ↦ elim (Bool-cases (id == 2)) [
    | inl k ↦
        let same : (2, 1 ∷ []) ≡ c = ground arith in subst IsClosed same (omega arith, (refl, tt))
    | inr k ↦ absurd (ground arith)
  ]
]

abbrev both_fetched : VerifiedDistribution numbers
both_fetched = record { root = (1, 2 ∷ []); includes = (2, 1 ∷ []) ∷ [] }

fetches_both :
    (fetch_verified numbers (Unit {0}) depot 4 ("key" ∷ []) 1 tt).0 ≡ ok (some both_fetched)
unfolding fetch_verified
fetches_both = refl

fetch_verified-answer_example :
    ((d : VerifiedDistribution numbers) × ((fetch_verified numbers
          (Unit {0})
          depot
          4
          ("key" ∷ [])
          1
          tt).0
        ≡ ok (some d))
      × IsVerified numbers 1 d)
    ⊎ ((e : VerifyError) × ((fetch_verified numbers (Unit {0}) depot 4 ("key" ∷ []) 1 tt).0
          ≡ err e))
fetch_verified-answer_example =
    fetch_verified-answer numbers (Unit {0}) depot (1 ∷ 2 ∷ []) 1 depot-IsClosed 4 (omega arith)
      ("key" ∷ []) 1 tt

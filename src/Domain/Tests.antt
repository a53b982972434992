-- ===== src/Domain/Tests.antt =====
-- Versions over a small stand-in for the crate `semver`, with one tag and one build number.
use Prim.Native.Nat.{Ordering, compare}
use fenrir.Prelude.{ℕ, ◌≡◌, refl, Bool, true, none, some, List, [], ◌∷◌, arith, leb}
use fenrir.Prelude.Order.{IsLawful}
use fenrir.Domain.Semver.{Semver, Version, exact, greater_eq, caret}
use fenrir.Domain.Version.{
  Comparator, VersionReq, compare_versions, release_order, comparator_matches, version_req_matches,
  is_greater, digits_value, build_number,
}
use fenrir.Domain.Version.Order.{compare_versions-IsLawful}
use fenrir.Domain.Version.Requirements.{version_req_matches_core}

data Tag : Type 0 where
  bare beta three : Tag

abbrev text : Tag → List ℕ
text bare = []
text beta = b'b' ∷ b'e' ∷ []
text three = b'3' ∷ []

abbrev rank : Tag → ℕ
rank bare = 2
rank beta = 1
rank three = 0

text_injective : (p q : Tag) → text p ≡ text q → p ≡ q
text_injective p q h = ground arith

text-IsCanonical : (p : Tag) → fenrir.Domain.Semver.IsCanonical (text p)
text-IsCanonical bare = tt
text-IsCanonical beta = λ h. ground arith
text-IsCanonical three = tt

tag-IsLawful : IsLawful (λ (p q : Tag). compare (rank p) (rank q))
tag-IsLawful = record {
  swapped = λ p q. ground arith;
  same = λ p q h. ground arith;
  chained = λ p q r h k. ground arith;
}

data NoBuild : Type 0 where
  no_build : NoBuild

one_build : IsLawful (λ (p q : NoBuild). Ordering.eq)
one_build = record {
  swapped = λ p q. refl;
  same = λ p q h. ground arith;
  chained = λ p q r h k. absurd (cc);
}

abbrev small : Semver
small = record {
  Prerelease = Tag;
  as_str = text;
  as_str_injective = text_injective;
  as_str-IsCanonical = text-IsCanonical;
  pre_cmp = λ p q. compare (rank p) (rank q);
  pre_lawful = tag-IsLawful;
  BuildMetadata = NoBuild;
  build_cmp = λ p q. Ordering.eq;
  build_lawful = one_build;
  no_pre = bare;
  no_build = no_build;
}

abbrev v : ℕ → ℕ → ℕ → Tag → Version small
v major minor patch pre = record {
  major = major;
  minor = minor;
  patch = patch;
  pre = pre;
  build = no_build;
}

-- A stand-in for the crate's own matching: at least the comparator's major version.
abbrev by_major : Comparator small → Version small → Bool
by_major c version = leb c.major version.major

abbrev any_req : VersionReq small → Version small → Bool
any_req req version = true

build_number_sorts_after_core :
    (compare_versions small (v 1 2 0 bare) (v 1 2 0 three) ≡ Ordering.lt)
    × (compare_versions small (v 1 2 0 beta) (v 1 2 0 bare) ≡ Ordering.lt)
    × (compare_versions small (v 1 2 0 three) (v 1 3 0 beta) ≡ Ordering.lt)
unfolding compare_versions fenrir.Domain.Version.text_build
build_number_sorts_after_core = (refl, refl, refl)

compare_versions-IsLawful_example : IsLawful (compare_versions small)
compare_versions-IsLawful_example = compare_versions-IsLawful small

abbrev req_caret : VersionReq small
req_caret = record {
  comparators = record { op = caret; major = 1; minor = some 2; patch = none; pre = bare } ∷ [];
}

version_req_matches_core_example :
    version_req_matches small by_major any_req req_caret (v 1 2 0 three)
    ≡ version_req_matches small by_major any_req req_caret (v 1 2 0 bare)
unfolding fenrir.Domain.Version.text_build
version_req_matches_core_example =
    version_req_matches_core small by_major any_req req_caret (v 1 2 0 three) (v 1 2 0 bare) refl
      refl (record { major = refl; minor = refl; patch = refl })
      (record { pre = refl; op = refl }, tt)

abbrev from_three : Comparator small
from_three = record { op = greater_eq; major = 1; minor = some 2; patch = some 0; pre = three }

abbrev exactly : Comparator small
exactly = record { op = exact; major = 1; minor = some 2; patch = some 0; pre = bare }

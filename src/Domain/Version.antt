-- ===== src/Domain/Version.antt =====
-- domain/module/version.rs: the order of build-numbered versions, and requirements on them. `S` is
-- the crate `semver`; its own matching is a parameter of the functions that call it.
pub mod Decimal
pub mod Order
pub mod Requirements
use Prim.Native.Nat.{Ordering, compare}
use Prim.Native.Nat.Ordering.{lt, eq, gt}
use mathlib.Core.List.{reverse}
use fenrir.Prelude.{
  ℕ, ◌+◌, ◌*◌, ◌-◌, ◌≡◌, Bool, true, false, not, ◌&&◌, Option, none, some, List, [], ◌∷◌, all,
  is_some, ltb, leb, ◌==◌, keep_if, if◌then◌else◌, u64_max,
}
use fenrir.Prelude.Order.{then_with}
use fenrir.Domain.Semver.{Semver, Version, Op, is_digit, exact, greater, greater_eq, less, less_eq}

-- The number that a text of digits stands for, the last digit first.
unfoldable pub digits_value : List ℕ → ℕ
digits_value [] = 0
digits_value (d ∷ ds) = (d - b'0') + 10 * digits_value ds

-- `text.parse::<u64>().ok()`, on a text of digits.
unfoldable pub parse_u64 : List ℕ → Option ℕ
unfolding digits_value
parse_u64 text =
    let value = digits_value (reverse text) in if leb value u64_max then some value else none

-- `pre_build`, on the text of the pre-release.
unfoldable pub text_build : List ℕ → Option ℕ
unfolding parse_u64
text_build [] = some 0
text_build (b ∷ bs) =
    if all is_digit (b ∷ bs) then keep_if (λ build. ltb 0 build) (parse_u64 (b ∷ bs)) else none

abbrev pub is_equal : Ordering → Bool
is_equal eq = true
is_equal _ = false

abbrev pub is_less : Ordering → Bool
is_less lt = true
is_less _ = false

abbrev pub is_greater : Ordering → Bool
is_greater gt = true
is_greater _ = false

abbrev pub or_zero : Option ℕ → ℕ
or_zero none = 0
or_zero (some n) = n

abbrev pub is_build_zero : Option ℕ → Bool
is_build_zero none = false
is_build_zero (some n) = n == 0

abbrev pub is_empty : List ℕ → Bool
is_empty [] = true
is_empty (b ∷ bs) = false

module _ (S : Semver) where
  abbrev pub pre_build : S.Prerelease → Option ℕ
  pre_build pre = text_build (S.as_str pre)

  abbrev pub build_number : Version S → Option ℕ
  build_number version = pre_build version.pre

  -- The order of the pre-releases of one core.
  abbrev pub by_builds : S.Prerelease → S.Prerelease → Option ℕ → Option ℕ → Ordering
  by_builds p q (some x) (some y) = compare x y
  by_builds p q none (some y) = lt
  by_builds p q (some x) none = gt
  by_builds p q none none = S.pre_cmp p q

  abbrev pub core_order : Version S → Version S → Ordering
  core_order a b =
      then_with (compare a.major b.major)
        (then_with (compare a.minor b.minor) (compare a.patch b.patch))

  unfoldable pub release_order : Version S → Version S → Ordering
  release_order a b =
      let core = core_order a b in
      if is_equal core then by_builds a.pre b.pre (build_number a) (build_number b) else core

  unfoldable pub compare_versions : Version S → Version S → Ordering
  unfolding release_order
  compare_versions a b = then_with (release_order a b) (S.build_cmp a.build b.build)

  pub record Comparator : Type 0 where
    pub op : Op
    pub major : ℕ
    pub minor : Option ℕ
    pub patch : Option ℕ
    pub pre : S.Prerelease

  pub record VersionReq : Type 0 where
    pub comparators : List Comparator

  abbrev pub core_of : Version S → Version S
  core_of version = record version { pre = S.no_pre; build = S.no_build }

  abbrev pub floor_of : Comparator → Version S
  floor_of c = record {
    major = c.major;
    minor = or_zero c.minor;
    patch = or_zero c.patch;
    pre = c.pre;
    build = S.no_build;
  }

  -- `matches` is `Comparator::matches` of the crate, `req_matches` its `VersionReq::matches`.
  module _ (matches : Comparator → Version S → Bool)
      (req_matches : VersionReq → Version S → Bool) where
    -- A comparator without a pre-release: on the core, but a full exact one is build 0.
    abbrev pub core_matches : Op → Option ℕ → Option ℕ → Comparator → Version S → Bool
    core_matches exact (some minor) (some patch) c version =
        is_build_zero (build_number version)
        && (version.major == c.major && (version.minor == minor && version.patch == patch))
    core_matches _ _ _ c version = matches c (core_of version)

    -- A comparator with a build number, by the order against its floor.
    abbrev pub build_matches : Op → Ordering → Comparator → Version S → Bool
    build_matches exact against c version = is_equal against
    build_matches greater against c version = is_greater against
    build_matches greater_eq against c version = not (is_less against)
    build_matches less against c version = is_less against
    build_matches less_eq against c version = not (is_greater against)
    build_matches _ against c version =
        not (is_less against) && matches (record c { pre = S.no_pre }) (core_of version)

    unfoldable pub comparator_matches : Comparator → Version S → Bool
    unfolding release_order
    comparator_matches c version =
        if is_empty (S.as_str c.pre)
        then core_matches c.op c.minor c.patch c version
        else if is_some (pre_build c.pre)
        then build_matches c.op (release_order version (floor_of c)) c version
        else matches c version

    unfoldable pub version_req_matches : VersionReq → Version S → Bool
    unfolding comparator_matches
    version_req_matches req version =
        if is_some (build_number version)
        then all (λ c. comparator_matches c version) req.comparators
        else req_matches req version

-- ===== src/Domain/Version/Requirements.antt =====
-- What the requirements accept (domain/module/version.rs).
use fenrir.Prelude.{
  ℕ, ◌≡◌, ◌≢◌, ◌↔◌, refl, Bool, true, false, Option, some, List, [], ◌∷◌, arith, All, all, is_some,
}
use fenrir.Domain.Semver.{Semver, Version, Op, exact, greater, greater_eq}
use fenrir.Domain.Version.{
  text_build, pre_build, build_number, release_order, Comparator, VersionReq, comparator_matches,
  version_req_matches, core_matches, build_matches, is_build_zero, core_of, floor_of, is_greater,
}
use fenrir.Domain.Version.Order.{release_key, release_keys-IsLawful, release-by-key}

-- Only a version with no suffix has the build number 0.
build_zero-nil : (text : List ℕ) → is_build_zero (text_build text) ≡ true → text ≡ []
unfolding text_build
build_zero-nil [] h = refl
build_zero-nil (b ∷ bs) h = absurd (ground arith)

nil-build_zero : (text : List ℕ) → text ≡ [] → is_build_zero (text_build text) ≡ true
unfolding text_build
nil-build_zero [] h = refl
nil-build_zero (b ∷ bs) h = cc

module _ (S : Semver) where
  -- The comparator names no pre-release and is no full exact one: it is about the core.
  abbrev pub full_exact : Op → Option ℕ → Option ℕ → Bool
  full_exact exact (some minor) (some patch) = true
  full_exact _ _ _ = false

  pub record IsCoreOnly (c : Comparator S) : Type 0 where
    pub pre : S.as_str c.pre ≡ []
    pub op : full_exact c.op c.minor c.patch ≡ false

  pub record SameCore (v w : Version S) : Type 0 where
    pub major : v.major ≡ w.major
    pub minor : v.minor ≡ w.minor
    pub patch : v.patch ≡ w.patch

  core_of-eq : (v w : Version S) → SameCore v w → core_of S v ≡ core_of S w
  core_of-eq v w s = λ i. record {
    major = s.major i;
    minor = s.minor i;
    patch = s.patch i;
    pre = S.no_pre;
    build = S.no_build;
  }

  -- Greater or not smaller than its floor: an operator with no upper end.
  abbrev pub rises : Op → Bool
  rises greater = true
  rises greater_eq = true
  rises _ = false

  -- The comparator names a build number.
  pub record HasBuild (c : Comparator S) : Type 0 where
    pub named : S.as_str c.pre ≢ []
    pub numbered : is_some (pre_build S c.pre) ≡ true

  module _ (matches : Comparator S → Version S → Bool)
      (req_matches : VersionReq S → Version S → Bool) where
    core_matches-eq :
        (o : Op) (minor patch : Option ℕ) (c : Comparator S) (v w : Version S)
        → full_exact o minor patch ≡ false
        → core_of S v ≡ core_of S w
        → core_matches S matches req_matches o minor patch c v
          ≡ core_matches S matches req_matches o minor patch c w
    core_matches-eq o minor patch c v w h e = ground arith

    comparator_matches-eq :
        (c : Comparator S) (v w : Version S)
        → IsCoreOnly c
        → SameCore v w
        → comparator_matches S matches req_matches c v
          ≡ comparator_matches S matches req_matches c w
    unfolding comparator_matches
    comparator_matches-eq c v w k s =
        rw k.pre (core_matches-eq c.op c.minor c.patch c v w k.op (core_of-eq v w s))

    all_match-eq :
        (cs : List (Comparator S)) (v w : Version S)
        → All IsCoreOnly cs
        → SameCore v w
        → all (λ c. comparator_matches S matches req_matches c v) cs
          ≡ all (λ c. comparator_matches S matches req_matches c w) cs
    all_match-eq [] v w k s = refl
    all_match-eq (c ∷ cs) v w k s =
        cc (comparator_matches-eq c v w k.0 s, all_match-eq cs v w k.1 s)

    -- Two versions of the same core that both have a build number meet the same requirements, as far
    -- as these name no pre-release and have no full exact comparator.
    pub version_req_matches_core :
        (req : VersionReq S) (v w : Version S)
        → is_some (build_number S v) ≡ true
        → is_some (build_number S w) ≡ true
        → SameCore v w
        → All IsCoreOnly req.comparators
        → version_req_matches S matches req_matches req v
          ≡ version_req_matches S matches req_matches req w
    unfolding version_req_matches
    version_req_matches_core req v w hv hw s k = rw (hv, hw) (all_match-eq req.comparators v w k s)

    -- A version that is not smaller than one not smaller than the floor is not smaller than the floor,
    -- and greater than it if that one is.
    rises_up :
        (o : Op) (c : Comparator S) (v w f : Version S)
        → rises o ≡ true
        → is_greater (release_order S v w) ≡ false
        → build_matches S matches req_matches o (release_order S v f) c v ≡ true
        → build_matches S matches req_matches o (release_order S w f) c w ≡ true
    rises_up o c v w f r up m =
        let L = release_keys-IsLawful S in
        let kv = release_key S v in
        let kw = release_key S w in
        let kf = release_key S f in
        ground (
          arith,
          release-by-key S v w,
          release-by-key S v f,
          release-by-key S w f,
          L.swapped kw kf,
          L.swapped kv kf,
          L.swapped kv kw,
          L.same kv kw,
          L.same kw kf,
          L.same kv kf,
          L.chained kw kf kv,
          L.chained kf kv kw,
          L.chained kv kw kf,
        )

    -- A comparator `>` or `>=` with a build number that accepts a version accepts every version that
    -- is not smaller in the release order.
    pub comparator_matches_up :
        (c : Comparator S) (v w : Version S)
        → HasBuild c
        → rises c.op ≡ true
        → is_greater (release_order S v w) ≡ false
        → comparator_matches S matches req_matches c v ≡ true
        → comparator_matches S matches req_matches c w ≡ true
    unfolding comparator_matches
    comparator_matches_up c v w b r up m = ground (arith, rises_up c.op c v w (floor_of S c) r up)

    -- A comparator `=` with a minor and a patch version and no pre-release accepts, of the versions
    -- that have a build number, exactly the one with that core and no suffix.
    pub exact_matches_iff :
        (c : Comparator S) (minor patch : ℕ) (v : Version S)
        → c.op ≡ exact
        → c.minor ≡ some minor
        → c.patch ≡ some patch
        → S.as_str c.pre ≡ []
        → (comparator_matches S matches req_matches c v ≡ true)
          ↔ ((v.major ≡ c.major) × (v.minor ≡ minor) × (v.patch ≡ patch) × (S.as_str v.pre ≡ []))
    unfolding comparator_matches
    exact_matches_iff c minor patch v o m p e = (
      λ h. ground (arith, build_zero-nil (S.as_str v.pre)),
      λ h. ground (arith, nil-build_zero (S.as_str v.pre)),
    )

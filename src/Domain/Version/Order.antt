-- ===== src/Domain/Version/Order.antt =====
-- `compare_versions` is a total order that agrees with `==` (domain/module/version.rs).
use Prim.Native.Nat.{Ordering, compare}
use Prim.Native.Nat.Ordering.{lt, eq}
use fenrir.Prelude.{ℕ, ◌≡◌, refl, sym, ap, ◌∙◌, Option, none, some, arith}
use fenrir.Prelude.Order.{IsLawful, reversed, compare-IsLawful, pairwise, pairwise-IsLawful}
use fenrir.Domain.Semver.{Semver, Version}
use fenrir.Domain.Version.{pre_build, by_builds, release_order, compare_versions}
use fenrir.Domain.Version.Decimal.{text_build-injective}

module _ (S : Semver) where
  abbrev pub pre_order : S.Prerelease → S.Prerelease → Ordering
  pre_order p q = by_builds S p q (pre_build S p) (pre_build S q)

  same_build :
      (p q : S.Prerelease) (n : ℕ) → pre_build S p ≡ some n → pre_build S q ≡ some n → p ≡ q
  same_build p q n h k = S.as_str_injective p q (
      text_build-injective (S.as_str p) (S.as_str q) n (S.as_str-IsCanonical p)
        (S.as_str-IsCanonical q) h k)

  by_builds-swapped :
      (p q : S.Prerelease) (x y : Option ℕ) → by_builds S q p y x ≡ reversed (by_builds S p q x y)
  by_builds-swapped p q none none = S.pre_lawful.swapped p q
  by_builds-swapped p q none (some y) = refl
  by_builds-swapped p q (some x) none = refl
  by_builds-swapped p q (some x) (some y) = ground arith

  by_builds-same :
      (p q : S.Prerelease) (x y : Option ℕ)
      → pre_build S p ≡ x
      → pre_build S q ≡ y
      → by_builds S p q x y ≡ eq
      → p ≡ q
  by_builds-same p q none none h k e = S.pre_lawful.same p q e
  by_builds-same p q none (some y) h k e = absurd (cc)
  by_builds-same p q (some x) none h k e = absurd (cc)
  by_builds-same p q (some x) (some y) h k e =
      same_build p q x h (k ∙ ap some (sym (compare-IsLawful.same x y e)))

  by_builds-chained :
      (p q r : S.Prerelease) (x y z : Option ℕ)
      → by_builds S p q x y ≡ lt
      → by_builds S q r y z ≡ lt
      → by_builds S p r x z ≡ lt
  by_builds-chained p q r none none none h k = S.pre_lawful.chained p q r h k
  by_builds-chained p q r none none (some z) h k = refl
  by_builds-chained p q r none (some y) none h k = absurd (cc)
  by_builds-chained p q r none (some y) (some z) h k = refl
  by_builds-chained p q r (some x) none z h k = absurd (cc)
  by_builds-chained p q r (some x) (some y) none h k = absurd (cc)
  by_builds-chained p q r (some x) (some y) (some z) h k = ground arith

  pre_order-IsLawful : IsLawful pre_order
  pre_order-IsLawful = record {
    swapped = λ p q. by_builds-swapped p q (pre_build S p) (pre_build S q);
    same = λ p q. by_builds-same p q (pre_build S p) (pre_build S q) refl refl;
    chained = λ p q r. by_builds-chained p q r (pre_build S p) (pre_build S q) (pre_build S r);
  }

  -- The parts of a version, in the order in which they count.
  abbrev Key : Type 0
  Key = (ℕ × (ℕ × ℕ)) × (S.Prerelease × S.BuildMetadata)

  abbrev key : Version S → Key
  key v = ((v.major, (v.minor, v.patch)), (v.pre, v.build))

  abbrev pub core_keys : ℕ × (ℕ × ℕ) → ℕ × (ℕ × ℕ) → Ordering
  core_keys = pairwise compare (pairwise compare compare)

  abbrev tail_keys : S.Prerelease × S.BuildMetadata → S.Prerelease × S.BuildMetadata → Ordering
  tail_keys = pairwise pre_order S.build_cmp

  keys-IsLawful : IsLawful {K = Key} (pairwise core_keys tail_keys)
  keys-IsLawful =
      pairwise-IsLawful core_keys tail_keys
        (pairwise-IsLawful compare (pairwise compare compare) compare-IsLawful
          (pairwise-IsLawful compare compare compare-IsLawful compare-IsLawful))
        (pairwise-IsLawful pre_order S.build_cmp pre_order-IsLawful S.build_lawful)

  compare-by-key :
      (a b : Version S) → compare_versions S a b ≡ pairwise core_keys tail_keys (key a) (key b)
  unfolding compare_versions
  compare-by-key a b = ground arith

  key-injective : (a b : Version S) → key a ≡ key b → a ≡ b
  key-injective a b e = λ i. record {
    major = (e i).0.0;
    minor = (e i).0.1.0;
    patch = (e i).0.1.1;
    pre = (e i).1.0;
    build = (e i).1.1;
  }

  -- The order of versions is total and agrees with equality: swapped versions compare the other way
  -- round, versions that compare equal are equal, and smaller is transitive.
  pub compare_versions-IsLawful : IsLawful (compare_versions S)
  compare_versions-IsLawful = record {
    swapped =
        λ a b. rw (compare-by-key a b, compare-by-key b a) (keys-IsLawful.swapped (key a) (key b));
    same = λ a b h.
        key-injective a b (keys-IsLawful.same (key a) (key b) (sym (compare-by-key a b) ∙ h));
    chained = λ a b c h k.
        compare-by-key a c
        ∙ keys-IsLawful.chained (key a) (key b) (key c) (sym (compare-by-key a b) ∙ h)
            (sym (compare-by-key b c) ∙ k);
  }

  -- The order without build metadata, as the order of a pair.
  abbrev pub release_key : Version S → (ℕ × (ℕ × ℕ)) × S.Prerelease
  release_key v = ((v.major, (v.minor, v.patch)), v.pre)

  abbrev pub release_keys : (ℕ × (ℕ × ℕ)) × S.Prerelease → (ℕ × (ℕ × ℕ)) × S.Prerelease → Ordering
  release_keys = pairwise core_keys pre_order

  pub release_keys-IsLawful : IsLawful {K = (ℕ × (ℕ × ℕ)) × S.Prerelease} release_keys
  release_keys-IsLawful =
      pairwise-IsLawful core_keys pre_order
        (pairwise-IsLawful compare (pairwise compare compare) compare-IsLawful
          (pairwise-IsLawful compare compare compare-IsLawful compare-IsLawful))
        pre_order-IsLawful

  pub release-by-key :
      (a b : Version S) → release_order S a b ≡ release_keys (release_key a) (release_key b)
  unfolding release_order
  release-by-key a b = ground arith

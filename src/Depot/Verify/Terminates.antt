-- ===== src/Depot/Verify/Terminates.antt =====
-- The walk over a distribution's includes comes to an end (services/depot/verify.rs).
use native.Mathlib.Nat.{suc-mul, mul-le-mul_right}
use fenrir.Prelude.{
  ℕ, zero, suc, ◌+◌, ◌*◌, ◌≤◌, ◌<◌, ◌≡◌, ◌≢◌, refl, sym, ap, subst, String, Bool, true, false, ◌||◌,
  Option, none, some, List, [], ◌∷◌, length, All, if◌then◌else◌, arith, inl, inr, Bool-cases,
}
use fenrir.Prelude.Exec.{Exec, Result, ok, err, continue_post, continue, pure}
use fenrir.Depot.Verify.{
  Releases, VerifyError, VerifiedDistribution, Queue, seen_has, extend, included, fetch_one,
  fetch_queue, finished, fetch_verified,
}

mul_step : (a b m : ℕ) → suc a ≤ b → a * m + m ≤ b * m
mul_step a b m h = omega (arith, mul-le-mul_right m h, suc-mul a m)

one_more :
    (here old : Bool) (x y : ℕ)
    → x ≤ y
    → (if here || old then x else suc x) ≤ (if old then y else suc y)
one_more true true x y h = h
one_more true false x y h = omega arith
one_more false true x y h = h
one_more false false x y h = omega arith

one_hit :
    (here old : Bool) (x y : ℕ)
    → here ≡ true
    → old ≡ false
    → x ≤ y
    → (if here || old then x else suc x) < (if old then y else suc y)
one_hit true false x y h k le = omega arith
one_hit true true x y h k le = absurd (ground arith)
one_hit false old x y h k le = absurd (ground arith)

one_less :
    (here old : Bool) (x y : ℕ)
    → x < y
    → (if here || old then x else suc x) < (if old then y else suc y)
one_less true true x y h = h
one_less true false x y h = omega arith
one_less false true x y h = h
one_less false false x y h = omega arith

module _ (R : Releases) where
  -- How many of the identities are not seen yet.
  abbrev pub unseen : List R.DistributionId → List R.DistributionId → ℕ
  unseen [] seen = 0
  unseen (u ∷ us) seen = if seen_has R u seen then unseen us seen else suc (unseen us seen)

  unseen_mono :
      (id : R.DistributionId) (us seen : List R.DistributionId)
      → unseen us (id ∷ seen) ≤ unseen us seen
  unseen_mono id [] seen = omega arith
  unseen_mono id (u ∷ us) seen =
      one_more (R.id_eq id u) (seen_has R u seen) _ _ (unseen_mono id us seen)

  unseen_all : (us : List R.DistributionId) → unseen us [] ≡ length us
  unseen_all [] = refl
  unseen_all (u ∷ us) = ap suc (unseen_all us)

  -- An identity that is seen now, and was not, is one less.
  unseen_drops :
      (id : R.DistributionId) (us seen : List R.DistributionId)
      → seen_has R id us ≡ true
      → seen_has R id seen ≡ false
      → unseen us (id ∷ seen) < unseen us seen
  unseen_drops id [] seen known fresh = absurd (ground arith)
  unseen_drops id (u ∷ us) seen known fresh = elim (Bool-cases (R.id_eq u id)) [
    | inl h ↦
        let same : u ≡ id = (R.id_eq_iff u id).0 h in
        one_hit (R.id_eq id u) (seen_has R u seen) _ _ ((R.id_eq_iff id u).1 (sym same))
          (subst (λ v. seen_has R v seen ≡ false) (sym same) fresh) (unseen_mono id us seen)
    | inr h ↦
        one_less (R.id_eq id u) (seen_has R u seen) _ _
          (unseen_drops id us seen (ground arith) fresh)
  ]

  -- Every identity that the queue leads to is known.
  abbrev pub IsKnown : List R.DistributionId → Queue R → Type 0
  IsKnown us queue = All (λ entry. seen_has R (R.include_id entry.1) us ≡ true) queue

  abbrev pub AreKnown : List R.DistributionId → List R.ManifestInclude → Type 0
  AreKnown us includes = All (λ include. seen_has R (R.include_id include) us ≡ true) includes

  extend-IsKnown :
      (us : List R.DistributionId) (parent : R.DistributionId) (includes : List R.ManifestInclude)
      (queue : Queue R)
      → AreKnown us includes
      → IsKnown us queue
      → IsKnown us (extend R parent includes queue)
  unfolding extend
  extend-IsKnown us parent [] queue known rest = rest
  extend-IsKnown us parent (include ∷ includes) queue known rest =
      extend-IsKnown us parent includes ((parent, include) ∷ queue) known.1 (known.0, rest)

  length-extend :
      (parent : R.DistributionId) (includes : List R.ManifestInclude) (queue : Queue R)
      → length (extend R parent includes queue) ≡ length includes + length queue
  unfolding extend
  length-extend parent [] queue = omega arith
  length-extend parent (include ∷ includes) queue =
      omega (arith, length-extend parent includes ((parent, include) ∷ queue))

  module _ (World : Type 0)
      (distribution : R.DistributionId → Exec World VerifyError (Option R.Detail))
      (us : List R.DistributionId) (m : ℕ)
      (closed : (id : R.DistributionId) (w : World) (c : R.CheckedDistribution)
        → (fetch_one R World distribution id w).0 ≡ ok c
        → (length (R.includes_of c) ≤ m) × AreKnown us (R.includes_of c)) where
    Ends : {A : Type 0} → Result VerifyError (Option A) × World → Type 0
    Ends (r, w) = r ≢ ok none

    fetch_queue-Ends :
        (fuel : ℕ) (queue : Queue R) (seen : List R.DistributionId)
        (includes : List R.CheckedDistribution) (w : World)
        → length queue + unseen us seen * m < fuel
        → IsKnown us queue
        → Ends (fetch_queue R World distribution fuel queue seen includes w)
    unfolding fetch_queue Ends
    fetch_queue-Ends zero queue seen includes w enough known = absurd (omega arith)
    fetch_queue-Ends (suc fuel) [] seen includes w enough known = λ e. ground arith
    fetch_queue-Ends (suc fuel) ((parent, include) ∷ queue) seen includes w enough known =
        let id = R.include_id include in
        elim (Bool-cases (seen_has R id seen)) [
          | inl h ↦ rw h (fetch_queue-Ends fuel queue seen includes w (omega arith) known.1)
          | inr h ↦ rw h (
              continue_post Ends _ (fetch_one R World distribution id w).1
                (fetch_one R World distribution id w).0
                (λ checked made.
                  continue_post Ends _ (fetch_one R World distribution id w).1
                    (included R (R.check_include parent include checked))
                    (λ u fits.
                      let (few, all_known) = closed id w checked made in
                      fetch_queue-Ends fuel (extend R id (R.includes_of checked) queue) (id ∷ seen)
                        _ _
                        (omega (
                          arith,
                          length-extend id (R.includes_of checked) queue,
                          mul_step _ _ m (unseen_drops id us seen known.0 h),
                          few,
                        ))
                        (extend-IsKnown us id (R.includes_of checked) queue all_known known.1))
                    (λ e failed e'. ground arith))
                (λ e failed e'. ground arith))
        ]

    finished-Ends :
        (root : R.CheckedDistribution) (w : World)
        (p : Result VerifyError (Option (List R.CheckedDistribution)) × World)
        → Ends p
        → Ends {A = VerifiedDistribution R}
            (continue p.0 (λ found. pure (finished R World distribution root found)) p.1)
    unfolding Ends
    finished-Ends root w (ok none, v) ends e = ends refl
    finished-Ends root w (ok (some found), v) ends e = ground arith
    finished-Ends root w (err x, v) ends e = ground arith

    -- With enough fuel the walk does not run out of it.
    pub fetch_verified-Ends :
        (fuel : ℕ)
        → m + length us * m < fuel
        → (keys : List String) (id : R.DistributionId) (w : World)
        → (fetch_verified R World distribution fuel keys id w).0 ≢ ok none
    unfolding fetch_verified Ends
    fetch_verified-Ends fuel enough [] id w = λ e. ground arith
    fetch_verified-Ends fuel enough (key ∷ keys) id w =
        continue_post Ends _ (fetch_one R World distribution id w).1
          (fetch_one R World distribution id w).0
          (λ root made.
            let (few, all_known) = closed id w root made in
            finished-Ends root w _ (
              fetch_queue-Ends fuel (extend R id (R.includes_of root) []) (id ∷ []) []
                (fetch_one R World distribution id w).1
                (omega (
                  arith,
                  length-extend id (R.includes_of root) [],
                  few,
                  ap (λ n. n * m) (unseen_all us),
                  mul-le-mul_right m (unseen_mono id us []),
                ))
                (extend-IsKnown us id (R.includes_of root) [] all_known tt)))
          (λ e failed e'. ground arith)

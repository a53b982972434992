-- ===== src/Depot/Verify/Steps.antt =====
-- The steps of the walk of `fetch_verified`, each of which keeps what `Walks` says
-- (services/depot/verify.rs).
use mathlib.Core.List.{append-nil, append_assoc}
use fenrir.Prelude.{
  ◌≡◌, refl, sym, subst, String, Option, none, some, List, [], ◌∷◌, ◌++◌, All, All-append, All-imp,
  Any, arith, inl, inr, Bool-cases, true,
}
use fenrir.Prelude.Exec.{ok}
use fenrir.Prelude.Exec.Rules.{wrap-ok}
use fenrir.Depot.Verify.{Releases, Queue, seen_has, extend, included, answered}
use fenrir.Depot.Verify.Vouched.{
  IsFetched, IsPending, IsVouched, AreVouched, IsCovered, IsVerified, IsDone, Walks,
}

module _ {A : Type 0} (P : A → Type 0) where
  Any-append_left : (xs ys : List A) → Any P xs → Any P (xs ++ ys)
  Any-append_left [] ys h = absurd h
  Any-append_left (x ∷ xs) ys (inl here) = inl here
  Any-append_left (x ∷ xs) ys (inr there) = inr (Any-append_left xs ys there)

  Any-append_last : (xs : List A) (x : A) → P x → Any P (xs ++ (x ∷ []))
  Any-append_last [] x h = inl h
  Any-append_last (y ∷ xs) x h = inr (Any-append_last xs x h)

-- Each element is a member.
pub All-members : {A : Type 0} (xs : List A) → All (λ x. Any (λ y. y ≡ x) xs) xs
All-members [] = tt
All-members (x ∷ xs) =
    (inl refl, All-imp (λ y. Any (λ z. z ≡ y) xs) _ xs (λ y h. inr h) (All-members xs))

module _ (R : Releases) where
  pub included-ok :
      (problem : Option String) {u : Unit {0}} → included R problem ≡ ok u → problem ≡ none
  included-ok none e = refl
  included-ok (some text) e = absurd (ground arith)

  pub answered-ok :
      (id : R.DistributionId) (found : Option R.Detail) (c : R.CheckedDistribution)
      → answered R id found ≡ ok c
      → IsFetched R id c
  answered-ok id none c e = absurd (ground arith)
  answered-ok id (some detail) c e = (detail, wrap-ok _ (R.check_distribution detail id) c e)

  pub All-extend :
      (P : R.DistributionId × R.ManifestInclude → Type 0) (parent : R.DistributionId)
      (is : List R.ManifestInclude) (queue : Queue R)
      → All (λ i. P (parent, i)) is
      → All P queue
      → All P (extend R parent is queue)
  unfolding extend
  All-extend P parent [] queue h k = k
  All-extend P parent (i ∷ is) queue h k = All-extend P parent is ((parent, i) ∷ queue) h.1 (h.0, k)

  Any-extend :
      (P : R.DistributionId × R.ManifestInclude → Type 0) (parent : R.DistributionId)
      (is : List R.ManifestInclude) (queue : Queue R)
      → Any P queue
      → Any P (extend R parent is queue)
  unfolding extend
  Any-extend P parent [] queue h = h
  Any-extend P parent (i ∷ is) queue h = Any-extend P parent is ((parent, i) ∷ queue) (inr h)

  pub extended :
      (parent : R.DistributionId) (is : List R.ManifestInclude) (queue : Queue R)
      → All
          (λ i.
            Any
              (λ (entry : R.DistributionId × R.ManifestInclude). entry.1 ≡ i)
              (extend R parent is queue))
          is
  unfolding extend
  extended parent [] queue = tt
  extended parent (i ∷ is) queue =
      (Any-extend _ parent is ((parent, i) ∷ queue) (inl refl), extended parent is _)

  IsPending-append :
      (cs : List R.CheckedDistribution) (c : R.CheckedDistribution) (parent : R.DistributionId)
      (include : R.ManifestInclude)
      → IsPending R cs parent include
      → IsPending R (cs ++ (c ∷ [])) parent include
  IsPending-append cs c parent include h = record {
    source = h.source;
    known = Any-append_left _ cs (c ∷ []) h.known;
    fetched = h.fetched;
    has_include = h.has_include;
  }

  AreVouched-append :
      (before xs : List R.CheckedDistribution) (c : R.CheckedDistribution)
      → AreVouched R before xs
      → IsVouched R (before ++ xs) c
      → AreVouched R before (xs ++ (c ∷ []))
  AreVouched-append before [] c h k = (subst (λ cs. IsVouched R cs c) (append-nil before) k, tt)
  AreVouched-append before (x ∷ xs) c h k = (
    h.0,
    AreVouched-append (before ++ (x ∷ [])) xs c h.1
        (subst (λ cs. IsVouched R cs c) (sym (append_assoc before (x ∷ []) xs)) k),
  )

  IsDone-skip :
      (parent : R.DistributionId) (include i : R.ManifestInclude) (seen : List R.DistributionId)
      (queue : Queue R)
      → seen_has R (R.include_id include) seen ≡ true
      → IsDone R seen ((parent, include) ∷ queue) i
      → IsDone R seen queue i
  IsDone-skip parent include i seen queue h (inl known) = inl known
  IsDone-skip parent include i seen queue h (inr (inl same)) =
      inl (subst (λ x. seen_has R (R.include_id x) seen ≡ true) same h)
  IsDone-skip parent include i seen queue h (inr (inr later)) = inr later

  IsDone-fetch :
      (parent : R.DistributionId) (include i : R.ManifestInclude) (seen : List R.DistributionId)
      (queue : Queue R) (is : List R.ManifestInclude)
      → let id = R.include_id include in
        IsDone R seen ((parent, include) ∷ queue) i → IsDone R (id ∷ seen) (extend R id is queue) i
  IsDone-fetch parent include i seen queue is (inl known) = inl (ground arith)
  IsDone-fetch parent include i seen queue is (inr (inl same)) =
      let id = R.include_id include in
      inl (
        subst (λ x. seen_has R (R.include_id x) (id ∷ seen) ≡ true) same
          (ground (arith, R.id_eq_iff id id)))
  IsDone-fetch parent include i seen queue is (inr (inr later)) =
      inr (Any-extend _ (R.include_id include) is queue later)

  module _ (root : R.CheckedDistribution) (includes : List R.CheckedDistribution)
      (seen : List R.DistributionId) (parent : R.DistributionId) (include : R.ManifestInclude)
      (queue : Queue R) (h : Walks R root includes seen ((parent, include) ∷ queue)) where
    pub skipped : seen_has R (R.include_id include) seen ≡ true → Walks R root includes seen queue
    skipped known = record {
      vouched = h.vouched;
      pending = h.pending.1;
      fetched = h.fetched;
      done =
          All-imp _ _ (root ∷ includes)
            (λ c.
              All-imp _ _ (R.includes_of c) (λ i. IsDone-skip parent include i seen queue known))
            h.done;
    }

    pub fetched_one :
        (c : R.CheckedDistribution)
        → IsFetched R (R.include_id include) c
        → R.check_include parent include c ≡ none
        → let id = R.include_id include in
          Walks R root (includes ++ (c ∷ [])) (id ∷ seen) (extend R id (R.includes_of c) queue)
    fetched_one c made fits =
        let id = R.include_id include in
        let is = R.includes_of c in
        let cs = root ∷ includes in
        let more = cs ++ (c ∷ []) in
        record {
          vouched = AreVouched-append (root ∷ []) includes c h.vouched (record {
            parent = parent;
            include = include;
            pending = h.pending.0;
            fetched = made;
            fits = fits;
          });
          pending =
              All-extend _ id is queue
                (All-imp (λ i. Any (λ j. j ≡ i) is) (IsPending R more id) is
                  (λ i member. record {
                    source = c;
                    known = Any-append_last _ cs c refl;
                    fetched = made;
                    has_include = member;
                  })
                  (All-members is))
                (All-imp _ _ queue (λ entry. IsPending-append cs c entry.0 entry.1) h.pending.1);
          fetched = (
            Any-append_last (IsFetched R id) cs c made,
            All-imp _ _ seen (λ x. Any-append_left (IsFetched R x) cs (c ∷ [])) h.fetched,
          );
          done =
              All-append (λ d. All (IsDone R (id ∷ seen) (extend R id is queue)) (R.includes_of d))
                cs (c ∷ [])
                (All-imp _ _ cs
                  (λ d.
                    All-imp _ _ (R.includes_of d)
                      (λ i. IsDone-fetch parent include i seen queue is))
                  h.done)
                (All-imp _ _ is (λ i queued. inr queued) (extended id is queue), tt);
        }

  seen-IsFetched :
      (cs : List R.CheckedDistribution) (id : R.DistributionId) (seen : List R.DistributionId)
      → seen_has R id seen ≡ true
      → All (λ x. Any (IsFetched R x) cs) seen
      → Any (IsFetched R id) cs
  seen-IsFetched cs id [] e h = absurd (ground arith)
  seen-IsFetched cs id (other ∷ seen) e h = elim (Bool-cases (R.id_eq other id)) [
    | inl k ↦ subst (λ x. Any (IsFetched R x) cs) ((R.id_eq_iff other id).0 k) h.0
    | inr k ↦ seen-IsFetched cs id seen (ground arith) h.1
  ]

  done-IsCovered :
      (cs : List R.CheckedDistribution) (seen : List R.DistributionId) (include : R.ManifestInclude)
      → All (λ x. Any (IsFetched R x) cs) seen
      → IsDone R seen [] include
      → IsCovered R cs include
  done-IsCovered cs seen include h (inl known) =
      seen-IsFetched cs (R.include_id include) seen known h
  done-IsCovered cs seen include h (inr queued) = absurd queued

  -- Where the queue is empty, the walk has verified the distribution.
  pub Walks-IsVerified :
      (id : R.DistributionId) (root : R.CheckedDistribution) (includes : List R.CheckedDistribution)
      (seen : List R.DistributionId)
      → IsFetched R id root
      → Walks R root includes seen []
      → IsVerified R id (record { root = root; includes = includes })
  Walks-IsVerified id root includes seen made h = record {
    asked = made;
    vouched = h.vouched;
    covered =
        All-imp _ _ (root ∷ includes)
          (λ c.
            All-imp _ _ (R.includes_of c) (λ i. done-IsCovered (root ∷ includes) seen i h.fetched))
          h.done;
  }

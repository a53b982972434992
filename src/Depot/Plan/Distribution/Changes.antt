-- ===== src/Depot/Plan/Distribution/Changes.antt =====
-- When an install changes nothing, and how much it downloads (services/depot/plan.rs).
use Prim.Native.Nat.{Ordering}
use fenrir.Prelude.{
  ℕ, ◌+◌, min, ◌≤◌, String, ◌≡◌, ◌↔◌, ◌⊎◌, inl, inr, true, false, not, Option, none, some, List, [],
  ◌∷◌, ◌++◌, map, keep, arith, is_some, All, All-append, All-append_left, All-map, All-map_back,
  All-intro, All-imp, any-eq-false_iff, Option-cases, u64_max,
}
use fenrir.Prelude.Dict.{Dict, lookup}
use fenrir.Prelude.Sort.{sort_by, sort_by-All, sort_by-All_back}
use fenrir.Prelude.Text.{eq_ignore_ascii_case}
use fenrir.Depot.Protocol.{DepotProtocol}
use fenrir.Depot.State.{HostState, TargetModule, HostModule}
use fenrir.Depot.Plan.{
  PlanEntry, Plan, changes, is_local_sync, compare_entries, change_action, has_changes,
  download_size, fold_sizes, changed,
}
use fenrir.Depot.Plan.Distribution.{
  by_name, target_action, target_entry, kept_entry, planned_entries, plan_distribution, is_target,
}

module _ (D : DepotProtocol) where
  -- The module is installed at the target's version, with the bundle's digest.
  abbrev pub IsInstalled : Option (HostModule D) → TargetModule D → Type 0
  IsInstalled none t = ⊥
  IsInstalled (some m) t =
      (D.cmp m.version t.version ≡ Ordering.eq)
      × (eq_ignore_ascii_case m.sha256 (D.to_hex t.sha256) ≡ true)

  -- The host leaves the target as it is, or has it already.
  abbrev pub IsSettled : HostState D → Dict (HostModule D) → TargetModule D → Type 0
  IsSettled state installed t =
      (is_local_sync D (lookup t.name installed) ≡ true)
      ⊎ (is_some (lookup t.name state.pins) ≡ true)
      ⊎ ((t.optional ≡ true) × (lookup t.name installed ≡ none))
      ⊎ IsInstalled (lookup t.name installed) t

  change_action_iff :
      (current : Option (HostModule D)) (t : TargetModule D)
      → (changes (change_action D current t) ≡ false) ↔ IsInstalled current t
  unfolding change_action
  change_action_iff none t = (λ e. cc, λ h. absurd h)
  change_action_iff (some m) t = (λ e. ground arith, λ h. ground arith)

  target_action_iff :
      (current : Option (HostModule D)) (pin : Option D.Version) (t : TargetModule D)
      → (changes (target_action D current pin t) ≡ false) ↔ (
          (is_local_sync D current ≡ true)
          ⊎ (is_some pin ≡ true)
          ⊎ ((t.optional ≡ true) × (current ≡ none))
          ⊎ IsInstalled current t)
  unfolding target_action
  target_action_iff none none t = (
    λ e. ground (arith, (change_action_iff none t).0),
    λ h. ground (arith, (change_action_iff none t).1),
  )
  target_action_iff none (some pin) t = (λ e. ground arith, λ h. ground arith)
  target_action_iff (some m) none t = (
    λ e. ground (arith, (change_action_iff (some m) t).0),
    λ h. ground (arith, (change_action_iff (some m) t).1),
  )
  target_action_iff (some m) (some pin) t = (λ e. ground arith, λ h. ground arith)

  target_entry_iff :
      (state : HostState D) (installed : Dict (HostModule D)) (t : TargetModule D)
      → (changes (target_entry D state installed t).action ≡ false) ↔ IsSettled state installed t
  unfolding target_entry
  target_entry_iff state installed t =
      target_action_iff (lookup t.name installed) (lookup t.name state.pins) t

  kept_entry_still : (m : HostModule D) → changes (kept_entry D m).action ≡ false
  unfolding kept_entry
  kept_entry_still m = ground arith

  -- A plan for a distribution changes nothing exactly when each of its targets is locally
  -- synchronized, pinned, optional and not installed, or installed at its version with the digest of
  -- the signed bundle.
  pub has_changes_iff :
      (title : String) (targets : List (TargetModule D)) (installed : List (HostModule D))
      (state : HostState D)
      → (has_changes D (plan_distribution D title targets installed state) ≡ false)
        ↔ All (IsSettled state (by_name D [] installed)) targets
  unfolding has_changes plan_distribution planned_entries
  has_changes_iff title targets installed state =
      let here = by_name D [] installed in
      let Still = λ (e : PlanEntry D). changes e.action ≡ false in
      let entry = target_entry D state here in
      let kept_modules = keep (λ m. not (is_target D targets m)) installed in
      let entries = map entry targets ++ map (kept_entry D) kept_modules in
      let any_iff =
        any-eq-false_iff (λ (e : PlanEntry D). changes e.action)
          (sort_by (compare_entries D) entries) in
      (
        λ none_changes.
            All-imp _ _ targets (λ t. (target_entry_iff state here t).0)
              (All-map_back Still entry targets (
                All-append_left Still (map entry targets) (map (kept_entry D) kept_modules)
                  (sort_by-All_back (compare_entries D) Still entries (any_iff.0 none_changes)))),
        λ settled. any_iff.1 (
            sort_by-All (compare_entries D) Still entries (
              All-append Still (map entry targets) (map (kept_entry D) kept_modules)
                (All-map Still entry targets
                  (All-imp _ _ targets (λ t. (target_entry_iff state here t).1) settled))
                (All-map Still (kept_entry D) kept_modules
                  (All-intro _ kept_modules kept_entry_still)))),
      )

  -- The sum of the bundles' sizes.
  abbrev pub total : List (PlanEntry D) → ℕ
  total [] = 0
  total (e ∷ es) = elim e.size [ none ↦ total es | some size ↦ size + total es ]

  fold_sizes-eq :
      (acc : ℕ) (es : List (PlanEntry D))
      → acc ≤ u64_max
      → fold_sizes D acc es ≡ min (acc + total es) u64_max
  unfolding fold_sizes
  fold_sizes-eq acc [] h = omega arith
  fold_sizes-eq acc (e ∷ es) h = elim (Option-cases e.size) [
    | inl q ↦ simp q (fold_sizes-eq acc es h)
    | inr (size, q) ↦ simp q (omega (arith, fold_sizes-eq (min (acc + size) u64_max) es))
  ]

  -- The download size of a plan is the sum of the sizes of the entries that change files, or the
  -- largest `u64` where that is smaller: it does not wrap around.
  pub download_size-eq :
      (plan : Plan D) → download_size D plan ≡ min (total (changed D plan)) u64_max
  unfolding download_size
  download_size-eq plan = omega (arith, fold_sizes-eq 0 (changed D plan))

-- ===== src/Depot/Plan/Distribution/Requirements.antt =====
-- The requirements of the signed modules against what runs afterwards (services/depot/plan.rs).
use mathlib.Core.List.{append-eq-nil_iff}
use fenrir.Prelude.{
  String, ◌≡◌, ◌⊎◌, inl, inr, refl, true, Option, none, some, List, [], ◌∷◌, arith, All, Any,
  Option-cases, eq_iff,
}
use fenrir.Prelude.Dict.{Dict, lookup, insert, lookup-insert, lookup-empty}
use fenrir.Depot.Protocol.{DepotProtocol}
use fenrir.Depot.State.{HostState, TargetModule, HostModule, Requirement}
use fenrir.Depot.Plan.{Action, PlanEntry, settles}
use fenrir.Depot.Plan.Distribution.{
  runs_of, requirement_problem, requirement_problems, entry_problems, collect_problems,
  effective_requirements, plan_distribution,
}

module _ (D : DepotProtocol) where
  abbrev pub Runs : Type 0
  Runs = Dict (D.Version × Action)

  -- The entry runs the module of the requirement at a version that the rule matches.
  abbrev pub Meets : Requirement D → PlanEntry D → Type 0
  Meets r e =
      (version : D.Version) × (e.module_name ≡ r.module_name)
      × (e.target ≡ some version)
      × (D.matches r.rule version ≡ true)

  -- What the map says of a name comes from an entry, or from the map that it started from.
  runs_of-lookup :
      (name : String) (version : D.Version) (action : Action) (acc : Runs) (es : List (PlanEntry D))
      → lookup name (runs_of D acc es) ≡ some (version, action)
      → (lookup name acc ≡ some (version, action))
        ⊎ Any (λ (e : PlanEntry D). (e.module_name ≡ name) × (e.target ≡ some version)) es
  unfolding runs_of
  runs_of-lookup name version action acc [] h = inl h
  runs_of-lookup name version action acc (e ∷ es) h = elim (Option-cases e.target) [
    | inl q ↦ elim (runs_of-lookup name version action acc es (simp q at h)) [
      | inl old ↦ inl old
      | inr later ↦ inr (inr later)
    ]
    | inr (v, q) ↦
        elim (runs_of-lookup name version action (insert e.module_name (v, e.action) acc) es
          (simp q at h)) [
            | inl new ↦ ground (
              arith,
              lookup-insert e.module_name name (v, e.action) acc,
              eq_iff e.module_name name,
            )
            | inr later ↦ inr (inr later)
          ]
  ]

  Any-imp :
      (P Q : PlanEntry D → Type 0) (es : List (PlanEntry D))
      → ((e : PlanEntry D) → P e → Q e)
      → Any P es
      → Any Q es
  Any-imp P Q [] f h = absurd h
  Any-imp P Q (e ∷ es) f (inl h) = inl (f e h)
  Any-imp P Q (e ∷ es) f (inr h) = inr (Any-imp P Q es f h)

  requirement_problem-nil :
      (source : TargetModule D) (r : Requirement D) (o : Option (D.Version × Action))
      → requirement_problem D source r o ≡ []
      → (version : D.Version) × (action : Action) × (o ≡ some (version, action))
        × (D.matches r.rule version ≡ true)
  requirement_problem-nil source r none h = absurd (cc)
  requirement_problem-nil source r (some (version, action)) h =
      (version, action, refl, ground arith)

  requirement_problems-nil :
      (source : TargetModule D) (es : List (PlanEntry D)) (rs : List (Requirement D))
      → requirement_problems D (runs_of D [] es) source rs ≡ []
      → All (λ r. Any (Meets r) es) rs
  unfolding requirement_problems
  requirement_problems-nil source es [] h = tt
  requirement_problems-nil source es (r ∷ rs) h =
      let parts = append-eq-nil_iff.0 h in
      let (version, action, found, fits) =
        requirement_problem-nil source r (lookup r.module_name (runs_of D [] es)) parts.0 in
      (
        elim (runs_of-lookup r.module_name version action [] es found) [
          | inl q ↦ absurd (cc (lookup-empty {V = D.Version × Action} r.module_name))
          | inr some_entry ↦ Any-imp _ _ es (λ e h. (version, h.0, h.1, fits)) some_entry
        ],
        requirement_problems-nil source es rs parts.1,
      )

  -- The requirements of the signed module, if the entry settles on it, are met by the entries.
  abbrev pub RequirementsMet : List (PlanEntry D) → PlanEntry D → Type 0
  RequirementsMet es e =
      (source : TargetModule D)
      → e.source ≡ some source
      → settles e.action ≡ true
      → All (λ r. Any (Meets r) es) source.requires.modules

  collect_problems-nil :
      (all_entries es : List (PlanEntry D))
      → collect_problems D (runs_of D [] all_entries) es ≡ []
      → All (RequirementsMet all_entries) es
  unfolding collect_problems
  collect_problems-nil all_entries [] h = tt
  collect_problems-nil all_entries (e ∷ es) h =
      let parts =
        (append-eq-nil_iff {p = entry_problems D (runs_of D [] all_entries) e.action e.source}).0
          h in
      (
        λ source q settled.
            requirement_problems-nil source all_entries source.requires.modules
              (simp (q, settled) at parts.0),
        collect_problems-nil all_entries es parts.1,
      )

  -- If a plan for a distribution shows no problem, every requirement of every signed module that it
  -- installs, or finds installed, is met: some entry runs the required module afterwards at a version
  -- that the rule matches.
  pub plan_distribution-RequirementsMet :
      (title : String) (targets : List (TargetModule D)) (installed : List (HostModule D))
      (state : HostState D)
      → (plan_distribution D title targets installed state).problems ≡ []
      → All
          (RequirementsMet (plan_distribution D title targets installed state).entries)
          (plan_distribution D title targets installed state).entries
  unfolding plan_distribution effective_requirements
  plan_distribution-RequirementsMet title targets installed state h = collect_problems-nil _ _ h

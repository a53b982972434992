-- ===== src/Depot/Install/Apply.antt =====
-- The changes of a plan, made on the host (`apply` of services/depot/installer.rs).
use fenrir.Prelude.{String, Bool, true, false, Option, none, some, List, [], ◌∷◌, if◌then◌else◌}
use fenrir.Prelude.Exec.{Exec, pure, raise, ◌>>=◌, ◌>>◌, map_err}
use fenrir.Prelude.Dict.{Dict, lookup}
use fenrir.Depot.Protocol.{DepotProtocol}
use fenrir.Depot.Plan.{Action, remove, Restart, restart, stop, rolling, PlanEntry}
use fenrir.Depot.Machine.{Machine, Message, plain, shown, no_bundle}
use fenrir.Depot.Install.Bundles.{StagedBundle, load_bundle}

abbrev pub is_remove : Action → Bool
is_remove remove = true
is_remove _ = false

-- `matches!(entry.restart, Restart::Restart | Restart::Stop)`.
abbrev pub stops : Restart → Bool
stops restart = true
stops stop = true
stops _ = false

abbrev pub rolls : Restart → Bool
rolls rolling = true
rolls _ = false

abbrev pub and_started : Option String → List String → List String
and_started none started = started
and_started (some name) started = name ∷ started

abbrev pub is_empty {ℓ} : {A : Type ℓ} → List A → Bool
is_empty [] = true
is_empty (x ∷ xs) = false

module _ (D : DepotProtocol) (M : Machine D) where
  -- The steps that answer with a text for the operator.
  abbrev pub Host : Type 0 → Type 0
  Host A = Exec M.World (Message D) A

  abbrev pub host : {A : Type 0} → Exec M.World String A → Host A
  host m = map_err plain m

  abbrev pub when : {E : Type 0} → Bool → Exec M.World E (Unit {0}) → Exec M.World E (Unit {0})
  when test m = if test then m else pure tt

  unfoldable pub stop_changed : List (PlanEntry D) → Host (Unit {0})
  stop_changed [] = pure tt
  stop_changed (e ∷ es) = do when (stops e.restart) (host (M.stop e.module_name)); stop_changed es

  abbrev pub staged_for : String → Option (StagedBundle D) → Host (StagedBundle D)
  staged_for name none = raise (no_bundle name)
  staged_for name (some staged) = pure staged

  -- One entry of the second loop: the module, if it is to be started.
  abbrev pub activate_staged : String → Option (StagedBundle D) → Host (Option String)
  activate_staged name found = do
    staged ← staged_for name found
    bundle ← map_err shown (load_bundle D M staged)
    host (M.activate bundle)
    pure (some name)

  unfoldable pub activate_entry : Dict (StagedBundle D) → PlanEntry D → Host (Option String)
  unfolding load_bundle
  activate_entry staged e =
      if is_remove e.action
      then host (M.remove e.module_name) >> pure none
      else activate_staged e.module_name (lookup e.module_name staged)

  unfoldable pub activate_changed : Dict (StagedBundle D) → List (PlanEntry D) → Host (List String)
  unfolding activate_entry
  activate_changed staged [] = pure []
  activate_changed staged (e ∷ es) = do
    one ← activate_entry staged e
    started ← activate_changed staged es
    pure (and_started one started)

  -- The modules with migrations.
  abbrev pub migrating : List (PlanEntry D) → List String
  migrating [] = []
  migrating (e ∷ es) = if is_empty e.migrations then migrating es else e.module_name ∷ migrating es

  abbrev pub migrate : List String → Host (List String)
  migrate [] = pure []
  migrate (name ∷ names) = host (M.apply_migrations (name ∷ names))

  unfoldable pub roll_changed : List (PlanEntry D) → Host (Unit {0})
  roll_changed [] = pure tt
  roll_changed (e ∷ es) = do
    when (rolls e.restart) (host (M.rolling_restart e.module_name))
    roll_changed es

  unfoldable pub wait_all : List String → Host (Unit {0})
  wait_all [] = pure tt
  wait_all (name ∷ names) = do host (M.wait_healthy name); wait_all names

  unfoldable pub apply : Dict (StagedBundle D) → List (PlanEntry D) → Host (List String)
  unfolding stop_changed activate_changed roll_changed wait_all
  apply staged changes = do
    stop_changed changes
    started ← activate_changed staged changes
    applied ← migrate (migrating changes)
    host (M.start started)
    roll_changed changes
    wait_all started
    pure applied

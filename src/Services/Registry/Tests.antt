-- ===== src/Services/Registry/Tests.antt =====
-- The registry's theorems at concrete turns of its callers.
use fenrir.Prelude.{false, ℕ, String, Option, none, some, List, [], ◌∷◌, ◌≡◌, refl, All}
use fenrir.Services.Registry.{
  ServiceDescriptorOwned, ServiceSnapshot, other, starting, active, new, register, unregister, get,
  snapshot,
}
use fenrir.Services.Registry.Schedule.{
  Action, locks, sends, registers, sets_status, unregisters_prefixed, run, start,
}
use fenrir.Services.Registry.Announced.{IsAnnounced, get-IsAnnounced}
use fenrir.Services.Registry.Listed.{get-snapshot}

abbrev service : String → ServiceDescriptorOwned
service id = record {
  id = id;
  name = id;
  description = "";
  kind = other;
  critical = false;
  tags = [];
  security = none;
  ingress = none;
}

-- The snapshot of the second call is sent before that of the first.
abbrev turns : List Action
turns =
    locks (registers (service "module.b") starting none 1)
    ∷ locks (sets_status "module.b" active (some "ready") 3)
    ∷ sends 0
    ∷ sends 0
    ∷ []

abbrev ready : ServiceSnapshot
ready = record { descriptor = service "module.b"; status = active; since = 3; note = some "ready" }

ready_now : get "module.b" (run turns start).registry ≡ some ready
unfolding run start get fenrir.Prelude.Dict.lookup fenrir.Prelude.Ordered.insert
ready_now = refl

-- The last snapshot that the subscribers got is the older one.
sent_late :
    (run turns start).registry.sent
    ≡ record { descriptor = service "module.b"; status = starting; since = 1; note = none }
      ∷ ready
      ∷ []
unfolding run start fenrir.Prelude.Dict.lookup fenrir.Prelude.Ordered.insert
sent_late = refl

get-IsAnnounced_example : IsAnnounced (run turns start) ready
get-IsAnnounced_example = get-IsAnnounced turns "module.b" ready ready_now

abbrev removing : List Action
removing =
    locks (registers (service "module.b") starting none 1)
    ∷ locks (registers (service "host") active none 2)
    ∷ sends 1
    ∷ locks (unregisters_prefixed "module.")
    ∷ []

only_host : get "module.b" (run removing start).registry ≡ none
unfolding run start get fenrir.Prelude.Dict.lookup fenrir.Prelude.Dict.remove
    fenrir.Prelude.Ordered.insert
only_host = refl

get-snapshot_example :
    let s = (run removing start).registry in
    All (λ (x : ServiceSnapshot). get x.descriptor.id s ≡ some x) (snapshot s)
get-snapshot_example = get-snapshot removing

-- A removal sends nothing: a subscriber goes on with what it has.
still_sent :
    (unregister "host" (register (service "host") active none 2 new)).sent
    ≡ record { descriptor = service "host"; status = active; since = 2; note = none } ∷ []
unfolding unregister register new fenrir.Prelude.Dict.lookup fenrir.Prelude.Ordered.insert
still_sent = refl

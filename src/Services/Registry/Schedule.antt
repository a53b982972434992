-- ===== src/Services/Registry/Schedule.antt =====
-- Callers of the registry that take turns (services/registry.rs): the lock orders what they do under
-- it, and each sends its snapshot at any time after it has released the lock.
use fenrir.Prelude.{ℕ, zero, suc, String, Option, none, some, List, [], ◌∷◌}
use fenrir.Services.Registry.{
  ServiceDescriptorOwned, ServiceSnapshot, ServiceStatus, ServiceRegistry, Write, new, send,
  register_locked, set_status_locked, update_note_locked, unregister, unregister_prefixed,
}

pub data Call : Type 0 where
  registers : ServiceDescriptorOwned → ServiceStatus → Option String → ℕ → Call
  sets_status : String → ServiceStatus → Option String → ℕ → Call
  updates_note : String → Option String → Call
  unregisters unregisters_prefixed : String → Call

-- The part of a call under the lock. A removal sends nothing.
unfoldable pub locked : Call → Write
unfolding register_locked set_status_locked update_note_locked unregister unregister_prefixed
locked (registers descriptor status memo now) s = register_locked descriptor status memo now s
locked (sets_status id status memo now) s = set_status_locked id status memo now s
locked (updates_note id memo) s = update_note_locked id memo s
locked (unregisters id) s = (none, unregister id s)
locked (unregisters_prefixed start) s = (none, unregister_prefixed start s)

-- The registry, and the snapshots that callers hold and have not sent yet.
pub record World : Type 0 where
  pub registry : ServiceRegistry
  pub held : List ServiceSnapshot

-- A caller does its part under the lock, or one of those that hold a snapshot sends it.
pub data Action : Type 0 where
  locks : Call → Action
  sends : ℕ → Action

abbrev pub hold : Option ServiceSnapshot → List ServiceSnapshot → List ServiceSnapshot
hold none held = held
hold (some changed) held = changed ∷ held

unfoldable pub take_out : ℕ → List ServiceSnapshot → Option ServiceSnapshot × List ServiceSnapshot
take_out n [] = (none, [])
take_out zero (x ∷ held) = (some x, held)
take_out (suc n) (x ∷ held) = let (taken, rest) = take_out n held in (taken, x ∷ rest)

unfoldable pub act : Action → World → World
unfolding locked take_out
act (locks call) w =
    let (changed, registry) = locked call w.registry in
    record { registry = registry; held = hold changed w.held }
act (sends n) w =
    let (taken, rest) = take_out n w.held in
    record { registry = send taken w.registry; held = rest }

unfoldable pub run : List Action → World → World
unfolding act
run [] w = w
run (action ∷ rest) w = run rest (act action w)

unfoldable pub start : World
unfolding new
start = record { registry = new; held = [] }

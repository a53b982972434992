-- ===== src/Services/Registry/Listed.antt =====
-- What the registry lists and what it finds (services/registry.rs).
use fenrir.Prelude.{
  String, Bool, true, false, Option, none, some, List, [], ◌∷◌, All, if◌then◌else◌, ◌≡◌, refl, ◌∙◌,
  keep,
}
use text.Mathlib.Text.{starts_with}
use fenrir.Prelude.Dict.{Dict, lookup, remove}
use fenrir.Prelude.Ordered.{
  values, insert, IsAscending, IsNamed, insert-IsAscending, insert-IsNamed, remove-IsAscending,
  remove-IsNamed, lookup-IsNamed, lookup-values,
}
use fenrir.Services.Registry.{
  ServiceSnapshot, ServiceRegistry, new, change, register_locked, set_status_locked,
  update_note_locked, unregister, unregister_prefixed, remove_all, keys, snapshot, get, send,
}
use fenrir.Services.Registry.Schedule.{
  Call, registers, sets_status, updates_note, unregisters, unregisters_prefixed, locked, World,
  Action, locks, sends, take_out, act, run, start,
}

abbrev name_of : ServiceSnapshot → String
name_of s = s.descriptor.id

record IsOrdered (entries : Dict ServiceSnapshot) : Type 0 where
  up : IsAscending entries
  named : IsNamed name_of entries

insert-IsOrdered :
    (id : String) (changed : ServiceSnapshot) (entries : Dict ServiceSnapshot)
    → changed.descriptor.id ≡ id
    → IsOrdered entries
    → IsOrdered (insert id changed entries)
insert-IsOrdered id changed entries e h = record {
  up = insert-IsAscending id changed entries h.up;
  named = insert-IsNamed name_of id changed entries e h.named;
}

change-IsOrdered :
    (id : String) (f : ServiceSnapshot → ServiceSnapshot) (found : Option ServiceSnapshot)
    (s : ServiceRegistry)
    → ((x : ServiceSnapshot) → (f x).descriptor.id ≡ x.descriptor.id)
    → lookup id s.inner ≡ found
    → IsOrdered s.inner
    → IsOrdered (change id f found s).1.inner
change-IsOrdered id f none s keeps e h = h
change-IsOrdered id f (some x) s keeps e h =
    insert-IsOrdered id (f x) s.inner (keeps x ∙ lookup-IsNamed name_of id x s.inner h.named e) h

remove_all-IsOrdered :
    (ids : List String) (entries : Dict ServiceSnapshot)
    → IsOrdered entries
    → IsOrdered (remove_all ids entries)
unfolding remove_all
remove_all-IsOrdered [] entries h = h
remove_all-IsOrdered (id ∷ ids) entries h = remove_all-IsOrdered ids (remove id entries) (record {
  up = remove-IsAscending id entries h.up;
  named = remove-IsNamed name_of id entries h.named;
})

unless :
    (poisoned : Bool) (s : ServiceRegistry) (result : Option ServiceSnapshot × ServiceRegistry)
    → IsOrdered s.inner
    → IsOrdered result.1.inner
    → IsOrdered (if poisoned then (none, s) else result).1.inner
unless true s result h k = h
unless false s result h k = k

removed :
    (poisoned : Bool) (s t : ServiceRegistry)
    → IsOrdered s.inner
    → IsOrdered t.inner
    → IsOrdered (if poisoned then s else t).inner
removed true s t h k = h
removed false s t h k = k

locked-IsOrdered :
    (call : Call) (s : ServiceRegistry) → IsOrdered s.inner → IsOrdered (locked call s).1.inner
unfolding locked register_locked set_status_locked update_note_locked unregister unregister_prefixed
locked-IsOrdered (registers descriptor status memo now) s h =
    unless s.poisoned s _ h (insert-IsOrdered descriptor.id _ s.inner refl h)
locked-IsOrdered (sets_status id status memo now) s h =
    unless s.poisoned s _ h (change-IsOrdered id _ (lookup id s.inner) s (λ x. refl) refl h)
locked-IsOrdered (updates_note id memo) s h =
    unless s.poisoned s _ h (change-IsOrdered id _ (lookup id s.inner) s (λ x. refl) refl h)
locked-IsOrdered (unregisters id) s h =
    removed s.poisoned s (record s { inner = remove id s.inner }) h
      (record {
        up = remove-IsAscending id s.inner h.up;
        named = remove-IsNamed name_of id s.inner h.named;
      })
locked-IsOrdered (unregisters_prefixed first) s h =
    let ids = keep (λ key. starts_with key first) (keys s.inner) in
    removed s.poisoned s (record s { inner = remove_all ids s.inner }) h
      (remove_all-IsOrdered ids s.inner h)

listed :
    (poisoned : Bool) (s : ServiceRegistry)
    → IsOrdered s.inner
    → All
        (λ (x : ServiceSnapshot).
          (if poisoned then none else lookup x.descriptor.id s.inner) ≡ some x)
        (if poisoned then [] else values s.inner)
listed true s h = tt
listed false s h = lookup-values name_of s.inner h.up h.named

send-IsOrdered :
    (taken : Option ServiceSnapshot) (s : ServiceRegistry)
    → IsOrdered s.inner
    → IsOrdered (send taken s).inner
send-IsOrdered none s h = h
send-IsOrdered (some changed) s h = h

run-IsOrdered :
    (actions : List Action) (w : World)
    → IsOrdered w.registry.inner
    → IsOrdered (run actions w).registry.inner
unfolding run act
run-IsOrdered [] w h = h
run-IsOrdered (locks call ∷ rest) w h =
    run-IsOrdered rest (act (locks call) w) (locked-IsOrdered call w.registry h)
run-IsOrdered (sends n ∷ rest) w h =
    run-IsOrdered rest (act (sends n) w) (send-IsOrdered (take_out n w.held).0 w.registry h)

-- However callers take turns, removals included, each service that the snapshot lists is the one that
-- `get` answers under the service's own identifier.
pub get-snapshot :
    (actions : List Action)
    → let s = (run actions start).registry in
      All (λ (x : ServiceSnapshot). get x.descriptor.id s ≡ some x) (snapshot s)
unfolding get snapshot start new
get-snapshot actions =
    let s = (run actions start).registry in
    let h = run-IsOrdered actions start (record { up = tt; named = tt }) in listed s.poisoned s h

-- ===== src/Services/Registry/Announced.antt =====
-- What the registry answers, its subscribers are told (services/registry.rs).
use fenrir.Prelude.{
  ℕ, zero, suc, String, Bool, true, false, Option, none, some, List, [], ◌∷◌, Any, if◌then◌else◌,
  ◌≡◌, ◌⊎◌, inl, inr, refl, sym, ap, subst, ◌∙◌, arith, Bool-cases, keep,
}
use text.Mathlib.Text as T
use text.Mathlib.TextPositions.{eq_refl}
use text.Mathlib.Text.{starts_with}
use fenrir.Prelude.Dict.{Dict, lookup, remove, lookup-remove}
use fenrir.Prelude.Ordered.{insert, lookup-insert}
use fenrir.Services.Registry.{
  ServiceSnapshot, ServiceRegistry, new, send, put, change, register_locked, set_status_locked,
  update_note_locked, unregister, unregister_prefixed, remove_all, keys, get,
}
use fenrir.Services.Registry.Schedule.{
  Call, registers, sets_status, updates_note, unregisters, unregisters_prefixed, locked, World,
  Action, locks, sends, hold, take_out, act, run, start,
}

abbrev IsIn : ServiceSnapshot → List ServiceSnapshot → Type 0
IsIn x xs = Any (λ y. y ≡ x) xs

-- The snapshot was sent, or a caller is about to send it.
abbrev pub IsAnnounced : World → ServiceSnapshot → Type 0
IsAnnounced w x = IsIn x w.registry.sent ⊎ IsIn x w.held

abbrev AllAnnounced : World → Type 0
AllAnnounced w =
    (id : String) (x : ServiceSnapshot) → lookup id w.registry.inner ≡ some x → IsAnnounced w x

-- What a part under the lock leaves was there before, or is the snapshot that it hands out.
record Hands (s : ServiceRegistry) (result : Option ServiceSnapshot × ServiceRegistry)
    : Type 0 where
  on_sent : result.1.sent ≡ s.sent
  on_inner :
      (id : String) (x : ServiceSnapshot)
      → lookup id result.1.inner ≡ some x
      → (lookup id s.inner ≡ some x) ⊎ (result.0 ≡ some x)

same-Hands : (s : ServiceRegistry) → Hands s (none, s)
same-Hands s = record { on_sent = refl; on_inner = λ id x e. inl e }

insert-cases :
    (id other : String) (changed x : ServiceSnapshot) (m : Dict ServiceSnapshot)
    → lookup other (insert id changed m) ≡ some x
    → (lookup other m ≡ some x) ⊎ (◌≡◌ {A = Option ServiceSnapshot} (some changed) (some x))
insert-cases id other changed x m e = elim (Bool-cases (T.◌==◌ id other)) [
  | inl h ↦ inr (ground (arith, lookup-insert id other changed m))
  | inr h ↦ inl (ground (arith, lookup-insert id other changed m))
]

put-Hands :
    (id : String) (changed : ServiceSnapshot) (s : ServiceRegistry) → Hands s (put id changed s)
put-Hands id changed s =
    let again : lookup id (insert id changed s.inner) ≡ some changed =
      ground (arith, lookup-insert id id changed s.inner, eq_refl id) in
    record {
      on_sent = refl;
      on_inner = λ other x e. elim (insert-cases id other changed x s.inner e) [
        | inl before ↦ inl before
        | inr same ↦ inr (again ∙ same)
      ];
    }

change-Hands :
    (id : String) (f : ServiceSnapshot → ServiceSnapshot) (found : Option ServiceSnapshot)
    (s : ServiceRegistry)
    → Hands s (change id f found s)
change-Hands id f none s = same-Hands s
change-Hands id f (some found) s = record {
  on_sent = refl;
  on_inner = λ other x. insert-cases id other (f found) x s.inner;
}

unless :
    (poisoned : Bool) (s : ServiceRegistry) (result : Option ServiceSnapshot × ServiceRegistry)
    → Hands s result
    → Hands s (if poisoned then (none, s) else result)
unless true s result h = same-Hands s
unless false s result h = h

removed :
    (poisoned : Bool) (s t : ServiceRegistry)
    → t.sent ≡ s.sent
    → ((id : String) (x : ServiceSnapshot)
        → lookup id t.inner ≡ some x
        → lookup id s.inner ≡ some x)
    → Hands s (none, if poisoned then s else t)
removed true s t e f = same-Hands s
removed false s t e f = record { on_sent = e; on_inner = λ id x h. inl (f id x h) }

remove_all-lookup :
    (ids : List String) (m : Dict ServiceSnapshot) (id : String) (x : ServiceSnapshot)
    → lookup id (remove_all ids m) ≡ some x
    → lookup id m ≡ some x
unfolding remove_all
remove_all-lookup [] m id x e = e
remove_all-lookup (gone ∷ ids) m id x e =
    let left = remove_all-lookup ids (remove gone m) id x e in
    ground (arith, lookup-remove gone id m)

locked-Hands : (call : Call) (s : ServiceRegistry) → Hands s (locked call s)
unfolding locked register_locked set_status_locked update_note_locked unregister unregister_prefixed
locked-Hands (registers descriptor status memo now) s =
    unless s.poisoned s _ (put-Hands descriptor.id _ s)
locked-Hands (sets_status id status memo now) s =
    unless s.poisoned s _ (change-Hands id _ (lookup id s.inner) s)
locked-Hands (updates_note id memo) s =
    unless s.poisoned s _ (change-Hands id _ (lookup id s.inner) s)
locked-Hands (unregisters id) s =
    removed s.poisoned s (record s { inner = remove id s.inner }) refl
      (λ other x h. ground (arith, lookup-remove id other s.inner))
locked-Hands (unregisters_prefixed first) s =
    let ids = keep (λ key. starts_with key first) (keys s.inner) in
    removed s.poisoned s (record s { inner = remove_all ids s.inner }) refl
      (remove_all-lookup ids s.inner)

held-hold :
    (changed : Option ServiceSnapshot) (x : ServiceSnapshot) (held : List ServiceSnapshot)
    → IsIn x held ⊎ (changed ≡ some x)
    → IsIn x (hold changed held)
held-hold none x held (inl old) = old
held-hold none x held (inr e) = absurd (ground arith)
held-hold (some changed) x held (inl old) = inr old
held-hold (some changed) x held (inr e) = inl (ground arith)

taken-cases :
    (n : ℕ) (x : ServiceSnapshot) (held : List ServiceSnapshot)
    → IsIn x held
    → (take_out n held).0 ≡ some x ⊎ IsIn x (take_out n held).1
unfolding take_out
taken-cases n x [] h = absurd h
taken-cases zero x (y ∷ held) (inl here) = inl (ap some here)
taken-cases zero x (y ∷ held) (inr later) = inr later
taken-cases (suc n) x (y ∷ held) (inl here) = inr (inl here)
taken-cases (suc n) x (y ∷ held) (inr later) = elim (taken-cases n x held later) [
  | inl e ↦ inl e
  | inr e ↦ inr (inr e)
]

send-sent :
    (taken : Option ServiceSnapshot) (x : ServiceSnapshot) (s : ServiceRegistry)
    → IsIn x s.sent ⊎ (taken ≡ some x)
    → IsIn x (send taken s).sent
send-sent none x s (inl old) = old
send-sent none x s (inr e) = absurd (ground arith)
send-sent (some changed) x s (inl old) = inr old
send-sent (some changed) x s (inr e) = inl (ground arith)

send-inner : (taken : Option ServiceSnapshot) (s : ServiceRegistry) → (send taken s).inner ≡ s.inner
send-inner none s = refl
send-inner (some changed) s = refl

act-AllAnnounced : (action : Action) (w : World) → AllAnnounced w → AllAnnounced (act action w)
unfolding act
act-AllAnnounced (locks call) w h id x e =
    let hands = locked-Hands call w.registry in
    let hold_on = held-hold (locked call w.registry).0 x w.held in
    elim (hands.on_inner id x e) [
      | inl before ↦ elim (h id x before) [
        | inl was_sent ↦ inl (subst (IsIn x) (sym hands.on_sent) was_sent)
        | inr was_held ↦ inr (hold_on (inl was_held))
      ]
      | inr handed ↦ inr (hold_on (inr handed))
    ]
act-AllAnnounced (sends n) w h id x e =
    let taken = (take_out n w.held).0 in
    let told = send-sent taken x w.registry in
    let before = ap (lookup id) (sym (send-inner taken w.registry)) ∙ e in
    elim (h id x before) [
      | inl was_sent ↦ inl (told (inl was_sent))
      | inr was_held ↦ elim (taken-cases n x w.held was_held) [
        | inl now_sent ↦ inl (told (inr now_sent))
        | inr still_held ↦ inr still_held
      ]
    ]

run-AllAnnounced :
    (actions : List Action) (w : World) → AllAnnounced w → AllAnnounced (run actions w)
unfolding run
run-AllAnnounced [] w h = h
run-AllAnnounced (action ∷ rest) w h =
    run-AllAnnounced rest (act action w) (act-AllAnnounced action w h)

-- However callers take turns, from an empty registry on, and in whatever order they send what they
-- hold, removals included: whatever `get` answers of a service is a snapshot that was sent to the
-- subscribers, or one that a caller holds and has not sent yet.
pub get-IsAnnounced :
    (actions : List Action) (id : String) (x : ServiceSnapshot)
    → let w = run actions start in get id w.registry ≡ some x → IsAnnounced w x
unfolding get start new lookup
get-IsAnnounced actions id x e =
    let w = run actions start in
    run-AllAnnounced actions start (λ other y h. absurd (ground arith)) id x (ground arith)

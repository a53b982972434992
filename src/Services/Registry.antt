-- ===== src/Services/Registry.antt =====
-- services/registry.rs: the services that the host knows, with a snapshot sent to the subscribers
-- for each change of a service's state. An operation has two parts, what it does under the lock and
-- the send that follows. The channel (tokio's broadcast) is the list of what was sent, the newest
-- first; that a slow subscriber may miss some is not modelled. The clock is an argument.
pub mod Schedule
pub mod Announced
pub mod Listed
mod Tests
use text.Mathlib.Text.{starts_with}
use fenrir.Prelude.{
  ℕ, String, Bool, true, false, Option, none, some, List, [], ◌∷◌, map, keep, if◌then◌else◌,
}
use fenrir.Prelude.Dict.{Dict, lookup, remove}
use fenrir.Prelude.Ordered.{insert, values}
use fenrir.Services.Access.{ServiceSecurityMetadata}

pub data ServiceKind : Type 0 where
  infrastructure transport background_job cli security storage other : ServiceKind

pub data ServiceTag : Type 0 where
  core platform auxiliary : ServiceTag

pub data ServiceIngressProtocol : Type 0 where
  http grpc : ServiceIngressProtocol

pub data ServiceIngressAccess : Type 0 where
  internal public : ServiceIngressAccess

pub data ServiceRateLimit : Type 0 where
  default_rate unlimited : ServiceRateLimit
  custom_per_second : ℕ → ServiceRateLimit

pub record ServiceIngressMetadata : Type 0 where
  pub route_prefix : Option String
  pub health_endpoint : Option String
  pub access : ServiceIngressAccess
  pub rate_limit : ServiceRateLimit
  pub protocols : List ServiceIngressProtocol

pub record ServiceDescriptorOwned : Type 0 where
  pub id : String
  pub name : String
  pub description : String
  pub kind : ServiceKind
  pub critical : Bool
  pub tags : List ServiceTag
  pub security : Option ServiceSecurityMetadata
  pub ingress : Option ServiceIngressMetadata

pub data ServiceStatus : Type 0 where
  starting active degraded failed standby stopped : ServiceStatus

-- `ServiceRecord` and `ServiceSnapshot`, whose fields are the same: a snapshot is a record's copy.
pub record ServiceSnapshot : Type 0 where
  pub descriptor : ServiceDescriptorOwned
  pub status : ServiceStatus
  pub since : ℕ
  pub note : Option String

pub record ServiceRegistry : Type 0 where
  pub inner : Dict ServiceSnapshot
  -- A thread has panicked under the lock.
  pub poisoned : Bool
  pub sent : List ServiceSnapshot

unfoldable pub new : ServiceRegistry
new = record { inner = []; poisoned = false; sent = [] }

-- What an operation does under the lock: it changes the registry, and takes the snapshot that it
-- sends after it has released the lock.
abbrev pub Write : Type 0
Write = ServiceRegistry → Option ServiceSnapshot × ServiceRegistry

-- `events.send`.
abbrev pub send : Option ServiceSnapshot → ServiceRegistry → ServiceRegistry
send none s = s
send (some changed) s = record s { sent = changed ∷ s.sent }

-- The record is inserted and read again.
abbrev pub put : String → ServiceSnapshot → Write
put id changed s =
    let inner = insert id changed s.inner in (lookup id inner, record s { inner = inner })

unfoldable pub register_locked : ServiceDescriptorOwned → ServiceStatus → Option String → ℕ → Write
register_locked descriptor status memo now s =
    if s.poisoned
    then (none, s)
    else put descriptor.id
        (record { descriptor = descriptor; status = status; since = now; note = memo }) s

unfoldable pub register :
    ServiceDescriptorOwned → ServiceStatus → Option String → ℕ → ServiceRegistry → ServiceRegistry
unfolding register_locked
register descriptor status memo now s =
    let (changed, t) = register_locked descriptor status memo now s in send changed t

-- The record is changed in place, if there is one.
abbrev pub change : String → (ServiceSnapshot → ServiceSnapshot) → Option ServiceSnapshot → Write
change id f none s = (none, s)
change id f (some found) s = (some (f found), record s { inner = insert id (f found) s.inner })

unfoldable pub set_status_locked : String → ServiceStatus → Option String → ℕ → Write
set_status_locked id status memo now s =
    if s.poisoned
    then (none, s)
    else change id (λ found. record found { status = status; note = memo; since = now })
        (lookup id s.inner) s

unfoldable pub set_status :
    String → ServiceStatus → Option String → ℕ → ServiceRegistry → ServiceRegistry
unfolding set_status_locked
set_status id status memo now s =
    let (changed, t) = set_status_locked id status memo now s in send changed t

unfoldable pub update_note_locked : String → Option String → Write
update_note_locked id memo s =
    if s.poisoned
    then (none, s)
    else change id (λ found. record found { note = memo }) (lookup id s.inner) s

unfoldable pub update_note : String → Option String → ServiceRegistry → ServiceRegistry
unfolding update_note_locked
update_note id memo s = let (changed, t) = update_note_locked id memo s in send changed t

unfoldable pub unregister : String → ServiceRegistry → ServiceRegistry
unregister id s = if s.poisoned then s else record s { inner = remove id s.inner }

abbrev pub keys : Dict ServiceSnapshot → List String
keys entries = map (λ (entry : String × ServiceSnapshot). entry.0) entries

unfoldable pub remove_all : List String → Dict ServiceSnapshot → Dict ServiceSnapshot
remove_all [] entries = entries
remove_all (id ∷ ids) entries = remove_all ids (remove id entries)

unfoldable pub unregister_prefixed : String → ServiceRegistry → ServiceRegistry
unfolding remove_all
unregister_prefixed start s = if s.poisoned then s else record s {
  inner = remove_all (keep (λ key. starts_with key start) (keys s.inner)) s.inner;
}

unfoldable pub snapshot : ServiceRegistry → List ServiceSnapshot
snapshot s = if s.poisoned then [] else values s.inner

unfoldable pub get : String → ServiceRegistry → Option ServiceSnapshot
get id s = if s.poisoned then none else lookup id s.inner

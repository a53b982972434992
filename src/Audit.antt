-- ===== src/Audit.antt =====
-- audit/event.rs: the audit events, and the sink that takes them. The clock's reading is an
-- argument, as is whether the sink refuses an event.
use fenrir.Prelude.{ℕ, String, Bool, true, false, Option, none, some, List, [], ◌∷◌}
use fenrir.Prelude.Exec.{Result, ok, err}

pub data AuditActor : Type 0 where
  system : AuditActor
  user : String → String → AuditActor

pub data AuditOutcome : Type 0 where
  success failure denied : AuditOutcome

abbrev pub AuditMetadata : Type 0
AuditMetadata = List (String × String)

pub record AuditEvent : Type 0 where
  pub timestamp : ℕ
  pub actor : AuditActor
  pub action : String
  pub target : String
  pub outcome : AuditOutcome
  pub redactions : List String
  pub metadata : AuditMetadata

pub data AuditError : Type 0 where
  missing_actor missing_action missing_target : AuditError

pub record AuditEventBuilder : Type 0 where
  pub actor : Option AuditActor
  pub action : Option String
  pub target : Option String
  pub outcome : AuditOutcome
  pub redactions : List String
  pub metadata : AuditMetadata

abbrev pub builder : AuditEventBuilder
builder = record {
  actor = none;
  action = none;
  target = none;
  outcome = success;
  redactions = [];
  metadata = [];
}

abbrev with_target :
    AuditEventBuilder → ℕ → AuditActor → String → Option String → Result AuditError AuditEvent
with_target b now actor action none = err missing_target
with_target b now actor action (some target) = ok (record {
  timestamp = now;
  actor = actor;
  action = action;
  target = target;
  outcome = b.outcome;
  redactions = b.redactions;
  metadata = b.metadata;
})

abbrev with_action :
    AuditEventBuilder → ℕ → AuditActor → Option String → Result AuditError AuditEvent
with_action b now actor none = err missing_action
with_action b now actor (some action) = with_target b now actor action b.target

abbrev with_actor : AuditEventBuilder → ℕ → Option AuditActor → Result AuditError AuditEvent
with_actor b now none = err missing_actor
with_actor b now (some actor) = with_action b now actor b.action

-- `AuditEventBuilder::build`.
abbrev pub build : AuditEventBuilder → ℕ → Result AuditError AuditEvent
build b now = with_actor b now b.actor

-- The events that the sink has taken, newest first.
abbrev pub Log : Type 0
Log = List AuditEvent

abbrev pub taken : Bool → AuditEvent → Log → Log
taken true event log = log
taken false event log = event ∷ log

abbrev pub recorded : Bool → Result AuditError AuditEvent → Log → Log
recorded refuses (ok event) log = taken refuses event log
recorded refuses (err e) log = log

-- An event that cannot be built, or that the sink refuses, is only logged.
unfoldable pub record_event : Bool → AuditEventBuilder → ℕ → Log → Log
record_event refuses b now log = recorded refuses (build b now) log

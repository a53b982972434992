-- ===== src/Security/Manager/Audited.antt =====
-- Every access decision leaves an audit event that says how it was made (security/manager.rs).
use fenrir.Prelude.{String, true, false, ◌∷◌, ◌≡◌, refl, Bool-cases, inl, inr}
use fenrir.Prelude.Exec.{Result, ok, err}
use fenrir.Audit.{AuditEvent, Log, record_event, success, denied}
use fenrir.Security.Role.{Role, satisfies}
use fenrir.Security.Session.{Session, SessionError}
use fenrir.Security.Session as Sessions
use fenrir.Security.Manager.{
  SecurityManager, AuthError, Moment, Formats, access, as_user, ensure_role,
}

-- What the event of a decision says of its result.
abbrev pub Explains : (F : Formats) → Role → Result AuthError Session → AuditEvent → Type 0
Explains F required (ok session) event =
    (event.outcome ≡ success)
    × (event.actor ≡ as_user F session)
    × (satisfies session.role required ≡ true)
Explains F required (err e) event = event.outcome ≡ denied

module _ (F : Formats) where
  abbrev pub Audited : Role → Log → Result AuthError Session × SecurityManager → Type 0
  Audited required log (result, after) =
      (event : AuditEvent) × (after.audit ≡ event ∷ log) × Explains F required result event

  access-Audited :
      (required : Role) (moment : Moment) (r : Result SessionError Session) (m : SecurityManager)
      → moment.refuses ≡ false
      → Audited required m.audit (access F required moment r m)
  unfolding record_event
  access-Audited required moment (ok session) m h =
      elim (Bool-cases (satisfies session.role required)) [
        | inl e ↦ rw (e, h) (_, refl, (refl, refl, e))
        | inr e ↦ rw (e, h) (_, refl, refl)
      ]
  access-Audited required moment (err e) m h = rw h (_, refl, refl)

  -- Where the sink takes the event, `ensure_role` adds one event to the audit log: a success of the
  -- session's own user, whose role satisfies the one required, if it grants the access, and a denial
  -- if it does not.
  pub ensure_role-Audited :
      (token : String) (required : Role) (moment : Moment) (m : SecurityManager)
      → moment.refuses ≡ false
      → Audited required m.audit (ensure_role F token required moment m)
  unfolding ensure_role
  ensure_role-Audited token required moment m h =
      let r = Sessions.validate token moment.now_instant moment.now m.sessions in
      access-Audited required moment r.0 (record m { sessions = r.1 }) h

-- ===== src/Accounts/Atomic.antt =====
-- The transaction of a login: identity_repository.go, `CreateSessionWithAudit` and how it can end.
use mail_suite.Base.{
  codes, ◌≡◌, refl, ◌⊎◌, inl, inr, Bool, true, false, ◌||◌, not, Option, none, some, ◌∷◌, ◌=ₜ◌,
  if◌then◌else◌,
}
use mail_suite.Errors.{Error, Result, ok, fail}
use mail_suite.Identity.{SessionToCreate, CreatedSession, AuditEvent}
use mail_suite.Accounts.{Store, timestamptz, rejects_session, rejects_audit}
use mail_suite.Accounts.Rows.{session_row, session_taken}
use mail_suite.Accounts.Sessions.{
  Outages, unless_failed, created_session, insert_session, create_session, insert_audit,
  create_audit, commit, audited, audit_created, names, create_session_with_audit,
}

-- The store with the session and the audit of a login.
abbrev pub recorded : SessionToCreate → AuditEvent → Store → Store
recorded session event s = record s {
  sessions = session_row session ∷ s.sessions;
  audits = record event { occurred_at = timestamptz event.occurred_at } ∷ s.audits;
}

module _ (session : SessionToCreate) (event : AuditEvent) (s : Store) where
  -- It failed and left the store as it was, or the store has both rows.
  data Atomic : Result CreatedSession × Store → Type 0 where
    undone : {e : Error} → Atomic (fail e, s)
    done : {r : Result CreatedSession} → Atomic (r, recorded session event s)

  Atomic-if :
      (c : Bool) (x y : Result CreatedSession × Store)
      → Atomic x
      → Atomic y
      → Atomic (if c then x else y)
  Atomic-if true x y hx hy = hx
  Atomic-if false x y hx hy = hy

  commit-Atomic :
      (e : Option Error) (lands : Bool) (created : CreatedSession)
      → Atomic (commit e lands created s (recorded session event s))
  unfolding commit
  commit-Atomic none lands created = done
  commit-Atomic (some e) true created = done
  commit-Atomic (some e) false created = undone

  abbrev with_session : Store
  with_session = record s { sessions = session_row session ∷ s.sessions }

  inserted-Atomic :
      (o : Outages) (created : CreatedSession) (e : Option Error)
      → Atomic (audited o created s (insert_audit e event with_session))
  unfolding audited insert_audit
  inserted-Atomic o created (some e) = undone
  inserted-Atomic o created none = commit-Atomic o.commit_fails o.commit_lands created

  rejected-Atomic :
      (o : Outages) (created : CreatedSession) (c : Bool) (e : Error)
      → Atomic (
          audited o created s
            (if c then (some e, with_session) else insert_audit o.audit_fails event with_session))
  unfolding audited
  rejected-Atomic o created true e = undone
  rejected-Atomic o created false e = inserted-Atomic o created o.audit_fails

  audit-Atomic :
      (o : Outages) (created : CreatedSession)
      → Atomic (audit_created o event s (ok created, with_session))
  unfolding audit_created create_audit
  audit-Atomic o created = rejected-Atomic o created (rejects_audit event) _

  taken-Atomic :
      (o : Outages) (c : Bool) (e : Error)
      → Atomic (
          audit_created o event s
            (if c then (fail e, s) else (ok (created_session (session_row session)), with_session)))
  taken-Atomic o true e = unfold audit_created in undone
  taken-Atomic o false e = audit-Atomic o (created_session (session_row session))

  insert-Atomic :
      (o : Outages) (e : Option Error)
      → Atomic (audit_created o event s (insert_session e session s))
  unfolding insert_session
  insert-Atomic o (some e) = unfold audit_created in undone
  insert-Atomic o none = taken-Atomic o (session_taken session s.sessions) _

  valid-Atomic :
      (o : Outages) (c : Bool) (e : Error)
      → Atomic (
          audit_created o event s
            (if c then (fail e, s) else insert_session o.statement_fails session s))
  valid-Atomic o true e = unfold audit_created in undone
  valid-Atomic o false e = insert-Atomic o o.statement_fails

  begun-Atomic :
      (e : Option Error) (run : Result CreatedSession × Store)
      → Atomic run
      → Atomic (unless_failed e s run)
  unfolding unless_failed
  begun-Atomic none run h = h
  begun-Atomic (some e) run h = undone

  login-Atomic : (o : Outages) → Atomic (create_session_with_audit o session event s)
  unfolding create_session_with_audit create_session
  login-Atomic o =
      Atomic-if
        (not (event.action =ₜ codes "login")
          || not (event.result =ₜ codes "succeeded")
          || not (names event.principal_id session.principal_id))
        _ _ undone (begun-Atomic o.begin_fails _ (valid-Atomic o (rejects_session session) _))

  apart_or_recorded :
      (run : Result CreatedSession × Store)
      → Atomic run
      → ((run.1 ≡ s) × (e : Error) × (run.0 ≡ fail e)) ⊎ (run.1 ≡ recorded session event s)
  apart_or_recorded (fail e, t) undone = inl (refl, e, refl)
  apart_or_recorded (r, t) done = inr refl

-- However the statements of `CreateSessionWithAudit` fail, it fails and leaves the store as it was, or the
-- store has the new session and the audit of the login, and nothing else changed: a success stores both.
pub login_atomic :
    (o : Outages) (session : SessionToCreate) (event : AuditEvent) (s : Store)
    → let run = create_session_with_audit o session event s in
      ((run.1 ≡ s) × (e : Error) × (run.0 ≡ fail e)) ⊎ (run.1 ≡ recorded session event s)
login_atomic o session event s =
    apart_or_recorded session event s _ (login-Atomic session event s o)

-- ===== src/Accounts/Sessions.antt =====
-- `CreateSession`, the revocations and the audits, with their transactions. Each
-- statement may fail with an error of its own, as where a constraint refuses it that the model does not
-- have; a transaction that does not commit leaves the store as it was.
use mail_suite.Base.{
  ℕ, Text, codes, Uuid, Digest, Bool, true, false, ◌||◌, not, Option, none, some, [], ◌∷◌, ◌==◌,
  ◌=ₜ◌, is_empty, if◌then◌else◌,
}
use mail_suite.Base.Int.{ℤ, pos, ◌=ℤ◌}
use mail_suite.Errors.{invalid_request, constraint_violation, Error, plain, Result, ok, fail}
use mail_suite.Identity.{
  new_error, SessionToCreate, CreatedSession, RevocationReason, backchannel_sid,
  backchannel_subject, valid_revocation_reason, AuditEvent,
}
use mail_suite.Accounts.{
  identity_persistence_error, timestamptz, SessionRow, Store, rejects_session, rejects_audit,
}
use mail_suite.Accounts.Rows.{
  session_row, session_taken, Target, by_digest, by_session_id, by_subject, revoke_rows,
  revoked_count,
}

abbrev pub persistence : Error → Error
persistence e = identity_persistence_error e

unfoldable pub created_session : SessionRow → CreatedSession
created_session row = record {
  id = row.id;
  principal_id = row.principal_id;
  created_at = row.created_at;
  idle_expires_at = row.idle_expires_at;
  absolute_expires_at = row.absolute_expires_at;
}

unfoldable pub insert_session :
    Option Error → SessionToCreate → Store → Result CreatedSession × Store
insert_session (some e) session s = (fail (persistence e), s)
insert_session none session s =
    if session_taken session s.sessions
    then (fail (persistence (plain (constraint_violation []))), s)
    else (
      ok (created_session (session_row session)),
      record s { sessions = session_row session ∷ s.sessions },
    )

unfoldable pub create_session :
    Option Error → SessionToCreate → Store → Result CreatedSession × Store
create_session outage session s =
    if rejects_session session
    then (fail (new_error invalid_request), s)
    else insert_session outage session s

unfoldable pub insert_audit : Option Error → AuditEvent → Store → Option Error × Store
insert_audit (some e) event s = (some (persistence e), s)
insert_audit none event s = (
  none,
  record s { audits = record event { occurred_at = timestamptz event.occurred_at } ∷ s.audits },
)

-- `RecordAudit` and `createAudit`.
unfoldable pub create_audit : Option Error → AuditEvent → Store → Option Error × Store
create_audit outage event s =
    if rejects_audit event
    then (some (new_error invalid_request), s)
    else insert_audit outage event s

-- How the statements of a transaction fail, and whether a commit that reports an error took effect.
pub record Outages : Type 0 where
  pub begin_fails : Option Error
  pub statement_fails : Option Error
  pub audit_fails : Option Error
  pub commit_fails : Option Error
  pub commit_lands : Bool

-- The end of a transaction that did all it meant to.
unfoldable pub commit : {A : Type 0} → Option Error → Bool → A → Store → Store → Result A × Store
commit none lands value before after = (ok value, after)
commit (some e) lands value before after = (fail (persistence e), if lands then after else before)

-- A call that fails before anything is done.
unfoldable pub unless_failed :
    {A : Type 0} → Option Error → Store → Result A × Store → Result A × Store
unless_failed none s run = run
unless_failed (some e) s run = (fail (persistence e), s)

-- The audit of a transaction, once its first statement is done.
unfoldable pub audited :
    {A : Type 0} → Outages → A → Store → Option Error × Store → Result A × Store
audited o value before (some e, after) = (fail e, before)
audited o value before (none, after) = commit o.commit_fails o.commit_lands value before after

unfoldable pub audit_created :
    Outages → AuditEvent → Store → Result CreatedSession × Store → Result CreatedSession × Store
audit_created o event before (fail e, after) = (fail e, before)
audit_created o event before (ok created, after) =
    audited o created before (create_audit o.audit_fails event after)

abbrev pub names : Option Uuid → Uuid → Bool
names none id = false
names (some p) id = p == id

unfoldable pub create_session_with_audit :
    Outages → SessionToCreate → AuditEvent → Store → Result CreatedSession × Store
create_session_with_audit o session event s =
    if not (event.action =ₜ codes "login")
      || not (event.result =ₜ codes "succeeded")
      || not (names event.principal_id session.principal_id)
    then (fail (new_error invalid_request), s)
    else unless_failed o.begin_fails s
        (audit_created o event s (create_session o.statement_fails session s))

unfoldable pub update_revoked :
    Option Error → Target → ℤ → RevocationReason → Store → Result ℕ × Store
update_revoked (some e) target at reason s = (fail (persistence e), s)
update_revoked none target at reason s = (
  ok (revoked_count target s.sessions),
  record s { sessions = revoke_rows target (timestamptz at) reason s.sessions },
)

unfoldable pub revoke_session :
    Option Error → Digest → ℤ → RevocationReason → Store → Result ℕ × Store
revoke_session outage digest at reason s =
    if at =ℤ pos 0 || not (valid_revocation_reason reason)
    then (fail (new_error invalid_request), s)
    else update_revoked outage (by_digest digest) at reason s

unfoldable pub audit_revoked : Outages → AuditEvent → Store → Result ℕ × Store → Result ℕ × Store
audit_revoked o event before (fail e, after) = (fail e, before)
audit_revoked o event before (ok n, after) =
    audited o n before (create_audit o.audit_fails event after)

abbrev pub is_named : Option Uuid → Bool
is_named none = false
is_named (some p) = true

-- The method returns no count; the model keeps it.
unfoldable pub revoke_session_with_audit :
    Outages → Digest → ℤ → RevocationReason → AuditEvent → Store → Result ℕ × Store
revoke_session_with_audit o digest at reason event s =
    if not (event.action =ₜ codes "logout")
      || not (event.result =ₜ codes "succeeded")
      || not (is_named event.principal_id)
    then (fail (new_error invalid_request), s)
    else unless_failed o.begin_fails s
        (audit_revoked o event s (revoke_session o.statement_fails digest at reason s))

unfoldable pub revoke_by_oidc_session_id : Option Error → Text → Text → ℤ → Store → Result ℕ × Store
revoke_by_oidc_session_id outage issuer session_id at s =
    if is_empty issuer || is_empty session_id || at =ℤ pos 0
    then (fail (new_error invalid_request), s)
    else update_revoked outage (by_session_id issuer session_id) at backchannel_sid s

unfoldable pub revoke_by_oidc_subject : Option Error → Text → Text → ℤ → Store → Result ℕ × Store
revoke_by_oidc_subject outage issuer subject at s =
    if is_empty issuer || is_empty subject || at =ℤ pos 0
    then (fail (new_error invalid_request), s)
    else update_revoked outage (by_subject issuer subject) at backchannel_subject s

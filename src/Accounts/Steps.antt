-- ===== src/Accounts/Steps.antt =====
-- The operations of the repository as steps, in any order, by any instances and with any failures; and
-- the changes that administration makes to accounts and permissions.
use mail_suite.Base.{Text, Uuid, Digest, Option, List}
use mail_suite.Base.Int.{ℤ}
use mail_suite.Errors.{Error}
use mail_suite.Identity.{AuthFlowToCreate, SessionToCreate, Session, RevocationReason, AuditEvent}
use mail_suite.Identity.ReturnPath.{Host}
use mail_suite.Accounts.{IdentityRepository, PrincipalRow, Store}
use mail_suite.Accounts.Flows.{create_auth_flow, consume_auth_flow}
use mail_suite.Accounts.Sessions.{
  create_session, create_session_with_audit, create_audit, Outages, revoke_session,
  revoke_session_with_audit, revoke_by_oidc_session_id, revoke_by_oidc_subject,
}
use mail_suite.Accounts.Resolve.{touch}

-- `ResolveSession` reads, and may end in a touch.
pub data Step (s : Store) : Store → Type 0 where
  flow_created :
      (host : Host) (o : Option Error) (flow : AuthFlowToCreate)
      → Step s (create_auth_flow host o flow s).1
  flow_consumed :
      (o : Option Error) (state cookie : Digest) (at : ℤ)
      → Step s (consume_auth_flow o state cookie at s).1
  session_created :
      (o : Option Error) (session : SessionToCreate) → Step s (create_session o session s).1
  login_recorded :
      (o : Outages) (session : SessionToCreate) (event : AuditEvent)
      → Step s (create_session_with_audit o session event s).1
  session_touched :
      (repository : IdentityRepository) (o : Option Error) (session : Session) (at : ℤ)
      → Step s (touch repository o session at s).1
  session_revoked :
      (o : Option Error) (digest : Digest) (at : ℤ) (reason : RevocationReason)
      → Step s (revoke_session o digest at reason s).1
  logout_recorded :
      (o : Outages) (digest : Digest) (at : ℤ) (reason : RevocationReason) (event : AuditEvent)
      → Step s (revoke_session_with_audit o digest at reason event s).1
  provider_session_revoked :
      (o : Option Error) (issuer session_id : Text) (at : ℤ)
      → Step s (revoke_by_oidc_session_id o issuer session_id at s).1
  subject_revoked :
      (o : Option Error) (issuer subject : Text) (at : ℤ)
      → Step s (revoke_by_oidc_subject o issuer subject at s).1
  event_recorded : (o : Option Error) (event : AuditEvent) → Step s (create_audit o event s).1
  administered :
      (principals : List PrincipalRow) (permissions : Uuid → List Text)
      → Step s (record s { principals = principals; permissions = permissions })

pub data Later (s : Store) : Store → Type 0 where
  now : Later s s
  then_step : {t u : Store} → Later s t → Step t u → Later s u

-- What every step keeps is kept later.
pub kept_later :
    (P : Store → Type 0)
    → ((s t : Store) → Step s t → P s → P t)
    → (s t : Store) → Later s t
    → P s
    → P t
kept_later P step s t now p = p
kept_later P step s u (then_step {t = t} before last) p =
    step t u last (kept_later P step s t before p)

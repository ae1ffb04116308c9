-- ===== src/Accounts/Changes.antt =====
-- What a step can do to the flows and to the sessions.
use mail_suite.Base.{
  ℕ, Text, Uuid, Digest, ◌≡◌, refl, ◌∙◌, Bool, true, false, ◌||◌, not, Option, none, some, ◌∷◌,
  ◌=ₜ◌, codes, is_empty, if◌then◌else◌,
}
use mail_suite.Base.Int.{ℤ, pos, ◌=ℤ◌}
use mail_suite.Errors.{Error, Result, ok, fail}
use mail_suite.Identity.{
  AuthFlowToCreate, SessionToCreate, Session, CreatedSession, RevocationReason, AuditEvent,
  valid_revocation_reason,
}
use mail_suite.Identity.ReturnPath.{Host}
use mail_suite.Accounts.{
  IdentityRepository, Store, rejects_flow, rejects_session, rejects_audit, timestamptz,
}
use mail_suite.Accounts.Rows.{
  flow_row, flow_taken, consume_rows, session_row, session_taken, touch_rows, Target, by_digest,
  by_session_id, by_subject, revoke_rows,
}
use mail_suite.Accounts.Flows.{insert_flow, create_auth_flow, update_flow, consume_auth_flow}
use mail_suite.Accounts.Sessions.{
  insert_session, create_session, insert_audit, create_audit, Outages, commit, audited,
  audit_created, unless_failed, names, is_named, create_session_with_audit, update_revoked,
  revoke_session, audit_revoked, revoke_session_with_audit, revoke_by_oidc_session_id,
  revoke_by_oidc_subject,
}
use mail_suite.Accounts.Resolve.{touch, whole_microseconds}
use mail_suite.Accounts.Steps.{
  Step, flow_created, flow_consumed, session_created, login_recorded, session_touched,
  session_revoked, logout_recorded, provider_session_revoked, subject_revoked, event_recorded,
  administered,
}

-- A step leaves both tables alone, or makes one of these changes to one of them.
pub data Change (s : Store) : Store → Type 0 where
  same : {t : Store} → t.flows ≡ s.flows → t.sessions ≡ s.sessions → Change s t
  flow_in :
      {t : Store} (flow : AuthFlowToCreate)
      → flow_taken flow s.flows ≡ false
      → t.flows ≡ flow_row flow ∷ s.flows
      → t.sessions ≡ s.sessions
      → Change s t
  flow_used :
      {t : Store} (state cookie : Digest) (at : ℤ)
      → t.flows ≡ consume_rows state cookie at s.flows
      → t.sessions ≡ s.sessions
      → Change s t
  session_in :
      {t : Store} (session : SessionToCreate)
      → rejects_session session ≡ false
      → session_taken session s.sessions ≡ false
      → t.flows ≡ s.flows
      → t.sessions ≡ session_row session ∷ s.sessions
      → Change s t
  touched :
      {t : Store} (id : Uuid) (at idle : ℤ)
      → t.flows ≡ s.flows
      → t.sessions ≡ touch_rows id at idle s.sessions
      → Change s t
  revoked :
      {t : Store} (target : Target) (at : ℤ) (reason : RevocationReason)
      → t.flows ≡ s.flows
      → t.sessions ≡ revoke_rows target at reason s.sessions
      → Change s t

change-if :
    {A : Type 0} (s : Store) (c : Bool) (x y : A × Store)
    → (c ≡ true → Change s x.1)
    → (c ≡ false → Change s y.1)
    → Change s (if c then x else y).1
change-if s true x y hx hy = hx refl
change-if s false x y hx hy = hy refl

module _ (s : Store) where
  insert_flow-Change :
      (o : Option Error) (flow : AuthFlowToCreate) → Change s (insert_flow o flow s).1
  unfolding insert_flow
  insert_flow-Change (some e) flow = same refl refl
  insert_flow-Change none flow =
      change-if s (flow_taken flow s.flows) _ _ (λ _. same refl refl)
        λ free. flow_in flow free refl refl

  create_flow-Change :
      (host : Host) (o : Option Error) (flow : AuthFlowToCreate)
      → Change s (create_auth_flow host o flow s).1
  unfolding create_auth_flow
  create_flow-Change host o flow =
      change-if s (rejects_flow host flow) _ _ (λ _. same refl refl) λ _. insert_flow-Change o flow

  update_flow-Change :
      (o : Option Error) (state cookie : Digest) (at : ℤ)
      → Change s (update_flow o state cookie at s).1
  unfolding update_flow
  update_flow-Change (some e) state cookie at = same refl refl
  update_flow-Change none state cookie at = flow_used state cookie at refl refl

  consume_flow-Change :
      (o : Option Error) (state cookie : Digest) (at : ℤ)
      → Change s (consume_auth_flow o state cookie at s).1
  unfolding consume_auth_flow
  consume_flow-Change o state cookie at =
      change-if s (at =ℤ pos 0) _ _ (λ _. same refl refl)
        λ _. update_flow-Change o state cookie (timestamptz at)

  insert_session-Change :
      (o : Option Error) (session : SessionToCreate)
      → rejects_session session ≡ false
      → Change s (insert_session o session s).1
  unfolding insert_session
  insert_session-Change (some e) session valid = same refl refl
  insert_session-Change none session valid =
      change-if s (session_taken session s.sessions) _ _ (λ _. same refl refl)
        λ free. session_in session valid free refl refl

  create_session-Change :
      (o : Option Error) (session : SessionToCreate) → Change s (create_session o session s).1
  unfolding create_session
  create_session-Change o session =
      change-if s (rejects_session session) _ _ (λ _. same refl refl)
        λ valid. insert_session-Change o session valid

  -- What leaves both tables as they are changes nothing.
  transfer : (t u : Store) → Change s t → u.flows ≡ t.flows → u.sessions ≡ t.sessions → Change s u
  transfer t u (same f g) p q = same (p ∙ f) (q ∙ g)
  transfer t u (flow_in flow free f g) p q = flow_in flow free (p ∙ f) (q ∙ g)
  transfer t u (flow_used state cookie at f g) p q = flow_used state cookie at (p ∙ f) (q ∙ g)
  transfer t u (session_in session valid free f g) p q =
      session_in session valid free (p ∙ f) (q ∙ g)
  transfer t u (touched id at idle f g) p q = touched id at idle (p ∙ f) (q ∙ g)
  transfer t u (revoked target at reason f g) p q = revoked target at reason (p ∙ f) (q ∙ g)

  insert_audit-Change :
      (o : Option Error) (event : AuditEvent) (t : Store)
      → Change s t
      → Change s (insert_audit o event t).1
  unfolding insert_audit
  insert_audit-Change (some e) event t c = c
  insert_audit-Change none event t c = transfer t _ c refl refl

  create_audit-Change :
      (o : Option Error) (event : AuditEvent) (t : Store)
      → Change s t
      → Change s (create_audit o event t).1
  unfolding create_audit
  create_audit-Change o event t c =
      change-if s (rejects_audit event) _ _ (λ _. c) λ _. insert_audit-Change o event t c

  commit-Change :
      {A : Type 0} (e : Option Error) (lands : Bool) (value : A) (t : Store)
      → Change s t
      → Change s (commit e lands value s t).1
  unfolding commit
  commit-Change none lands value t c = c
  commit-Change (some e) true value t c = c
  commit-Change (some e) false value t c = same refl refl

  audited-Change :
      {A : Type 0} (o : Outages) (value : A) (r : Option Error × Store)
      → Change s r.1
      → Change s (audited o value s r).1
  unfolding audited
  audited-Change o value (some e, t) c = same refl refl
  audited-Change o value (none, t) c = commit-Change o.commit_fails o.commit_lands value t c

  audit_created-Change :
      (o : Outages) (event : AuditEvent) (r : Result CreatedSession × Store)
      → Change s r.1
      → Change s (audit_created o event s r).1
  unfolding audit_created
  audit_created-Change o event (fail e, t) c = same refl refl
  audit_created-Change o event (ok created, t) c =
      audited-Change o created _ (create_audit-Change o.audit_fails event t c)

  audit_revoked-Change :
      (o : Outages) (event : AuditEvent) (r : Result ℕ × Store)
      → Change s r.1
      → Change s (audit_revoked o event s r).1
  unfolding audit_revoked
  audit_revoked-Change o event (fail e, t) c = same refl refl
  audit_revoked-Change o event (ok n, t) c =
      audited-Change o n _ (create_audit-Change o.audit_fails event t c)

  unless_failed-Change :
      {A : Type 0} (e : Option Error) (run : Result A × Store)
      → Change s run.1
      → Change s (unless_failed e s run).1
  unfolding unless_failed
  unless_failed-Change none run c = c
  unless_failed-Change (some e) run c = same refl refl

  update_revoked-Change :
      (o : Option Error) (target : Target) (at : ℤ) (reason : RevocationReason)
      → Change s (update_revoked o target at reason s).1
  unfolding update_revoked
  update_revoked-Change (some e) target at reason = same refl refl
  update_revoked-Change none target at reason = revoked target (timestamptz at) reason refl refl

  revoke_session-Change :
      (o : Option Error) (digest : Digest) (at : ℤ) (reason : RevocationReason)
      → Change s (revoke_session o digest at reason s).1
  unfolding revoke_session
  revoke_session-Change o digest at reason =
      change-if s (at =ℤ pos 0 || not (valid_revocation_reason reason)) _ _ (λ _. same refl refl)
        λ _. update_revoked-Change o (by_digest digest) at reason

  touch-Change :
      (repository : IdentityRepository) (o : Option Error) (session : Session) (at : ℤ)
      → Change s (touch repository o session at s).1
  unfolding touch
  touch-Change repository (some e) session at = same refl refl
  touch-Change repository none session at =
      touched session.id at (whole_microseconds repository.idle_timeout) refl refl

  login-Change :
      (o : Outages) (session : SessionToCreate) (event : AuditEvent)
      → Change s (create_session_with_audit o session event s).1
  unfolding create_session_with_audit
  login-Change o session event =
      change-if s
        (not (event.action =ₜ codes "login")
          || not (event.result =ₜ codes "succeeded")
          || not (names event.principal_id session.principal_id))
        _ _ (λ _. same refl refl)
        λ _.
          unless_failed-Change o.begin_fails _
            (audit_created-Change o event _ (create_session-Change o.statement_fails session))

  logout-Change :
      (o : Outages) (digest : Digest) (at : ℤ) (reason : RevocationReason) (event : AuditEvent)
      → Change s (revoke_session_with_audit o digest at reason event s).1
  unfolding revoke_session_with_audit
  logout-Change o digest at reason event =
      change-if s
        (not (event.action =ₜ codes "logout")
          || not (event.result =ₜ codes "succeeded")
          || not (is_named event.principal_id))
        _ _ (λ _. same refl refl)
        λ _. unless_failed-Change o.begin_fails _ (
          audit_revoked-Change o event _ (revoke_session-Change o.statement_fails digest at reason))

  provider_session-Change :
      (o : Option Error) (issuer session_id : Text) (at : ℤ)
      → Change s (revoke_by_oidc_session_id o issuer session_id at s).1
  unfolding revoke_by_oidc_session_id
  provider_session-Change o issuer session_id at =
      change-if s (is_empty issuer || is_empty session_id || at =ℤ pos 0) _ _ (λ _. same refl refl)
        λ _. update_revoked-Change o (by_session_id issuer session_id) at _

  subject-Change :
      (o : Option Error) (issuer subject : Text) (at : ℤ)
      → Change s (revoke_by_oidc_subject o issuer subject at s).1
  unfolding revoke_by_oidc_subject
  subject-Change o issuer subject at =
      change-if s (is_empty issuer || is_empty subject || at =ℤ pos 0) _ _ (λ _. same refl refl)
        λ _. update_revoked-Change o (by_subject issuer subject) at _

pub step-Change : (s t : Store) → Step s t → Change s t
step-Change s t (flow_created host o flow) = create_flow-Change s host o flow
step-Change s t (flow_consumed o state cookie at) = consume_flow-Change s o state cookie at
step-Change s t (session_created o session) = create_session-Change s o session
step-Change s t (login_recorded o session event) = login-Change s o session event
step-Change s t (session_touched repository o session at) = touch-Change s repository o session at
step-Change s t (session_revoked o digest at reason) = revoke_session-Change s o digest at reason
step-Change s t (logout_recorded o digest at reason event) =
    logout-Change s o digest at reason event
step-Change s t (provider_session_revoked o issuer session_id at) =
    provider_session-Change s o issuer session_id at
step-Change s t (subject_revoked o issuer subject at) = subject-Change s o issuer subject at
step-Change s t (event_recorded o event) = create_audit-Change s o event s (same refl refl)
step-Change s t (administered principals permissions) = same refl refl

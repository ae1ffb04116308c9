-- ===== src/Identity/Settlement.antt =====
-- The steps of `CompleteLogin`, from the last to the first: each ends in a login on all of its evidence
-- or in a refusal that is accounted for.
use mail_suite.Base.{
  ◌≡◌, refl, inl, inr, Text, codes, ◌&&◌, ◌||◌, not, Option, none, some, ◌∷◌, ◌==◌, is_empty, arith,
  Bool-cases,
}
use mail_suite.Base.Int.{ℤ, ◌+ℤ◌}
use mail_suite.Errors.{
  Error, Result, ok, fail, auth_flow_invalid, persistence_unavailable, auth_forbidden,
}
use mail_suite.Identity.{
  new_error, Principal, ConsumedAuthFlow, SessionToCreate, CreatedSession, AuditEvent,
  default_session_absolute_timeout,
}
use mail_suite.Identity.Secret.{
  session_cookie, auth_flow_state, auth_flow_cookie, oidc_nonce, csrf_token, derive_csrf_token,
}
use mail_suite.Identity.Pkce.{decrypt}
use mail_suite.Identity.World.{
  OidcIdentity, RequestMetadata, CallbackInput, session_created, audited, clock_read, id_drawn,
  token_drawn, code_exchanged, principal_resolved, History, World, Service,
}
use mail_suite.Identity.Service.{
  failure_category, normalize_provider_error, mfa_satisfied, hash, after_audit, login_failure,
}
use mail_suite.Identity.Login.{
  is_administrator, after_create_session, after_token, after_principal, after_exchange,
  after_decrypt, after_consume,
}
use mail_suite.Identity.Evidence.{Proven, Admitted, recorded, unrecorded, unstored, Settles}

module _ (w : World) (service : Service) (input : CallbackInput) where
  audit-Settles :
      (e : Error) (k : History) (event : AuditEvent) (answer : Option Error)
      → event.principal_id ≡ none
      → event.result ≡ codes "failed"
      → event.failure_category ≡ failure_category e
      → w.record_audit k event ≡ answer
      → Settles w service input (after_audit e answer, audited event ∷ k)
  audit-Settles e k event none who result category answer =
      recorded k event refl answer who result category
  audit-Settles e k event (some failure) who result category answer = unrecorded k event refl answer

  failure-Settles :
      (metadata : RequestMetadata) (e : Error) (h : History)
      → Settles w service input (login_failure w service metadata e h)
  unfolding login_failure
  failure-Settles metadata e h = audit-Settles e (id_drawn ∷ clock_read ∷ h) _ _ refl refl refl refl

  create-Settles :
      (now : ℤ) (flow : ConsumedAuthFlow) (external : OidcIdentity) (principal : Principal)
      (token : Text) (session : SessionToCreate) (audit : AuditEvent) (h : History)
      (created : Result CreatedSession)
      → Proven w service input now flow external
      → Admitted w service external principal
      → session.principal_id ≡ principal.id
      → session.session_digest ≡ hash w service session_cookie token
      → session.csrf_digest
        ≡ hash w service csrf_token (derive_csrf_token w.crypto service.hasher token)
      → session.absolute_expires_at ≡ now +ℤ default_session_absolute_timeout
      → audit.principal_id ≡ some principal.id
      → audit.result ≡ codes "succeeded"
      → w.create_session_with_audit h session audit ≡ created
      → Settles w service input (
          after_create_session w service flow principal token created
            (session_created session audit ∷ h))
  unfolding after_create_session
  create-Settles now flow external principal token session audit h (fail e) p a owner cookie csrf
        bounded who result stored =
      unstored h session audit refl stored
  create-Settles now flow external principal token session audit h (ok created) p a owner cookie
        csrf bounded who result stored =
      record {
        now = now;
        flow = flow;
        external = external;
        principal = principal;
        proven = p;
        admitted = a;
        session = record {
          before_create = h;
          session = session;
          audit = audit;
          created = created;
          stored = stored;
          last = refl;
          owner = owner;
          cookie = cookie;
          csrf = csrf;
          bounded = bounded;
          audited_owner = who;
          audited_result = result;
          expiry = refl;
          landing = refl;
        };
      }

  token-Settles :
      (now : ℤ) (flow : ConsumedAuthFlow) (external : OidcIdentity) (principal : Principal)
      (token : Result Text) (h : History)
      → Proven w service input now flow external
      → Admitted w service external principal
      → Settles w service input (after_token w service input now flow external principal token h)
  unfolding after_token
  token-Settles now flow external principal (fail e) h p a =
      failure-Settles input.metadata (new_error persistence_unavailable) h
  token-Settles now flow external principal (ok token) h p a =
      create-Settles now flow external principal token _ _ (id_drawn ∷ id_drawn ∷ h) _ p a refl refl
        refl refl refl refl refl

  principal-Settles :
      (now : ℤ) (flow : ConsumedAuthFlow) (external : OidcIdentity) (found : Result Principal)
      (k h : History)
      → w.resolve_principal k external.issuer external.subject ≡ found
      → Proven w service input now flow external
      → Settles w service input (after_principal w service input now flow external found h)
  unfolding after_principal
  principal-Settles now flow external (fail e) k h found p = failure-Settles input.metadata e h
  principal-Settles now flow external (ok principal) k h found p =
      elim (Bool-cases (
        is_administrator principal.account_type
        && not (mfa_satisfied service.mfa_policy external))) [
          | inl weak ↦ rw weak (failure-Settles input.metadata (new_error auth_forbidden) h)
          | inr strong ↦ rw strong (
              token-Settles now flow external principal (w.new_token h) (token_drawn ∷ h) p
                (record { before_resolve = k; resolved = found; strong = λ admin. ground arith }))
        ]

  exchange-Settles :
      (now : ℤ) (flow : ConsumedAuthFlow) (verifier : Text) (answer : Result OidcIdentity)
      (b k h : History)
      → w.consume_auth_flow b
          (hash w service auth_flow_state input.state)
          (hash w service auth_flow_cookie input.browser_cookie)
          now
        ≡ ok flow
      → decrypt w.aead service.pkce flow.pkce_verifier_ciphertext flow.encryption_key_id
        ≡ ok verifier
      → w.exchange k input.code verifier ≡ answer
      → Settles w service input (after_exchange w service input now flow answer h)
  unfolding after_exchange
  exchange-Settles now flow verifier (fail e) b k h consumed decrypted exchanged =
      failure-Settles input.metadata (normalize_provider_error e) h
  exchange-Settles now flow verifier (ok external) b k h consumed decrypted exchanged =
      elim (Bool-cases (
        not (hash w service oidc_nonce external.nonce == flow.nonce_digest)
        || is_empty external.issuer
        || is_empty external.subject)) [
          | inl bad ↦ rw bad (failure-Settles input.metadata (new_error auth_flow_invalid) h)
          | inr good ↦ rw good (
              principal-Settles now flow external
                (w.resolve_principal h external.issuer external.subject) h
                (principal_resolved external.issuer external.subject ∷ h) refl
                (record {
                  before_consume = b;
                  before_exchange = k;
                  verifier = verifier;
                  consumed = consumed;
                  decrypted = decrypted;
                  exchanged = exchanged;
                  nonce = ground arith;
                  issuer = ground arith;
                  subject = ground arith;
                }))
        ]

  decrypt-Settles :
      (now : ℤ) (flow : ConsumedAuthFlow) (plain_text : Result Text) (b h : History)
      → w.consume_auth_flow b
          (hash w service auth_flow_state input.state)
          (hash w service auth_flow_cookie input.browser_cookie)
          now
        ≡ ok flow
      → decrypt w.aead service.pkce flow.pkce_verifier_ciphertext flow.encryption_key_id
        ≡ plain_text
      → Settles w service input (after_decrypt w service input now flow plain_text h)
  unfolding after_decrypt
  decrypt-Settles now flow (fail e) b h consumed decrypted = failure-Settles input.metadata e h
  decrypt-Settles now flow (ok verifier) b h consumed decrypted =
      exchange-Settles now flow verifier (w.exchange h input.code verifier) b h
        (code_exchanged input.code verifier ∷ h) consumed decrypted refl

  pub consume-Settles :
      (now : ℤ) (found : Result ConsumedAuthFlow) (b h : History)
      → w.consume_auth_flow b
          (hash w service auth_flow_state input.state)
          (hash w service auth_flow_cookie input.browser_cookie)
          now
        ≡ found
      → Settles w service input (after_consume w service input now found h)
  unfolding after_consume
  consume-Settles now (fail e) b h consumed = failure-Settles input.metadata e h
  consume-Settles now (ok flow) b h consumed =
      decrypt-Settles now flow
        (decrypt w.aead service.pkce flow.pkce_verifier_ciphertext flow.encryption_key_id) b h
        consumed refl

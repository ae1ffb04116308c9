-- ===== src/Identity/Authenticated.antt =====
-- What a login rests on, and what a refused one leaves behind: `CompleteLogin`.
use mail_suite.Base.{
  ◌≡◌, refl, ◌≢◌, subst, inl, inr, Bool, true, false, ◌||◌, not, ◌∷◌, is_empty, arith, Bool-cases,
}
use mail_suite.Errors.{Error, Result, ok, fail, auth_flow_invalid}
use mail_suite.Identity.{new_error}
use mail_suite.Identity.Secret.{auth_flow_state, auth_flow_cookie}
use mail_suite.Identity.World.{
  CallbackInput, CallbackResult, clock_read, flow_consumed, History, World, Service,
}
use mail_suite.Identity.Service.{hash}
use mail_suite.Identity.Login.{complete_login}
use mail_suite.Identity.Evidence.{LoggedIn, Refused, Settles}
use mail_suite.Identity.Settlement.{consume-Settles}

abbrev pub is_complete : CallbackInput → Bool
is_complete input = not (
    is_empty input.state
    || is_empty input.browser_cookie
    || is_empty input.code
    || is_empty input.metadata.request_id)

-- What `CompleteLogin` does with an input that names state, cookie, code and request.
complete-Settles :
    (w : World) (service : Service) (input : CallbackInput) (h : History)
    → is_complete input ≡ true
    → Settles w service input (complete_login w service input h)
unfolding complete_login
complete-Settles w service input h c =
    let all_named : (is_empty input.state
          || is_empty input.browser_cookie
          || is_empty input.code
          || is_empty input.metadata.request_id)
        ≡ false =
      ground arith in
    rw all_named (
      consume-Settles w service input (w.now h) _ (clock_read ∷ h)
        (flow_consumed (hash w service auth_flow_state input.state)
            (hash w service auth_flow_cookie input.browser_cookie) (w.now h)
          ∷ clock_read
          ∷ h)
        refl)

incomplete_fails :
    (w : World) (service : Service) (input : CallbackInput) (h : History)
    → is_complete input ≡ false
    → complete_login w service input h ≡ (fail (new_error auth_flow_invalid), h)
unfolding complete_login
incomplete_fails w service input h c = ground arith

ok_or_fail :
    (run : Result CallbackResult × History) (r : CallbackResult) (e : Error) (h h' : History)
    → run ≡ (ok r, h')
    → run ≢ (fail e, h)
ok_or_fail run r e h h' good bad = ground arith

-- A login succeeds only on all of its evidence: the flow was consumed under the state and the cookie
-- that the browser sent, its verifier decrypts and was exchanged with the code for an identity whose
-- nonce has the flow's digest and which names issuer and subject; the account of that identity was
-- found, and if it is an administrator's, the identity meets the MFA policy; and as the last call a
-- session of that account, with the digests of the returned token and of its CSRF token, expiring
-- eight hours after the login, was stored with an audit of success that names the account. The
-- result carries the stored session's expiry, and a landing for the account's type.
pub login_authenticated :
    (w : World) (service : Service) (input : CallbackInput) (h h' : History) (r : CallbackResult)
    → complete_login w service input h ≡ (ok r, h')
    → LoggedIn w service input r h'
login_authenticated w service input h h' r e = elim (Bool-cases (is_complete input)) [
  | inl c ↦ subst (Settles w service input) e (complete-Settles w service input h c)
  | inr c ↦ absurd (
      ok_or_fail (complete_login w service input h) r (new_error auth_flow_invalid) h h' e
        (incomplete_fails w service input h c))
]

-- No refused login goes unrecorded: where the input names state, cookie, code and request and the
-- login fails, its last call put a failure of that error's category, naming no account, into the
-- audit; or the audit itself failed, with the error that is returned; or the session could not be
-- stored, and that is the error.
pub login_refusals_audited :
    (w : World) (service : Service) (input : CallbackInput) (h h' : History) (e : Error)
    → is_complete input ≡ true
    → complete_login w service input h ≡ (fail e, h')
    → Refused w e h'
login_refusals_audited w service input h h' e c run =
    subst (Settles w service input) run (complete-Settles w service input h c)

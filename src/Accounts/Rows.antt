-- ===== src/Accounts/Rows.antt =====
-- query/identity.sql: what each statement does to the rows of login flows and sessions.
use mail_suite.Base.{
  ℕ, suc, Text, Uuid, Digest, Bool, true, false, ◌&&◌, ◌||◌, Option, none, some, List, [], ◌∷◌,
  ◌==◌, ◌=ₜ◌, if◌then◌else◌,
}
use mail_suite.Base.Int.{ℤ, ◌+ℤ◌, ltb_ℤ}
use mail_suite.Identity.{AuthFlowToCreate, SessionToCreate, RevocationReason}
use mail_suite.Accounts.{FlowRow, SessionRow, timestamptz, nullable_text}

abbrev pub is_unset : {A : Type 0} → Option A → Bool
is_unset none = true
is_unset (some a) = false

unfoldable pub flow_row : AuthFlowToCreate → FlowRow
flow_row flow = record {
  id = flow.id;
  state_digest = flow.state_digest;
  browser_cookie_digest = flow.browser_cookie_digest;
  nonce_digest = flow.nonce_digest;
  pkce_verifier_ciphertext = flow.pkce_verifier_ciphertext;
  encryption_key_id = flow.encryption_key_id;
  return_to = flow.return_to;
  created_at = timestamptz flow.created_at;
  expires_at = timestamptz flow.expires_at;
  consumed_at = none;
}

-- The unique constraints of a table of flows: the id and the state.
unfoldable pub flow_taken : AuthFlowToCreate → List FlowRow → Bool
flow_taken flow [] = false
flow_taken flow (row ∷ rows) =
    row.id == flow.id || row.state_digest == flow.state_digest || flow_taken flow rows

-- The guard of `ConsumeAuthFlow`.
unfoldable pub consumable : Digest → Digest → ℤ → FlowRow → Bool
consumable state cookie at row =
    row.state_digest == state
    && row.browser_cookie_digest == cookie
    && is_unset row.consumed_at
    && ltb_ℤ at row.expires_at

unfoldable pub consume_row : Digest → Digest → ℤ → FlowRow → FlowRow
consume_row state cookie at row =
    if consumable state cookie at row then record row { consumed_at = some at } else row

unfoldable pub consume_rows : Digest → Digest → ℤ → List FlowRow → List FlowRow
consume_rows state cookie at [] = []
consume_rows state cookie at (row ∷ rows) =
    consume_row state cookie at row ∷ consume_rows state cookie at rows

-- The row that `ConsumeAuthFlow` returns, as it was.
unfoldable pub find_consumable : Digest → Digest → ℤ → List FlowRow → Option FlowRow
find_consumable state cookie at [] = none
find_consumable state cookie at (row ∷ rows) =
    let rest = find_consumable state cookie at rows in
    if consumable state cookie at row then some row else rest

unfoldable pub session_row : SessionToCreate → SessionRow
session_row session = record {
  id = session.id;
  session_digest = session.session_digest;
  principal_id = session.principal_id;
  oidc_issuer = session.oidc_issuer;
  oidc_subject = session.oidc_subject;
  oidc_session_id = nullable_text session.oidc_session_id;
  csrf_digest = session.csrf_digest;
  created_at = timestamptz session.created_at;
  last_seen_at = timestamptz session.created_at;
  idle_expires_at = timestamptz session.idle_expires_at;
  absolute_expires_at = timestamptz session.absolute_expires_at;
  revoked = none;
}

unfoldable pub session_taken : SessionToCreate → List SessionRow → Bool
session_taken session [] = false
session_taken session (row ∷ rows) =
    row.id == session.id
    || row.session_digest == session.session_digest
    || session_taken session rows

-- A session that is neither revoked nor expired at an instant.
unfoldable pub is_live : ℤ → SessionRow → Bool
is_live at row =
    is_unset row.revoked && ltb_ℤ at row.idle_expires_at && ltb_ℤ at row.absolute_expires_at

-- `LEAST(a, b)`
abbrev pub least : ℤ → ℤ → ℤ
least a b = if ltb_ℤ a b then a else b

-- `TouchActiveSession`
unfoldable pub touch_row : Uuid → ℤ → ℤ → SessionRow → SessionRow
touch_row id at idle_timeout row =
    if row.id == id && is_live at row
    then record row {
      last_seen_at = at;
      idle_expires_at = least (at +ℤ idle_timeout) row.absolute_expires_at;
    }
    else row

unfoldable pub touch_rows : Uuid → ℤ → ℤ → List SessionRow → List SessionRow
touch_rows id at idle_timeout [] = []
touch_rows id at idle_timeout (row ∷ rows) =
    touch_row id at idle_timeout row ∷ touch_rows id at idle_timeout rows

unfoldable pub find_touchable : Uuid → ℤ → List SessionRow → Option SessionRow
find_touchable id at [] = none
find_touchable id at (row ∷ rows) =
    let rest = find_touchable id at rows in
    if row.id == id && is_live at row then some row else rest

-- Which sessions a revocation is for.
pub data Target : Type 0 where
  by_digest : Digest → Target
  by_session_id : Text → Text → Target
  by_subject : Text → Text → Target

abbrev is_text : Text → Option Text → Bool
is_text t none = false
is_text t (some u) = u =ₜ t

unfoldable pub is_target : Target → SessionRow → Bool
is_target (by_digest digest) row = row.session_digest == digest
is_target (by_session_id issuer session_id) row =
    row.oidc_issuer =ₜ issuer && is_text session_id row.oidc_session_id
is_target (by_subject issuer subject) row = row.oidc_issuer =ₜ issuer && row.oidc_subject =ₜ subject

-- The three revocations: what is revoked stays as it is.
unfoldable pub revoke_row : Target → ℤ → RevocationReason → SessionRow → SessionRow
revoke_row target at reason row =
    if is_target target row && is_unset row.revoked
    then record row { revoked = some (at, reason) }
    else row

unfoldable pub revoke_rows : Target → ℤ → RevocationReason → List SessionRow → List SessionRow
revoke_rows target at reason [] = []
revoke_rows target at reason (row ∷ rows) =
    revoke_row target at reason row ∷ revoke_rows target at reason rows

-- The number of rows that a revocation changes.
unfoldable pub revoked_count : Target → List SessionRow → ℕ
revoked_count target [] = 0
revoked_count target (row ∷ rows) =
    let rest = revoked_count target rows in
    if is_target target row && is_unset row.revoked then suc rest else rest

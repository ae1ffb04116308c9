-- ===== src/Accounts/Flows.antt =====
-- `CreateAuthFlow` and `ConsumeAuthFlow`. `outage` is the error of the statement, if it fails.
use mail_suite.Base.{[], Digest, Option, none, some, ◌∷◌, if◌then◌else◌}
use mail_suite.Base.Int.{ℤ, pos, ◌=ℤ◌}
use mail_suite.Errors.{
  invalid_request, auth_flow_invalid, constraint_violation, Error, plain, Result, ok, fail,
}
use mail_suite.Identity.{new_error, AuthFlowToCreate, ConsumedAuthFlow}
use mail_suite.Identity.ReturnPath.{Host}
use mail_suite.Accounts.{FlowRow, Store, rejects_flow, identity_persistence_error, timestamptz}
use mail_suite.Accounts.Rows.{flow_row, flow_taken, consume_rows, find_consumable}

-- The insertion, which the unique constraints may refuse.
unfoldable pub insert_flow : Option Error → AuthFlowToCreate → Store → Option Error × Store
insert_flow (some e) flow s = (some (identity_persistence_error e), s)
insert_flow none flow s =
    if flow_taken flow s.flows
    then (some (identity_persistence_error (plain (constraint_violation []))), s)
    else (none, record s { flows = flow_row flow ∷ s.flows })

unfoldable pub create_auth_flow :
    Host → Option Error → AuthFlowToCreate → Store → Option Error × Store
create_auth_flow host outage flow s =
    if rejects_flow host flow
    then (some (new_error invalid_request), s)
    else insert_flow outage flow s

-- A stored digest has its 32 bytes, by a constraint of the table.
unfoldable pub consumed_flow : ℤ → FlowRow → ConsumedAuthFlow
consumed_flow at row = record {
  id = row.id;
  nonce_digest = row.nonce_digest;
  pkce_verifier_ciphertext = row.pkce_verifier_ciphertext;
  encryption_key_id = row.encryption_key_id;
  return_to = row.return_to;
  expires_at = row.expires_at;
  consumed_at = at;
}

unfoldable pub consumed_with : ℤ → Option FlowRow → Result ConsumedAuthFlow
consumed_with at none = fail (new_error auth_flow_invalid)
consumed_with at (some row) = ok (consumed_flow at row)

unfoldable pub update_flow :
    Option Error → Digest → Digest → ℤ → Store → Result ConsumedAuthFlow × Store
update_flow (some e) state cookie at s = (fail (identity_persistence_error e), s)
update_flow none state cookie at s = (
  consumed_with at (find_consumable state cookie at s.flows),
  record s { flows = consume_rows state cookie at s.flows },
)

unfoldable pub consume_auth_flow :
    Option Error → Digest → Digest → ℤ → Store → Result ConsumedAuthFlow × Store
consume_auth_flow outage state cookie consumed_at s =
    if consumed_at =ℤ pos 0
    then (fail (new_error invalid_request), s)
    else update_flow outage state cookie (timestamptz consumed_at) s

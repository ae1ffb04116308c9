-- ===== src/Accounts/Resolve.antt =====
-- `ResolveSession`: the session and its account, and the touch that moves its idle expiry.
use mail_suite.Base.{
  Text, Uuid, Digest, Bool, ◌&&◌, not, Option, none, some, List, [], ◌∷◌, ◌==◌, ◌/◌, ◌*◌,
  if◌then◌else◌,
}
use mail_suite.Base.Int.{ℤ, pos, negsuc, ◌+ℤ◌, ltb_ℤ, ◌=ℤ◌}
use mail_suite.Errors.{invalid_request, auth_required, Error, Result, ok, fail}
use mail_suite.Identity.{new_error, Principal, Session}
use mail_suite.Accounts.{
  IdentityRepository, timestamptz, SessionRow, PrincipalRow, Store, is_admitted, principal_from_row,
}
use mail_suite.Accounts.Rows.{is_live, touch_rows, find_touchable, least}
use mail_suite.Accounts.Sessions.{persistence, unless_failed}

-- The account of a session, if it may enter.
unfoldable pub account_of : Store → Uuid → List PrincipalRow → Option PrincipalRow
account_of s id [] = none
account_of s id (row ∷ rows) =
    let rest = account_of s id rows in if row.id == id && is_admitted s row then some row else rest

abbrev pub with_account : SessionRow → Option PrincipalRow → Option (SessionRow × PrincipalRow)
with_account row none = none
with_account row (some p) = some (row, p)

-- `GetActiveSessionByDigest`
unfoldable pub find_session :
    Store → Digest → ℤ → List SessionRow → Option (SessionRow × PrincipalRow)
find_session s digest at [] = none
find_session s digest at (row ∷ rows) =
    let rest = find_session s digest at rows in
    if row.session_digest == digest && is_live at row
    then with_account row (account_of s row.principal_id s.principals)
    else rest

-- How the three statements fail, each of which is a transaction of its own, and what others commit before
-- the permissions are read and before the touch.
pub record Interruptions : Type 0 where
  pub select_fails : Option Error
  pub permissions_fail : Option Error
  pub touch_fails : Option Error
  pub before_permissions : Store → Store
  pub before_touch : Store → Store

abbrev pub session_of : SessionRow → Principal → List Text → Session
session_of row principal permissions = record {
  id = row.id;
  principal = principal;
  permissions = permissions;
  created_at = row.created_at;
  last_seen_at = row.last_seen_at;
  idle_expires_at = row.idle_expires_at;
  absolute_expires_at = row.absolute_expires_at;
  csrf_digest = row.csrf_digest;
}

-- `idleTimeout.Microseconds()`, in nanoseconds, for a duration that is not negative.
unfoldable pub whole_microseconds : ℤ → ℤ
whole_microseconds (pos n) = pos (n / 1000 * 1000)
whole_microseconds (negsuc n) = negsuc n

module _ (repository : IdentityRepository) where
  unfoldable pub touched : ℤ → Session → Option SessionRow → Result Session
  touched at session none = fail (new_error auth_required)
  touched at session (some row) = ok (record session {
    last_seen_at = at;
    idle_expires_at =
        least (at +ℤ whole_microseconds repository.idle_timeout) row.absolute_expires_at;
  })

  unfoldable pub touch : Option Error → Session → ℤ → Store → Result Session × Store
  touch (some e) session at s = (fail (persistence e), s)
  touch none session at s = (
    touched at session (find_touchable session.id at s.sessions),
    record s {
      sessions = touch_rows session.id at (whole_microseconds repository.idle_timeout) s.sessions;
    },
  )

  -- Whether the session was last touched long enough ago.
  unfoldable pub is_stale : ℤ → Session → Bool
  is_stale at session = not (ltb_ℤ at (session.last_seen_at +ℤ repository.touch_interval))

  unfoldable pub with_permissions :
      Interruptions → ℤ → SessionRow → Result Principal → Store → Result Session × Store
  with_permissions o at row (fail e) s = (fail e, s)
  with_permissions o at row (ok principal) s =
      let seen : Store = o.before_permissions s in
      let session : Session = session_of row principal (seen.permissions row.principal_id) in
      unless_failed o.permissions_fail seen (
        if is_stale at session
        then touch o.touch_fails session (timestamptz at) (o.before_touch seen)
        else (ok session, seen))

  unfoldable pub with_found :
      Interruptions → ℤ → Option (SessionRow × PrincipalRow) → Store → Result Session × Store
  with_found o at none s = (fail (new_error auth_required), s)
  with_found o at (some (row, p)) s = with_permissions o at row (principal_from_row p) s

  unfoldable pub resolve_session : Interruptions → Digest → ℤ → Store → Result Session × Store
  resolve_session o digest checked_at s =
      if checked_at =ℤ pos 0
      then (fail (new_error invalid_request), s)
      else unless_failed o.select_fails s
          (with_found o checked_at (find_session s digest (timestamptz checked_at) s.sessions) s)

-- ===== src/Accounts/Lifetimes.antt =====
-- The lifetimes of sessions, from `createSession` through `TouchActiveSession`.
use mail_suite.Base.{Uuid, ◌≡◌, sym, subst, false, List, [], ◌∷◌, All, arith}
use mail_suite.Base.Int.{ℤ, pos, negsuc, ◌+ℤ◌, ◌≤ℤ◌}
use mail_suite.Identity.{default_session_absolute_timeout, SessionToCreate, RevocationReason}
use mail_suite.Accounts.{SessionRow, Store, timestamptz, rejects_session}
use mail_suite.Accounts.Rows.{session_row, touch_row, touch_rows, Target, revoke_row, revoke_rows}
use mail_suite.Accounts.Changes.{
  Change, same, flow_in, flow_used, session_in, touched, revoked, step-Change,
}
use mail_suite.Accounts.Steps.{Later, kept_later}

-- A session is idle no later than it ends, and ends at most eight hours after it began.
abbrev pub IsBounded : SessionRow → Type 0
IsBounded row =
    (row.idle_expires_at ≤ℤ row.absolute_expires_at)
    × (row.absolute_expires_at ≤ℤ row.created_at +ℤ default_session_absolute_timeout)

timestamptz_mono : (a b : ℤ) → a ≤ℤ b → timestamptz a ≤ℤ timestamptz b
unfolding timestamptz
timestamptz_mono (pos a) (pos b) h = ground arith
timestamptz_mono (pos a) (negsuc b) h = absurd (omega arith)
timestamptz_mono (negsuc a) (pos b) h = omega arith
timestamptz_mono (negsuc a) (negsuc b) h = ground arith

-- Eight hours are whole microseconds.
timestamptz-later :
    (a : ℤ)
    → timestamptz (a +ℤ default_session_absolute_timeout)
      ≡ timestamptz a +ℤ default_session_absolute_timeout
unfolding timestamptz ◌+ℤ◌
timestamptz-later (pos n) = ground arith
timestamptz-later (negsuc n) = ground arith

session_row-IsBounded :
    (session : SessionToCreate) → rejects_session session ≡ false → IsBounded (session_row session)
unfolding rejects_session session_row
session_row-IsBounded session h =
    let idle : session.idle_expires_at ≤ℤ session.absolute_expires_at = ground arith in
    let whole : session.absolute_expires_at
        ≤ℤ session.created_at +ℤ default_session_absolute_timeout =
      ground arith in
    (
      timestamptz_mono _ _ idle,
      subst (λ x. timestamptz session.absolute_expires_at ≤ℤ x)
          (timestamptz-later session.created_at) (timestamptz_mono _ _ whole),
    )

touch_row-IsBounded :
    (id : Uuid) (at idle : ℤ) (row : SessionRow)
    → IsBounded row
    → IsBounded (touch_row id at idle row)
unfolding touch_row
touch_row-IsBounded id at idle row h = (ground (arith, h.0), ground (arith, h.1))

revoke_row-IsBounded :
    (target : Target) (at : ℤ) (reason : RevocationReason) (row : SessionRow)
    → IsBounded row
    → IsBounded (revoke_row target at reason row)
unfolding revoke_row
revoke_row-IsBounded target at reason row h = (ground (arith, h.0), ground (arith, h.1))

touch_rows-IsBounded :
    (id : Uuid) (at idle : ℤ) (rows : List SessionRow)
    → All IsBounded rows
    → All IsBounded (touch_rows id at idle rows)
unfolding touch_rows
touch_rows-IsBounded id at idle [] h = tt
touch_rows-IsBounded id at idle (row ∷ rows) h =
    (touch_row-IsBounded id at idle row h.0, touch_rows-IsBounded id at idle rows h.1)

revoke_rows-IsBounded :
    (target : Target) (at : ℤ) (reason : RevocationReason) (rows : List SessionRow)
    → All IsBounded rows
    → All IsBounded (revoke_rows target at reason rows)
unfolding revoke_rows
revoke_rows-IsBounded target at reason [] h = tt
revoke_rows-IsBounded target at reason (row ∷ rows) h =
    (revoke_row-IsBounded target at reason row h.0, revoke_rows-IsBounded target at reason rows h.1)

abbrev Bounded : List SessionRow → Type 0
Bounded rows = All IsBounded rows

change-IsBounded : (s t : Store) → Change s t → Bounded s.sessions → Bounded t.sessions
change-IsBounded s t (same f g) h = subst Bounded (sym g) h
change-IsBounded s t (flow_in flow free f g) h = subst Bounded (sym g) h
change-IsBounded s t (flow_used state cookie at f g) h = subst Bounded (sym g) h
change-IsBounded s t (session_in session valid free f g) h =
    subst Bounded (sym g) (session_row-IsBounded session valid, h)
change-IsBounded s t (touched id at idle f g) h =
    subst Bounded (sym g) (touch_rows-IsBounded id at idle s.sessions h)
change-IsBounded s t (revoked target at reason f g) h =
    subst Bounded (sym g) (revoke_rows-IsBounded target at reason s.sessions h)

-- Whatever happens to a store that started without sessions, no session is ever idle-valid for longer than
-- it lasts at all, nor lasts longer than eight hours from its creation, however often it is touched.
pub lifetimes-IsBounded :
    (start s : Store) → start.sessions ≡ [] → Later start s → All IsBounded s.sessions
lifetimes-IsBounded start s empty after =
    kept_later (λ x. All IsBounded x.sessions)
      (λ x y step. change-IsBounded x y (step-Change x y step)) start s after
      (subst Bounded (sym empty) tt)

-- ===== src/Accounts/Live.antt =====
-- `ResolveSession`: the row and the account behind a session that it returns.
use mail_suite.Base.{
  ◌⊎◌, Uuid, Digest, ◌≡◌, refl, sym, subst, ◌⊎◌, inl, inr, Bool, true, false, ◌&&◌, Option, none,
  some, List, [], ◌∷◌, ◌==◌, arith, Bool-cases, if◌then◌else◌,
}
use mathlib.Core.List.{Memᴰ}
use mail_suite.Base.Int.{ℤ, pos, ◌<ℤ◌, ◌=ℤ◌}
use mail_suite.Errors.{Error, Result, ok, fail}
use mail_suite.Identity.{Session, Principal}
use mail_suite.Accounts.{
  IdentityRepository, SessionRow, PrincipalRow, Store, timestamptz, is_admitted, principal_from_row,
}
use mail_suite.Accounts.Entitled.{
  IsEntitled, IsPrincipalOf, admitted-IsEntitled, principal-IsPrincipalOf, ok_injective,
}
use mail_suite.Accounts.Rows.{is_unset, is_live}
use mail_suite.Accounts.Sessions.{unless_failed}
use mail_suite.Accounts.Resolve.{
  account_of, with_account, find_session, Interruptions, session_of, touched, touch, is_stale,
  with_permissions, with_found, resolve_session,
}

-- The row is a session of the digest that is neither revoked nor expired at the instant, and the account
-- is the session's and may enter.
pub record IsLive (s : Store) (d : Digest) (at : ℤ) (row : SessionRow) (p : PrincipalRow)
    : Type 0 where
  pub stored : Memᴰ row s.sessions
  pub account_stored : Memᴰ p s.principals
  pub digest : row.session_digest ≡ d
  pub unrevoked : row.revoked ≡ none
  pub idle : at <ℤ row.idle_expires_at
  pub whole : at <ℤ row.absolute_expires_at
  pub owner : p.id ≡ row.principal_id
  pub entitled : IsEntitled s p

unset_none : {A : Type 0} (o : Option A) → is_unset o ≡ true → o ≡ none
unset_none none h = refl
unset_none (some a) h = cc

some_injective : {A : Type 0} (a b : A) → some a ≡ some b → a ≡ b
some_injective a b h = cc

account_of-admitted :
    (s : Store) (id : Uuid) (rows : List PrincipalRow) (p : PrincipalRow)
    → account_of s id rows ≡ some p
    → (p.id ≡ id) × (is_admitted s p ≡ true)
unfolding account_of
account_of-admitted s id [] p h = cc
account_of-admitted s id (row ∷ rows) p h = elim (Bool-cases (row.id == id && is_admitted s row)) [
  | inl found ↦
      let equal : row ≡ p = some_injective row p (ground arith) in
      subst (λ x. (x.id ≡ id) × (is_admitted s x ≡ true)) equal (ground arith, ground arith)
  | inr other ↦ account_of-admitted s id rows p (ground arith)
]

live_parts :
    (at : ℤ) (row : SessionRow)
    → is_live at row ≡ true
    → (is_unset row.revoked ≡ true) × (at <ℤ row.idle_expires_at) × (at <ℤ row.absolute_expires_at)
unfolding is_live
live_parts at row h = (ground arith, ground arith, ground arith)

account_of-Memᴰ :
    (s : Store) (id : Uuid) (rows : List PrincipalRow) (p : PrincipalRow)
    → account_of s id rows ≡ some p
    → Memᴰ p rows
unfolding account_of
account_of-Memᴰ s id [] p h = cc
account_of-Memᴰ s id (row ∷ rows) p h = elim (Bool-cases (row.id == id && is_admitted s row)) [
  | inl found ↦ Memᴰ.head (sym (some_injective row p (ground (arith, found))))
  | inr other ↦ Memᴰ.tail (account_of-Memᴰ s id rows p (ground (arith, other)))
]

-- The account that joins a live row.
joined-IsLive :
    (s : Store) (d : Digest) (at : ℤ) (r row : SessionRow) (p : PrincipalRow)
    (o : Option PrincipalRow)
    → Memᴰ r s.sessions
    → r.session_digest ≡ d
    → is_live at r ≡ true
    → account_of s r.principal_id s.principals ≡ o
    → with_account r o ≡ some (row, p)
    → IsLive s d at row p
joined-IsLive s d at r row p none m e live a h = cc
joined-IsLive s d at r row p (some q) m e live a h =
    let pair = some_injective (r, q) (row, p) h in
    let (unset, idle, whole) = live_parts at r live in
    let (owner, admitted) = account_of-admitted s r.principal_id s.principals q a in
    subst (λ x. IsLive s d at x.0 x.1) pair
      (record {
        stored = m;
        account_stored = account_of-Memᴰ s r.principal_id s.principals q a;
        digest = e;
        unrevoked = unset_none r.revoked unset;
        idle = idle;
        whole = whole;
        owner = owner;
        entitled = admitted-IsEntitled s q admitted;
      })

find_session-IsLive :
    (s : Store) (d : Digest) (at : ℤ) (rows : List SessionRow) (row : SessionRow) (p : PrincipalRow)
    → ((r : SessionRow) → Memᴰ r rows → Memᴰ r s.sessions)
    → find_session s d at rows ≡ some (row, p)
    → IsLive s d at row p
unfolding find_session
find_session-IsLive s d at [] row p within h = cc
find_session-IsLive s d at (r ∷ rows) row p within h =
    elim (Bool-cases (r.session_digest == d && is_live at r)) [
      | inl found ↦
          joined-IsLive s d at r row p _ (within r (Memᴰ.head refl)) (ground arith) (ground arith)
            refl (ground (arith, found))
      | inr other ↦
          find_session-IsLive s d at rows row p (λ x m. within x (Memᴰ.tail m))
            (ground (arith, other))
    ]

-- The session carries the row's identity, the account's principal and its permissions.
abbrev pub Carries : Store → SessionRow → PrincipalRow → Session → Type 0
Carries s row p session =
    (session.id ≡ row.id)
    × (session.csrf_digest ≡ row.csrf_digest)
    × (session.permissions ≡ s.permissions row.principal_id)
    × IsPrincipalOf p session.principal

module _ (repository : IdentityRepository) where
  touched-Carries :
      (s : Store) (row : SessionRow) (p : PrincipalRow) (at : ℤ) (before session : Session)
      (o : Option SessionRow)
      → Carries s row p before
      → touched repository at before o ≡ ok session
      → Carries s row p session
  unfolding touched
  touched-Carries s row p at before session none c h = cc
  touched-Carries s row p at before session (some r) c h =
      subst (Carries s row p) (ok_injective _ session h) c

  touch-Carries :
      (s t : Store) (row : SessionRow) (p : PrincipalRow) (at : ℤ) (before session : Session)
      (o : Option Error)
      → Carries s row p before
      → (touch repository o before at t).0 ≡ ok session
      → Carries s row p session
  unfolding touch
  touch-Carries s t row p at before session (some e) c h = cc
  touch-Carries s t row p at before session none c h =
      touched-Carries s row p at before session _ c h

  value_if :
      (c : Bool) (x y : Result Session × Store) (session : Session)
      → (if c then x else y).0 ≡ ok session
      → (x.0 ≡ ok session) ⊎ (y.0 ≡ ok session)
  value_if true x y session h = inl h
  value_if false x y session h = inr h

  not_failed :
      (e : Option Error) (s : Store) (run : Result Session × Store) (session : Session)
      → (unless_failed e s run).0 ≡ ok session
      → run.0 ≡ ok session
  unfolding unless_failed
  not_failed none s run session h = h
  not_failed (some e) s run session h = cc

  permissions-Carries :
      (o : Interruptions) (at : ℤ) (s : Store) (row : SessionRow) (p : PrincipalRow)
      (r : Result Principal) (session : Session)
      → principal_from_row p ≡ r
      → (with_permissions repository o at row r s).0 ≡ ok session
      → Carries (o.before_permissions s) row p session
  unfolding with_permissions
  permissions-Carries o at s row p (fail e) session account h = cc
  permissions-Carries o at s row p (ok principal) session account h =
      let seen : Store = o.before_permissions s in
      let before : Session = session_of row principal (seen.permissions row.principal_id) in
      let c : Carries seen row p before =
        (refl, refl, refl, principal-IsPrincipalOf p principal account) in
      elim (value_if (is_stale repository at before)
        (touch repository o.touch_fails before (timestamptz at) (o.before_touch seen))
        (ok before, seen) session (not_failed o.permissions_fail seen _ session h)) [
          | inl fresh ↦
              touch-Carries seen (o.before_touch seen) row p (timestamptz at) before session
                o.touch_fails c fresh
          | inr still ↦ subst (Carries seen row p) (ok_injective before session still) c
        ]

  found-Carries :
      (o : Interruptions) (d : Digest) (at : ℤ) (s : Store)
      (found : Option (SessionRow × PrincipalRow)) (session : Session)
      → find_session s d (timestamptz at) s.sessions ≡ found
      → (with_found repository o at found s).0 ≡ ok session
      → (row : SessionRow) × (p : PrincipalRow) × IsLive s d (timestamptz at) row p
        × Carries (o.before_permissions s) row p session
  unfolding with_found
  found-Carries o d at s none session f h = cc
  found-Carries o d at s (some (row, p)) session f h = (
    row,
    p,
    find_session-IsLive s d (timestamptz at) s.sessions row p (λ x m. m) f,
    permissions-Carries o at s row p _ session refl h,
  )

-- A session that `ResolveSession` returns is a row that the store had when the session was looked up, with
-- the digest of the cookie, not revoked and not expired at the instant, of an account in that store that
-- is active, with an active tenant, and with a mailbox that serves or the permission for the
-- administration. The session carries the row's CSRF digest and that account's principal, and the
-- permissions that were stored when they were read, whatever others commit before that and before the
-- touch.
pub resolved-IsLive :
    (repository : IdentityRepository) (o : Interruptions) (d : Digest) (at : ℤ) (s : Store)
    (session : Session)
    → (resolve_session repository o d at s).0 ≡ ok session
    → (row : SessionRow) × (p : PrincipalRow) × IsLive s d (timestamptz at) row p
      × Carries (o.before_permissions s) row p session
unfolding resolve_session
resolved-IsLive repository o d at s session h =
    elim (value_if repository (at =ℤ pos 0) _ _ session h) [
      | inl zero_time ↦ cc
      | inr found ↦
          found-Carries repository o d at s _ session refl
            (not_failed repository o.select_fails s _ session found)
    ]

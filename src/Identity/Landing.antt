-- ===== src/Identity/Landing.antt =====
-- Where a login lands, and which identities satisfy the MFA policy.
use mail_suite.Base.{
  ◌≡◌, refl, ◌≢◌, sym, subst, ◌⊎◌, inl, inr, ◌↔◌, Text, codes, Bool, true, false, ◌||◌, List, [],
  ◌∷◌, ◌++◌, arith, ◌=ₜ◌, =ₜ→eq, =ₜ_refl, has_prefix, Bool-cases, if◌then◌else◌,
}
use mail_suite.Identity.{AccountType, mailbox, administrator}
use mail_suite.Identity.World.{MfaPolicy, OidcIdentity}
use mail_suite.Identity.Service.{
  path_only, in_portal, landing_for, default_mailbox_landing, default_admin_landing, has_text,
  has_all, has_none, mfa_satisfied,
}

-- The portal itself, or a path below it.
abbrev pub IsWithin : Text → Text → Type 0
IsWithin portal path = (path ≡ portal) ⊎ (rest : Text) × (path ≡ portal ++ codes "/" ++ rest)

prefix_rest : (t p : Text) → has_prefix t p ≡ true → (rest : Text) × (t ≡ p ++ rest)
prefix_rest t [] h = (t, refl)
prefix_rest [] (d ∷ p) h = absurd (ground arith)
prefix_rest (c ∷ t) (d ∷ p) h =
    let (rest, e) = prefix_rest t p (ground arith) in (rest, ground (arith, e))

true_or_false : (b : Bool) → b ≡ true → b ≢ false
true_or_false b t f = ground arith

in_portal-IsWithin :
    (portal path : Text) → in_portal portal (portal ++ codes "/") path ≡ true → IsWithin portal path
in_portal-IsWithin portal path h = elim (Bool-cases (path =ₜ portal)) [
  | inl same ↦ inl (=ₜ→eq path portal same)
  | inr other ↦
      let (rest, e) = prefix_rest path (portal ++ codes "/") (ground arith) in inr (rest, e)
]

has_prefix-append : (p t : Text) → has_prefix (p ++ t) p ≡ true
has_prefix-append [] t = refl
has_prefix-append (c ∷ p) t = ground (arith, has_prefix-append p t)

IsWithin-in_portal :
    (portal path : Text) → IsWithin portal path → in_portal portal (portal ++ codes "/") path ≡ true
IsWithin-in_portal portal path (inl e) = rw (e, =ₜ_refl portal) refl
IsWithin-in_portal portal path (inr (rest, e)) =
    let found : has_prefix path (portal ++ codes "/") ≡ true =
      subst (λ x. has_prefix x (portal ++ codes "/") ≡ true) (sym e)
        (has_prefix-append (portal ++ codes "/") rest) in
    ground arith

-- A choice between a candidate that passes and a default that is in the portal.
choice-IsWithin :
    (portal fallback candidate : Text)
    → IsWithin portal (path_only fallback)
    → let chosen =
        if in_portal portal (portal ++ codes "/") (path_only candidate)
        then candidate
        else fallback in
      IsWithin portal (path_only chosen)
      × (IsWithin portal (path_only candidate) → chosen ≡ candidate)
choice-IsWithin portal fallback candidate home =
    elim (Bool-cases (in_portal portal (portal ++ codes "/") (path_only candidate))) [
      | inl passes ↦
          rw passes (in_portal-IsWithin portal (path_only candidate) passes, λ within. refl)
      | inr stray ↦ rw stray (
        home,
        λ within.
            absurd (true_or_false _ (IsWithin-in_portal portal (path_only candidate) within) stray),
      )
    ]

-- The portal of an account type; a type of neither kind has none.
abbrev pub LandsHome : AccountType → Text → Type 0
LandsHome mailbox t = IsWithin (codes "/mail") (path_only t)
LandsHome administrator t = IsWithin (codes "/admin") (path_only t)
LandsHome (AccountType.other s) t = t ≡ codes "/forbidden"

-- Whatever return path a login carried, a mailbox account lands in the mail portal, an administrator
-- in the admin portal, and any other type on the forbidden page; and a return path in the account's
-- own portal is kept as it is.
pub landing_for_home :
    (type : AccountType) (candidate : Text)
    → LandsHome type (landing_for type candidate)
      × ((type ≡ mailbox) ⊎ (type ≡ administrator)
          → LandsHome type candidate
          → landing_for type candidate ≡ candidate)
unfolding landing_for path_only
landing_for_home mailbox candidate =
    let (home, kept) =
      choice-IsWithin (codes "/mail") default_mailbox_landing candidate
        (inr (codes "inbox", refl)) in
    (home, λ _ within. kept within)
landing_for_home administrator candidate =
    let (home, kept) =
      choice-IsWithin (codes "/admin") default_admin_landing candidate
        (inr (codes "overview", refl)) in
    (home, λ _ within. kept within)
landing_for_home (AccountType.other s) candidate = (refl, λ known. absurd (ground arith))

pub data IsMember (t : Text) : List Text → Type 0 where
  head : {u : Text} {l : List Text} → u ≡ t → IsMember t (u ∷ l)
  tail : {u : Text} {l : List Text} → IsMember t l → IsMember t (u ∷ l)

has_text-IsMember : (l : List Text) (t : Text) → has_text l t ≡ true → IsMember t l
has_text-IsMember [] t h = absurd (ground arith)
has_text-IsMember (u ∷ l) t h = elim (Bool-cases (u =ₜ t)) [
  | inl same ↦ head (=ₜ→eq u t same)
  | inr other ↦ tail (has_text-IsMember l t (ground arith))
]

IsMember-has_text : {t : Text} {l : List Text} → IsMember t l → has_text l t ≡ true
IsMember-has_text {t} (head {u} {l} e) =
    let same : (u =ₜ t) ≡ true = subst (λ x. (u =ₜ x) ≡ true) e (=ₜ_refl u) in ground arith
IsMember-has_text (tail m) = ground (arith, IsMember-has_text m)

has_all-covers :
    (have l : List Text) (t : Text) → has_all have l ≡ true → IsMember t l → IsMember t have
has_all-covers have [] t h m = elim m [ ]
has_all-covers have (u ∷ l) t h (head e) =
    subst (λ x. IsMember x have) e (has_text-IsMember have u (ground arith))
has_all-covers have (u ∷ l) t h (tail m) = has_all-covers have l t (ground arith) m

covers-has_all :
    (have l : List Text) → ((t : Text) → IsMember t l → IsMember t have) → has_all have l ≡ true
covers-has_all have [] h = refl
covers-has_all have (u ∷ l) h =
    let here = IsMember-has_text (h u (head refl)) in
    let rest = covers-has_all have l (λ t m. h t (tail m)) in ground (arith, here, rest)

allowed_exact :
    (l : List Text) (t : Text) → ((has_none l || has_text l t) ≡ true) ↔ ((l ≡ []) ⊎ IsMember t l)
allowed_exact [] t = (λ h. inl refl, λ h. refl)
allowed_exact (u ∷ l) t = (
  λ h. inr (has_text-IsMember (u ∷ l) t h),
  λ h. elim h [ inl e ↦ absurd (ground (arith, e)) | inr m ↦ IsMember-has_text m ],
)

-- The policy is met exactly if its list of allowed ACR values is empty or holds the identity's, and
-- each required AMR value is among the identity's.
pub mfa_satisfied_exact :
    (policy : MfaPolicy) (external : OidcIdentity)
    → (mfa_satisfied policy external ≡ true)
      ↔ ((policy.allowed_acr ≡ []) ⊎ IsMember external.acr policy.allowed_acr)
        × ((t : Text) → IsMember t policy.required_amr → IsMember t external.amr)
unfolding mfa_satisfied
mfa_satisfied_exact policy external =
    let (to, from) = allowed_exact policy.allowed_acr external.acr in
    (
      λ h. (
        to (ground arith),
        λ t m. has_all-covers external.amr policy.required_amr t (ground arith) m,
      ),
      λ h.
          let allowed = from h.0 in
          let required = covers-has_all external.amr policy.required_amr h.1 in
          ground (arith, allowed, required),
    )

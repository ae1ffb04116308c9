-- ===== src/Accounts/Entitled.antt =====
-- Which account may enter, and what its principal is.
use mail_suite.Base.{
  ◌++◌, Text, codes, ◌⊎◌, ◌=ₜ◌, =ₜ→eq, Uuid, ◌≡◌, refl, sym, subst, ◌⊎◌, inl, inr, Bool, true,
  Option, none, some, List, [], ◌∷◌, arith, Bool-cases,
}
use mathlib.Core.List.{Memᴰ}
use mail_suite.Errors.{Result, ok, fail}
use mail_suite.Identity.{Mailbox, AccountType, Principal}
use mail_suite.Accounts.{
  mailbox_from, principal_with, has_text, has_entry, PrincipalRow, Store, is_admitted,
  principal_from_row,
}

-- The account and its tenant are active, and it has a mailbox that serves or the permission for the
-- administration.
pub record IsEntitled (s : Store) (p : PrincipalRow) : Type 0 where
  pub active : p.is_active ≡ true
  pub tenant : p.tenant_active ≡ true
  pub entry :
      (p.account_type ≡ AccountType.mailbox) × (p.serves_mailbox ≡ true)
      ⊎ (p.account_type ≡ AccountType.administrator)
        × Memᴰ (codes "portal.admin.access") (s.permissions p.id)

has_text-Memᴰ : (t : Text) (l : List Text) → has_text t l ≡ true → Memᴰ t l
has_text-Memᴰ t [] h = absurd (ground arith)
has_text-Memᴰ t (u ∷ l) h = elim (Bool-cases (u =ₜ t)) [
  | inl same ↦ Memᴰ.head (sym (=ₜ→eq u t same))
  | inr other ↦ Memᴰ.tail (has_text-Memᴰ t l (ground arith))
]

entry-of :
    (k : AccountType) (serves : Bool) (permissions : List Text)
    → has_entry k serves permissions ≡ true
    → (k ≡ AccountType.mailbox) × (serves ≡ true)
      ⊎ (k ≡ AccountType.administrator) × Memᴰ (codes "portal.admin.access") permissions
unfolding has_entry
entry-of AccountType.mailbox serves permissions h = inl (refl, h)
entry-of AccountType.administrator serves permissions h = inr (refl, has_text-Memᴰ _ permissions h)
entry-of (AccountType.other s) serves permissions h = cc

pub admitted-IsEntitled : (s : Store) (p : PrincipalRow) → is_admitted s p ≡ true → IsEntitled s p
unfolding is_admitted
admitted-IsEntitled s p h = record {
  active = ground arith;
  tenant = ground arith;
  entry = entry-of p.account_type p.serves_mailbox (s.permissions p.id) (ground arith);
}

pub ok_injective : {A : Type 0} (a b : A) → ok a ≡ ok b → a ≡ b
ok_injective a b h = cc

-- The mailbox of an account: its address for the type `mailbox`, none for an administrator.
abbrev pub IsMailboxOf : PrincipalRow → Option Mailbox → Type 0
IsMailboxOf p m =
    (p.account_type ≡ AccountType.administrator) × (m ≡ none)
    ⊎ (id : Uuid) × (local_part : Text) × (domain : Text) × (p.account_type ≡ AccountType.mailbox)
      × (p.mailbox_id ≡ some id)
      × (p.mailbox_local_part ≡ some local_part)
      × (p.mailbox_domain ≡ some domain)
      × (m ≡ some (record { id = id; address = local_part ++ b'@' ∷ domain }))

-- The principal is the account of the row.
pub record IsPrincipalOf (p : PrincipalRow) (principal : Principal) : Type 0 where
  pub id : principal.id ≡ p.id
  pub tenant : principal.tenant_id ≡ p.tenant_id
  pub account_type : principal.account_type ≡ p.account_type
  pub name : principal.display_name ≡ p.display_name
  pub mailbox : IsMailboxOf p principal.mailbox

mailbox_from-IsMailboxOf :
    (p : PrincipalRow) (k : AccountType) (i : Option Uuid) (l d : Option Text) (m : Option Mailbox)
    → p.account_type ≡ k
    → p.mailbox_id ≡ i
    → p.mailbox_local_part ≡ l
    → p.mailbox_domain ≡ d
    → ◌≡◌ {A = Result (Option Mailbox)} (mailbox_from k i l d) (ok m)
    → IsMailboxOf p m
unfolding mailbox_from
mailbox_from-IsMailboxOf p AccountType.mailbox (some i) (some l) (some d) m ek ei el ed h =
    inr (i, l, d, ek, ei, el, ed, sym (ok_injective _ m h))
mailbox_from-IsMailboxOf p AccountType.mailbox (some i) (some l) none m ek ei el ed h = cc
mailbox_from-IsMailboxOf p AccountType.mailbox (some i) none d m ek ei el ed h = cc
mailbox_from-IsMailboxOf p AccountType.mailbox none l d m ek ei el ed h = cc
mailbox_from-IsMailboxOf p AccountType.administrator none none none m ek ei el ed h =
    inl (ek, sym (ok_injective none m h))
mailbox_from-IsMailboxOf p AccountType.administrator (some i) l d m ek ei el ed h = cc
mailbox_from-IsMailboxOf p AccountType.administrator none (some l) d m ek ei el ed h = cc
mailbox_from-IsMailboxOf p AccountType.administrator none none (some d) m ek ei el ed h = cc
mailbox_from-IsMailboxOf p (AccountType.other s) i l d m ek ei el ed h = cc

principal_with-IsPrincipalOf :
    (p : PrincipalRow) (r : Result (Option Mailbox)) (principal : Principal)
    → ◌≡◌ {A = Result (Option Mailbox)}
        (mailbox_from p.account_type p.mailbox_id p.mailbox_local_part p.mailbox_domain)
        r
    → principal_with p r ≡ ok principal
    → IsPrincipalOf p principal
unfolding principal_with
principal_with-IsPrincipalOf p (fail e) principal m h = cc
principal_with-IsPrincipalOf p (ok mailbox) principal m h =
    subst (IsPrincipalOf p) (ok_injective _ principal h) (record {
      id = refl;
      tenant = refl;
      account_type = refl;
      name = refl;
      mailbox = mailbox_from-IsMailboxOf p _ _ _ _ mailbox refl refl refl refl m;
    })

pub principal-IsPrincipalOf :
    (p : PrincipalRow) (principal : Principal)
    → principal_from_row p ≡ ok principal
    → IsPrincipalOf p principal
unfolding principal_from_row
principal-IsPrincipalOf p principal h = principal_with-IsPrincipalOf p _ principal refl h

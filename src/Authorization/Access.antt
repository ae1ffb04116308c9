-- ===== src/Authorization/Access.antt =====
-- Tenant and mailbox isolation: which resources a session reaches, and what a refusal gives away.
use mail_suite.Base.{
  ◌≡◌, refl, ◌≢◌, ◌⊎◌, inl, inr, ◌↔◌, sym, ◌∙◌, Text, Uuid, nil_uuid, true, false, Option, none,
  some, arith,
}
use mail_suite.Errors.{ok}
use mail_suite.Identity.{
  AccountType, administrator, valid_account_type, Mailbox, Principal, SessionView,
  permission_portal_admin_access,
}
use mail_suite.Authorization.{
  Context, sort, has_permission, id_of_mailbox, rejects_mailbox, Host, new_context,
  require_administrator, require_mailbox, Resource, require_resource,
}
use mail_suite.Authorization.Permissions.{IsIn, search_sorted}

-- The account of a context: a mailbox account with its mailbox, or an administrator with none.
pub data IsAccount (principal : Principal) (mailbox_id : Uuid) : Type 0 where
  of_mailbox :
      (m : Mailbox)
      → principal.account_type ≡ AccountType.mailbox
      → principal.mailbox ≡ some m
      → m.id ≢ nil_uuid
      → mailbox_id ≡ m.id
      → IsAccount principal mailbox_id
  of_administrator :
      principal.account_type ≡ AccountType.administrator
      → principal.mailbox ≡ none
      → mailbox_id ≡ nil_uuid
      → IsAccount principal mailbox_id

accepted-IsAccount :
    (principal : Principal)
    → valid_account_type principal.account_type ≡ true
    → rejects_mailbox principal ≡ false
    → IsAccount principal (id_of_mailbox principal.mailbox)
unfolding valid_account_type rejects_mailbox
accepted-IsAccount principal v r = go principal.account_type principal.mailbox refl refl
  where
    go :
        (t : AccountType) (m : Option Mailbox)
        → principal.account_type ≡ t
        → principal.mailbox ≡ m
        → IsAccount principal (id_of_mailbox principal.mailbox)
    go AccountType.mailbox none et em = absurd (ground arith)
    go AccountType.mailbox (some m) et em = of_mailbox m et em (ground arith) (rw em)
    go AccountType.administrator none et em = of_administrator et em (rw em)
    go AccountType.administrator (some m) et em = absurd (ground arith)
    go (AccountType.other s) m et em = absurd (ground arith)

-- What a context takes over from the session that it was made of.
pub record IsOf (host : Host) (view : SessionView) (context : Context) : Type 0 where
  pub principal : context.principal_id ≡ view.session.principal.id
  pub principal_set : context.principal_id ≢ nil_uuid
  pub tenant : context.tenant_id ≡ view.session.principal.tenant_id
  pub tenant_set : context.tenant_id ≢ nil_uuid
  pub account_type : context.account_type ≡ view.session.principal.account_type
  pub account : IsAccount view.session.principal context.mailbox_id
  pub permissions : context.permissions ≡ sort view.session.permissions
  pub csrf : context.csrf_digest ≡ host.sha256 view.csrf_token
  pub unverified : context.csrf_verified ≡ false

new_context-IsOf :
    (host : Host) (view : SessionView) (request_id : Text) (context : Context)
    → new_context host (some view) request_id ≡ ok context
    → IsOf host view context
unfolding new_context
new_context-IsOf host view request_id context h = record {
  principal = ground arith;
  principal_set = ground arith;
  tenant = ground arith;
  tenant_set = ground arith;
  account_type = ground arith;
  account =
      let e : context.mailbox_id ≡ id_of_mailbox view.session.principal.mailbox = ground arith in
      rw e (accepted-IsAccount view.session.principal (ground arith) (ground arith));
  permissions = ground arith;
  csrf = ground arith;
  unverified = ground arith;
}

-- `RequireResource` grants a resource exactly if it lies in the context's tenant, and the context is
-- an administrator's with the portal permission or a mailbox account's whose mailbox it is.
pub require_resource_exact :
    (context : Context) (resource : Resource)
    → (require_resource context resource ≡ none)
      ↔ (resource.tenant_id ≢ nil_uuid)
        × (context.tenant_id ≡ resource.tenant_id)
        × ((context.account_type ≡ administrator)
              × (has_permission context permission_portal_admin_access ≡ true)
            ⊎ (context.account_type ≡ AccountType.mailbox)
              × (resource.mailbox_id ≢ nil_uuid)
              × (context.mailbox_id ≡ resource.mailbox_id))
unfolding require_resource require_administrator require_mailbox
require_resource_exact context resource = (λ h. ground arith, λ h. ground arith)

own_mailbox :
    {principal : Principal} {mailbox_id resource_id : Uuid}
    → IsAccount principal mailbox_id
    → principal.account_type ≡ AccountType.mailbox
    → mailbox_id ≡ resource_id
    → (m : Mailbox) × (principal.mailbox ≡ some m) × (m.id ≢ nil_uuid) × (resource_id ≡ m.id)
own_mailbox (of_mailbox m t e set same) own at = (m, e, set, sym at ∙ same)
own_mailbox (of_administrator t e n) own at = cc

-- Isolation of sessions: a resource that a session's context is granted lies in the principal's
-- tenant, and the principal is an administrator whose session holds the portal permission, or a
-- mailbox account bound to just that mailbox.
pub session_isolation :
    (host : Host) (view : SessionView) (request_id : Text) (context : Context) (resource : Resource)
    → new_context host (some view) request_id ≡ ok context
    → require_resource context resource ≡ none
    → (resource.tenant_id ≡ view.session.principal.tenant_id)
      × ((view.session.principal.account_type ≡ administrator)
            × IsIn permission_portal_admin_access view.session.permissions
          ⊎ ((m : Mailbox) × (view.session.principal.mailbox ≡ some m)
              × (m.id ≢ nil_uuid)
              × (resource.mailbox_id ≡ m.id)))
unfolding has_permission
session_isolation host view request_id context resource h g =
    let c = new_context-IsOf host view request_id context h in
    let (_, tenant, who) = (require_resource_exact context resource).0 g in
    (sym tenant ∙ c.tenant, go c who)
  where
    go :
        IsOf host view context
        → (context.account_type ≡ administrator)
            × (has_permission context permission_portal_admin_access ≡ true)
          ⊎ (context.account_type ≡ AccountType.mailbox)
            × (resource.mailbox_id ≢ nil_uuid)
            × (context.mailbox_id ≡ resource.mailbox_id)
        → (view.session.principal.account_type ≡ administrator)
            × IsIn permission_portal_admin_access view.session.permissions
          ⊎ ((m : Mailbox) × (view.session.principal.mailbox ≡ some m)
              × (m.id ≢ nil_uuid)
              × (resource.mailbox_id ≡ m.id))
    go c (inl (admin, granted)) = inl (
      sym c.account_type ∙ admin,
      (search_sorted _ view.session.permissions).0 (rw c.permissions at granted),
    )
    go c (inr (own, set, same)) = inr (own_mailbox c.account (sym c.account_type ∙ own) same)

-- Refusals give nothing away: a mailbox account gets the same answer for every resource that it is
-- not granted, whether the tenant is another, the mailbox is another, or nothing is named at all.
pub refusals_alike :
    (context : Context) (r s : Resource)
    → context.account_type ≡ AccountType.mailbox
    → require_resource context r ≢ none
    → require_resource context s ≢ none
    → require_resource context r ≡ require_resource context s
unfolding require_resource require_mailbox
refusals_alike context r s m nr ns = ground arith

-- `HasPermission` on the context of a session answers true exactly for the permissions that the
-- session holds, in whatever order the session lists them.
pub has_permission_exact :
    (host : Host) (view : SessionView) (request_id : Text) (context : Context) (permission : Text)
    → new_context host (some view) request_id ≡ ok context
    → (has_permission context permission ≡ true) ↔ IsIn permission view.session.permissions
unfolding has_permission
has_permission_exact host view request_id context permission h =
    let c = new_context-IsOf host view request_id context h in
    rw c.permissions (search_sorted permission view.session.permissions)

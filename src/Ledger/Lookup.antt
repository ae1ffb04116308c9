-- ===== src/Ledger/Lookup.antt =====
-- `ProvisioningRepository.GetOperation` with `GetOperationForTenant`, on the columns of the operations
-- that it reads. `outage` is the error of the statement, if it fails.
use mail_suite.Base.{
  Text, Uuid, ◌≡◌, refl, false, ◌&&◌, Option, none, some, List, [], ◌∷◌, ◌++◌, ◌==◌, arith,
  if◌then◌else◌,
}
use mail_suite.Errors.{Error, Result, ok, fail, operation_not_found}
use mail_suite.Provisioning.{Operation, new_error}
use mail_suite.Ledger.Requests.{persistence_error}

pub record OperationColumns : Type 0 where
  pub id : Uuid
  pub tenant_id : Uuid
  pub kind : Text
  pub resource_type : Text
  pub resource_id : Uuid
  pub status : Text

unfoldable pub to_domain_operation : OperationColumns → Operation
to_domain_operation operation = record {
  id = operation.id;
  tenant_id = operation.tenant_id;
  kind = operation.kind;
  resource_type = operation.resource_type;
  resource_id = operation.resource_id;
  status = operation.status;
}

-- `GetOperationForTenant`
unfoldable pub find_for_tenant : Uuid → Uuid → List OperationColumns → Option OperationColumns
find_for_tenant tenant_id id [] = none
find_for_tenant tenant_id id (o ∷ l) =
    let rest = find_for_tenant tenant_id id l in
    if o.tenant_id == tenant_id && o.id == id then some o else rest

unfoldable pub found_operation : Option OperationColumns → Result Operation
found_operation none = fail (new_error operation_not_found)
found_operation (some o) = ok (to_domain_operation o)

unfoldable pub get_operation : Option Error → Uuid → Uuid → List OperationColumns → Result Operation
get_operation none tenant_id id operations =
    found_operation (find_for_tenant tenant_id id operations)
get_operation (some err) tenant_id id operations = fail (persistence_error err)

find_for_tenant-foreign :
    (tenant_id id : Uuid) (before after : List OperationColumns) (o : OperationColumns)
    → (o.tenant_id == tenant_id) ≡ false
    → find_for_tenant tenant_id id (before ++ o ∷ after)
      ≡ find_for_tenant tenant_id id (before ++ after)
unfolding find_for_tenant
find_for_tenant-foreign tenant_id id [] after o h = ground (arith, h)
find_for_tenant-foreign tenant_id id (p ∷ before) after o h =
    ground (arith, find_for_tenant-foreign tenant_id id before after o h)

-- Whether an operation of another tenant is stored changes no answer of `GetOperation`: asked for by its
-- own id or any other, it is answered as if it did not exist.
pub foreign_operation_hidden :
    (outage : Option Error) (tenant_id id : Uuid) (before after : List OperationColumns)
    (o : OperationColumns)
    → (o.tenant_id == tenant_id) ≡ false
    → get_operation outage tenant_id id (before ++ o ∷ after)
      ≡ get_operation outage tenant_id id (before ++ after)
unfolding get_operation
foreign_operation_hidden none tenant_id id before after o h =
    rw (find_for_tenant-foreign tenant_id id before after o h) refl
foreign_operation_hidden (some err) tenant_id id before after o h = refl

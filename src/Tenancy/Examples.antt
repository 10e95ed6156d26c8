-- ===== src/Tenancy/Examples.antt =====
-- Scopes of a request, after backend/internal/tenantcontext/context_test.go.
use nexa_flow.Prelude.{
  ◌≡◌, refl, ◌⊎◌, true, false, [], some, String, err, ◌==◌, string_eq, String_discrete,
}
use nexa_flow.Tenancy.{Scope, tenant_mismatch, require_tenant, billing_tenant, billing_tenant-own}

abbrev member : Scope
member = record {
  tenant_id = "t1";
  user_id = "u1";
  primary_role = "member";
  roles = [];
  permissions = [];
  system = false;
}

mismatch_refused : require_tenant (some member) "t2" ≡ err tenant_mismatch
unfolding require_tenant String_discrete
mismatch_refused = refl

abbrev own : String
own = "t1"

abbrev nobody : String
nobody = ""

billing_tenant-own_example :
    ((own == "") ≡ false)
    × ((false ≡ true × own ≡ nobody)
        ⊎ (false ≡ false × own ≡ own × ((nobody ≡ "") ⊎ (nobody ≡ own))))
unfolding billing_tenant String_discrete
billing_tenant-own_example = billing_tenant-own member nobody own refl

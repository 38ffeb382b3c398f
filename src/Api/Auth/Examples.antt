-- ===== src/Api/Auth/Examples.antt =====
-- Role-based access control at one role.
use krake.Prelude.{String, ◌≡◌, ◌≢◌, ◌↔◌, Option, none, some, List, [], ◌∷◌}
use krake.Prelude.Tests.{if◌then◌else◌}
use krake.Prelude.Keys.{◌==◌, ==_iff, string_key}
use krake.Prelude.Lists.{Any}
use krake.Api.Auth.{list, get, Role, RoleBinding, AuthorizationRequest, granted, rbac}
use krake.Api.Auth.Rbac.{Permits, rbac_iff}

abbrev reader : Role
reader = record {
  name = "reader";
  rules =
      record {
        api = "kubernetes";
        resources = "" ∷ [];
        namespaces = "team" ∷ [];
        verbs = get ∷ list ∷ [];
      }
      ∷ [];
}

abbrev roles : String → Option Role
roles name = if name == "reader" then some reader else none

abbrev bindings : List RoleBinding
bindings = record { users = "alice" ∷ "bob" ∷ []; roles = "missing" ∷ "reader" ∷ [] } ∷ []

abbrev wanted : AuthorizationRequest
wanted = record { api = "kubernetes"; namespace = some "team"; resource = "clusters"; verb = get }

bob-known : ◌≢◌ {A = String} "bob" "system:anonymous"
bob-known e = absurd (cc ((==_iff {A = String} "bob" "system:anonymous").1 e))

rbac_iff_example :
    ((role : Role) × (rbac roles bindings "bob" wanted ≡ granted role))
    ↔ Any (Permits roles wanted "bob") bindings
rbac_iff_example = rbac_iff roles wanted bindings "bob" bob-known

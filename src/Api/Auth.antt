-- ===== src/Api/Auth.antt =====
-- krake/krake/api/auth.py: authorization of requests. The database is given by the role bindings
-- that `db.all(RoleBinding)` yields and by what `db.get(Role, name=...)` returns; both are read
-- while no role changes.
pub mod Rbac
mod Examples
use krake.Prelude.{
  ℕ, String, ◌≡◌, ◌↔◌, arith, Bool, true, false, ◌&&◌, ◌||◌, Option, none, some, List, [], ◌∷◌,
  ◌++◌,
}
use krake.Prelude.Tests.{if◌then◌else◌}
use krake.Prelude.Keys.{Keyed, ◌==◌, contains, string_key}

pub data Verb : Type 0 where
  create list list_all get update delete : Verb

-- An enumeration member is equal to itself alone.
pub verb_same : Verb → Verb → Bool
verb_same create create = true
verb_same list list = true
verb_same list_all list_all = true
verb_same get get = true
verb_same update update = true
verb_same delete delete = true
verb_same _ _ = false

pub verb_same_iff : (v w : Verb) → (verb_same v w ≡ true) ↔ (v ≡ w)
unfolding verb_same
verb_same_iff v w = ground arith

instance abbrev pub verb_key : Keyed Verb
verb_key = record { same_iff = verb_same_iff; same = verb_same }

pub record RoleRule : Type 0 where
  pub api : String
  pub resources : List String
  pub namespaces : List String
  pub verbs : List Verb

pub record Role : Type 0 where
  pub name : String
  pub rules : List RoleRule

pub record RoleBinding : Type 0 where
  pub users : List String
  pub roles : List String

pub record AuthorizationRequest : Type 0 where
  pub api : String
  pub namespace : Option String
  pub resource : String
  pub verb : Verb

-- What an authorizer does: return, with the role in the case of `rbac`, or raise HTTPUnauthorized
-- or HTTPForbidden.
pub data Authorization : Type 0 where
  allowed : Authorization
  granted : Role → Authorization
  unauthorized : Authorization
  forbidden : Authorization

pub always_allow : String → AuthorizationRequest → Authorization
always_allow user request = allowed

pub always_deny : String → AuthorizationRequest → Authorization
always_deny user request = forbidden

namespace_granted : Option String → List String → Bool
namespace_granted none namespaces = true
namespace_granted (some n) namespaces = contains n namespaces || contains "" namespaces

-- The tests of `rbac` on one rule.
rule_grants : AuthorizationRequest → RoleRule → Bool
unfolding namespace_granted
rule_grants request rule =
    if rule.api == request.api || rule.api == ""
    then (if contains request.verb rule.verbs
        then (if contains request.resource rule.resources || contains "" rule.resources
            then namespace_granted request.namespace rule.namespaces
            else false)
        else false)
    else false

role_grants : AuthorizationRequest → List RoleRule → Bool
unfolding rule_grants
role_grants request [] = false
role_grants request (rule ∷ rules) = rule_grants request rule || role_grants request rules

module _ (find : String → Option Role) where
  -- The loop of `_fetch_roles` over the names of one binding: the roles that it yields, and the
  -- names that it has seen.
  fetch_names : List String → List String → List Role × List String
  fetch_names [] seen = ([], seen)
  fetch_names (name ∷ names) seen = elim (contains name seen) [
    | true ↦ fetch_names names seen
    | false ↦
        let later = fetch_names names (name ∷ seen) in
        elim (find name) [ none ↦ later | some role ↦ (role ∷ later.0, later.1) ]
  ]

  fetch_from : String → List RoleBinding → List String → List Role
  unfolding fetch_names
  fetch_from user [] seen = []
  fetch_from user (binding ∷ bindings) seen =
      let here =
        if contains user binding.users then fetch_names binding.roles seen else ([], seen) in
      here.0 ++ fetch_from user bindings here.1

  pub fetch_roles : String → List RoleBinding → List Role
  unfolding fetch_from
  fetch_roles user bindings = fetch_from user bindings []

  check_roles : AuthorizationRequest → List Role → Authorization
  unfolding role_grants
  check_roles request [] = forbidden
  check_roles request (role ∷ roles) =
      if role_grants request role.rules then granted role else check_roles request roles

  pub rbac : List RoleBinding → String → AuthorizationRequest → Authorization
  unfolding check_roles fetch_roles
  rbac bindings user request =
      if user == "system:anonymous"
      then unauthorized
      else check_roles request (fetch_roles user bindings)

-- What a wrapped handler answers.
pub data Answer (R : Type 0) : Type 0 where
  handled : R → Answer R
  http_unauthorized : Answer R
  http_forbidden : Answer R

-- The wrapper of `protected`: the authorizer runs first.
pub protected : {R : Type 0} → Authorization → R → Answer R
protected allowed response = handled response
protected (granted role) response = handled response
protected unauthorized response = http_unauthorized
protected forbidden response = http_forbidden

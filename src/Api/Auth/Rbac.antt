-- ===== src/Api/Auth/Rbac.antt =====
-- Role-based access control grants exactly what the roles of the user allow.
use krake.Prelude.{
  String, ◌≡◌, ◌≢◌, ◌⊎◌, inl, inr, refl, ◌↔◌, sym, subst, ◌∙◌, Bool, true, false, ◌&&◌, ◌||◌,
  Option, none, some, List, [], ◌∷◌, ◌++◌, arith,
}
use krake.Prelude.Lists.{Any, Any-iff}
use krake.Prelude.Tests.{Bool-cases, Option-cases}
use krake.Prelude.Keys.{◌==◌, ==_iff, contains, string_key}
use krake.Api.Auth.{
  verb_key, RoleRule, Role, RoleBinding, AuthorizationRequest, granted, namespace_granted,
  rule_grants, role_grants, fetch_names, fetch_from, fetch_roles, check_roles, rbac, protected,
  http_unauthorized,
}

-- A list holds a text, or the empty text, which stands for every one.
abbrev pub Covers : List String → String → Type 0
Covers xs x = (contains x xs ≡ true) ⊎ (contains "" xs ≡ true)

abbrev pub CoversNamespace : List String → Option String → Type 0
CoversNamespace xs none = Unit
CoversNamespace xs (some n) = Covers xs n

-- The rule allows the verb on the resource in the namespace.
pub record Allows (request : AuthorizationRequest) (rule : RoleRule) : Type 0 where
  pub api : (rule.api ≡ request.api) ⊎ (rule.api ≡ "")
  pub verb : contains request.verb rule.verbs ≡ true
  pub resource : Covers rule.resources request.resource
  pub namespace : CoversNamespace rule.namespaces request.namespace

rule_grants_iff :
    (request : AuthorizationRequest) (rule : RoleRule)
    → (rule_grants request rule ≡ true) ↔ Allows request rule
unfolding rule_grants namespace_granted
rule_grants_iff request rule = ground (arith, ==_iff rule.api request.api, ==_iff rule.api "")

role_grants_iff :
    (request : AuthorizationRequest) (rules : List RoleRule)
    → (role_grants request rules ≡ true) ↔ Any (Allows request) rules
unfolding role_grants
role_grants_iff request rules =
    Any-iff (rule_grants request) (Allows request) (role_grants request) (rule_grants_iff request)
      refl (λ rule later. refl) rules

-- Whether some role of a list grants the request.
some_role : AuthorizationRequest → List Role → Bool
some_role request [] = false
some_role request (role ∷ roles) = role_grants request role.rules || some_role request roles

some_role-append :
    (request : AuthorizationRequest) (xs ys : List Role)
    → some_role request (xs ++ ys) ≡ (some_role request xs || some_role request ys)
unfolding some_role
some_role-append request [] ys = refl
some_role-append request (x ∷ xs) ys = ground (arith, some_role-append request xs ys)

module _ (find : String → Option Role) (request : AuthorizationRequest) where
  -- Whether the role of a name exists and grants the request.
  name_grants : String → Bool
  name_grants name = elim (find name) [ none ↦ false | some role ↦ role_grants request role.rules ]

  some_name : List String → Bool
  unfolding name_grants
  some_name [] = false
  some_name (name ∷ names) = name_grants name || some_name names

  some_binding : String → List RoleBinding → Bool
  unfolding some_name
  some_binding user [] = false
  some_binding user (b ∷ bs) = contains user b.users && some_name b.roles || some_binding user bs

  some_name-contains :
      (name : String) (names : List String)
      → contains name names ≡ true
      → name_grants name ≡ true
      → some_name names ≡ true
  unfolding some_name
  some_name-contains name [] h k = cc
  some_name-contains name (n ∷ names) h k =
      ground (arith, some_name-contains name names, ==_iff n name)

  fetch_names-grants :
      (names seen : List String)
      → ((some_role request (fetch_names find names seen).0 || some_name seen)
          ≡ (some_name names || some_name seen))
        × (some_name (fetch_names find names seen).1 ≡ (some_name names || some_name seen))
  unfolding fetch_names some_name some_role name_grants
  fetch_names-grants [] seen = (refl, refl)
  fetch_names-grants (name ∷ names) seen = elim (Bool-cases (contains name seen)) [
    | inl old ↦
        rw (old, fetch_names)
          (ground (arith, fetch_names-grants names seen, some_name-contains name seen old))
    | inr new ↦ rw (new, fetch_names) (ground (arith, fetch_names-grants names (name ∷ seen)))
  ]

  fetch_from-grants :
      (user : String) (bindings : List RoleBinding) (seen : List String)
      → (some_role request (fetch_from find user bindings seen) || some_name seen)
        ≡ (some_binding user bindings || some_name seen)
  unfolding fetch_from some_role some_binding
  fetch_from-grants user [] seen = refl
  fetch_from-grants user (b ∷ bs) seen = elim (Bool-cases (contains user b.users)) [
    | inl bound ↦ rw bound (
        ground (
          arith,
          fetch_names-grants b.roles seen,
          fetch_from-grants user bs (fetch_names find b.roles seen).1,
          some_role-append request (fetch_names find b.roles seen).0
              (fetch_from find user bs (fetch_names find b.roles seen).1),
        ))
    | inr other ↦ rw other (ground (arith, fetch_from-grants user bs seen))
  ]

  -- The role of a name exists and one of its rules allows the request.
  abbrev pub Grants : String → Type 0
  Grants name = (role : Role) × (find name ≡ some role) × Any (Allows request) role.rules

  name_grants_iff : (name : String) → (name_grants name ≡ true) ↔ Grants name
  unfolding name_grants
  name_grants_iff name = elim (Option-cases (find name)) [
    | inl missing ↦ (λ h. absurd (ground (arith, missing)), λ (role, found, _). cc)
    | inr (role, found) ↦
        let rules = role_grants_iff request role.rules in
        (
          λ h. (role, found, rules.0 (ground (arith, found))),
          λ (role', found', h).
              let same : role' ≡ role = ground (arith, found, found') in
              ground (arith, found, rules.1 (subst (λ r. Any (Allows request) r.rules) same h)),
        )
  ]

  -- A binding names the user and a role that grants the request.
  abbrev pub Permits : String → RoleBinding → Type 0
  Permits user b = (contains user b.users ≡ true) × Any Grants b.roles

  some_binding_iff :
      (user : String) (bindings : List RoleBinding)
      → (some_binding user bindings ≡ true) ↔ Any (Permits user) bindings
  unfolding some_binding some_name
  some_binding_iff user bindings =
      Any-iff (λ b. contains user b.users && some_name b.roles) (Permits user) (some_binding user)
        (λ b.
          ground (
            arith,
            Any-iff name_grants Grants some_name name_grants_iff refl (λ n ns. refl) b.roles,
          ))
        refl (λ b bs. refl) bindings

  check_roles-grants :
      (roles : List Role)
      → (some_role request roles ≡ true)
        ↔ ((role : Role) × (check_roles find request roles ≡ granted role))
  unfolding check_roles some_role
  check_roles-grants [] = ground arith
  check_roles-grants (role ∷ roles) = elim (Bool-cases (role_grants request role.rules)) [
    | inl grants ↦ rw grants (λ _. (role, refl), λ _. refl)
    | inr denies ↦ rw denies (check_roles-grants roles)
  ]

  -- A user who is not anonymous is granted a request exactly when some binding of the user names
  -- a role that exists and has a rule that allows the request, however often the roles occur.
  pub rbac_iff :
      (bindings : List RoleBinding) (user : String)
      → user ≢ "system:anonymous"
      → ((role : Role) × (rbac find bindings user request ≡ granted role))
        ↔ Any (Permits user) bindings
  unfolding rbac fetch_roles some_name
  rbac_iff bindings user known =
      let other : (user == "system:anonymous") ≡ false =
        ground (arith, known, ==_iff user "system:anonymous") in
      let found = check_roles-grants (fetch_roles find user bindings) in
      let bound = some_binding_iff user bindings in
      let agree = fetch_from-grants user bindings [] in
      let agree' : some_role request (fetch_roles find user bindings) ≡ some_binding user bindings =
        ground (arith, agree) in
      rw other (
        λ granting. bound.0 (sym agree' ∙ found.1 granting),
        λ permitted. found.0 (agree' ∙ bound.1 permitted),
      )

-- The anonymous user gets 401 from RBAC, whatever roles are bound to its name.
pub protected-anonymous :
    {R : Type 0} (find : String → Option Role) (bindings : List RoleBinding)
    (request : AuthorizationRequest) (answer : R)
    → protected (rbac find bindings "system:anonymous" request) answer ≡ http_unauthorized
unfolding rbac protected
protected-anonymous find bindings request answer = refl

-- ===== src/Api/Middlewares/Anonymous.antt =====
-- What becomes of a request that no authenticator knows.
use krake.Prelude.{String, ◌≡◌, inl, inr, refl, Bool, not, ◌&&◌, Option, none, some, List, [], ◌∷◌}
use krake.Prelude.Tests.{Bool-cases}
use krake.Prelude.Keys.{string_key}
use krake.Prelude.Lists.{All}
use krake.Api.Auth.{
  Role, RoleBinding, AuthorizationRequest, rbac, Answer, http_unauthorized, protected,
}
use krake.Api.Auth.Rbac.{protected-anonymous}
use krake.Api.Middlewares.{authenticated, authentication}

-- The wrapped handler behind the authentication, with RBAC for the authorizer.
abbrev pub served :
    {Request R : Type 0}
    → List (Request → Option String)
    → Bool
    → (Request → Bool)
    → (String → Option Role)
    → List RoleBinding
    → AuthorizationRequest
    → R
    → Request
    → Answer R
served authenticators allow_anonymous is_options find bindings wanted answer request =
    elim (authentication authenticators allow_anonymous is_options request) [
      | none ↦ http_unauthorized
      | some user ↦ protected (rbac find bindings user wanted) answer
    ]

module _ {Request : Type 0} where
  authenticated-none :
      (authenticators : List (Request → Option String)) (request : Request)
      → All (λ a. a request ≡ none) authenticators
      → authenticated authenticators request ≡ none
  unfolding authenticated
  authenticated-none [] request h = refl
  authenticated-none (a ∷ as_) request h = rw h.0 (authenticated-none as_ request h.1)

  -- A request that no authenticator knows is never handled behind RBAC: it is answered with 401,
  -- whether anonymous requests are allowed or not, and whatever roles are bound to the name of the
  -- anonymous user.
  pub anonymous-unauthorized :
      {R : Type 0} (authenticators : List (Request → Option String)) (allow_anonymous : Bool)
      (is_options : Request → Bool) (find : String → Option Role) (bindings : List RoleBinding)
      (wanted : AuthorizationRequest) (answer : R) (request : Request)
      → All (λ a. a request ≡ none) authenticators
      → served authenticators allow_anonymous is_options find bindings wanted answer request
        ≡ http_unauthorized
  unfolding authentication
  anonymous-unauthorized authenticators allow is_options find bindings wanted answer request h =
      rw (served, authentication, authenticated-none authenticators request h)
        (elim (Bool-cases (not allow && not (is_options request))) [
          | inl refused ↦ rw refused refl
          | inr passed ↦ rw passed (protected-anonymous find bindings wanted answer)
        ])

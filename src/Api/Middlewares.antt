-- ===== src/Api/Middlewares.antt =====
-- krake/krake/api/middlewares.py: the authentication of requests and the retries of transactions.
-- An authenticator and a handler are arguments.
pub mod Attempts
pub mod Anonymous
mod Examples
use krake.Prelude.{
  ℕ, zero, suc, String, ◌≡◌, Bool, true, false, not, ◌&&◌, Option, none, some, List, [], ◌∷◌,
}
use krake.Prelude.Tests.{if◌then◌else◌}

-- How a handler ends: with a response, with TransactionError, or with another exception.
pub data Ending (R : Type 0) : Type 0 where
  response : R → Ending R
  transaction_error : Ending R
  raised : String → Ending R

-- What the middleware answers; `conflict` is 409 Conflict.
pub data Retried (R : Type 0) : Type 0 where
  answered : R → Retried R
  reraised : String → Retried R
  conflict : Retried R

module _ {State R : Type 0} (handler : State → Ending R × State) where
  -- `for _ in range(attempts)`: the database keeps what an attempt changed.
  attempt : ℕ → State → Retried R × State
  attempt zero s = (conflict, s)
  attempt (suc attempts) s =
      let result = handler s in
      let again = attempt attempts result.1 in
      elim result.0 [
        | response r ↦ (answered r, result.1)
        | transaction_error ↦ again
        | raised e ↦ (reraised e, result.1)
      ]

  pub retry_transaction : ℕ → State → Retried R × State
  unfolding attempt
  retry_transaction retry s = attempt (suc retry) s

module _ {Request : Type 0} where
  -- The first authenticator that names a user.
  authenticated : List (Request → Option String) → Request → Option String
  authenticated [] request = none
  authenticated (a ∷ authenticators) request = elim (a request) [
    | none ↦ authenticated authenticators request
    | some user ↦ some user
  ]

  -- The user of the request; none is 401 Unauthorized.
  pub authentication :
      List (Request → Option String) → Bool → (Request → Bool) → Request → Option String
  unfolding authenticated
  authentication authenticators allow_anonymous is_options request =
      elim (authenticated authenticators request) [
        | some user ↦ some user
        | none ↦
            if not allow_anonymous && not (is_options request)
            then none
            else some "system:anonymous"
      ]

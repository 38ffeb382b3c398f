-- ===== src/Api/Middlewares/Examples.antt =====
-- The middlewares at small requests and at a handler that fails twice.
use krake.Prelude.{ℕ, zero, suc, String, none}
use krake.Api.Auth.{AuthorizationRequest, delete}
use krake.Api.Middlewares.{Ending, response, transaction_error, retry_transaction}
use krake.Api.Middlewares.Attempts.{Explained, retry_transaction-Explained}

-- The state counts the conflicts that are still to come.
abbrev flaky : ℕ → Ending String × ℕ
flaky zero = (response "ok", 0)
flaky (suc n) = (transaction_error, n)

retry_transaction-Explained_example : Explained flaky 2 2 (retry_transaction flaky 1 2)
retry_transaction-Explained_example = retry_transaction-Explained flaky 1 2

abbrev everything : AuthorizationRequest
everything = record { api = "core"; namespace = none; resource = "roles"; verb = delete }

-- ===== src/Kubernetes/Tasks.antt =====
-- Coroutines of the controller. A coroutine sends requests to the Krake API and to a cluster, and
-- each of them is answered or fails. The answers are those of an environment that has seen every
-- request so far, so that nothing is assumed of them.
pub mod Ends
use krake.Prelude.{ℕ, String, ◌≡◌, refl, Bool, true, false, Option, none, some, List, [], ◌∷◌, ◌++◌}
use krake.Prelude.Tests.{if◌then◌else◌, nat_beq}
use krake.Data.Core.{ResourceRef}
use krake.Manifest.Results.{Error, Result, ok, raised}
use krake.Manifest.Values.{Value}
use krake.Kubernetes.Applications.{Application}

-- What a coroutine raises: ClientResponseError with its status, ClientConnectorError or
-- ApiException, ControllerError with its code, or another exception of Python.
pub data Exception : Type 0 where
  client_response : ℕ → Exception
  kubernetes_error : Exception
  controller_error : String → Exception
  python_error : Error → Exception
  assertion_error : Exception
  -- ToscaParserException or ConnectionError
  tosca_error : Exception

pub data Request : Type 0 where
  update_application_status : Application → Request
  update_application : Application → Request
  read_application : Application → Request
  read_cluster : ResourceRef → Request
  -- of KubernetesClient
  apply_resource : Value → Request
  delete_resource : Value → Request
  shutdown_application : Application → Request
  -- asyncio.create_task of `_shutdown_task_async`
  create_shutdown_task : Application → Request

-- The requests so far, the last one first.
abbrev pub History : Type 0
History = List Request

-- `response` is what KubernetesClient returns, `host` the host of a cluster's kubeconfig, and
-- `shown` Python's `str` of a value.
pub record Environment : Type 0 where
  pub failure : History → Option Exception
  pub response : History → Value
  pub host : History → String
  pub shown : Value → String

pub data Reply {ℓ} (A : Type ℓ) : Type ℓ where
  threw : Exception → Reply A
  returned : A → Reply A

abbrev pub Task {ℓ} : Type ℓ → Type ℓ
Task A = History → Reply A × History

module _ {ℓ κ} {A : Type ℓ} {B : Type κ} where
  unfoldable pub continue : Reply A × History → (A → Task B) → Reply B × History
  continue (threw e, log) next = (threw e, log)
  continue (returned a, log) next = next a log

  infixl 1 ◌>>=◌ ◌>>◌
  abbrev pub ◌>>=◌ : Task A → (A → Task B) → Task B
  (task >>= next) log = continue (task log) next

  abbrev pub ◌>>◌ : Task A → Task B → Task B
  (task >> other) log = continue (task log) (λ _. other)

unfoldable pub pure {ℓ} : {A : Type ℓ} → A → Task A
pure a log = (returned a, log)

unfoldable pub throw {ℓ} : {A : Type ℓ} → Exception → Task A
throw e log = (threw e, log)

-- A computation without requests.
unfoldable pub lift {ℓ} : {A : Type ℓ} → Result A → Task A
unfolding pure throw
lift (ok a) = pure a
lift (raised e) = throw (python_error e)

-- An attribute of None.
unfoldable pub required {ℓ} : {A : Type ℓ} → Error → Option A → Task A
unfolding pure throw
required e none = throw (python_error e)
required e (some a) = pure a

unfoldable pub answer {ℓ} : {A : Type ℓ} → Option Exception → A → History → Reply A × History
answer none a log = (returned a, log)
answer (some e) a log = (threw e, log)

unfoldable pub send : Environment → Request → Task (Unit {0})
unfolding answer
send env r log = answer (env.failure (r ∷ log)) tt (r ∷ log)

-- A request to the cluster, with the client's answer.
unfoldable pub fetch : Environment → Request → Task Value
unfolding answer
fetch env r log = answer (env.failure (r ∷ log)) (env.response (r ∷ log)) (r ∷ log)

-- A ClientResponseError with the status 404.
pub is_gone : Exception → Bool
is_gone (client_response status) = nat_beq status 404
is_gone _ = false

-- The rest of a handler after a request, if `except` returns on a 404.
unfoldable pub unless_gone {ℓ} :
    {A : Type ℓ} → Reply (Unit {0}) × History → A → Task A → Reply A × History
unfolding is_gone
unless_gone (returned _, log) gone next = next log
unless_gone (threw e, log) gone next = if is_gone e then (returned gone, log) else (threw e, log)

-- ===== src/Kubernetes/Services.antt =====
-- krake/krake/controller/kubernetes/hooks.py: `register_service` and `unregister_service`, which
-- keep the addresses of an application's services. A response object of the client is given by
-- its `to_dict`, in which an attribute that is None may be left out.
use Prim.Native.String.{◌++◌ as append}
use krake.Prelude.{String, Bool, false}
use krake.Prelude.Tests.{if◌then◌else◌}
use krake.Prelude.Keys.{string_key}
use krake.Prelude.Dict
use krake.Manifest.Results.{index_error, type_error, Result, ok, raised, ◌>>=◌}
use krake.Manifest.Values.{Value, null, str, list, cons, nil, subscript, same, truthy}
use krake.Manifest.Resources.{get_field}
use krake.Kubernetes.Applications.{Application}

-- xs[0]
first : Value → Result Value
first (list (cons x xs)) = ok x
first (list nil) = raised index_error
first _ = raised type_error

name_of : Value → Result String
unfolding subscript
name_of resource = do
  m ← subscript "metadata" resource
  n ← subscript "name" m
  elim n [ str s ↦ ok s | _ ↦ raised type_error ]

is_service : Value → Result Bool
unfolding subscript same
is_service resource = do k ← subscript "kind" resource; ok (same k (str "Service"))

is_balanced : Value → Result Bool
unfolding get_field truthy same
is_balanced spec =
    if truthy spec
    then (do t ← get_field "type" spec; ok (same t (str "LoadBalancer")))
    else ok false

pending_or : (Value → String) → Value → String → Result String
unfolding first get_field truthy
pending_or shown found attribute =
    if truthy found
    then (do x ← first found; v ← get_field attribute x; ok (shown v))
    else ok "<pending>"

external_ip : (Value → String) → Value → Result String
unfolding pending_or get_field truthy
external_ip shown response = do
  status ← get_field "status" response
  balancer ← get_field "load_balancer" status
  ingress ← (if truthy balancer then get_field "ingress" balancer else ok null)
  pending_or shown ingress "ip"

node_port : Value → Result Value
unfolding get_field truthy first
node_port spec =
    if truthy spec
    then (do
      ports ← get_field "ports" spec
      if truthy ports then (do p ← first ports; get_field "node_port" p) else ok null)
    else ok null

address : String → String → String
address host port = append host (append ":" port)

set_service : String → String → Application → Application
set_service name where_ app = record app { services = Dict.put name where_ app.services }

-- `del app.status.services[name]`, or nothing if the name is not there.
remove_service : String → Application → Application
remove_service name app = record app { services = Dict.remove name app.services }

by_node_port : (Value → String) → String → String → Value → Application → Application
unfolding set_service remove_service address
by_node_port shown host name null app = remove_service name app
by_node_port shown host name port app = set_service name (address host (shown port)) app

register_balanced : (Value → String) → String → Value → Value → Application → Result Application
unfolding external_ip pending_or set_service address get_field
register_balanced shown name response spec app = do
  ip ← external_ip shown response
  ports ← get_field "ports" spec
  port ← pending_or shown ports "port"
  ok (set_service name (address ip port) app)

register_named : (Value → String) → String → String → Value → Application → Result Application
unfolding is_balanced register_balanced node_port by_node_port get_field
register_named shown host name response app = do
  spec ← get_field "spec" response
  balanced ← is_balanced spec
  if balanced
      then register_balanced shown name response spec app
      else do port ← node_port spec; ok (by_node_port shown host name port app)

unfoldable pub register_service :
    (Value → String) → String → Value → Value → Application → Result Application
unfolding is_service name_of register_named
register_service shown host resource response app = do
  service ← is_service resource
  if service
      then (do name ← name_of resource; register_named shown host name response app)
      else ok app

pub unregister_service : Value → Application → Result Application
unfolding is_service name_of remove_service
unregister_service resource app = do
  service ← is_service resource
  if service then (do name ← name_of resource; ok (remove_service name app)) else ok app

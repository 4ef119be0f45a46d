-- ===== src/Gateway.antt =====
-- internal/core/gateway.go (ServeHTTP): what the gateway does with a request. The configuration and
-- the router are those of one snapshot. The health report and the reverse proxy, which come last, are
-- outcomes; the metrics that are counted on the way out are left out.
pub mod Serve
use Prim.Native.String.{String}
use yuelaiengine_gateway.Common.{
  ℕ, Bool, true, false, not, ◌&&◌, Option, none, some, List, [], ◌∷◌, ◌++◌, Bytes, lit, any,
  text_eq, equal_fold, Map, get, if◌then◌else◌,
}
use yuelaiengine_gateway.Config.{
  PluginSpec, Value, text, texts, items, other, RouteConfig, ServiceConfig, GatewayConfig,
}
use yuelaiengine_gateway.Http.{Request}
use yuelaiengine_gateway.Router.{find_route, find_route_by_path}
use yuelaiengine_gateway.Traffic.{select_target_service}
use yuelaiengine_gateway.Plugin.{Exchange, Verdict, Plugin, write, text_of, Error, execute_chain}

-- `name, ok := spec["name"].(string); ok && strings.EqualFold(name, plugin_name)`
unfoldable pub is_named : Bytes → PluginSpec → Bool
is_named plugin_name spec = elim (get (lit "name") spec) [
  | none ↦ false
  | some (text s) ↦ equal_fold s plugin_name
  | some (texts _) ↦ false
  | some (items _) ↦ false
  | some other ↦ false
]

unfoldable pub has_plugin : List PluginSpec → Bytes → Bool
has_plugin specs plugin_name = any (is_named plugin_name) specs

-- `config.PluginSpec{"name": "auth"}`
abbrev pub auth_spec : PluginSpec
auth_spec = (lit "name", text (lit "auth")) ∷ []

-- The chain of a route, with the plugin that `requires_auth` adds.
unfoldable pub chain_of : RouteConfig → List PluginSpec
chain_of route =
    if route.requires_auth && not (has_plugin route.plugins (lit "auth"))
    then route.plugins ++ auth_spec ∷ []
    else route.plugins

-- What becomes of a request: a response of the gateway itself, the health report, the end of the
-- plugin chain, the proxy, or the panic of the weighted choice.
pub data Outcome : Type 0 where
  answered : Exchange → Outcome
  health_report : Exchange → Outcome
  chain_ended : Exchange → Option Error → Outcome
  proxied : RouteConfig → ServiceConfig → Exchange → Outcome
  panicked : Outcome

-- After `ExecuteChain`.
unfoldable pub after_chain : RouteConfig → ServiceConfig → Verdict → Outcome
after_chain route service (x, go_on, some e) = chain_ended x (some e)
after_chain route service (x, true, none) = proxied route service x
after_chain route service (x, false, none) = chain_ended x none

-- `service, exist := cfg.Services[targetServiceName]` and what follows.
unfoldable pub serve_service : Map Plugin → RouteConfig → Exchange → Option ServiceConfig → Outcome
serve_service plugins route x none = answered (write 500 (lit "SERVICE_CONFIG_ERROR") x)
serve_service plugins route x (some service) =
    after_chain route service (execute_chain plugins (chain_of route) x)

-- The lines after the route is found.
unfoldable pub serve_route : GatewayConfig → Map Plugin → RouteConfig → Exchange → Outcome
serve_route cfg plugins route x =
    if text_eq route.service_name (lit "all-services")
    then health_report x
    else (elim (select_target_service cfg.services route x.request) [
      | none ↦ panicked
      | some target ↦ serve_service plugins route x (get target cfg.services)
    ])

unfoldable pub serve_http : GatewayConfig → Map Plugin → Exchange → Outcome
serve_http cfg plugins x = elim (find_route cfg.routes x.request) [
  | some route ↦ serve_route cfg plugins route x
  | none ↦ elim (find_route_by_path cfg.routes x.request.path) [
    | some _ ↦ answered (write 405 (lit "METHOD_NOT_ALLOWED") x)
    | none ↦ answered (write 404 (lit "ROUTE_NOT_FOUND") x)
  ]
]

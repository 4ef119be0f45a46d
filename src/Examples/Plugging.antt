-- ===== src/Examples/Plugging.antt =====
-- The plugins and internal/core/gateway.go (ServeHTTP) at concrete inputs.
use yuelaiengine_gateway.Common.{none, some, [], ◌∷◌, Bytes, lit, Map, text_eq, if◌then◌else◌}
use yuelaiengine_gateway.Config.{PluginSpec, text, texts, items}
use yuelaiengine_gateway.Http.{Request}
use yuelaiengine_gateway.CircuitBreaker.{run}
use yuelaiengine_gateway.Plugin.{Exchange, Plugin, execute_chain}
use yuelaiengine_gateway.Plugin.Keys.{api_key_plugin, rbac_plugin}
use yuelaiengine_gateway.Plugin.Services.{circuit_breaker_plugin}
use yuelaiengine_gateway.Plugin.Chain.{Ended, execute_chain-Ended}
use yuelaiengine_gateway.Examples.Breaking.{open_at_100, with_breaker, mixed_calls}
use yuelaiengine_gateway.Examples.Limiting.{service}

abbrev headers : Bytes → Bytes
headers name =
    if text_eq name (lit "X-API-Key")
    then lit "k1"
    else (if text_eq name (lit "X-User-Role") then lit "Admin" else [])

abbrev keyed_request : Request
keyed_request = record {
  method = lit "GET";
  path = lit "/api/orders";
  host = lit "gateway";
  remote_addr = lit "10.0.0.1:4711";
  header = headers;
  query = λ _. [];
  cookie = λ _. none;
  body = some [];
}

abbrev pub exchange : Exchange
exchange = record {
  rate_limit = service;
  circuit_breaker = run (with_breaker open_at_100) mixed_calls;
  request = keyed_request;
  written = none;
}

abbrev pub key_spec : PluginSpec
key_spec =
    (lit "name", text (lit "apikey")) ∷ (lit "keys", items (none ∷ some (lit " k1 ") ∷ [])) ∷ []

abbrev role_spec : PluginSpec
role_spec = (lit "name", text (lit "rbac")) ∷ (lit "roles", texts (lit "admin" ∷ [])) ∷ []

abbrev breaker_spec : PluginSpec
breaker_spec = (lit "name", text (lit "circuitbreaker")) ∷ (lit "service", text (lit "orders")) ∷ []

abbrev limit_spec : PluginSpec
limit_spec =
    (lit "name", text (lit "ratelimit"))
    ∷ (lit "rule", text (lit "b"))
    ∷ (lit "strategy", text (lit "path"))
    ∷ []

abbrev plugins : Map Plugin
plugins =
    (lit "apikey", api_key_plugin)
    ∷ (lit "rbac", rbac_plugin)
    ∷ (lit "circuitbreaker", circuit_breaker_plugin 900)
    ∷ []

execute_chain-Ended_example :
    Ended plugins
      (key_spec ∷ role_spec ∷ breaker_spec ∷ limit_spec ∷ [])
      exchange
      (execute_chain plugins (key_spec ∷ role_spec ∷ breaker_spec ∷ limit_spec ∷ []) exchange)
execute_chain-Ended_example =
    execute_chain-Ended plugins (key_spec ∷ role_spec ∷ breaker_spec ∷ limit_spec ∷ []) exchange

-- ===== src/Examples/Serving.antt =====
-- internal/core/gateway.go (ServeHTTP) at a concrete request.
use yuelaiengine_gateway.Common.{
  true, false, none, some, [], ◌∷◌, refl, lit, pos, Map, get, text_eq, trim_space, to_lower,
  has_prefix, ends_slash, equal_fold,
}
use yuelaiengine_gateway.Config.{RouteConfig, GatewayConfig}
use yuelaiengine_gateway.Router.{
  find_route, find_route_by_path, find_from, prefix_match, method_allowed,
}
use yuelaiengine_gateway.Traffic.{select_target_service, ab_service, weighted_or_default}
use yuelaiengine_gateway.Plugin.{Plugin, text_of, execute_chain, after_plugin}
use yuelaiengine_gateway.Plugin.Keys.{api_key_plugin, parse_config, listed, cleaned, only_texts}
use yuelaiengine_gateway.Gateway.{
  is_named, has_plugin, chain_of, serve_http, serve_route, serve_service, after_chain,
}
use yuelaiengine_gateway.Gateway.Serve.{
  IsProxied, HasAuth, serve_http-IsProxied, serve_http-HasAuth,
}
use yuelaiengine_gateway.Examples.Plugging.{exchange, key_spec}
use yuelaiengine_gateway.Examples.Routing.{route, services, service_config}

abbrev guarded : RouteConfig
guarded = record (route (lit "/api")) { plugins = key_spec ∷ []; requires_auth = true }

abbrev pub config : GatewayConfig
config = record {
  port = lit "8080";
  health_check_interval = pos 0;
  health_check_timeout = pos 0;
  services = services;
  routes = some guarded ∷ [];
  rules = [];
  jwt_secret_key = [];
  jwt_duration_minutes = pos 0;
  validate_url = [];
  circuit_breaker = record {
    failure_threshold = pos 5;
    success_threshold = pos 2;
    reset_timeout = pos 1000;
  };
  admin_token = [];
  hot_reload_enabled = false;
  hot_reload_interval = pos 0;
  persist_enabled = false;
  persist_path = [];
  flush_interval = pos 0;
}

-- An authentication plugin that lets everyone on.
abbrev let_all : Plugin
let_all spec x = (x, true, none)

abbrev pub registered : Map Plugin
registered = (lit "auth", let_all) ∷ (lit "apikey", api_key_plugin) ∷ []

serve_http-IsProxied_example :
    IsProxied config registered exchange guarded (service_config (lit "orders")) exchange
unfolding serve_http find_route find_route_by_path find_from prefix_match has_prefix text_eq
    ends_slash method_allowed serve_route select_target_service ab_service weighted_or_default get
    serve_service chain_of has_plugin is_named execute_chain after_plugin after_chain text_of
    api_key_plugin parse_config listed cleaned only_texts trim_space equal_fold to_lower
serve_http-IsProxied_example =
    serve_http-IsProxied config registered exchange exchange guarded (service_config (lit "orders"))
      refl

serve_http-HasAuth_example : HasAuth registered (chain_of guarded) exchange exchange
unfolding serve_http find_route find_route_by_path find_from prefix_match has_prefix text_eq
    ends_slash method_allowed serve_route select_target_service ab_service weighted_or_default get
    serve_service chain_of has_plugin is_named execute_chain after_plugin after_chain text_of
    api_key_plugin parse_config listed cleaned only_texts trim_space equal_fold to_lower
serve_http-HasAuth_example =
    serve_http-HasAuth config registered exchange exchange guarded (service_config (lit "orders"))
      refl refl

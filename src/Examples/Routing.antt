-- ===== src/Examples/Routing.antt =====
-- internal/core/router.go and the choice of a route's service at concrete inputs.
use yuelaiengine_gateway.Common.{
  false, Option, none, some, List, [], ◌∷◌, ◌≡◌, refl, arith, Bytes, lit, pos, ℤ, Map, get, text_eq,
  text_eq_iff, has_prefix, ends_slash, if◌then◌else◌,
}
use yuelaiengine_gateway.Config.{RouteConfig, ServiceConfig}
use yuelaiengine_gateway.Http.{Request, split_host_port}
use yuelaiengine_gateway.Router.{prefix_match, find_route_by_path, find_from}
use yuelaiengine_gateway.Router.Best.{find_route_by_path-IsBest, IsBest}
use yuelaiengine_gateway.Traffic.Weights.{SameMap}

split_test : split_host_port (lit "10.0.0.1:80") ≡ some (lit "10.0.0.1", lit "80")
unfolding split_host_port
split_test = refl

split_test_v6 : split_host_port (lit "[::1]:80") ≡ some (lit "::1", lit "80")
unfolding split_host_port
split_test_v6 = refl

split_test_bare : split_host_port (lit "localhost") ≡ none
unfolding split_host_port
split_test_bare = refl

abbrev pub route : Bytes → RouteConfig
route prefix = record {
  path_prefix = prefix;
  path = [];
  service_name = lit "orders";
  plugins = [];
  methods = [];
  requires_auth = false;
  health_check_scope = [];
  upstream_protocol = [];
  protocol_convert = [];
  grpc_method = [];
  proto_descriptor = [];
  emit_unpopulated = false;
  use_proto_names = false;
  discard_unknown = false;
  hash_on = [];
  ab_header = lit "X-Variant";
  ab_variants = (lit "beta", lit "orders-beta") ∷ [];
  traffic_weights = [];
}

abbrev routes : List (Option RouteConfig)
routes = some (route (lit "/api")) ∷ none ∷ some (route (lit "/api/v2")) ∷ []

find_route_by_path-IsBest_example :
    IsBest (lit "/api/v2/users") routes (find_route_by_path routes (lit "/api/v2/users"))
find_route_by_path-IsBest_example = find_route_by_path-IsBest routes (lit "/api/v2/users")

find_test : find_route_by_path routes (lit "/api/v2/users") ≡ some (route (lit "/api/v2"))
unfolding find_route_by_path find_from prefix_match text_eq has_prefix ends_slash
find_test = refl

abbrev blue_green : Map ℤ
blue_green = (lit "blue", pos 3) ∷ (lit "green", pos 1) ∷ []

abbrev green_blue : Map ℤ
green_blue = (lit "green", pos 1) ∷ (lit "blue", pos 3) ∷ []

same_weights : SameMap blue_green green_blue
unfolding get
same_weights key = ground (arith, text_eq_iff (lit "blue") key, text_eq_iff (lit "green") key)

abbrev pub service_config : Bytes → ServiceConfig
service_config name = record {
  name = name;
  instances = [];
  health_check_path = [];
  load_balancer = lit "round_robin";
}

abbrev pub services : Map ServiceConfig
services =
    (lit "orders", service_config (lit "orders"))
    ∷ (lit "orders-beta", service_config (lit "orders-beta"))
    ∷ []

abbrev beta_header : Bytes → Bytes
beta_header name = if text_eq name (lit "X-Variant") then lit "Beta" else []

abbrev pub beta_request : Request
beta_request = record {
  method = lit "GET";
  path = lit "/api/orders";
  host = lit "gateway";
  remote_addr = lit "10.0.0.1:4711";
  header = beta_header;
  query = λ _. [];
  cookie = λ _. none;
  body = some [];
}

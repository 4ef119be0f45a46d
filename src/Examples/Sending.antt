-- ===== src/Examples/Sending.antt =====
-- internal/core/proxy/proxy.go (ServeHTTP) and the health report at concrete requests.
use yuelaiengine_gateway.Common.{
  ℕ, true, some, [], ◌∷◌, ◌++◌, ◌≡◌, refl, Bytes, lit, pos, get, put, text_eq, has_prefix,
  ends_slash, equal_fold, to_lower, trim_space, is_empty, if◌then◌else◌,
}
use yuelaiengine_gateway.Config.{RouteConfig, ServiceConfig, GatewayConfig}
use yuelaiengine_gateway.Http.{Request}
use yuelaiengine_gateway.Router.{
  prefix_match, find_route, find_route_by_path, find_from, method_allowed,
}
use yuelaiengine_gateway.CircuitBreaker
use yuelaiengine_gateway.CircuitBreaker.{fresh, new_service}
use yuelaiengine_gateway.CircuitBreaker.Window.{IsOpenSince}
use yuelaiengine_gateway.Gateway.{serve_http, serve_route}
use yuelaiengine_gateway.Health.{HealthChecker, get_all_statuses, is_instance_healthy, load}
use yuelaiengine_gateway.HealthReport.{health_check_handler}
use yuelaiengine_gateway.HealthReport.Report.{said_of, serve_http-health_report}
use yuelaiengine_gateway.LoadBalancer.LeastConnections
use yuelaiengine_gateway.LoadBalancer.Factory.{
  least_connections, get_or_create, get_all_instances, get_next_instance, release_connection,
}
use yuelaiengine_gateway.LoadBalancer.Instance.{update_first}
use yuelaiengine_gateway.Proxy.{get_healthy_instance, pick_by_key, retry}
use yuelaiengine_gateway.CircuitBreaker.Breakers.{breaker}
use yuelaiengine_gateway.Proxy.Forward.{
  after_choice, to_url, after_prepare, send, release, Proxy, Outside, serve,
}
use yuelaiengine_gateway.Proxy.Forward.Rewrite.{director-path}
use yuelaiengine_gateway.Proxy.Forward.Balance.{serve-least_connections}
use yuelaiengine_gateway.Proxy.Forward.Failures.{Turn, served, serve_all, serve_all-IsOpenSince}
use yuelaiengine_gateway.Proxy.Director.{director}
use yuelaiengine_gateway.Proxy.Transcoders.{prepare_transcoder}
use yuelaiengine_gateway.Examples.Converting.{answer, disk_at, registry, plain, error_json, no_text}
use yuelaiengine_gateway.Examples.Balancing.{counting, instance_named}
use yuelaiengine_gateway.Examples.Plugging.{exchange}
use yuelaiengine_gateway.Examples.Routing.{route, beta_request}
use yuelaiengine_gateway.Examples.Serving.{config, registered}

abbrev orders : ServiceConfig
orders = record {
  name = lit "orders";
  instances = [];
  health_check_path = lit "/health";
  load_balancer = lit "least_connections";
}

-- Only `c` answers its checks.
abbrev checked : HealthChecker
checked = record {
  services = (lit "orders", 0) ∷ [];
  infos =
      record {
        instances = lit "http://c:80" ∷ [];
        health_path = lit "/health";
        status = (lit "http://c:80", true) ∷ [];
      }
      ∷ [];
}

abbrev unchanged : Bytes → Request → Request
unchanged url r = r

-- All URLs have one host; the protobuf libraries are those of other tests.
abbrev outside : Outside Bytes Bytes Bytes
outside = record {
  original_director = unchanged;
  url_host = λ _. some (lit "c:80");
  registry = registry;
  codec = plain;
  marshal_error = error_json;
  status_text = no_text;
}

abbrev api_request : Request
api_request = record beta_request { path = lit "/api/items" }

director-path_example :
    (rest : Bytes) × (lit "/api/items" ≡ lit "/api" ++ rest)
    × ((director unchanged
          (route (lit "/api"))
          []
          (lit "http://c:80")
          (lit "c:80")
          api_request).path
        ≡ (if is_empty rest then lit "/" else rest))
    × ((director unchanged
          (route (lit "/api"))
          []
          (lit "http://c:80")
          (lit "c:80")
          api_request).host
        ≡ lit "c:80")
unfolding prefix_match has_prefix ends_slash equal_fold to_lower text_eq
director-path_example =
    director-path unchanged (route (lit "/api")) [] (lit "http://c:80") (lit "c:80") api_request
      refl refl refl

abbrev proxy : Proxy Bytes Bytes
proxy = record {
  lb_factory = (lit "orders", least_connections counting) ∷ [];
  circuit_svc = some (record (new_service (pos 2) (pos 1) (pos 1000)) {
    circuit_breakers = (lit "orders", fresh) ∷ [];
  });
  caches = record { transcoders = []; descriptors = [] };
}

serve-least_connections_example :
    get
      (lit "orders")
      (serve outside
        (λ _. some (answer 200 []))
        (disk_at 3)
        5
        checked
        (route (lit "/api"))
        (some orders)
        api_request
        proxy).0.lb_factory
    ≡ some (least_connections counting)
unfolding get text_eq LeastConnections.get_next_instance LeastConnections.take_least
    LeastConnections.least is_instance_healthy load
serve-least_connections_example =
    serve-least_connections outside (λ _. some (answer 200 [])) (disk_at 3) 5 checked
      (route (lit "/api")) orders api_request proxy counting
      (instance_named (lit "http://c:80") true 2) refl ((refl, (refl, tt)), ((refl, tt), (tt, tt)))
      refl refl

-- A request that the upstream answers with 503.
abbrev turn_at : ℕ → Turn
turn_at now = record {
  now = now;
  checker = checked;
  route = route (lit "/api");
  request = api_request;
  disk = disk_at 3;
  upstream = λ _. some (answer 503 []);
}

serve_all-IsOpenSince_example :
    (s : CircuitBreaker.Service) × ((served outside orders
        (turn_at 20)
        (serve_all outside orders (turn_at 10 ∷ []) proxy)).0.circuit_svc
      ≡ some s)
    × IsOpenSince (lit "orders") 20 s
unfolding new_service get put text_eq serve get_or_create get_healthy_instance get_all_instances
    LeastConnections.get_all_instances pick_by_key retry get_next_instance
    LeastConnections.get_next_instance LeastConnections.take_least LeastConnections.least
    is_instance_healthy load after_choice to_url prepare_transcoder after_prepare send release
    release_connection LeastConnections.release_connection update_first trim_space to_lower breaker
serve_all-IsOpenSince_example =
    serve_all-IsOpenSince outside orders (turn_at 10 ∷ []) (turn_at 20) proxy
      (record (new_service (pos 2) (pos 1) (pos 1000)) {
        circuit_breakers = (lit "orders", fresh) ∷ [];
      })
      fresh refl refl refl refl (refl, tt) refl

abbrev report_route : RouteConfig
report_route = record (route (lit "/api")) { service_name = lit "all-services" }

abbrev reporting : GatewayConfig
reporting = record config { routes = some report_route ∷ [] }

serve_http-health_report_example :
    (health_check_handler reporting checked exchange.request ≡ some (get_all_statuses checked))
    × ((name url : Bytes)
        → said_of name url (get_all_statuses checked) ≡ is_instance_healthy name url checked)
unfolding serve_http find_route find_route_by_path find_from prefix_match has_prefix text_eq
    ends_slash method_allowed serve_route
serve_http-health_report_example =
    serve_http-health_report reporting registered checked exchange exchange refl

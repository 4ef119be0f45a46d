-- ===== src/Examples/Watching.antt =====
-- internal/core/health/checker.go and the balancers' view of it at concrete inputs.
use yuelaiengine_gateway.Common.{
  true, false, some, List, [], ◌∷◌, ◌≡◌, refl, Bytes, lit, text_eq, get, put, some_injective, sym,
  ◌∙◌,
}
use yuelaiengine_gateway.LoadBalancer.ConsistentHash.{find_url}
use yuelaiengine_gateway.LoadBalancer.RoundRobin
use yuelaiengine_gateway.LoadBalancer.Factory.{
  LoadBalancerFactory, replace_service_instances, register_all, register_instance, new_balancer,
}
use yuelaiengine_gateway.LoadBalancer.Factory.Alive.{alive_of}
use yuelaiengine_gateway.Health.{
  HealthChecker, ServiceCheckInfo, new_health_checker, register_service, new_info, fill_status,
  load, is_instance_healthy, update_service_status,
}
use yuelaiengine_gateway.Health.Mirror.{probe, started, registered, updated}
use yuelaiengine_gateway.Health.Agreement.{Agrees, probe-Agrees}
use yuelaiengine_gateway.Runtime.{sync_service}
use yuelaiengine_gateway.Runtime.Unanswered.{failures, failures-alive}
use yuelaiengine_gateway.Examples.Applying.{orders, same_order}

abbrev urls : List Bytes
urls = lit "http://a:80" ∷ []

abbrev watching : HealthChecker
watching = register_service (lit "orders") urls (lit "/health") new_health_checker

abbrev first_info : ServiceCheckInfo
first_info = record {
  instances = urls;
  health_path = lit "/health";
  status = (lit "http://a:80", false) ∷ [];
}

abbrev balancing : LoadBalancerFactory
balancing = (sync_service same_order orders (new_health_checker, [])).1

abbrev answered : HealthChecker
answered = (update_service_status (lit "orders") 0 (lit "http://a:80") true watching).0

agreeing : Agrees (lit "orders") (lit "http://a:80") (answered, balancing)
unfolding register_service new_info fill_status load get put text_eq update_service_status
    sync_service replace_service_instances register_all register_instance new_balancer
    RoundRobin.register_instance find_url
agreeing known alive k a = some_injective known true (sym k) ∙ some_injective true alive a

probe-Agrees_example :
    Agrees
      (lit "orders")
      (lit "http://a:80")
      (probe same_order (lit "orders") 0 (lit "http://a:80") false (answered, balancing))
unfolding register_service new_info fill_status load get put text_eq update_service_status
probe-Agrees_example =
    probe-Agrees same_order (lit "orders") (lit "orders") (lit "http://a:80") (lit "http://a:80") 0
      false answered balancing (record first_info { status = (lit "http://a:80", true) ∷ [] })
      (updated (lit "orders") 0 (lit "http://a:80") true
        (registered (lit "orders") urls (lit "/health") started))
      refl refl agreeing

failures-alive_example :
    let s =
      failures same_order
        (lit "orders")
        0
        (lit "http://a:80")
        3
        (sync_service same_order orders (new_health_checker, [])) in
    (alive_of (lit "orders") (lit "http://a:80") s.1 ≡ some true)
    × (is_instance_healthy (lit "orders") (lit "http://a:80") s.0 ≡ false)
unfolding is_instance_healthy load get text_eq
failures-alive_example =
    failures-alive same_order orders (lit "http://a:80") 3 new_health_checker [] refl refl

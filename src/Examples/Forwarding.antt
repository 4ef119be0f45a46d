-- ===== src/Examples/Forwarding.antt =====
-- internal/core/proxy/proxy.go (getHealthyInstance) at concrete inputs.
use yuelaiengine_gateway.Common.{
  ◌+◌, Bool, true, false, none, [], ◌∷◌, ◌≡◌, refl, arith, Bytes, lit, length, text_eq,
}
use yuelaiengine_gateway.LoadBalancer.Instance.{healthy}
use yuelaiengine_gateway.LoadBalancer.LeastConnections
use yuelaiengine_gateway.LoadBalancer.LeastConnections.{LeastConnectionsBalancer}
use yuelaiengine_gateway.LoadBalancer.Factory.{
  least_connections, get_next_instance, get_all_instances,
}
use yuelaiengine_gateway.Proxy.{get_healthy_instance, pick_by_key, retry}
use yuelaiengine_gateway.Proxy.Picking.{get_healthy_instance-healthy}
use yuelaiengine_gateway.Proxy.Leaking.{connections_of, HasGrown, get_healthy_instance-connections}
use yuelaiengine_gateway.Examples.Balancing.{counting, instance_named}
use yuelaiengine_gateway.Examples.Routing.{route, beta_request}

abbrev only_a : Bytes → Bool
only_a url = text_eq url (lit "http://a:80")

get_healthy_instance-healthy_example : only_a (lit "http://a:80") ≡ true
unfolding get_healthy_instance get_all_instances LeastConnections.get_all_instances pick_by_key
    retry get_next_instance LeastConnections.get_next_instance LeastConnections.take_least
    LeastConnections.least text_eq
get_healthy_instance-healthy_example =
    get_healthy_instance-healthy only_a (route (lit "/api")) beta_request
      (least_connections (record { instances = instance_named (lit "http://a:80") true 3 ∷ [] }))
      (instance_named (lit "http://a:80") true 4) refl

get_healthy_instance-connections_example :
    (l' : LeastConnectionsBalancer) × (get_healthy_instance
        (λ _. false)
        (route (lit "/api"))
        beta_request
        (least_connections counting)
      ≡ (least_connections l', none))
    × (connections_of l'.instances
        ≡ connections_of counting.instances + length (healthy counting.instances))
    × HasGrown counting.instances l'.instances
get_healthy_instance-connections_example =
    get_healthy_instance-connections (λ _. false) (route (lit "/api")) beta_request counting
      (refl, (refl, tt)) (omega arith)

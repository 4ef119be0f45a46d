-- ===== src/Proxy/Forward/Balance.antt =====
-- What a forwarded request leaves behind in a least-connections balancer.
use yuelaiengine_gateway.Common.{
  ℕ, zero, suc, Bool, true, false, Option, some, List, [], ◌∷◌, ◌≡◌, inl, inr, refl, ap, ◌∙◌, arith,
  Bytes, length, null, get_elem?, some_injective, Bool-cases, get, put, get-put_self,
}
use yuelaiengine_gateway.Config.{RouteConfig, ServiceConfig}
use yuelaiengine_gateway.Http.{Request}
use yuelaiengine_gateway.Health.{HealthChecker, is_instance_healthy}
use yuelaiengine_gateway.LoadBalancer.Instance.{ServiceInstance, Error, ok, healthy, DistinctUrls}
use yuelaiengine_gateway.LoadBalancer.LeastConnections
use yuelaiengine_gateway.LoadBalancer.LeastConnections.{LeastConnectionsBalancer}
use yuelaiengine_gateway.LoadBalancer.LeastConnections.Choice.{get_next_instance-fewest}
use yuelaiengine_gateway.LoadBalancer.LeastConnections.Release.{
  release_connection-get_next_instance,
}
use yuelaiengine_gateway.LoadBalancer.Factory.{
  Balancer, least_connections, get_next_instance, get_all_instances, get_or_create,
  release_connection,
}
use yuelaiengine_gateway.Proxy.{get_healthy_instance, pick_by_key, retry}
use yuelaiengine_gateway.Transcoding.Resolver.{Disk}
use yuelaiengine_gateway.Transcoding.Responses.{Response}
use yuelaiengine_gateway.Proxy.Forward.{
  ProxyResponse, Proxy, Outside, to_url, release, after_choice, serve,
}

living_left :
    (xs : List ServiceInstance) (j : ℕ) (y : ServiceInstance)
    → get_elem? xs j ≡ some y
    → y.alive ≡ true
    → null (healthy xs) ≡ false
living_left [] j y e a = absurd (ground arith)
living_left (z ∷ xs) zero y e a =
    let same : z ≡ y = some_injective z y e in
    let alive : z.alive ≡ true = rw same a in rw alive refl
living_left (z ∷ xs) (suc j) y e a = elim (Bool-cases z.alive) [
  | inl b ↦ rw b refl
  | inr b ↦ rw b (living_left xs j y e a)
]

some_left :
    (l : LeastConnectionsBalancer) (x : ServiceInstance)
    → (LeastConnections.get_next_instance l).1 ≡ ok x
    → null (healthy l.instances) ≡ false
some_left l x e = elim (get_next_instance-fewest l) [
  | inl (j, y, c) ↦ living_left l.instances j y c.place c.living
  | inr (_, none_left) ↦ absurd (ground (arith, none_left))
]

-- The first instance that the balancer names is taken, where it is healthy.
get_healthy_instance-first :
    (is_healthy : Bytes → Bool) (route : RouteConfig) (r : Request) (l : LeastConnectionsBalancer)
    (x : ServiceInstance)
    → (LeastConnections.get_next_instance l).1 ≡ ok x
    → is_healthy x.url ≡ true
    → get_healthy_instance is_healthy route r (least_connections l)
      ≡ (least_connections (LeastConnections.get_next_instance l).0, some x)
unfolding get_healthy_instance get_all_instances LeastConnections.get_all_instances pick_by_key
    retry get_next_instance
get_healthy_instance-first is_healthy route r l x e h =
    rw (some_left l x e) (go (healthy l.instances) (some_left l x e))
  where
    go :
        (xs : List ServiceInstance)
        → null xs ≡ false
        → retry is_healthy (length xs) (least_connections l)
          ≡ (least_connections (LeastConnections.get_next_instance l).0, some x)
    go [] n = absurd (ground arith)
    go (y ∷ ys) n = rw (e, retry) (rw (h, retry) refl)

module _ {D F M : Type 0} (o : Outside D F M) where
  get-release :
      (upstream : Request → Option Response) (disk : Disk) (now : ℕ) (route : RouteConfig)
      (name : Bytes) (lb : Balancer) (url : Bytes) (v : Proxy D F × ProxyResponse)
      → get name (release o upstream disk now route name lb url v).0.lb_factory
        ≡ some (release_connection url lb).0
  unfolding release
  get-release upstream disk now route name lb url (p, response) =
      get-put_self name (release_connection url lb).0 p.lb_factory

  -- With least connections and distinct URLs, a request that goes to the first instance that the
  -- balancer names leaves the balancer as it was before, however the request ends: with a response, an
  -- error of the upstream, a URL that cannot be parsed, or a body or a configuration that cannot be
  -- converted.
  pub serve-least_connections :
      (upstream : Request → Option Response) (disk : Disk) (now : ℕ) (hc : HealthChecker)
      (route : RouteConfig) (service : ServiceConfig) (r : Request) (p : Proxy D F)
      (l : LeastConnectionsBalancer) (x : ServiceInstance)
      → get service.name p.lb_factory ≡ some (least_connections l)
      → DistinctUrls l.instances
      → (LeastConnections.get_next_instance l).1 ≡ ok x
      → is_instance_healthy service.name x.url hc ≡ true
      → get service.name (serve o upstream disk now hc route (some service) r p).0.lb_factory
        ≡ some (least_connections l)
  unfolding serve get_or_create after_choice release_connection
  serve-least_connections upstream disk now hc route service r p l x known distinct named up =
      let is_healthy : Bytes → Bool = λ url. is_instance_healthy service.name url hc in
      let l' = (LeastConnections.get_next_instance l).0 in
      let first = get_healthy_instance-first is_healthy route r l x named up in
      rw (known, serve, get_or_create)
        (rw first (
          get-release upstream disk now route service.name (least_connections l') x.url (
            to_url o upstream disk now route service.name x.url r (o.url_host x.url)
              (record p { lb_factory = put service.name (least_connections l') p.lb_factory }))
          ∙ ap (λ (v : LeastConnectionsBalancer × Option Error). some (least_connections v.0))
              (release_connection-get_next_instance l x distinct named)))

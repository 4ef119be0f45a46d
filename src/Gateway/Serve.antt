-- ===== src/Gateway/Serve.antt =====
-- What a request must have passed before the gateway hands it to a service.
use mathlib.Core.Path.{subst}
use yuelaiengine_gateway.Common.{
  true, false, Option, none, some, List, [], ◌∷◌, ◌++◌, ◌≡◌, refl, inl, inr, ap, ◌∙◌, arith, Bytes,
  lit, any, is_empty, text_eq, equal_fold, Map, get, Bool-cases, Option-cases,
}
use yuelaiengine_gateway.Config.{PluginSpec, RouteConfig, ServiceConfig, GatewayConfig}
use yuelaiengine_gateway.Router.{find_route, find_route_by_path}
use yuelaiengine_gateway.Traffic.{select_target_service}
use yuelaiengine_gateway.Plugin.{Exchange, Verdict, Plugin, write, text_of, execute_chain}
use yuelaiengine_gateway.Plugin.Chain.{Passed, done, passed, Passed-of_chain}
use yuelaiengine_gateway.Gateway.{
  is_named, has_plugin, auth_spec, chain_of, answered, health_report, proxied, panicked,
  after_chain, serve_service, serve_route, serve_http,
}

-- A request that is handed to a service of a route: the route is the request's own, it is not the
-- health report, the service is the one selected and is defined, and all plugins let the request on.
pub record IsProxied (cfg : GatewayConfig) (plugins : Map Plugin) (x : Exchange)
    (route : RouteConfig) (service : ServiceConfig) (y : Exchange) : Type 0 where
  pub routed : find_route cfg.routes x.request ≡ some route
  pub not_health : text_eq route.service_name (lit "all-services") ≡ false
  pub selected :
      (target : Bytes) × (select_target_service cfg.services route x.request ≡ some target)
      × (get target cfg.services ≡ some service)
  pub let_on : Passed plugins (chain_of route) x y

after_chain-proxied :
    (route r : RouteConfig) (service s : ServiceConfig) (v : Verdict) (y : Exchange)
    → after_chain route service v ≡ proxied r s y
    → (route ≡ r) × (service ≡ s) × (v ≡ (y, true, none))
unfolding after_chain
after_chain-proxied route r service s (x, go_on, some e) y h = absurd (ground arith)
after_chain-proxied route r service s (x, true, none) y h =
    (ground arith, ground arith, ap (λ (z : Exchange). (z, true, none)) (ground arith))
after_chain-proxied route r service s (x, false, none) y h = absurd (ground arith)

serve_service-proxied :
    (plugins : Map Plugin) (route r : RouteConfig) (x y : Exchange) (found : Option ServiceConfig)
    (service : ServiceConfig)
    → serve_service plugins route x found ≡ proxied r service y
    → (route ≡ r) × (found ≡ some service) × Passed plugins (chain_of route) x y
unfolding serve_service
serve_service-proxied plugins route r x y none service h = absurd (ground arith)
serve_service-proxied plugins route r x y (some s) service h =
    let (same, e, v) =
      after_chain-proxied route r s service (execute_chain plugins (chain_of route) x) y h in
    (same, ap some e, Passed-of_chain plugins (chain_of route) x y none v)

serve_route-proxied :
    (cfg : GatewayConfig) (plugins : Map Plugin) (route r : RouteConfig) (x y : Exchange)
    (service : ServiceConfig)
    → serve_route cfg plugins route x ≡ proxied r service y
    → (route ≡ r)
      × (text_eq route.service_name (lit "all-services") ≡ false)
      × ((target : Bytes) × (select_target_service cfg.services route x.request ≡ some target)
          × (get target cfg.services ≡ some service))
      × Passed plugins (chain_of route) x y
unfolding serve_route
serve_route-proxied cfg plugins route r x y service h =
    elim (Bool-cases (text_eq route.service_name (lit "all-services"))) [
      | inl q ↦
          let bad : health_report x ≡ proxied r service y = rw (q, serve_route) at h in
          absurd (ground arith)
      | inr q ↦ elim (Option-cases (select_target_service cfg.services route x.request)) [
        | inl t ↦
            let bad : panicked ≡ proxied r service y = rw (q, t, serve_route) at h in
            absurd (ground arith)
        | inr (target, t) ↦
            let (same, found, p) =
              serve_service-proxied plugins route r x y (get target cfg.services) service
                (rw (q, t, serve_route) at h) in
            (same, q, (target, t, found), p)
      ]
    ]

-- A request is handed to a service only if the router finds the route for its path and method, the
-- route is not the health report's, the service is the one selected for the request and is in the
-- configuration, and every plugin of the route's chain is registered and let the request on.
pub serve_http-IsProxied :
    (cfg : GatewayConfig) (plugins : Map Plugin) (x y : Exchange) (route : RouteConfig)
    (service : ServiceConfig)
    → serve_http cfg plugins x ≡ proxied route service y
    → IsProxied cfg plugins x route service y
unfolding serve_http
serve_http-IsProxied cfg plugins x y route service h =
    elim (Option-cases (find_route cfg.routes x.request)) [
      | inl f ↦ elim (Option-cases (find_route_by_path cfg.routes x.request.path)) [
        | inl p ↦
            let bad : answered (write 404 (lit "ROUTE_NOT_FOUND") x) ≡ proxied route service y =
              rw (f, p, serve_http) at h in
            absurd (ground arith)
        | inr (r, p) ↦
            let bad : answered (write 405 (lit "METHOD_NOT_ALLOWED") x) ≡ proxied route service y =
              rw (f, p, serve_http) at h in
            absurd (ground arith)
      ]
      | inr (r, f) ↦
          found r f (serve_route-proxied cfg plugins r route x y service (rw (f, serve_http) at h))
    ]
  where
    found :
        (r : RouteConfig)
        → find_route cfg.routes x.request ≡ some r
        → (r ≡ route)
          × (text_eq r.service_name (lit "all-services") ≡ false)
          × ((target : Bytes) × (select_target_service cfg.services r x.request ≡ some target)
              × (get target cfg.services ≡ some service))
          × Passed plugins (chain_of r) x y
        → IsProxied cfg plugins x route service y
    found r f (same, n, t, p) = record {
      routed = f ∙ ap some same;
      not_health =
          subst (λ (q : RouteConfig). text_eq q.service_name (lit "all-services") ≡ false) same n;
      selected =
          subst
            (λ (q : RouteConfig).
              (target : Bytes) × (select_target_service cfg.services q x.request ≡ some target)
              × (get target cfg.services ≡ some service))
            same t;
      let_on = subst (λ (q : RouteConfig). Passed plugins (chain_of q) x y) same p;
    }

-- A plugin that the chain names `auth`, in whatever case, ran on what the plugins before it left of the
-- exchange, and let it on to those behind it.
pub record HasAuth (plugins : Map Plugin) (specs : List PluginSpec) (x y : Exchange) : Type 0 where
  pub before : List PluginSpec
  pub spec : PluginSpec
  pub behind : List PluginSpec
  pub chain : specs ≡ before ++ spec ∷ behind
  pub named : is_named (lit "auth") spec ≡ true
  pub plugin : Plugin
  pub registered : get (text_of (lit "name") spec) plugins ≡ some plugin
  pub given : Exchange
  pub left : Exchange
  pub reached : Passed plugins before x given
  pub let_on : plugin spec given ≡ (left, true, none)
  pub rest : Passed plugins behind left y

HasAuth-there :
    (plugins : Map Plugin) (s : PluginSpec) (specs : List PluginSpec) (x y z : Exchange)
    (plugin : Plugin)
    → get (text_of (lit "name") s) plugins ≡ some plugin
    → is_empty (text_of (lit "name") s) ≡ false
    → plugin s x ≡ (y, true, none)
    → HasAuth plugins specs y z
    → HasAuth plugins (s ∷ specs) x z
HasAuth-there plugins s specs x y z plugin g n e a = record {
  before = s ∷ a.before;
  spec = a.spec;
  behind = a.behind;
  chain = ap (λ l. s ∷ l) a.chain;
  named = a.named;
  plugin = a.plugin;
  registered = a.registered;
  given = a.given;
  left = a.left;
  reached = passed plugin g n e a.reached;
  let_on = a.let_on;
  rest = a.rest;
}

Passed-HasAuth :
    (plugins : Map Plugin) (specs : List PluginSpec) (x z : Exchange)
    → has_plugin specs (lit "auth") ≡ true
    → Passed plugins specs x z
    → HasAuth plugins specs x z
unfolding has_plugin
Passed-HasAuth plugins [] x z h p = absurd (ground arith)
Passed-HasAuth plugins (s ∷ specs) x z h (passed {y} plugin g n e p) =
    elim (Bool-cases (is_named (lit "auth") s)) [
      | inl k ↦ record {
        before = [];
        spec = s;
        behind = specs;
        chain = refl;
        named = k;
        plugin = plugin;
        registered = g;
        given = x;
        left = y;
        reached = done;
        let_on = e;
        rest = p;
      }
      | inr k ↦
          HasAuth-there plugins s specs x y z plugin g n e
            (Passed-HasAuth plugins specs y z (rw (k, any) at h) p)
    ]

has_plugin-append :
    (specs : List PluginSpec) → has_plugin (specs ++ auth_spec ∷ []) (lit "auth") ≡ true
unfolding has_plugin is_named get text_eq equal_fold
has_plugin-append [] = refl
has_plugin-append (s ∷ specs) = elim (Bool-cases (is_named (lit "auth") s)) [
  | inl k ↦ rw (k, any) refl
  | inr k ↦ rw (k, any) (has_plugin-append specs)
]

chain_of-has_plugin :
    (route : RouteConfig)
    → route.requires_auth ≡ true
    → has_plugin (chain_of route) (lit "auth") ≡ true
unfolding chain_of
chain_of-has_plugin route a = elim (Bool-cases (has_plugin route.plugins (lit "auth"))) [
  | inl n ↦ simp (a, n)
  | inr n ↦ simp (a, n) (has_plugin-append route.plugins)
]

-- A request of a route that requires authentication is handed to a service only if a plugin that the
-- route's chain names `auth`, in whatever case, and that is registered under that very name, ran on this
-- request, as the plugins before it in the chain left it, and let it on; what is handed on is what the
-- plugins behind it make of what it left.
pub serve_http-HasAuth :
    (cfg : GatewayConfig) (plugins : Map Plugin) (x y : Exchange) (route : RouteConfig)
    (service : ServiceConfig)
    → route.requires_auth ≡ true
    → serve_http cfg plugins x ≡ proxied route service y
    → HasAuth plugins (chain_of route) x y
serve_http-HasAuth cfg plugins x y route service a h =
    Passed-HasAuth plugins (chain_of route) x y (chain_of-has_plugin route a)
      (serve_http-IsProxied cfg plugins x y route service h).let_on

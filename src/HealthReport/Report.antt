-- ===== src/HealthReport/Report.antt =====
-- What the gateway reports of its services.
use yuelaiengine_gateway.Common.{
  ℕ, Bool, true, false, Option, none, some, List, [], ◌≡◌, inl, inr, refl, ◌∙◌, Bytes, lit, text_eq,
  get, Map, get-map_values, get_elem?, Bool-cases, Option-cases, none-some, arith,
}
use mathlib.Core.Option
use mathlib.Core.Path.{subst}
use yuelaiengine_gateway.Http.{Request}
use yuelaiengine_gateway.Config.{RouteConfig, ServiceConfig, GatewayConfig}
use yuelaiengine_gateway.Router.{find_route, find_route_by_path, method_allowed}
use yuelaiengine_gateway.Traffic.{select_target_service}
use yuelaiengine_gateway.Plugin.{Exchange, Verdict, Plugin, write, execute_chain}
use yuelaiengine_gateway.Gateway.{
  answered, health_report, panicked, serve_http, serve_route, serve_service, after_chain, chain_of,
}
use yuelaiengine_gateway.Health.{HealthChecker, load, get_all_statuses, is_instance_healthy}
use yuelaiengine_gateway.HealthReport.{
  build_service_health_response, scoped_response, health_check_handler,
}

-- What a report says of an instance.
abbrev pub said_of : Bytes → Bytes → Map (Map Bool) → Bool
said_of name url report = elim (get name report) [
  | none ↦ false
  | some statuses ↦ elim (get url statuses) [ none ↦ false | some is_healthy ↦ is_healthy ]
]

get-get_all_statuses :
    (name : Bytes) (hc : HealthChecker)
    → get name (get_all_statuses hc)
      ≡ Option.map
          (λ (p : ℕ). elim (get_elem? hc.infos p) [ none ↦ [] | some info ↦ info.status ])
          (get name hc.services)
unfolding get_all_statuses
get-get_all_statuses name hc = get-map_values _ name hc.services

said_of-get_all_statuses :
    (name url : Bytes) (hc : HealthChecker)
    → said_of name url (get_all_statuses hc) ≡ is_instance_healthy name url hc
unfolding is_instance_healthy load get
said_of-get_all_statuses name url hc =
    rw (get-get_all_statuses name hc, said_of)
      (elim (Option-cases (get name hc.services)) [
        | inl e ↦ rw (e, load, is_instance_healthy) refl
        | inr (p, e) ↦ elim (Option-cases (get_elem? hc.infos p)) [
          | inl f ↦ rw (e, f, load, is_instance_healthy) refl
          | inr (info, f) ↦ rw (e, f, load, is_instance_healthy) refl
        ]
      ])

all_of_scoped :
    (cfg : GatewayConfig) (route : RouteConfig) (host : Bytes) (hc : HealthChecker)
    → text_eq route.service_name (lit "all-services") ≡ true
    → scoped_response cfg route host hc ≡ some (get_all_statuses hc)
unfolding scoped_response build_service_health_response
all_of_scoped cfg route host hc all = ground (arith, all)

after_chain-not :
    (route : RouteConfig) (service : ServiceConfig) (v : Verdict) (y : Exchange)
    → after_chain route service v ≡ health_report y
    → ⊥
unfolding after_chain
after_chain-not route service (x, go_on, some e) y h = ground arith
after_chain-not route service (x, true, none) y h = ground arith
after_chain-not route service (x, false, none) y h = ground arith

serve_service-not :
    (plugins : Map Plugin) (route : RouteConfig) (x y : Exchange) (s : Option ServiceConfig)
    → serve_service plugins route x s ≡ health_report y
    → ⊥
unfolding serve_service
serve_service-not plugins route x y none h = ground arith
serve_service-not plugins route x y (some service) h =
    after_chain-not route service (execute_chain plugins (chain_of route) x) y h

serve_route-all :
    (cfg : GatewayConfig) (plugins : Map Plugin) (route : RouteConfig) (x y : Exchange)
    → serve_route cfg plugins route x ≡ health_report y
    → (text_eq route.service_name (lit "all-services") ≡ true) × (x ≡ y)
unfolding serve_route
serve_route-all cfg plugins route x y h =
    elim (Bool-cases (text_eq route.service_name (lit "all-services"))) [
      | inl e ↦
          let here : health_report x ≡ health_report y = rw (e, serve_route) at h in
          (e, ground arith)
      | inr e ↦ elim (Option-cases (select_target_service cfg.services route x.request)) [
        | inl n ↦
            let bad : panicked ≡ health_report y = rw (e, n, serve_route) at h in
            absurd (ground arith)
        | inr (target, n) ↦ absurd (
            serve_service-not plugins route x y (get target cfg.services)
              (rw (e, n, serve_route) at h))
      ]
    ]

find_route-path :
    (routes : List (Option RouteConfig)) (r : Request) (route : RouteConfig)
    → find_route routes r ≡ some route
    → find_route_by_path routes r.path ≡ some route
unfolding find_route
find_route-path routes r route h = elim (Option-cases (find_route_by_path routes r.path)) [
  | inl n ↦ absurd (none-some route (rw (n, find_route) at h))
  | inr (found, n) ↦ elim (Bool-cases (method_allowed found.methods r.method)) [
    | inl a ↦ let here : some found ≡ some route = rw (n, a, find_route) at h in n ∙ here
    | inr a ↦ absurd (none-some route (rw (n, a, find_route) at h))
  ]
]

-- A request whose route is the health report's is answered with the state of all services, and what
-- the report says of an instance is what the proxy goes by, whatever scope of the health check the
-- route names. Both handlers read the same configuration.
pub serve_http-health_report :
    (cfg : GatewayConfig) (plugins : Map Plugin) (hc : HealthChecker) (x y : Exchange)
    → serve_http cfg plugins x ≡ health_report y
    → (health_check_handler cfg hc y.request ≡ some (get_all_statuses hc))
      × ((name url : Bytes)
          → said_of name url (get_all_statuses hc) ≡ is_instance_healthy name url hc)
unfolding serve_http health_check_handler
serve_http-health_report cfg plugins hc x y h =
    elim (Option-cases (find_route cfg.routes x.request)) [
      | inl f ↦ elim (Option-cases (find_route_by_path cfg.routes x.request.path)) [
        | inl p ↦
            let bad : answered (write 404 (lit "ROUTE_NOT_FOUND") x) ≡ health_report y =
              rw (f, p, serve_http) at h in
            absurd (ground arith)
        | inr (r, p) ↦
            let bad : answered (write 405 (lit "METHOD_NOT_ALLOWED") x) ≡ health_report y =
              rw (f, p, serve_http) at h in
            absurd (ground arith)
      ]
      | inr (route, f) ↦
          let (all, same) = serve_route-all cfg plugins route x y (rw (f, serve_http) at h) in
          (
            subst
                (λ (z : Exchange).
                  health_check_handler cfg hc z.request ≡ some (get_all_statuses hc))
                same
                (rw (find_route-path cfg.routes x.request route f, health_check_handler)
                  (rw (all_of_scoped cfg route x.request.host hc all) refl)),
            λ name url. said_of-get_all_statuses name url hc,
          )
    ]

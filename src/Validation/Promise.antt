-- ===== src/Validation/Promise.antt =====
-- What an accepted configuration buys: a request is never answered with a configuration error.
use yuelaiengine_gateway.Common.{
  ◌<◌, true, false, Option, none, some, ◌≡◌, inl, inr, refl, arith, Bytes, lit, text_eq, Map, get,
  has, u32, List, [], All, is_empty, not, ◌&&◌, All-get_elem?, In, null, Bool-cases, Option-cases,
}
use yuelaiengine_gateway.Config.{RouteConfig, ServiceConfig, GatewayConfig}
use yuelaiengine_gateway.Http.{Request}
use yuelaiengine_gateway.Router.{find_route, find_route_by_path, method_allowed}
use yuelaiengine_gateway.Router.Best.{
  IsBest, exact_route, longest_prefix, no_route, find_route_by_path-IsBest,
}
use yuelaiengine_gateway.Traffic.{
  total_weight, select_weighted_service, select_target_service, weighted_or_default, ab_service,
  traffic_key,
}
use yuelaiengine_gateway.Traffic.Weights.{select_weighted_service-IsWeighted}
use yuelaiengine_gateway.Traffic.Target.{select_target_service-defined}
use yuelaiengine_gateway.Plugin.{Exchange, Plugin}
use yuelaiengine_gateway.Gateway.{serve_service, serve_route, serve_http}
use yuelaiengine_gateway.Validation.Outcomes.{
  IsServed, unknown_path, unknown_method, reported, after_chain-IsServed,
}
use yuelaiengine_gateway.Validation.{validate_gateway_config}
use yuelaiengine_gateway.Validation.WellFormed.{IsRoute}
use yuelaiengine_gateway.Validation.Accepts.{validate_gateway_config-IsWellFormed_iff}

-- The weights of a route add up to less than 2^32, as the modulus of the weighted choice is.
abbrev pub FitsWeights : Option RouteConfig → Type 0
FitsWeights none = Unit
FitsWeights (some route) = total_weight route.traffic_weights < u32

find_route-In :
    (routes : List (Option RouteConfig)) (r : Request) (route : RouteConfig)
    → find_route routes r ≡ some route
    → In (some route) routes
unfolding find_route
find_route-In routes r route e = elim (Option-cases (find_route_by_path routes r.path)) [
  | inl q ↦ let bad : none ≡ some route = rw (q, find_route) at e in absurd (ground arith)
  | inr (found, q) ↦ elim (Bool-cases (method_allowed found.methods r.method)) [
    | inl m ↦
        let here : some found ≡ some route = rw (q, m, find_route) at e in
        best found q (ground arith) (find_route_by_path-IsBest routes r.path)
    | inr m ↦ let bad : none ≡ some route = rw (q, m, find_route) at e in absurd (ground arith)
  ]
]
  where
    best :
        (found : RouteConfig)
        → find_route_by_path routes r.path ≡ some found
        → found ≡ route
        → IsBest r.path routes (find_route_by_path routes r.path)
        → In (some route) routes
    best found q s (exact_route t e i _) = let same : t ≡ route = ground arith in rw (← same) i
    best found q s (longest_prefix t e _ i _ _) =
        let same : t ≡ route = ground arith in rw (← same) i
    best found q s (no_route e _ _) = absurd (ground arith)

select_weighted_service-defined :
    (route : RouteConfig) (key : Bytes)
    → FitsWeights (some route)
    → (svc : Bytes) × (select_weighted_service route.traffic_weights key ≡ some svc)
select_weighted_service-defined route key fits =
    elim (select_weighted_service-IsWeighted route.traffic_weights key) [
      | inl (svc, e, _) ↦ (svc, e)
      | inr (inl (e, _)) ↦ ([], e)
      | inr (inr (e, m, p)) ↦ absurd (omega (arith, m, p, fits))
    ]

-- The choice of the service does not panic.
weighted_or_default-some :
    (services : Map ServiceConfig) (route : RouteConfig) (r : Request)
    → FitsWeights (some route)
    → (svc : Bytes) × (weighted_or_default services route r ≡ some svc)
unfolding weighted_or_default
weighted_or_default-some services route r fits = elim (Bool-cases (null route.traffic_weights)) [
  | inl n ↦ (route.service_name, rw n)
  | inr n ↦
      let (svc, q) = select_weighted_service-defined route (traffic_key route r) fits in
      elim (Bool-cases (not (is_empty svc) && has svc services)) [
        | inl k ↦ (svc, rw (n, q, k))
        | inr k ↦ (route.service_name, rw (n, q, k))
      ]
]

select_target_service-some :
    (services : Map ServiceConfig) (route : RouteConfig) (r : Request)
    → FitsWeights (some route)
    → (svc : Bytes) × (select_target_service services route r ≡ some svc)
unfolding select_target_service
select_target_service-some services route r fits =
    split (ab_service services route r) (weighted_or_default-some services route r fits)
  where
    split :
        (chosen : Option Bytes)
        → ((svc : Bytes) × (weighted_or_default services route r ≡ some svc))
        → (svc : Bytes) × ((elim chosen [
          | some s ↦ some s
          | none ↦ weighted_or_default services route r
        ])
            ≡ some svc)
    split (some s) w = (s, refl)
    split none w = w

serve_route-IsServed :
    (cfg : GatewayConfig) (plugins : Map Plugin) (route : RouteConfig) (x : Exchange)
    → find_route cfg.routes x.request ≡ some route
    → IsRoute cfg.services (some route)
    → FitsWeights (some route)
    → IsServed cfg plugins x (serve_route cfg plugins route x)
unfolding serve_route serve_service
serve_route-IsServed cfg plugins route x f ok fits =
    let (target, t) = select_target_service-some cfg.services route x.request fits in
    elim (Bool-cases (text_eq route.service_name (lit "all-services"))) [
      | inl q ↦ rw (q, serve_route) (reported f q)
      | inr q ↦
          let there =
            select_target_service-defined cfg.services route x.request target (known q) t in
          elim (Option-cases (get target cfg.services)) [
            | inl e ↦ let bad : false ≡ true = rw (e, has) at there in absurd (ground arith)
            | inr (service, e) ↦
                rw (q, t, serve_route, e, serve_service)
                  (after_chain-IsServed cfg plugins route service target x f q t e ok.1.1.1.1.1)
          ]
    ]
  where
    known :
        text_eq route.service_name (lit "all-services") ≡ false
        → has route.service_name cfg.services ≡ true
    known q = elim ok.1.1.0 [ inl e ↦ absurd (ground arith) | inr e ↦ e ]

-- Under a configuration that the validator accepted, and whose routes have weights that add up to less
-- than 2^32, the gateway never answers with its own SERVICE_CONFIG_ERROR or PLUGIN_CONFIG_INVALID, and
-- no request panics. Each gets the 404 or the 405 of the router, or the health report where its route
-- asks for it, or is handed to the service that
-- was selected for it, after all of its route's plugins let it on; or the chain of its route's plugins
-- ended at the first that did not let it on: a plugin that refused or failed, or a name that no plugin
-- is registered under, which the validator does not look into and which is the 500 PLUGIN_NOT_FOUND.
pub serve_http-IsServed :
    (parse_url : Bytes → Option (Bytes × Bytes)) (cfg : GatewayConfig) (plugins : Map Plugin)
    (x : Exchange)
    → validate_gateway_config parse_url cfg ≡ none
    → All FitsWeights cfg.routes
    → IsServed cfg plugins x (serve_http cfg plugins x)
unfolding serve_http
serve_http-IsServed parse_url cfg plugins x accepted fits =
    let ok = (validate_gateway_config-IsWellFormed_iff parse_url cfg).0 accepted in
    elim (Option-cases (find_route cfg.routes x.request)) [
      | inl f ↦ elim (Option-cases (find_route_by_path cfg.routes x.request.path)) [
        | inl p ↦ rw (f, p, serve_http) (unknown_path p)
        | inr (r, p) ↦ rw (f, p, serve_http) (unknown_method p f)
      ]
      | inr (route, f) ↦
          let (i, e) = find_route-In cfg.routes x.request route f in
          rw (f, serve_http)
            (serve_route-IsServed cfg plugins route x f
              (All-get_elem? (IsRoute cfg.services) cfg.routes i ok.routes e)
              (All-get_elem? FitsWeights cfg.routes i fits e))
    ]

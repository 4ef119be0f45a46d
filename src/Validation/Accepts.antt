-- ===== src/Validation/Accepts.antt =====
-- The validator accepts exactly the well-formed configurations.
use yuelaiengine_gateway.Common.{
  Bool, true, false, not, ◌&&◌, Option, none, some, ◌≡◌, ◌↔◌, ◌⊎◌, arith, Bytes, lit, text_eq,
  has_prefix, Map, has, null, ℤ, is_negative, if◌then◌else◌, fail_if, ◌and_then◌, All,
  fail_if-none_iff, each-All_iff,
}
use yuelaiengine_gateway.Config.{
  PluginSpec, InstanceConfig, ServiceConfig, RouteConfig, RateLimiterRule, GatewayConfig,
}
use yuelaiengine_gateway.Validation.{
  Error, is_blank, validate_service, validate_plugin_spec, validate_weight, validate_route,
  validate_rule, validate_gateway_config, bad_url, undefined_variant, no_service_name, no_instances,
  no_health_path, relative_health_path, no_path, no_target, undefined_target, no_port, no_services,
  no_routes, negative_flush_interval,
}
use yuelaiengine_gateway.Validation.WellFormed.{
  IsText, IsService, IsPlugin, IsWeight, IsRoute, IsRule, IsWellFormed, both_iff, not_iff,
  HasHost-iff, settings_iff,
}

service_iff :
    (parse_url : Bytes → Option (Bytes × Bytes)) (e : Bytes × ServiceConfig)
    → (validate_service parse_url e ≡ none) ↔ IsService parse_url e
unfolding validate_service
service_iff parse_url (key, svc) =
    both_iff _ _ (fail_if-none_iff (is_blank svc.name) (no_service_name key)) (
      both_iff _ _ (fail_if-none_iff (null svc.instances) (no_instances svc.name)) (
        both_iff _ _ (fail_if-none_iff (is_blank svc.health_check_path) (no_health_path svc.name)) (
          both_iff _ _
            (not_iff (has_prefix svc.health_check_path (lit "/")) (relative_health_path svc.name))
            (each-All_iff _ _ (λ (i : InstanceConfig). HasHost-iff parse_url i.url (bad_url i.url))
              svc.instances))))

IsPlugin-iff :
    (prefix : Bytes) (spec : PluginSpec) → (validate_plugin_spec prefix spec ≡ none) ↔ IsPlugin spec
unfolding validate_plugin_spec
IsPlugin-iff prefix spec = both_iff _ _ (fail_if-none_iff _ _) (settings_iff _ spec)

IsWeight-iff :
    (services : Map ServiceConfig) (e : Bytes × ℤ)
    → (validate_weight services e ≡ none) ↔ IsWeight services e
unfolding validate_weight
IsWeight-iff services (svc, weight) =
    both_iff _ _ (not_iff _ _) ((λ h. ground arith), (λ h. ground arith))

either_iff : (a b : Bool) (e : Error) → (fail_if (a && b) e ≡ none) ↔ ((a ≡ false) ⊎ (b ≡ false))
either_iff a b e = ((λ h. ground arith), (λ h. ground arith))

target_iff :
    (a b : Bool) (e : Error) → (fail_if (not a && not b) e ≡ none) ↔ ((a ≡ true) ⊎ (b ≡ true))
target_iff a b e = ((λ h. ground arith), (λ h. ground arith))

route_iff :
    (services : Map ServiceConfig) (r : Option RouteConfig)
    → (validate_route services r ≡ none) ↔ IsRoute services r
unfolding validate_route
route_iff services none = ((λ h. ground arith), (λ h. absurd h))
route_iff services (some route) =
    both_iff _ _ (either_iff (is_blank route.path_prefix) (is_blank route.path) no_path) (
      both_iff _ _ (fail_if-none_iff (is_blank route.service_name) (no_target route.path_prefix)) (
        both_iff _ _
          (target_iff (text_eq route.service_name (lit "all-services"))
            (has route.service_name services) (undefined_target route.service_name))
          (both_iff _ _
            (each-All_iff (validate_weight services) (IsWeight services) (IsWeight-iff services)
              route.traffic_weights)
            (both_iff _ _
              (each-All_iff _ _
                (λ (e : Bytes × Bytes). not_iff (has e.1 services) (undefined_variant e.1))
                route.ab_variants)
              (each-All_iff (validate_plugin_spec route.path_prefix) IsPlugin
                (IsPlugin-iff route.path_prefix) route.plugins)))))

bucket_iff :
    (a b c : Bool) (d e : Error)
    → ((if a then (fail_if b d and_then fail_if c e) else none) ≡ none)
      ↔ ((a ≡ false) ⊎ ((b ≡ false) × (c ≡ false)))
bucket_iff a b c d e = ((λ h. ground arith), (λ h. ground arith))

rule_iff : (rule : RateLimiterRule) → (validate_rule rule ≡ none) ↔ IsRule rule
unfolding validate_rule
rule_iff rule = both_iff _ _ (fail_if-none_iff _ _) ((λ h. ground arith), (λ h. ground arith))

-- A configuration is accepted exactly when it is well formed: it has a port, services and routes; each
-- service has a name, instances whose URLs have a scheme and a host, and an absolute health path; each
-- route has a path or prefix, and its target, its weighted services, all of positive weight, and the
-- services of its variants are configured, but for the target `all-services`, which need not be; each
-- plugin has a name and what it needs; each rule has a name, and a token bucket a positive capacity and a
-- refill rate that is not negative; and a flush interval that is used is not negative.
pub validate_gateway_config-IsWellFormed_iff :
    (parse_url : Bytes → Option (Bytes × Bytes)) (cfg : GatewayConfig)
    → (validate_gateway_config parse_url cfg ≡ none) ↔ IsWellFormed parse_url cfg
unfolding validate_gateway_config
validate_gateway_config-IsWellFormed_iff parse_url cfg = (
  (λ h.
      let (p, (s, (ss, (r, (rs, (rules, f)))))) = parts.0 h in
      record {
        port = p;
        some_service = s;
        services = ss;
        some_route = r;
        routes = rs;
        rules = rules;
        flushing = f;
      }),
  (λ w.
      parts.1 (
        w.port,
        (w.some_service, (w.services, (w.some_route, (w.routes, (w.rules, w.flushing))))),
      )),
)
  where
    parts : (validate_gateway_config parse_url cfg ≡ none) ↔ (
        IsText cfg.port
        × ((null cfg.services ≡ false)
            × (All (IsService parse_url) cfg.services
                × ((null cfg.routes ≡ false)
                    × (All (IsRoute cfg.services) cfg.routes
                        × (All IsRule cfg.rules
                            × ((cfg.persist_enabled ≡ false)
                                ⊎ (is_negative cfg.flush_interval ≡ false))))))))
    parts = both_iff _ _ (fail_if-none_iff (is_blank cfg.port) no_port) (
        both_iff _ _ (fail_if-none_iff (null cfg.services) no_services) (
          both_iff _ _
            (each-All_iff (validate_service parse_url) (IsService parse_url) (service_iff parse_url)
              cfg.services)
            (both_iff _ _ (fail_if-none_iff (null cfg.routes) no_routes) (
              both_iff _ _
                (each-All_iff (validate_route cfg.services) (IsRoute cfg.services)
                  (route_iff cfg.services) cfg.routes)
                (both_iff _ _ (each-All_iff validate_rule IsRule rule_iff cfg.rules) (
                  either_iff cfg.persist_enabled (is_negative cfg.flush_interval)
                    negative_flush_interval))))))

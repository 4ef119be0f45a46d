-- ===== src/Validation.antt =====
-- internal/core/config_validation.go, and validateRouteTranscodingConfigs of
-- internal/core/gateway_runtime.go: what a configuration must satisfy to be applied. `url.Parse` is
-- the parameter `parse_url`, which gives the scheme and the host of a URL. Which of several errors is
-- reported depends on the order of Go's `range`; that there is one does not.
pub mod WellFormed
pub mod Accepts
pub mod Outcomes
pub mod Promise
use Prim.Native.String.{String}
use yuelaiengine_gateway.Common.{
  ℕ, Bool, true, false, not, ◌&&◌, ◌||◌, Option, none, some, List, [], ◌∷◌, Bytes, lit, text_eq,
  is_empty, has_prefix, trim_space, to_lower, Map, get, has, null, ℤ, pos_part, is_negative,
  if◌then◌else◌, ltb, ◌==◌, fail_if, ◌and_then◌, each,
}
use yuelaiengine_gateway.Config.{
  PluginSpec, InstanceConfig, ServiceConfig, RouteConfig, RateLimiterRule, GatewayConfig,
}
use yuelaiengine_gateway.Plugin.{text_of}

pub data Error : Type 0 where
  no_port no_services no_routes nil_route no_path no_rule_name negative_flush_interval : Error
  no_service_name no_instances no_health_path relative_health_path bad_url : Bytes → Error
  no_target undefined_target undefined_weighted bad_weight undefined_variant : Bytes → Error
  unnamed_plugin missing_setting bad_capacity bad_refill_rate : Bytes → Error
  bad_convert no_grpc_method no_descriptor : Bytes → Error

-- `strings.TrimSpace(s) == ""`
abbrev pub is_blank : Bytes → Bool
is_blank s = is_empty (trim_space s)

-- `z <= 0` and `z < 0`
abbrev pub not_positive : ℤ → Bool
not_positive z = pos_part z == 0

module _ (parse_url : Bytes → Option (Bytes × Bytes)) where
  -- The test of an instance's URL.
  unfoldable pub is_bad_url : Bytes → Bool
  is_bad_url url = elim (parse_url url) [
    | none ↦ true
    | some (scheme, host) ↦ is_blank scheme || is_blank host
  ]

  unfoldable pub validate_service : Bytes × ServiceConfig → Option Error
  validate_service (key, svc) =
      fail_if (is_blank svc.name) (no_service_name key)
      and_then fail_if (null svc.instances) (no_instances svc.name)
      and_then fail_if (is_blank svc.health_check_path) (no_health_path svc.name)
      and_then fail_if (not (has_prefix svc.health_check_path (lit "/")))
          (relative_health_path svc.name)
      and_then each (λ (inst : InstanceConfig). fail_if (is_bad_url inst.url) (bad_url inst.url))
          svc.instances

-- The `switch` over a plugin's name.
unfoldable pub validate_settings : Bytes → PluginSpec → Option Error
validate_settings name spec =
    if text_eq name (lit "ratelimit")
    then (fail_if (is_blank (text_of (lit "rule") spec)) (missing_setting (lit "rule"))
        and_then fail_if (is_blank (text_of (lit "strategy") spec))
            (missing_setting (lit "strategy")))
    else (if text_eq name (lit "circuitbreaker")
        then fail_if (is_blank (text_of (lit "service") spec)) (missing_setting (lit "service"))
        else (if text_eq name (lit "apikey")
            then fail_if (not (has (lit "keys") spec)) (missing_setting (lit "keys"))
            else (if text_eq name (lit "rbac")
                then fail_if (not (has (lit "roles") spec)) (missing_setting (lit "roles"))
                else none)))

unfoldable pub validate_plugin_spec : Bytes → PluginSpec → Option Error
validate_plugin_spec path_prefix spec =
    fail_if (is_blank (text_of (lit "name") spec)) (unnamed_plugin path_prefix)
    and_then validate_settings (trim_space (text_of (lit "name") spec)) spec

unfoldable pub validate_weight : Map ServiceConfig → Bytes × ℤ → Option Error
validate_weight services (svc, weight) =
    fail_if (not (has svc services)) (undefined_weighted svc)
    and_then fail_if (not_positive weight) (bad_weight svc)

-- The body of the loop over the routes.
unfoldable pub validate_route : Map ServiceConfig → Option RouteConfig → Option Error
validate_route services none = some nil_route
validate_route services (some route) =
    fail_if (is_blank route.path_prefix && is_blank route.path) no_path
    and_then fail_if (is_blank route.service_name) (no_target route.path_prefix)
    and_then fail_if
        (not (text_eq route.service_name (lit "all-services"))
          && not (has route.service_name services))
        (undefined_target route.service_name)
    and_then each (validate_weight services) route.traffic_weights
    and_then each (λ (e : Bytes × Bytes). fail_if (not (has e.1 services)) (undefined_variant e.1))
        route.ab_variants
    and_then each (validate_plugin_spec route.path_prefix) route.plugins

-- The body of the loop over the rules.
unfoldable pub validate_rule : RateLimiterRule → Option Error
validate_rule rule =
    fail_if (is_blank rule.name) no_rule_name
    and_then (if text_eq (trim_space rule.rule_type) (lit "memory_token_bucket")
        then (fail_if (not_positive rule.token_bucket.capacity) (bad_capacity rule.name)
            and_then fail_if (is_negative rule.token_bucket.refill_rate)
                (bad_refill_rate rule.name))
        else none)

unfoldable pub validate_gateway_config :
    (Bytes → Option (Bytes × Bytes)) → GatewayConfig → Option Error
validate_gateway_config parse_url cfg =
    fail_if (is_blank cfg.port) no_port
    and_then fail_if (null cfg.services) no_services
    and_then each (validate_service parse_url) cfg.services
    and_then fail_if (null cfg.routes) no_routes
    and_then each (validate_route cfg.services) cfg.routes
    and_then each validate_rule cfg.rules
    and_then fail_if (cfg.persist_enabled && is_negative cfg.flush_interval) negative_flush_interval

-- The mode of the protocol conversion, as it is compared.
abbrev pub convert_mode : RouteConfig → Bytes
convert_mode route = to_lower (trim_space route.protocol_convert)

abbrev pub is_no_convert : Bytes → Bool
is_no_convert mode = is_empty mode || text_eq mode (lit "none")

abbrev pub is_known_convert : Bytes → Bool
is_known_convert mode =
    text_eq mode (lit "http_json_to_grpc") || text_eq mode (lit "grpc_to_http_json")

-- The body of the loop of `validateRouteTranscodingConfigs`.
unfoldable pub validate_transcoding : Option RouteConfig → Option Error
validate_transcoding none = none
validate_transcoding (some route) =
    if is_no_convert (convert_mode route)
    then none
    else (fail_if (not (is_known_convert (convert_mode route))) (bad_convert route.path_prefix)
        and_then fail_if (is_blank route.grpc_method) (no_grpc_method route.path_prefix)
        and_then fail_if (is_blank route.proto_descriptor) (no_descriptor route.path_prefix))

unfoldable pub validate_route_transcoding_configs : List (Option RouteConfig) → Option Error
validate_route_transcoding_configs routes = each validate_transcoding routes

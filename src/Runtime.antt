-- ===== src/Runtime.antt =====
-- internal/core/gateway_runtime.go: how a configuration takes effect, and `rollbackToVersionLocked` of
-- internal/core/config_versioning.go. Everything here runs under the gateway's lock, as one step. The
-- plugins and the circuit handler that are made anew hold the gateway's services and nothing else, so
-- they have no fields of their own; the goroutine that writes monitoring data is left out, but not its
-- path. `url.Parse` is `parse_url` for its scheme and host, and `parse_path` for its path.
pub mod Sync
pub mod Apply
pub mod Outcome
pub mod Balanced
pub mod Rollback
pub mod Reload
pub mod Unanswered
use Prim.Native.String.{String}
use yuelaiengine_gateway.Common.{
  ℕ, Bool, true, false, Option, none, some, List, [], ◌∷◌, ◌++◌, map, Bytes, lit, is_empty,
  trim_space, has_prefix, Map, has, ℤ, if◌then◌else◌,
}
use yuelaiengine_gateway.Config.{InstanceConfig, ServiceConfig, RouteConfig, GatewayConfig}
use yuelaiengine_gateway.LoadBalancer.Instance.{ServiceInstance}
use yuelaiengine_gateway.LoadBalancer.ConsistentHash.{HashRingEntry}
use yuelaiengine_gateway.LoadBalancer.Factory
use yuelaiengine_gateway.LoadBalancer.Factory.{LoadBalancerFactory, replace_service_instances}
use yuelaiengine_gateway.Health
use yuelaiengine_gateway.Health.{HealthChecker, register_service}
use yuelaiengine_gateway.RateLimit
use yuelaiengine_gateway.CircuitBreaker
use yuelaiengine_gateway.Validation
use yuelaiengine_gateway.Validation.{
  is_blank, not_positive, validate_gateway_config, validate_route_transcoding_configs,
}
use yuelaiengine_gateway.History.{ConfigSnapshot, History, record_config_snapshot, find_version}

pub data Error : Type 0 where
  invalid : Validation.Error → Error
  bad_limits : RateLimit.Error → Error
  bad_validate_url empty_version : Error
  no_snapshot unknown_version : Bytes → Error

pub record Gateway : Type 0 where
  pub config : GatewayConfig
  pub router : List (Option RouteConfig)
  pub health_checker : HealthChecker
  pub lb_factory : LoadBalancerFactory
  pub rate_limit_svc : Option RateLimit.Service
  pub circuit_breaker_svc : Option CircuitBreaker.Service
  pub validate_path : Bytes
  pub history : History
  pub reload_path : Bytes
  pub monitor_path : Bytes

-- `parseValidatePath` of internal/plugin/auth/plugin.go
unfoldable pub parse_validate_path : (Bytes → Option Bytes) → Bytes → Option Bytes
parse_validate_path parse_path validate_url =
    if is_blank validate_url
    then some (lit "/validate")
    else (elim (parse_path (trim_space validate_url)) [
      | none ↦ none
      | some path ↦ some (
          if is_empty path
          then lit "/validate"
          else (if has_prefix path (lit "/") then path else lit "/" ++ path))
    ])

abbrev pub new_instance : InstanceConfig → ServiceInstance
new_instance inst = record { url = inst.url; alive = true; weight = inst.weight; connections = 0 }

abbrev pub url_of : InstanceConfig → Bytes
url_of inst = inst.url

-- The body of the first loop of `syncServicesLocked`.
unfoldable pub sync_service :
    (List HashRingEntry → List HashRingEntry)
    → ServiceConfig
    → HealthChecker × LoadBalancerFactory
    → HealthChecker × LoadBalancerFactory
sync_service sort svc (hc, f) = (
  register_service svc.name (map url_of svc.instances) svc.health_check_path hc,
  replace_service_instances sort svc.name svc.load_balancer (map new_instance svc.instances) f,
)

unfoldable pub sync_new :
    (List HashRingEntry → List HashRingEntry)
    → Map ServiceConfig
    → HealthChecker × LoadBalancerFactory
    → HealthChecker × LoadBalancerFactory
sync_new sort [] s = s
sync_new sort ((_, svc) ∷ services) s = sync_new sort services (sync_service sort svc s)

-- The second loop, over the services of the old configuration.
unfoldable pub sync_old :
    Map ServiceConfig
    → Map ServiceConfig
    → HealthChecker × LoadBalancerFactory
    → HealthChecker × LoadBalancerFactory
sync_old new [] s = s
sync_old new ((old_service, _) ∷ services) (hc, f) = sync_old new services (
    if has old_service new
    then (hc, f)
    else (Health.remove_service old_service hc, Factory.remove_service old_service f))

unfoldable pub sync_services :
    (List HashRingEntry → List HashRingEntry)
    → Map ServiceConfig
    → Map ServiceConfig
    → HealthChecker × LoadBalancerFactory
    → HealthChecker × LoadBalancerFactory
sync_services sort old new s = sync_old new old (sync_new sort new s)

-- The path that `configureMonitorPersistenceLocked` of internal/core/monitor_persistence.go sets.
unfoldable pub monitor_path_of : GatewayConfig → Bytes
monitor_path_of cfg =
    if cfg.persist_enabled
    then (if is_blank cfg.persist_path
        then lit "./logs/monitoring/monitor-history.jsonl"
        else trim_space cfg.persist_path)
    else []

abbrev pub named_source : Bytes → Bytes
named_source source = if is_empty source then lit "unknown" else source

-- The lines of `applyConfigLocked` that follow the making of the authentication plugin.
unfoldable pub commit : ℕ → GatewayConfig → Bytes → RateLimit.Service → Bytes → Gateway → Gateway
commit now cfg source limits path g = record g {
  config = cfg;
  router = cfg.routes;
  rate_limit_svc = some limits;
  circuit_breaker_svc = some (
      CircuitBreaker.new_service cfg.circuit_breaker.failure_threshold
        cfg.circuit_breaker.success_threshold cfg.circuit_breaker.reset_timeout);
  validate_path = path;
  history = record_config_snapshot now (some cfg) source g.history;
  monitor_path = monitor_path_of cfg;
}

module _ (sort : List HashRingEntry → List HashRingEntry)
    (parse_url : Bytes → Option (Bytes × Bytes)) (parse_path : Bytes → Option Bytes) where
  -- The lines that follow the making of the rate limit service.
  unfoldable pub apply_services :
      ℕ → GatewayConfig → Bytes → RateLimit.Service → Gateway → Gateway × Option Error
  apply_services now cfg source limits g =
      let (checker, factory) =
        sync_services sort g.config.services cfg.services (g.health_checker, g.lb_factory) in
      let synced = record g { health_checker = checker; lb_factory = factory } in
      elim (parse_validate_path parse_path cfg.validate_url) [
        | none ↦ (synced, some bad_validate_url)
        | some path ↦ (commit now cfg source limits path synced, none)
      ]

  -- The lines that follow the two validations.
  unfoldable pub apply_valid : ℕ → GatewayConfig → Bytes → Gateway → Gateway × Option Error
  apply_valid now cfg source g = elim (RateLimit.new_service cfg.rules) [
    | RateLimit.err e ↦ (g, some (bad_limits e))
    | RateLimit.ok limits ↦ apply_services now cfg source limits g
  ]

  unfoldable pub apply_config : ℕ → GatewayConfig → Bytes → Gateway → Gateway × Option Error
  apply_config now cfg source g = elim (validate_gateway_config parse_url cfg) [
    | some e ↦ (g, some (invalid e))
    | none ↦ elim (validate_route_transcoding_configs cfg.routes) [
      | some e ↦ (g, some (invalid e))
      | none ↦ apply_valid now cfg (named_source source) g
    ]
  ]

  unfoldable pub rollback_to_version : ℕ → Bytes → Gateway → Gateway × Option Error
  rollback_to_version now version g =
      if is_empty version
      then (g, some empty_version)
      else (elim (find_version version g.history.config_history) [
        | none ↦ (g, some (unknown_version version))
        | some s ↦ elim s.config [
          | none ↦ (g, some (no_snapshot version))
          | some cfg ↦ apply_config now cfg (lit "rollback:" ++ version) g
        ]
      ])

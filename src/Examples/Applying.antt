-- ===== src/Examples/Applying.antt =====
-- internal/core/config_validation.go, internal/core/gateway_runtime.go and
-- internal/core/config_versioning.go at concrete inputs.
use yuelaiengine_gateway.Common.{
  ◌≤◌, ◌⊎◌, length, Option, none, some, List, [], ◌∷◌, ◌++◌, ◌≡◌, ◌↔◌, inl, refl, arith, Bytes, lit,
  pos, Map, text_eq, has_prefix, trim_space, to_lower, each, get,
}
use yuelaiengine_gateway.Config.{ServiceConfig, RouteConfig, RateLimiterRule, GatewayConfig}
use yuelaiengine_gateway.LoadBalancer.ConsistentHash.{HashRingEntry}
use yuelaiengine_gateway.Traffic.{total_weight}
use yuelaiengine_gateway.Gateway.{serve_http}
use yuelaiengine_gateway.Health.{new_health_checker}
use yuelaiengine_gateway.Validation.{
  validate_gateway_config, validate_service, is_bad_url, validate_route, validate_weight,
  validate_plugin_spec, validate_rule,
}
use yuelaiengine_gateway.Validation.WellFormed.{IsWellFormed}
use yuelaiengine_gateway.Validation.Accepts.{validate_gateway_config-IsWellFormed_iff}
use yuelaiengine_gateway.Validation.Outcomes.{IsServed}
use yuelaiengine_gateway.Validation.Promise.{serve_http-IsServed}
use yuelaiengine_gateway.History.{History, ConfigSnapshot, version_name}
use yuelaiengine_gateway.History.Log.{Entry, record_all, log_from, record_all-newest}
use yuelaiengine_gateway.Runtime.{Gateway, parse_validate_path, rollback_to_version, sync_services}
use yuelaiengine_gateway.Runtime.Apply.{IsRunning}
use yuelaiengine_gateway.Runtime.Outcome.{IsAccepted}
use yuelaiengine_gateway.Runtime.Rollback.{apply_all, rollback_to_version-IsRunning}
use yuelaiengine_gateway.Runtime.Sync.{IsSynced, sync_services-IsSynced}
use yuelaiengine_gateway.Examples.Plugging.{exchange}
use yuelaiengine_gateway.Examples.Routing.{route}
use yuelaiengine_gateway.Examples.Serving.{config, registered}

abbrev pub same_order : List HashRingEntry → List HashRingEntry
same_order entries = entries

-- Every text is a URL of the scheme `http`.
abbrev pub any_url : Bytes → Option (Bytes × Bytes)
any_url url = some (lit "http", lit "host")

abbrev pub no_path : Bytes → Option Bytes
no_path url = some []

abbrev pub orders : ServiceConfig
orders = record {
  name = lit "orders";
  instances = record { url = lit "http://a:80"; weight = pos 1 } ∷ [];
  health_check_path = lit "/health";
  load_balancer = lit "round_robin";
}

abbrev pub login_rule : RateLimiterRule
login_rule = record {
  name = lit "login";
  rule_type = lit "memory_token_bucket";
  token_bucket = record { capacity = pos 10; refill_rate = pos 1 };
}

abbrev pub orders_route : RouteConfig
orders_route = route (lit "/api")

abbrev pub working : GatewayConfig
working = record config {
  services = (lit "orders", orders) ∷ (lit "orders-beta", orders) ∷ [];
  routes = some orders_route ∷ [];
  rules = login_rule ∷ [];
}

pub working-IsWellFormed : IsWellFormed any_url working
unfolding validate_gateway_config each validate_service is_bad_url validate_route
    validate_plugin_spec validate_weight validate_rule text_eq has_prefix trim_space get
working-IsWellFormed = (validate_gateway_config-IsWellFormed_iff any_url working).0 refl

validate_gateway_config-IsWellFormed_iff_example :
    (validate_gateway_config any_url working ≡ none) ↔ IsWellFormed any_url working
validate_gateway_config-IsWellFormed_iff_example =
    validate_gateway_config-IsWellFormed_iff any_url working

serve_http-IsServed_example :
    IsServed working registered exchange (serve_http working registered exchange)
unfolding total_weight
serve_http-IsServed_example =
    serve_http-IsServed any_url working registered exchange
      ((validate_gateway_config-IsWellFormed_iff any_url working).1 working-IsWellFormed)
      (omega arith)

pub working-IsAccepted : IsAccepted any_url no_path working
unfolding parse_validate_path trim_space to_lower text_eq
working-IsAccepted = record {
  well_formed = working-IsWellFormed;
  converted = (inl refl, tt);
  limits = (inl refl, tt);
  path = (lit "/validate", refl);
}

abbrev pub empty_history : History
empty_history = record { config_history = []; version_counter = 0; max_history = pos 20 }

-- The gateway before its first configuration takes effect.
abbrev pub starting : Gateway
starting = record {
  config = working;
  router = working.routes;
  health_checker = new_health_checker;
  lb_factory = [];
  rate_limit_svc = none;
  circuit_breaker_svc = none;
  validate_path = [];
  history = empty_history;
  reload_path = [];
  monitor_path = [];
}

abbrev two_entries : List Entry
two_entries = (5, working, lit "bootstrap") ∷ (9, config, lit "reload:config.yml") ∷ []

-- A history of one snapshot at most, in which the first of two recordings is dropped.
record_all-newest_example :
    let kept =
      (record_all two_entries (record empty_history { max_history = pos 1 })).config_history in
    (dropped : List ConfigSnapshot) × ([] ++ log_from 0 two_entries ≡ dropped ++ kept)
    × (length kept ≤ 1)
    × ((dropped ≡ []) ⊎ (length kept ≡ 1))
record_all-newest_example =
    record_all-newest two_entries (record empty_history { max_history = pos 1 }) 1
      (inl (omega arith, refl)) (omega arith)

rollback_to_version-IsRunning_example :
    let now_on =
      apply_all same_order any_url no_path
        ((5, working, lit "bootstrap") ∷ (9, config, lit "reload:config.yml") ∷ [])
        starting in
    let (g', e) = rollback_to_version same_order any_url no_path 12 (version_name 1) now_on in
    (e ≡ none) × IsRunning 12 working (lit "rollback:" ++ version_name 1) now_on g'
rollback_to_version-IsRunning_example =
    rollback_to_version-IsRunning same_order any_url no_path 5 12 working (lit "bootstrap")
      ((9, config, lit "reload:config.yml") ∷ []) starting working-IsAccepted (omega arith)
      (omega arith) (omega arith)

abbrev old_services : Map ServiceConfig
old_services = (lit "orders", orders) ∷ (lit "users", orders) ∷ []

abbrev new_services : Map ServiceConfig
new_services = (lit "orders", orders) ∷ []

sync_services-IsSynced_example :
    IsSynced
      (lit "users")
      old_services
      []
      (sync_services same_order old_services new_services (new_health_checker, [])).1
      (get (lit "users") new_services)
unfolding get text_eq
sync_services-IsSynced_example =
    sync_services-IsSynced same_order old_services new_services (lit "users")
      (new_health_checker, []) (refl, refl, tt)

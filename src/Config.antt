-- ===== src/Config.antt =====
-- internal/config/config.go: the configuration; File reads and writes it. A plugin's
-- settings are a map to values of any type, of which the program tells texts, lists of texts and
-- lists of arbitrary items apart; an item of such a list is `none` where it is no text.
pub mod File
use yuelaiengine_gateway.Common.{Bool, Option, List, Bytes, Map, ℤ}

pub data Value : Type 0 where
  text : Bytes → Value
  texts : List Bytes → Value
  items : List (Option Bytes) → Value
  other : Value

abbrev pub PluginSpec : Type 0
PluginSpec = Map Value

pub record InstanceConfig : Type 0 where
  pub url : Bytes
  pub weight : ℤ

pub record ServiceConfig : Type 0 where
  pub name : Bytes
  pub instances : List InstanceConfig
  pub health_check_path : Bytes
  pub load_balancer : Bytes

pub record RouteConfig : Type 0 where
  pub path_prefix : Bytes
  pub path : Bytes
  pub service_name : Bytes
  pub plugins : List PluginSpec
  pub methods : List Bytes
  pub requires_auth : Bool
  pub health_check_scope : Bytes
  pub upstream_protocol : Bytes
  pub protocol_convert : Bytes
  pub grpc_method : Bytes
  pub proto_descriptor : Bytes
  pub emit_unpopulated : Bool
  pub use_proto_names : Bool
  pub discard_unknown : Bool
  pub hash_on : Bytes
  pub ab_header : Bytes
  pub ab_variants : Map Bytes
  pub traffic_weights : Map ℤ

pub record TokenBucketSettings : Type 0 where
  pub capacity : ℤ
  pub refill_rate : ℤ

pub record RateLimiterRule : Type 0 where
  pub name : Bytes
  pub rule_type : Bytes
  pub token_bucket : TokenBucketSettings

pub record CircuitBreakerConfig : Type 0 where
  pub failure_threshold : ℤ
  pub success_threshold : ℤ
  pub reset_timeout : ℤ

-- A nil entry of `Routes` is `none`.
pub record GatewayConfig : Type 0 where
  pub port : Bytes
  pub health_check_interval : ℤ
  pub health_check_timeout : ℤ
  pub services : Map ServiceConfig
  pub routes : List (Option RouteConfig)
  pub rules : List RateLimiterRule
  pub jwt_secret_key : Bytes
  pub jwt_duration_minutes : ℤ
  pub validate_url : Bytes
  pub circuit_breaker : CircuitBreakerConfig
  pub admin_token : Bytes
  pub hot_reload_enabled : Bool
  pub hot_reload_interval : ℤ
  pub persist_enabled : Bool
  pub persist_path : Bytes
  pub flush_interval : ℤ

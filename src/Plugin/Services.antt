-- ===== src/Plugin/Services.antt =====
-- internal/plugin/ratelimit/plugin.go and internal/plugin/circuitbreaker/plugin.go.
pub mod Refusal
use Prim.Native.String.{String}
use yuelaiengine_gateway.Common.{
  ℕ, Bool, true, false, Option, none, some, Bytes, lit, is_empty, not, ◌||◌, if◌then◌else◌,
}
use yuelaiengine_gateway.Config.{PluginSpec}
use yuelaiengine_gateway.Limiter.{get_identifier_func}
use yuelaiengine_gateway.RateLimit.{check_limit}
use yuelaiengine_gateway.RateLimit
use yuelaiengine_gateway.CircuitBreaker.{check_circuit}
use yuelaiengine_gateway.CircuitBreaker
use yuelaiengine_gateway.Plugin.{
  Exchange, Verdict, Plugin, write, text_of, Error, plugin_config, service_failed,
}

-- An answer that ends the chain: a response, and an error or none.
abbrev pub refuse : ℕ → Bytes → Option Error → Exchange → Verdict
refuse status code err x = (write status code x, false, err)

-- `parseConfig` of the rate limit plugin: the rule and the strategy.
unfoldable pub rule_and_strategy : PluginSpec → Option (Bytes × Bytes)
rule_and_strategy spec =
    if is_empty (text_of (lit "rule") spec) || is_empty (text_of (lit "strategy") spec)
    then none
    else some (text_of (lit "rule") spec, text_of (lit "strategy") spec)

-- What the answer of `CheckLimit` leads to.
unfoldable pub after_limit : Exchange → Bool → Option RateLimit.Error → Verdict
after_limit x allowed (some e) = refuse 500 (lit "RATE_LIMIT_SERVICE_ERROR") (some service_failed) x
after_limit x true none = (x, true, none)
after_limit x false none = refuse 429 (lit "RATE_LIMIT_EXCEEDED") none x

unfoldable pub rate_limit_plugin : (ℕ → ℕ → ℕ) → ℕ → Plugin
rate_limit_plugin refill now spec x = elim (rule_and_strategy spec) [
  | none ↦ refuse 500 (lit "PLUGIN_CONFIG_INVALID") (some plugin_config) x
  | some (rule, strategy) ↦ elim (get_identifier_func strategy) [
    | none ↦ refuse 500 (lit "PLUGIN_CONFIG_INVALID") (some plugin_config) x
    | some identify ↦
        let identifier = identify x.request in
        if is_empty identifier
        then (x, true, none)
        else (let (service, allowed, err) = check_limit refill now rule identifier x.rate_limit in
            after_limit (record x { rate_limit = service }) allowed err)
  ]
]

-- What the answer of `CheckCircuit` leads to.
unfoldable pub after_check : Exchange → Bool → Option CircuitBreaker.Error → Verdict
after_check x allowed (some CircuitBreaker.too_many_requests) =
    refuse 500 (lit "CIRCUIT_BREAKER_SERVICE_ERROR") (some service_failed) x
after_check x allowed (some CircuitBreaker.service_not_found) =
    refuse 500 (lit "CIRCUIT_BREAKER_SERVICE_ERROR") (some service_failed) x
after_check x true (some CircuitBreaker.open_state) = (x, true, none)
after_check x false (some CircuitBreaker.open_state) = refuse 503 (lit "CIRCUIT_OPEN") none x
after_check x true none = (x, true, none)
after_check x false none = refuse 503 (lit "CIRCUIT_OPEN") none x

unfoldable pub circuit_breaker_plugin : ℕ → Plugin
circuit_breaker_plugin now spec x =
    if is_empty (text_of (lit "service") spec)
    then refuse 500 (lit "PLUGIN_CONFIG_INVALID") (some plugin_config) x
    else (let (service, allowed, err) =
          check_circuit now (text_of (lit "service") spec) x.circuit_breaker in
        after_check (record x { circuit_breaker = service }) allowed err)

-- ===== src/Runtime/Apply.antt =====
-- When a configuration takes effect, and what an attempt that fails leaves behind.
use yuelaiengine_gateway.Common.{
  ℕ, Option, none, some, List, ◌≡◌, ◌⊎◌, inl, inr, refl, Bytes, Option-cases,
}
use yuelaiengine_gateway.Config.{GatewayConfig}
use yuelaiengine_gateway.LoadBalancer.ConsistentHash.{HashRingEntry}
use yuelaiengine_gateway.RateLimit
use yuelaiengine_gateway.CircuitBreaker
use yuelaiengine_gateway.Validation.{validate_gateway_config, validate_route_transcoding_configs}
use yuelaiengine_gateway.History.{record_config_snapshot}
use yuelaiengine_gateway.Runtime.{
  Error, invalid, bad_limits, bad_validate_url, Gateway, parse_validate_path, named_source, commit,
  apply_services, apply_valid, apply_config,
}

-- All that an attempt to apply a configuration leaves alone when it fails.
pub record IsKept (g g' : Gateway) : Type 0 where
  pub config : g'.config ≡ g.config
  pub router : g'.router ≡ g.router
  pub rate_limit_svc : g'.rate_limit_svc ≡ g.rate_limit_svc
  pub circuit_breaker_svc : g'.circuit_breaker_svc ≡ g.circuit_breaker_svc
  pub history : g'.history ≡ g.history
  pub validate_path : g'.validate_path ≡ g.validate_path
  pub monitor_path : g'.monitor_path ≡ g.monitor_path
  pub reload_path : g'.reload_path ≡ g.reload_path

-- The gateway runs the configuration: its routes are those of the router, its limiters are made of its
-- rules, its circuit breakers are new and have its thresholds, and it is the newest of the history.
pub record IsRunning (now : ℕ) (cfg : GatewayConfig) (source : Bytes) (g g' : Gateway)
    : Type 0 where
  pub config : g'.config ≡ cfg
  pub router : g'.router ≡ cfg.routes
  pub limits :
      (limits : RateLimit.Service) × (RateLimit.new_service cfg.rules ≡ RateLimit.ok limits)
      × (g'.rate_limit_svc ≡ some limits)
  pub breakers :
      g'.circuit_breaker_svc
      ≡ some (
          CircuitBreaker.new_service cfg.circuit_breaker.failure_threshold
            cfg.circuit_breaker.success_threshold cfg.circuit_breaker.reset_timeout)
  pub history : g'.history ≡ record_config_snapshot now (some cfg) (named_source source) g.history

-- What an attempt gives: a configuration that runs, or an error.
abbrev pub IsAttempt : ℕ → GatewayConfig → Bytes → Gateway → Gateway × Option Error → Type 0
IsAttempt now cfg source g (g', none) = IsRunning now cfg source g g'
IsAttempt now cfg source g (g', some e) = IsKept g g' × ((e ≡ bad_validate_url) ⊎ (g' ≡ g))

pub same_gateway : (g : Gateway) → IsKept g g
same_gateway g = record {
  config = refl;
  router = refl;
  rate_limit_svc = refl;
  circuit_breaker_svc = refl;
  history = refl;
  validate_path = refl;
  monitor_path = refl;
  reload_path = refl;
}

module _ (sort : List HashRingEntry → List HashRingEntry)
    (parse_url : Bytes → Option (Bytes × Bytes)) (parse_path : Bytes → Option Bytes) where
  -- What an attempt says, which depends on nothing but the configuration.
  abbrev pub verdict_of_path : Bytes → Option Error
  verdict_of_path url = elim (parse_validate_path parse_path url) [
    | none ↦ some bad_validate_url
    | some _ ↦ none
  ]

  abbrev pub verdict_of_limits : GatewayConfig → Option Error
  verdict_of_limits cfg = elim (RateLimit.new_service cfg.rules) [
    | RateLimit.err e ↦ some (bad_limits e)
    | RateLimit.ok _ ↦ verdict_of_path cfg.validate_url
  ]

  abbrev pub verdict_of : GatewayConfig → Option Error
  verdict_of cfg = elim (validate_gateway_config parse_url cfg) [
    | some e ↦ some (invalid e)
    | none ↦ elim (validate_route_transcoding_configs cfg.routes) [
      | some e ↦ some (invalid e)
      | none ↦ verdict_of_limits cfg
    ]
  ]

  apply_services-IsAttempt :
      (now : ℕ) (cfg : GatewayConfig) (source : Bytes) (limits : RateLimit.Service) (g : Gateway)
      → RateLimit.new_service cfg.rules ≡ RateLimit.ok limits
      → ((apply_services sort parse_url parse_path now cfg (named_source source) limits g).1
          ≡ verdict_of_path cfg.validate_url)
        × IsAttempt now cfg source g
            (apply_services sort parse_url parse_path now cfg (named_source source) limits g)
  unfolding apply_services commit
  apply_services-IsAttempt now cfg source limits g l =
      elim (Option-cases (parse_validate_path parse_path cfg.validate_url)) [
        | inl e ↦
            rw (e, apply_services, verdict_of_path)
              (
                refl,
                (
                  record {
                    config = refl;
                    router = refl;
                    rate_limit_svc = refl;
                    circuit_breaker_svc = refl;
                    history = refl;
                    validate_path = refl;
                    monitor_path = refl;
                    reload_path = refl;
                  },
                  inl refl,
                ),
              )
        | inr (path, e) ↦
            rw (e, apply_services, verdict_of_path)
              (
                refl,
                record {
                  config = refl;
                  router = refl;
                  limits = (limits, l, refl);
                  breakers = refl;
                  history = refl;
                },
              )
      ]

  apply_valid-IsAttempt :
      (now : ℕ) (cfg : GatewayConfig) (source : Bytes) (g : Gateway)
      → ((apply_valid sort parse_url parse_path now cfg (named_source source) g).1
          ≡ verdict_of_limits cfg)
        × IsAttempt now cfg source g
            (apply_valid sort parse_url parse_path now cfg (named_source source) g)
  unfolding apply_valid
  apply_valid-IsAttempt now cfg source g = split (RateLimit.new_service cfg.rules) refl
    where
      split :
          (r : RateLimit.Result RateLimit.Service)
          → RateLimit.new_service cfg.rules ≡ r
          → ((apply_valid sort parse_url parse_path now cfg (named_source source) g).1
              ≡ verdict_of_limits cfg)
            × IsAttempt now cfg source g
                (apply_valid sort parse_url parse_path now cfg (named_source source) g)
      split (RateLimit.err e) q =
          rw (q, apply_valid, verdict_of_limits) (refl, (same_gateway g, inr refl))
      split (RateLimit.ok limits) q =
          rw (q, apply_valid, verdict_of_limits)
            (apply_services-IsAttempt now cfg source limits g q)

  pub apply_config-IsAttempt :
      (now : ℕ) (cfg : GatewayConfig) (source : Bytes) (g : Gateway)
      → ((apply_config sort parse_url parse_path now cfg source g).1 ≡ verdict_of cfg)
        × IsAttempt now cfg source g (apply_config sort parse_url parse_path now cfg source g)
  unfolding apply_config
  apply_config-IsAttempt now cfg source g =
      elim (Option-cases (validate_gateway_config parse_url cfg)) [
        | inr (e, q) ↦ rw (q, apply_config, verdict_of) (refl, (same_gateway g, inr refl))
        | inl q ↦ elim (Option-cases (validate_route_transcoding_configs cfg.routes)) [
          | inr (e, t) ↦ rw (q, t, apply_config, verdict_of) (refl, (same_gateway g, inr refl))
          | inl t ↦ rw (q, t, apply_config, verdict_of) (apply_valid-IsAttempt now cfg source g)
        ]
      ]

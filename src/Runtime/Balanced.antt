-- ===== src/Runtime/Balanced.antt =====
-- What a configuration that takes effect does to the instances of the services.
use yuelaiengine_gateway.Common.{
  ℕ, Option, none, some, List, ◌≡◌, ◌⊎◌, inl, inr, refl, arith, Bytes, Option-cases,
}
use yuelaiengine_gateway.Config.{GatewayConfig}
use yuelaiengine_gateway.LoadBalancer.ConsistentHash.{HashRingEntry}
use yuelaiengine_gateway.RateLimit
use yuelaiengine_gateway.Validation.{validate_gateway_config, validate_route_transcoding_configs}
use yuelaiengine_gateway.Runtime.{
  Error, invalid, bad_limits, bad_validate_url, Gateway, parse_validate_path, named_source, commit,
  sync_services, apply_services, apply_valid, apply_config,
}

module _ (sort : List HashRingEntry → List HashRingEntry)
    (parse_url : Bytes → Option (Bytes × Bytes)) (parse_path : Bytes → Option Bytes) where
  -- The balancers and the checker are those of before, synchronised from the services of the
  -- configuration of before to the services of the new one.
  abbrev pub HasServices : GatewayConfig → Gateway → Gateway → Type 0
  HasServices cfg g g' =
      (g'.health_checker, g'.lb_factory)
      ≡ sync_services sort g.config.services cfg.services (g.health_checker, g.lb_factory)

  apply_services-HasServices :
      (now : ℕ) (cfg : GatewayConfig) (source : Bytes) (limits : RateLimit.Service) (g : Gateway)
      → HasServices cfg g (apply_services sort parse_url parse_path now cfg source limits g).0
  unfolding apply_services commit
  apply_services-HasServices now cfg source limits g =
      elim (Option-cases (parse_validate_path parse_path cfg.validate_url)) [
        | inl e ↦ rw (e, apply_services) refl
        | inr (path, e) ↦ rw (e, apply_services) refl
      ]

  -- An attempt that came as far as the services: it succeeded, or only the path of the validation URL
  -- could not be read.
  abbrev pub Reaches : Option Error → Type 0
  Reaches e = (e ≡ none) ⊎ (e ≡ some bad_validate_url)

  apply_valid-HasServices :
      (now : ℕ) (cfg : GatewayConfig) (source : Bytes) (g : Gateway)
      → Reaches (apply_valid sort parse_url parse_path now cfg source g).1
      → HasServices cfg g (apply_valid sort parse_url parse_path now cfg source g).0
  unfolding apply_valid
  apply_valid-HasServices now cfg source g = split (RateLimit.new_service cfg.rules) refl
    where
      split :
          (r : RateLimit.Result RateLimit.Service)
          → RateLimit.new_service cfg.rules ≡ r
          → Reaches (apply_valid sort parse_url parse_path now cfg source g).1
          → HasServices cfg g (apply_valid sort parse_url parse_path now cfg source g).0
      split (RateLimit.err e) q h =
          let bad : Reaches (some (bad_limits e)) = rw (q, apply_valid) at h in
          absurd (ground arith)
      split (RateLimit.ok limits) q h =
          rw (q, apply_valid) (apply_services-HasServices now cfg source limits g)

  -- A configuration that takes effect has its services synchronised, and so has one that fails at the
  -- validation URL.
  pub apply_config-HasServices :
      (now : ℕ) (cfg : GatewayConfig) (source : Bytes) (g : Gateway)
      → Reaches (apply_config sort parse_url parse_path now cfg source g).1
      → HasServices cfg g (apply_config sort parse_url parse_path now cfg source g).0
  unfolding apply_config
  apply_config-HasServices now cfg source g h =
      elim (Option-cases (validate_gateway_config parse_url cfg)) [
        | inr (e, q) ↦
            let bad : Reaches (some (invalid e)) = rw (q, apply_config) at h in
            absurd (ground arith)
        | inl q ↦ elim (Option-cases (validate_route_transcoding_configs cfg.routes)) [
          | inr (e, t) ↦
              let bad : Reaches (some (invalid e)) = rw (q, t, apply_config) at h in
              absurd (ground arith)
          | inl t ↦
              rw (q, t, apply_config)
                (apply_valid-HasServices now cfg (named_source source) g
                  (rw (q, t, apply_config) at h))
        ]
      ]

-- ===== src/Validation/WellFormed.antt =====
-- What a configuration is that passes validation, said without the validator.
use yuelaiengine_gateway.Common.{
  ◌<◌, Bool, true, false, not, Option, none, some, ◌≡◌, ◌↔◌, ◌⊎◌, refl, arith, Bytes, lit, text_eq,
  text_eq_iff, has_prefix, trim_space, Map, has, null, ℤ, pos_part, is_negative, fail_if,
  ◌and_then◌, All, and_then-none_iff,
}
use yuelaiengine_gateway.Config.{
  PluginSpec, InstanceConfig, ServiceConfig, RouteConfig, RateLimiterRule, GatewayConfig,
}
use yuelaiengine_gateway.Plugin.{text_of}
use yuelaiengine_gateway.Validation.{Error, is_blank, is_bad_url, validate_settings}

-- The text is more than white space.
abbrev pub IsText : Bytes → Type 0
IsText s = is_blank s ≡ false

-- The URL of an instance has a scheme and a host.
abbrev pub HasHost : (Bytes → Option (Bytes × Bytes)) → Bytes → Type 0
HasHost parse_url url =
    (scheme host : Bytes) × (parse_url url ≡ some (scheme, host)) × IsText scheme × IsText host

abbrev pub IsService : (Bytes → Option (Bytes × Bytes)) → Bytes × ServiceConfig → Type 0
IsService parse_url (key, svc) =
    IsText svc.name
    × ((null svc.instances ≡ false)
        × (IsText svc.health_check_path
            × ((has_prefix svc.health_check_path (lit "/") ≡ true)
                × All (λ (inst : InstanceConfig). HasHost parse_url inst.url) svc.instances)))

-- What the plugins of the gateway that are checked need.
abbrev pub HasSettings : Bytes → PluginSpec → Type 0
HasSettings name spec =
    ((text_eq name (lit "ratelimit") ≡ false)
      ⊎ (IsText (text_of (lit "rule") spec) × IsText (text_of (lit "strategy") spec)))
    × ((text_eq name (lit "circuitbreaker") ≡ false) ⊎ IsText (text_of (lit "service") spec))
    × ((text_eq name (lit "apikey") ≡ false) ⊎ (has (lit "keys") spec ≡ true))
    × ((text_eq name (lit "rbac") ≡ false) ⊎ (has (lit "roles") spec ≡ true))

abbrev pub IsPlugin : PluginSpec → Type 0
IsPlugin spec =
    IsText (text_of (lit "name") spec) × HasSettings (trim_space (text_of (lit "name") spec)) spec

abbrev pub IsWeight : Map ServiceConfig → Bytes × ℤ → Type 0
IsWeight services (svc, weight) = (has svc services ≡ true) × (0 < pos_part weight)

-- A route names a path, and only services that are configured.
abbrev pub IsRoute : Map ServiceConfig → Option RouteConfig → Type 0
IsRoute services none = ⊥
IsRoute services (some route) =
    (IsText route.path_prefix ⊎ IsText route.path)
    × (IsText route.service_name
        × (((text_eq route.service_name (lit "all-services") ≡ true)
              ⊎ (has route.service_name services ≡ true))
            × (All (IsWeight services) route.traffic_weights
                × (All (λ (e : Bytes × Bytes). has e.1 services ≡ true) route.ab_variants
                    × All IsPlugin route.plugins))))

abbrev pub IsRule : RateLimiterRule → Type 0
IsRule rule =
    IsText rule.name
    × ((text_eq (trim_space rule.rule_type) (lit "memory_token_bucket") ≡ false)
        ⊎ ((0 < pos_part rule.token_bucket.capacity)
            × (is_negative rule.token_bucket.refill_rate ≡ false)))

pub record IsWellFormed (parse_url : Bytes → Option (Bytes × Bytes)) (cfg : GatewayConfig)
    : Type 0 where
  pub port : IsText cfg.port
  pub some_service : null cfg.services ≡ false
  pub services : All (IsService parse_url) cfg.services
  pub some_route : null cfg.routes ≡ false
  pub routes : All (IsRoute cfg.services) cfg.routes
  pub rules : All IsRule cfg.rules
  pub flushing : (cfg.persist_enabled ≡ false) ⊎ (is_negative cfg.flush_interval ≡ false)

module _ {ℓ} {E : Type ℓ} where
  -- A chain of checks passes when each does.
  pub both_iff {κ μ} :
      {P : Type κ} {Q : Type μ} (a b : Option E)
      → ((a ≡ none) ↔ P)
      → ((b ≡ none) ↔ Q)
      → ((a and_then b) ≡ none) ↔ (P × Q)
  both_iff a b p q = (
    (λ h. let (x, y) = (and_then-none_iff a b).0 h in (p.0 x, q.0 y)),
    (λ h. (and_then-none_iff a b).1 (p.1 h.0, q.1 h.1)),
  )

  pub not_iff : (test : Bool) (e : E) → (fail_if (not test) e ≡ none) ↔ (test ≡ true)
  not_iff test e = ((λ h. ground arith), (λ h. ground arith))

pub HasHost-iff :
    (parse_url : Bytes → Option (Bytes × Bytes)) (url : Bytes) (e : Error)
    → (fail_if (is_bad_url parse_url url) e ≡ none) ↔ HasHost parse_url url
unfolding is_bad_url
HasHost-iff parse_url url e = split (parse_url url) refl
  where
    split :
        (r : Option (Bytes × Bytes))
        → parse_url url ≡ r
        → (fail_if (is_bad_url parse_url url) e ≡ none) ↔ HasHost parse_url url
    split none q = ((λ h. absurd (ground arith)), (λ (s, t, p, x, y). absurd (ground arith)))
    split (some (scheme, host)) q =
        ((λ h. (scheme, host, q, ground arith, ground arith)), (λ (s, t, p, x, y). ground arith))

pub settings_iff :
    (name : Bytes) (spec : PluginSpec)
    → (validate_settings name spec ≡ none) ↔ HasSettings name spec
unfolding validate_settings
settings_iff name spec =
    let r = text_eq_iff name (lit "ratelimit") in
    let c = text_eq_iff name (lit "circuitbreaker") in
    let k = text_eq_iff name (lit "apikey") in
    let b = text_eq_iff name (lit "rbac") in
    ((λ h. ground (arith, r, c, k, b)), (λ h. ground (arith, r, c, k, b)))

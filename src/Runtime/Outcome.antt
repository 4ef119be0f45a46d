-- ===== src/Runtime/Outcome.antt =====
-- Which configurations take effect, and what then runs.
use mathlib.Core.Path.{subst}
use yuelaiengine_gateway.Common.{
  ℕ, true, Option, none, some, List, ◌≡◌, ◌⊎◌, ◌↔◌, inl, inr, refl, sym, ◌∙◌, arith, Bytes,
  Bool-cases, All, each-All_iff, fail_if-none_iff,
}
use yuelaiengine_gateway.Config.{RouteConfig, GatewayConfig}
use yuelaiengine_gateway.LoadBalancer.ConsistentHash.{HashRingEntry}
use yuelaiengine_gateway.RateLimit
use yuelaiengine_gateway.RateLimit.Rules.{IsKnown, new_service-ok_iff}
use yuelaiengine_gateway.Validation
use yuelaiengine_gateway.Validation.{
  is_blank, convert_mode, is_no_convert, is_known_convert, validate_transcoding,
  validate_route_transcoding_configs, validate_gateway_config, bad_convert, no_grpc_method,
  no_descriptor,
}
use yuelaiengine_gateway.Validation.WellFormed.{IsText, IsWellFormed, both_iff, not_iff}
use yuelaiengine_gateway.Validation.Accepts.{validate_gateway_config-IsWellFormed_iff}
use yuelaiengine_gateway.Runtime.{
  Error, invalid, bad_limits, bad_validate_url, Gateway, parse_validate_path, apply_config,
}
use yuelaiengine_gateway.Runtime.Apply.{
  IsKept, IsRunning, IsAttempt, verdict_of, verdict_of_limits, verdict_of_path,
  apply_config-IsAttempt,
}

-- A route that converts protocols does so in a known way and names what it converts to.
abbrev pub IsConverted : Option RouteConfig → Type 0
IsConverted none = Unit
IsConverted (some route) =
    (is_no_convert (convert_mode route) ≡ true)
    ⊎ ((is_known_convert (convert_mode route) ≡ true)
        × (IsText route.grpc_method × IsText route.proto_descriptor))

pub validate_transcoding-IsConverted_iff :
    (route : Option RouteConfig) → (validate_transcoding route ≡ none) ↔ IsConverted route
unfolding validate_transcoding
validate_transcoding-IsConverted_iff none = ((λ _. tt), (λ _. refl))
validate_transcoding-IsConverted_iff (some route) =
    let checks =
      both_iff _ _ (not_iff (is_known_convert (convert_mode route)) (bad_convert route.path_prefix))
        (both_iff _ _
          (fail_if-none_iff (is_blank route.grpc_method) (no_grpc_method route.path_prefix))
          (fail_if-none_iff (is_blank route.proto_descriptor) (no_descriptor route.path_prefix))) in
    elim (Bool-cases (is_no_convert (convert_mode route))) [
      | inl e ↦ ((λ _. inl e), (λ _. rw (e, validate_transcoding) refl))
      | inr e ↦ (
        (λ h. inr (checks.0 (rw (e, validate_transcoding) at h))),
        (λ h. elim h [
          | inl y ↦ absurd (ground arith)
          | inr c ↦ rw (e, validate_transcoding) (checks.1 c)
        ]),
      )
    ]

-- What a configuration must be to take effect.
pub record IsAccepted (parse_url : Bytes → Option (Bytes × Bytes))
    (parse_path : Bytes → Option Bytes) (cfg : GatewayConfig) : Type 0 where
  pub well_formed : IsWellFormed parse_url cfg
  pub converted : All IsConverted cfg.routes
  pub limits : All IsKnown cfg.rules
  pub path : (path : Bytes) × (parse_validate_path parse_path cfg.validate_url ≡ some path)

module _ (sort : List HashRingEntry → List HashRingEntry)
    (parse_url : Bytes → Option (Bytes × Bytes)) (parse_path : Bytes → Option Bytes) where
  accepted :
      (cfg : GatewayConfig) (v t : Option Validation.Error) (l : RateLimit.Result RateLimit.Service)
      (p : Option Bytes)
      → validate_gateway_config parse_url cfg ≡ v
      → validate_route_transcoding_configs cfg.routes ≡ t
      → RateLimit.new_service cfg.rules ≡ l
      → parse_validate_path parse_path cfg.validate_url ≡ p
      → verdict_of sort parse_url parse_path cfg ≡ none
      → IsAccepted parse_url parse_path cfg
  unfolding validate_route_transcoding_configs
  accepted cfg (some e) t l p ev et el ep h =
      let bad : some (invalid e) ≡ none = rw (verdict_of, ev) at h in absurd (ground arith)
  accepted cfg none (some e) l p ev et el ep h =
      let bad : some (invalid e) ≡ none = rw (verdict_of, ev, et) at h in absurd (ground arith)
  accepted cfg none none (RateLimit.err e) p ev et el ep h =
      let bad : some (bad_limits e) ≡ none = rw (verdict_of, ev, et, verdict_of_limits, el) at h in
      absurd (ground arith)
  accepted cfg none none (RateLimit.ok l) none ev et el ep h =
      let bad : some bad_validate_url ≡ none =
        rw (verdict_of, ev, et, verdict_of_limits, el, verdict_of_path, ep) at h in
      absurd (ground arith)
  accepted cfg none none (RateLimit.ok l) (some path) ev et el ep h = record {
    well_formed = (validate_gateway_config-IsWellFormed_iff parse_url cfg).0 ev;
    converted =
        (each-All_iff validate_transcoding IsConverted validate_transcoding-IsConverted_iff
            cfg.routes).0
          et;
    limits = (new_service-ok_iff cfg.rules).0 (l, el);
    path = (path, ep);
  }

  verdict_of-accepted :
      (cfg : GatewayConfig)
      → IsAccepted parse_url parse_path cfg
      → verdict_of sort parse_url parse_path cfg ≡ none
  unfolding validate_route_transcoding_configs
  verdict_of-accepted cfg a =
      let ev = (validate_gateway_config-IsWellFormed_iff parse_url cfg).1 a.well_formed in
      let et =
        (each-All_iff validate_transcoding IsConverted validate_transcoding-IsConverted_iff
            cfg.routes).1
          a.converted in
      let (l, el) = (new_service-ok_iff cfg.rules).1 a.limits in
      let (path, ep) = a.path in
      rw
        (
          verdict_of, ev, validate_route_transcoding_configs, et, verdict_of_limits, el,
          verdict_of_path, ep,
        )
        refl

  -- A configuration takes effect exactly when it is well formed, its routes convert protocols only in
  -- the known ways, its rules have known types and the path of its validation URL can be read. Which
  -- state the gateway is in makes no difference.
  pub apply_config-IsAccepted_iff :
      (now : ℕ) (cfg : GatewayConfig) (source : Bytes) (g : Gateway)
      → ((apply_config sort parse_url parse_path now cfg source g).1 ≡ none)
        ↔ IsAccepted parse_url parse_path cfg
  apply_config-IsAccepted_iff now cfg source g =
      let (says, _) = apply_config-IsAttempt sort parse_url parse_path now cfg source g in
      (
        (λ h.
            accepted cfg (validate_gateway_config parse_url cfg)
              (validate_route_transcoding_configs cfg.routes) (RateLimit.new_service cfg.rules)
              (parse_validate_path parse_path cfg.validate_url) refl refl refl refl (sym says ∙ h)),
        (λ a. says ∙ verdict_of-accepted cfg a),
      )

  -- When a configuration takes effect, the gateway's configuration, its router and its limiters are
  -- those of it, and it is recorded in the history.
  pub apply_config-IsRunning :
      (now : ℕ) (cfg : GatewayConfig) (source : Bytes) (g : Gateway)
      → (apply_config sort parse_url parse_path now cfg source g).1 ≡ none
      → IsRunning now cfg source g (apply_config sort parse_url parse_path now cfg source g).0
  apply_config-IsRunning now cfg source g h =
      running (apply_config sort parse_url parse_path now cfg source g)
        (apply_config-IsAttempt sort parse_url parse_path now cfg source g).1 h
    where
      running :
          (r : Gateway × Option Error)
          → IsAttempt now cfg source g r
          → r.1 ≡ none
          → IsRunning now cfg source g r.0
      running (g', none) a q = a
      running (g', some x) a q = absurd (ground arith)

  -- When a configuration does not take effect, the configuration, the router, the limiters, the circuit
  -- breakers and the history stay as they were; and so does everything, the instances and their health
  -- included, unless it is the path of the validation URL that cannot be read.
  pub apply_config-IsKept :
      (now : ℕ) (cfg : GatewayConfig) (source : Bytes) (g : Gateway) (e : Error)
      → (apply_config sort parse_url parse_path now cfg source g).1 ≡ some e
      → IsKept g (apply_config sort parse_url parse_path now cfg source g).0
        × ((e ≡ bad_validate_url)
            ⊎ ((apply_config sort parse_url parse_path now cfg source g).0 ≡ g))
  apply_config-IsKept now cfg source g e h =
      kept (apply_config sort parse_url parse_path now cfg source g)
        (apply_config-IsAttempt sort parse_url parse_path now cfg source g).1 h
    where
      kept :
          (r : Gateway × Option Error)
          → IsAttempt now cfg source g r
          → r.1 ≡ some e
          → IsKept g r.0 × ((e ≡ bad_validate_url) ⊎ (r.0 ≡ g))
      kept (g', none) a q = absurd (ground arith)
      kept (g', some x) (k, a) q =
          let same : x ≡ e = ground arith in
          (k, subst (λ y. (y ≡ bad_validate_url) ⊎ (g' ≡ g)) same a)

-- ===== src/Traffic/Target.antt =====
-- The service that a request is sent to is one that the configuration defines.
use yuelaiengine_gateway.Common.{
  true, false, not, ◌&&◌, ◌||◌, Option, none, some, ◌≡◌, inl, inr, refl, ◌∙◌, sym, arith, Bytes,
  Map, get, has, trim_space, to_lower, if◌then◌else◌, Bool-cases, Option-cases, null, is_empty,
}
use yuelaiengine_gateway.Config.{RouteConfig, ServiceConfig}
use yuelaiengine_gateway.Http.{Request}
use yuelaiengine_gateway.Traffic.{
  select_weighted_service, known_variant, select_target_service, weighted_or_default, ab_service,
  traffic_key,
}

none≢some : (svc : Bytes) → ◌≡◌ {A = Option Bytes} none (some svc) → ⊥
none≢some svc h = ground arith

known_variant-defined :
    (services : Map ServiceConfig) (variants : Map Bytes) (val svc : Bytes)
    → known_variant services variants val ≡ some svc
    → has svc services ≡ true
unfolding known_variant
known_variant-defined services variants val svc e = elim (Option-cases (get val variants)) [
  | inl q ↦ absurd (none≢some svc (rw (q, known_variant) at e))
  | inr (s, q) ↦ known s (rw (q, known_variant) at e)
]
  where
    known :
        (s : Bytes) → (if has s services then some s else none) ≡ some svc → has svc services ≡ true
    known s h = elim (Bool-cases (has s services)) [
      | inl y ↦
          let here : some s ≡ some svc = rw y at h in
          let same : s ≡ svc = ground arith in rw (← same) y
      | inr y ↦ absurd (none≢some svc (rw y at h))
    ]

ab_service-defined :
    (services : Map ServiceConfig) (route : RouteConfig) (r : Request) (svc : Bytes)
    → ab_service services route r ≡ some svc
    → has svc services ≡ true
unfolding ab_service
ab_service-defined services route r svc e =
    elim (Bool-cases (
      is_empty route.ab_header
      || null route.ab_variants
      || is_empty (trim_space (r.header route.ab_header)))) [
        | inl g ↦ absurd (none≢some svc (rw g at e))
        | inr g ↦
            elim (Option-cases
              (known_variant services route.ab_variants (trim_space (r.header route.ab_header)))) [
                | inl q ↦
                    known_variant-defined services route.ab_variants
                      (to_lower (trim_space (r.header route.ab_header))) svc (rw (g, q) at e)
                | inr (s, q) ↦
                    known_variant-defined services route.ab_variants
                      (trim_space (r.header route.ab_header)) svc (q ∙ (rw (g, q) at e))
              ]
      ]

guarded-defined :
    (services : Map ServiceConfig) (s default svc : Bytes)
    → has default services ≡ true
    → (if not (is_empty s) && has s services then some s else some default) ≡ some svc
    → has svc services ≡ true
guarded-defined services s default svc h e = elim (Bool-cases (has s services)) [
  | inl y ↦ elim (Bool-cases (is_empty s)) [
    | inl z ↦
        let here : some default ≡ some svc = rw (y, z) at e in
        let same : default ≡ svc = ground arith in rw (← same) h
    | inr z ↦
        let here : some s ≡ some svc = rw (y, z) at e in
        let same : s ≡ svc = ground arith in rw (← same) y
  ]
  | inr y ↦
      let rest : some default ≡ some svc = sym (guard y) ∙ e in
      let same : default ≡ svc = ground arith in rw (← same) h
]
  where
    guard :
        has s services ≡ false
        → (if not (is_empty s) && has s services then some s else some default) ≡ some default
    guard y = rw y (elim (Bool-cases (is_empty s)) [ inl z ↦ rw z refl | inr z ↦ rw z refl ])

weighted_or_default-defined :
    (services : Map ServiceConfig) (route : RouteConfig) (r : Request) (svc : Bytes)
    → has route.service_name services ≡ true
    → weighted_or_default services route r ≡ some svc
    → has svc services ≡ true
unfolding weighted_or_default
weighted_or_default-defined services route r svc h e =
    elim (Bool-cases (null route.traffic_weights)) [
      | inl n ↦
          let here : some route.service_name ≡ some svc = rw n at e in
          let same : route.service_name ≡ svc = ground arith in rw (← same) h
      | inr n ↦
          elim (Option-cases
            (select_weighted_service route.traffic_weights (traffic_key route r))) [
              | inl q ↦ absurd (none≢some svc (rw (n, q) at e))
              | inr (s, q) ↦ guarded-defined services s route.service_name svc h (rw (n, q) at e)
            ]
    ]

-- A request of a route whose own service is defined is sent to a defined service, whatever the A/B
-- variants and the weights name.
pub select_target_service-defined :
    (services : Map ServiceConfig) (route : RouteConfig) (r : Request) (svc : Bytes)
    → has route.service_name services ≡ true
    → select_target_service services route r ≡ some svc
    → has svc services ≡ true
unfolding select_target_service
select_target_service-defined services route r svc h e =
    elim (Option-cases (ab_service services route r)) [
      | inl q ↦
          weighted_or_default-defined services route r svc h (rw (q, select_target_service) at e)
      | inr (s, q) ↦
          ab_service-defined services route r svc (q ∙ (rw (q, select_target_service) at e))
    ]

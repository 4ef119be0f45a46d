-- ===== src/Admin/Services.antt =====
-- A service that a route leads to cannot be deleted.
use mathlib.Core.Path.{subst}
use mathlib.Core.Bool.{false≢true}
use yuelaiengine_gateway.Common.{
  ℕ, ℤ, true, false, Option, none, some, List, ◌≡◌, inl, inr, refl, ap, sym, ◌∙◌, arith, Bytes, lit,
  text_eq, text_eq_refl, Map, get, has, delete, get-delete, All-get_elem?, In, get_elem?,
  trim_space, Option-cases, Bool-cases, some_injective, none-some,
}
use yuelaiengine_gateway.Config.{ServiceConfig, RouteConfig, GatewayConfig}
use yuelaiengine_gateway.LoadBalancer.ConsistentHash.{HashRingEntry}
use yuelaiengine_gateway.Validation.{is_blank}
use yuelaiengine_gateway.Validation.WellFormed.{IsRoute, IsWeight}
use yuelaiengine_gateway.Runtime.{Gateway}
use yuelaiengine_gateway.Runtime.Apply.{IsKept, same_gateway}
use yuelaiengine_gateway.Runtime.Outcome.{IsAccepted}
use yuelaiengine_gateway.Admin.Changes.{IsMutated, applied, rejected, mutate_config-IsMutated}
use yuelaiengine_gateway.Admin.{Reply, done, delete_service, mutate_config, handle_service_delete}

-- How a route leads to a service: by its own service, unless that is the health report's name, by a
-- weight, or by a variant.
pub data LeadsTo (name : Bytes) (route : RouteConfig) : Type 0 where
  by_service :
      route.service_name ≡ name
      → text_eq route.service_name (lit "all-services") ≡ false
      → LeadsTo name route
  by_weight : (weight : ℤ) → In (name, weight) route.traffic_weights → LeadsTo name route
  by_variant : (variant : Bytes) → In (variant, name) route.ab_variants → LeadsTo name route

-- Whatever an accepted route leads to is configured.
LeadsTo-has :
    (services : Map ServiceConfig) (route : RouteConfig) (name : Bytes)
    → IsRoute services (some route)
    → LeadsTo name route
    → has name services ≡ true
LeadsTo-has services route name ok (by_service s n) = elim ok.1.1.0 [
  | inl all ↦ absurd (ground arith)
  | inr there ↦ subst (λ k. has k services ≡ true) s there
]
LeadsTo-has services route name ok (by_weight w (i, e)) =
    (All-get_elem? (IsWeight services) route.traffic_weights i ok.1.1.1.0 e).0
LeadsTo-has services route name ok (by_variant v (i, e)) =
    All-get_elem? (λ (p : Bytes × Bytes). has p.1 services ≡ true) route.ab_variants i ok.1.1.1.1.0
      e

delete_service-has :
    (name : Bytes) (services after : Map ServiceConfig)
    → delete_service name services ≡ some after
    → has name after ≡ false
unfolding delete_service
delete_service-has name services after e = elim (Bool-cases (has name services)) [
  | inl h ↦
      let same : delete name services ≡ after =
        some_injective (delete name services) after (rw (delete_service, h) at e) in
      let gone : get name (delete name services) ≡ none =
        get-delete name name services ∙ rw (text_eq_refl name) refl in
      rw (← same, has, gone) refl
  | inr h ↦ absurd (none-some after (rw (delete_service, h) at e))
]

module _ (sort : List HashRingEntry → List HashRingEntry)
    (parse_url : Bytes → Option (Bytes × Bytes)) (parse_path : Bytes → Option Bytes) where
  -- A request to delete a service that a route leads to is refused, and the configuration, the router,
  -- the limiters, the circuit breakers and the history stay as they were. A route leads to a service by
  -- naming it, unless that is the name all-services, by a weight for it, or by a variant.
  pub handle_service_delete-used :
      (now : ℕ) (name : Bytes) (g : Gateway) (route : RouteConfig)
      → In (some route) g.config.routes
      → LeadsTo (trim_space name) route
      → let (g', reply) = handle_service_delete sort parse_url parse_path now (some name) g in
        (reply ≡ done → ⊥) × IsKept g g'
  unfolding handle_service_delete
  handle_service_delete-used now name g route i leads = elim (Bool-cases (is_blank name)) [
    | inl e ↦ rw (handle_service_delete, e) ((λ h. absurd (ground arith)), same_gateway g)
    | inr e ↦
        rw (handle_service_delete, e)
          (by_change
            (mutate_config sort parse_url parse_path now (lit "admin:services:delete") change g)
            (mutate_config-IsMutated sort parse_url parse_path now (lit "admin:services:delete")
              change g))
  ]
    where
      change : GatewayConfig → Option GatewayConfig
      change cfg = elim (delete_service (trim_space name) cfg.services) [
        | none ↦ none
        | some services ↦ some (record cfg { services = services })
      ]

      changed :
          (next : GatewayConfig)
          → change g.config ≡ some next
          → (has (trim_space name) next.services ≡ false) × (next.routes ≡ g.config.routes)
      changed next m = elim (Option-cases (delete_service (trim_space name) g.config.services)) [
        | inl d ↦ absurd (none-some next (rw (change, d) at m))
        | inr (services, d) ↦
            let same =
              some_injective (record g.config { services = services }) next (rw (change, d) at m) in
            (
              subst (λ (c : GatewayConfig). has (trim_space name) c.services ≡ false) same
                  (delete_service-has (trim_space name) g.config.services services d),
              ap (λ (c : GatewayConfig). c.routes) (sym same),
            )
      ]

      refuted :
          (next : GatewayConfig)
          → change g.config ≡ some next
          → IsAccepted parse_url parse_path next
          → ⊥
      refuted next m a =
          let (gone, routes) = changed next m in
          let (k, at) = i in
          let ok =
            All-get_elem? (IsRoute next.services) next.routes k a.well_formed.routes
              (ap (λ rs. get_elem? rs k) routes ∙ at) in
          let there = LeadsTo-has next.services route (trim_space name) ok leads in
          absurd (false≢true (sym gone ∙ there))

      by_change :
          (r : Gateway × Reply)
          → IsMutated sort parse_url parse_path now (lit "admin:services:delete") change g r.0 r.1
          → (r.1 ≡ done → ⊥) × IsKept g r.0
      by_change (g', _) (applied next m a ran) = absurd (refuted next m a)
      by_change (g', _) (rejected k _) = ((λ h. absurd (ground arith)), k)

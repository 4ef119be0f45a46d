-- ===== src/Admin.antt =====
-- internal/core/admin.go: the administration interface over the gateway's configuration. A request's
-- body is a parameter of its handler: `none` where `encoding/json` cannot read it. What a handler
-- answers is its status and error code. Every change is made by `mutateConfig` or `applyConfigLocked`
-- under the gateway's lock, and is one step. `save` says whether `config.Save` could write a file.
pub mod Access
pub mod Changes
pub mod Rules
pub mod Routes
pub mod Services
pub mod Forms
pub mod Publish
use Prim.Native.String.{String}
use yuelaiengine_gateway.Common.{
  ℕ, Bool, true, false, not, ◌&&◌, ◌||◌, Option, none, some, List, [], ◌∷◌, Bytes, lit, any,
  filter_by, text_eq, is_empty, trim_space, Map, get, has, put, delete, ℤ, if◌then◌else◌,
}
use yuelaiengine_gateway.Http.{Request, bearer_token}
use yuelaiengine_gateway.Config.{ServiceConfig, RouteConfig, RateLimiterRule, GatewayConfig}
use yuelaiengine_gateway.LoadBalancer.ConsistentHash.{HashRingEntry}
use yuelaiengine_gateway.CircuitBreaker
use yuelaiengine_gateway.Validation.{
  is_blank, validate_gateway_config, validate_route_transcoding_configs,
}
use yuelaiengine_gateway.Runtime.{Error, Gateway, apply_config, rollback_to_version}

-- `writeJSON` with 200, or `httperr.Write` with a status and a code.
pub data Reply : Type 0 where
  done : Reply
  refused : ℕ → Bytes → Reply

abbrev pub bad_request : Reply
bad_request = refused 400 (lit "BAD_REQUEST")

-- `authorizeAdmin`
unfoldable pub authorize_admin : GatewayConfig → Request → Bool
authorize_admin cfg r =
    let expected = trim_space cfg.admin_token in
    let authz = trim_space (r.header (lit "Authorization")) in
    if is_empty expected
    then true
    else (if text_eq (trim_space (r.header (lit "X-Admin-Token"))) expected
        then true
        else (if is_empty authz then false else (elim (bearer_token authz) [
          | none ↦ false
          | some token ↦ text_eq token expected
        ])))

-- `adminEndpoint`, where an empty method allows every method.
unfoldable pub admin_endpoint :
    Bytes → (Gateway → Gateway × Reply) → Request → Gateway → Gateway × Reply
admin_endpoint method handler r g =
    if not (authorize_admin g.config r)
    then (g, refused 401 (lit "ADMIN_UNAUTHORIZED"))
    else (if not (is_empty method) && not (text_eq r.method method)
        then (g, refused 405 (lit "METHOD_NOT_ALLOWED"))
        else handler g)

-- The rule of a request, whose type is the token bucket where none is given.
abbrev pub requested_rule : RateLimiterRule → RateLimiterRule
requested_rule req = record req {
  name = trim_space req.name;
  rule_type =
      if is_blank req.rule_type then lit "memory_token_bucket" else trim_space req.rule_type;
}

-- The loop for the first rule of the name, which is replaced; or else the rule is added.
unfoldable pub upsert_rule : RateLimiterRule → List RateLimiterRule → List RateLimiterRule
upsert_rule rule [] = rule ∷ []
upsert_rule rule (r ∷ rules) =
    let rest = upsert_rule rule rules in if text_eq r.name rule.name then rule ∷ rules else r ∷ rest

unfoldable pub delete_rule : Bytes → List RateLimiterRule → Option (List RateLimiterRule)
delete_rule name rules =
    if any (λ (r : RateLimiterRule). text_eq r.name name) rules
    then some (filter_by (λ (r : RateLimiterRule). not (text_eq r.name name)) rules)
    else none

unfoldable pub same_route_identity : RouteConfig → RouteConfig → Bool
same_route_identity a b =
    if not (is_blank a.path) || not (is_blank b.path)
    then text_eq (trim_space a.path) (trim_space b.path)
    else text_eq (trim_space a.path_prefix) (trim_space b.path_prefix)

-- The first route of the same identity is replaced; or else the route is added.
unfoldable pub upsert_route : RouteConfig → List (Option RouteConfig) → List (Option RouteConfig)
upsert_route route [] = some route ∷ []
upsert_route route (none ∷ routes) = none ∷ upsert_route route routes
upsert_route route (some existing ∷ routes) =
    let rest = upsert_route route routes in
    if same_route_identity existing route then some route ∷ routes else some existing ∷ rest

abbrev pub is_deleted : Bytes → Bytes → Option RouteConfig → Bool
is_deleted path_prefix path none = false
is_deleted path_prefix path (some route) =
    (not (is_empty path) && text_eq route.path path)
    || (not (is_empty path_prefix) && text_eq route.path_prefix path_prefix)

abbrev pub is_kept : Bytes → Bytes → Option RouteConfig → Bool
is_kept path_prefix path none = false
is_kept path_prefix path (some route) = not (is_deleted path_prefix path (some route))

unfoldable pub delete_route :
    Bytes → Bytes → List (Option RouteConfig) → Option (List (Option RouteConfig))
delete_route path_prefix path routes =
    if any (is_deleted path_prefix path) routes
    then some (filter_by (is_kept path_prefix path) routes)
    else none

unfoldable pub delete_service : Bytes → Map ServiceConfig → Option (Map ServiceConfig)
delete_service name services = if has name services then some (delete name services) else none

-- The end of the decoding of a service: a name, and an algorithm where none is given.
unfoldable pub decoded_service : ServiceConfig → Option ServiceConfig
decoded_service svc =
    if is_blank svc.name
    then none
    else some (record svc {
      name = trim_space svc.name;
      load_balancer = if is_blank svc.load_balancer then lit "round_robin" else svc.load_balancer;
    })

module _ (sort : List HashRingEntry → List HashRingEntry)
    (parse_url : Bytes → Option (Bytes × Bytes)) (parse_path : Bytes → Option Bytes) where
  abbrev pub reply_of : Bytes → Gateway × Option Error → Gateway × Reply
  reply_of code (g, none) = (g, done)
  reply_of code (g, some _) = (g, refused 400 code)

  -- `mutateConfig`, with `none` where the change itself fails.
  unfoldable pub mutate_config :
      ℕ → Bytes → (GatewayConfig → Option GatewayConfig) → Gateway → Gateway × Reply
  mutate_config now source mutator g = elim (mutator g.config) [
    | none ↦ (g, refused 400 (lit "CONFIG_APPLY_FAILED"))
    | some next ↦
        reply_of (lit "CONFIG_APPLY_FAILED")
          (apply_config sort parse_url parse_path now next source g)
  ]

  unfoldable pub handle_rate_limit_rule_upsert :
      ℕ → Option RateLimiterRule → Gateway → Gateway × Reply
  handle_rate_limit_rule_upsert now none g = (g, bad_request)
  handle_rate_limit_rule_upsert now (some req) g =
      if is_blank req.name
      then (g, bad_request)
      else mutate_config now (lit "admin:ratelimit:upsert")
          (λ cfg. some (record cfg { rules = upsert_rule (requested_rule req) cfg.rules })) g

  unfoldable pub handle_rate_limit_rule_delete : ℕ → Option Bytes → Gateway → Gateway × Reply
  handle_rate_limit_rule_delete now none g = (g, bad_request)
  handle_rate_limit_rule_delete now (some name) g =
      if is_blank name
      then (g, bad_request)
      else mutate_config now (lit "admin:ratelimit:delete")
          (λ cfg. elim (delete_rule (trim_space name) cfg.rules) [
            | none ↦ none
            | some rules ↦ some (record cfg { rules = rules })
          ])
          g

  -- `none` stands for a body, or a route in it, that cannot be decoded.
  unfoldable pub handle_route_upsert : ℕ → Option RouteConfig → Gateway → Gateway × Reply
  handle_route_upsert now none g = (g, bad_request)
  handle_route_upsert now (some route) g =
      if is_blank route.path_prefix && is_blank route.path
      then (g, bad_request)
      else mutate_config now (lit "admin:routes:upsert")
          (λ cfg. some (record cfg { routes = upsert_route route cfg.routes })) g

  unfoldable pub handle_route_delete : ℕ → Option (Bytes × Bytes) → Gateway → Gateway × Reply
  handle_route_delete now none g = (g, bad_request)
  handle_route_delete now (some (path_prefix, path)) g =
      if is_blank path_prefix && is_blank path
      then (g, bad_request)
      else mutate_config now (lit "admin:routes:delete")
          (λ cfg. elim (delete_route (trim_space path_prefix) (trim_space path) cfg.routes) [
            | none ↦ none
            | some routes ↦ some (record cfg { routes = routes })
          ])
          g

  unfoldable pub handle_service_upsert : ℕ → Option ServiceConfig → Gateway → Gateway × Reply
  handle_service_upsert now none g = (g, bad_request)
  handle_service_upsert now (some decoded) g = elim (decoded_service decoded) [
    | none ↦ (g, bad_request)
    | some svc ↦
        mutate_config now (lit "admin:services:upsert")
          (λ cfg. some (record cfg { services = put svc.name svc cfg.services })) g
  ]

  unfoldable pub handle_service_delete : ℕ → Option Bytes → Gateway → Gateway × Reply
  handle_service_delete now none g = (g, bad_request)
  handle_service_delete now (some name) g =
      if is_blank name
      then (g, bad_request)
      else mutate_config now (lit "admin:services:delete")
          (λ cfg. elim (delete_service (trim_space name) cfg.services) [
            | none ↦ none
            | some services ↦ some (record cfg { services = services })
          ])
          g

  unfoldable pub handle_config_rollback : ℕ → Option Bytes → Gateway → Gateway × Reply
  handle_config_rollback now none g = (g, bad_request)
  handle_config_rollback now (some version) g =
      reply_of (lit "ROLLBACK_FAILED")
        (rollback_to_version sort parse_url parse_path now (trim_space version) g)

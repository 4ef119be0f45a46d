-- ===== src/Examples/Administering.antt =====
-- internal/core/admin.go and internal/plugin/auth/plugin.go at concrete inputs.
use yuelaiengine_gateway.Common.{
  ℕ, true, false, Option, none, some, List, [], ◌∷◌, ◌≡◌, refl, Bytes, lit, pos, text_eq, get,
  trim_space, to_lower, In, if◌then◌else◌, each, has_prefix,
}
use yuelaiengine_gateway.Config.{RateLimiterRule, RouteConfig, GatewayConfig}
use yuelaiengine_gateway.LoadBalancer.RoundRobin
use yuelaiengine_gateway.LoadBalancer.Factory.{
  LoadBalancerFactory, round_robin, get_or_create, get_next_instance, get_all_instances,
}
use yuelaiengine_gateway.RateLimit
use yuelaiengine_gateway.RateLimit.Rules.{last_of}
use yuelaiengine_gateway.Plugin.{Exchange}
use yuelaiengine_gateway.Runtime.{
  Gateway, apply_config, apply_valid, apply_services, parse_validate_path,
}
use yuelaiengine_gateway.Validation.{
  validate_gateway_config, validate_service, is_bad_url, validate_route, validate_weight,
  validate_plugin_spec, validate_rule, validate_transcoding, validate_route_transcoding_configs,
}
use yuelaiengine_gateway.Runtime.Apply.{IsKept}
use yuelaiengine_gateway.Admin.{
  done, requested_rule, admin_endpoint, mutate_config, upsert_rule, upsert_route,
  same_route_identity, handle_rate_limit_rule_upsert, handle_service_delete,
}
use yuelaiengine_gateway.Admin.Access.{IsGuarded, admin_endpoint-IsGuarded}
use yuelaiengine_gateway.Admin.Changes.{IsMutated, mutate_config-IsMutated}
use yuelaiengine_gateway.Admin.Rules.{limiter_of, handle_rate_limit_rule_upsert-limiters}
use yuelaiengine_gateway.Admin.Services.{by_weight, handle_service_delete-used}
use yuelaiengine_gateway.Admin.Publish.{
  ConfigApplyRequest, IsPublished, handle_config_apply, handle_config_apply-IsPublished,
}
use yuelaiengine_gateway.Admin.Forms.{
  route_dto_from_config, decode_route_config, decode_route_config-shown, route_dto_list_from_config,
}
use yuelaiengine_gateway.Auth.{
  ValidateResponse, auth_plugin, extract_token, pick_instance, pick_healthy, ask_instance,
  call_validate, after_answer,
}
use yuelaiengine_gateway.Auth.Login.{IsLoggedIn, auth_plugin-IsLoggedIn}
use yuelaiengine_gateway.Examples.Balancing.{instance_named}
use yuelaiengine_gateway.Examples.Plugging.{exchange}
use yuelaiengine_gateway.Examples.Routing.{route, beta_request}
use yuelaiengine_gateway.Examples.Applying.{
  same_order, any_url, no_path, orders, working, starting, orders_route, login_rule,
  working-IsAccepted,
}

-- An administrator's token is configured, and the request carries none.
abbrev secured : Gateway
secured = record starting { config = record working { admin_token = lit "secret" } }

admin_endpoint-IsGuarded_example :
    IsGuarded
      (lit "POST")
      (λ g. (g, done))
      beta_request
      secured
      (admin_endpoint (lit "POST") (λ g. (g, done)) beta_request secured)
admin_endpoint-IsGuarded_example =
    admin_endpoint-IsGuarded (lit "POST") (λ g. (g, done)) beta_request secured

abbrev no_services : GatewayConfig → Option GatewayConfig
no_services cfg = some (record cfg { services = [] })

mutate_config-IsMutated_example :
    let (g', reply) =
      mutate_config same_order any_url no_path 7
        (lit "admin:services:delete")
        no_services
        starting in
    IsMutated same_order any_url no_path 7
      (lit "admin:services:delete")
      no_services
      starting
      g'
      reply
mutate_config-IsMutated_example =
    mutate_config-IsMutated same_order any_url no_path 7 (lit "admin:services:delete") no_services
      starting

-- A route with a second service that only a weight leads to.
abbrev with_canary : Gateway
with_canary = record starting {
  config = record working {
    services = (lit "canary", orders) ∷ working.services;
    routes = some (record orders_route { traffic_weights = (lit "canary", pos 5) ∷ [] }) ∷ [];
  };
}

handle_service_delete-used_example :
    let (g', reply) =
      handle_service_delete same_order any_url no_path 7 (some (lit " canary")) with_canary in
    (reply ≡ done → ⊥) × IsKept with_canary g'
unfolding text_eq trim_space
handle_service_delete-used_example =
    handle_service_delete-used same_order any_url no_path 7 (lit " canary") with_canary
      (record orders_route { traffic_weights = (lit "canary", pos 5) ∷ [] }) (0, refl)
      (by_weight (pos 5) (0, refl))

abbrev table : List (Option RouteConfig)
table = some (route (lit "/api")) ∷ none ∷ some (route (lit "/users")) ∷ []

decode_route_config-shown_example :
    (r : RouteConfig) × (decode_route_config
        (λ _. some (route_dto_from_config (route (lit "/users"))))
        (λ _. none)
        (lit "{}")
      ≡ some r)
    × In (some r) table
    × (route_dto_from_config r ≡ route_dto_from_config (route (lit "/users")))
    × (upsert_route r table ≡ table)
unfolding same_route_identity text_eq trim_space route_dto_list_from_config route_dto_from_config
decode_route_config-shown_example =
    decode_route_config-shown (λ _. some (route_dto_from_config (route (lit "/users")))) (λ _. none)
      table (route_dto_from_config (route (lit "/users"))) (lit "{}") ((tt, (refl, tt)), (tt, tt))
      (1, refl) refl refl refl

abbrev applying : ConfigApplyRequest
applying = record {
  config = record working { port = [] };
  dry_run = false;
  source = [];
  persist = true;
  persist_path = lit "/etc/gateway.yml";
}

handle_config_apply-IsPublished_example :
    IsPublished same_order any_url no_path
      (λ _ _. false)
      7
      applying
      starting
      (handle_config_apply same_order any_url no_path (λ _ _. false) 7 (some applying) starting)
handle_config_apply-IsPublished_example =
    handle_config_apply-IsPublished same_order any_url no_path (λ _ _. false) 7 applying starting
      working-IsAccepted refl

abbrev token_headers : Bytes → Bytes
token_headers name = if text_eq name (lit "X-Auth-Token") then lit "t1" else []

abbrev with_token : Exchange
with_token = record exchange { request = record beta_request { header = token_headers } }

abbrev auth_instances : LoadBalancerFactory
auth_instances =
    (
      lit "auth-service",
      round_robin
          (record { instances = instance_named (lit "http://auth:80") true 0 ∷ []; index = 0 }),
    )
    ∷ []

-- The service answers every token with success, and the body names the user `u1` and no role.
abbrev answering : Bytes → Bytes → Option (ℕ × Bytes)
answering url token = some (200, lit "u1")

abbrev naming : Bytes → Option ValidateResponse
naming body = some (record { valid = true; user_id = body; role = [] })

auth_plugin-IsLoggedIn_example :
    IsLoggedIn answering naming
      (lit "/validate")
      (pick_instance (λ _. true) (lit "auth-service") auth_instances).1
      with_token
      (auth_plugin answering naming
        (λ _. true)
        (lit "auth-service")
        (lit "/validate")
        auth_instances
        with_token).1.0
unfolding auth_plugin extract_token pick_instance pick_healthy get_or_create get get_all_instances
    RoundRobin.get_all_instances get_next_instance RoundRobin.get_next_instance ask_instance
    call_validate after_answer trim_space text_eq
auth_plugin-IsLoggedIn_example =
    auth_plugin-IsLoggedIn answering naming (λ _. true) (lit "auth-service") (lit "/validate")
      auth_instances
      (auth_plugin answering naming (λ _. true) (lit "auth-service") (lit "/validate")
        auth_instances with_token).0
      with_token
      (auth_plugin answering naming (λ _. true) (lit "auth-service") (lit "/validate")
        auth_instances with_token).1.0
      refl

abbrev new_login_rule : RateLimiterRule
new_login_rule = record login_rule {
  token_bucket = record { capacity = pos 20; refill_rate = pos 2 };
}

handle_rate_limit_rule_upsert-limiters_example :
    (limits : RateLimit.Service) × ((handle_rate_limit_rule_upsert same_order any_url no_path 7
        (some new_login_rule)
        starting).0.rate_limit_svc
      ≡ some limits)
    × (get (trim_space (lit "login")) limits.limiters ≡ limiter_of (requested_rule new_login_rule))
    × ((name : Bytes)
        → text_eq (trim_space (lit "login")) name ≡ false
        → get name limits.limiters ≡ last_of name (login_rule ∷ []) none)
unfolding handle_rate_limit_rule_upsert mutate_config upsert_rule apply_config
    validate_gateway_config each validate_service is_bad_url validate_route validate_plugin_spec
    validate_weight validate_rule text_eq has_prefix trim_space get to_lower
    validate_route_transcoding_configs validate_transcoding apply_valid RateLimit.new_service
    RateLimit.add_rules RateLimit.new_limiter apply_services parse_validate_path
handle_rate_limit_rule_upsert-limiters_example =
    handle_rate_limit_rule_upsert-limiters same_order any_url no_path 7 new_login_rule starting
      (tt, tt) refl

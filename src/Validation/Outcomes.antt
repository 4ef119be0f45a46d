-- ===== src/Validation/Outcomes.antt =====
-- What becomes of a request under an accepted configuration, and how its plugin chain may end.
use mathlib.Core.Path.{subst}
use yuelaiengine_gateway.Common.{
  sym, ap, ◌∙◌, true, false, Option, none, some, ◌≡◌, inl, inr, refl, arith, Bytes, lit, text_eq,
  Map, get, List, [], ◌∷◌, ◌++◌, All, All-append, is_empty, trim_space, not, ◌&&◌, Bool-cases,
}
use yuelaiengine_gateway.Config.{PluginSpec, RouteConfig, ServiceConfig, GatewayConfig}
use yuelaiengine_gateway.Router.{find_route, find_route_by_path}
use yuelaiengine_gateway.Traffic.{select_target_service}
use yuelaiengine_gateway.Plugin.{
  Error, invalid_spec, not_registered, Exchange, Verdict, Plugin, write, text_of, execute_chain,
}
use yuelaiengine_gateway.Plugin.Chain.{
  Passed, Stops, unnamed, unknown, failed, refused, Ended, all_passed, stopped, execute_chain-Ended,
}
use yuelaiengine_gateway.Gateway.Serve.{IsProxied}
use yuelaiengine_gateway.Gateway.{
  Outcome, answered, health_report, chain_ended, proxied, has_plugin, auth_spec, chain_of,
  after_chain,
}
use yuelaiengine_gateway.Validation.{is_blank}
use yuelaiengine_gateway.Validation.WellFormed.{IsPlugin}

-- What is left for a request: the router's two refusals; the health report, where its route asks for
-- it; the end of its route's plugin chain, at a plugin that has a name and that refused, failed or is not registered, after those
-- before it let the request on; or the proxy.
pub data IsServed (cfg : GatewayConfig) (plugins : Map Plugin) (x : Exchange)
    : Outcome → Type 0 where
  unknown_path :
      find_route_by_path cfg.routes x.request.path ≡ none
      → IsServed cfg plugins x (answered (write 404 (lit "ROUTE_NOT_FOUND") x))
  unknown_method :
      {route : RouteConfig}
      → find_route_by_path cfg.routes x.request.path ≡ some route
      → find_route cfg.routes x.request ≡ none
      → IsServed cfg plugins x (answered (write 405 (lit "METHOD_NOT_ALLOWED") x))
  reported :
      {route : RouteConfig}
      → find_route cfg.routes x.request ≡ some route
      → text_eq route.service_name (lit "all-services") ≡ true
      → IsServed cfg plugins x (health_report x)
  chain_stopped :
      {y : Exchange} {e : Option Error} (route : RouteConfig) (before : List PluginSpec)
      (spec : PluginSpec) (behind : List PluginSpec) (z : Exchange)
      → find_route cfg.routes x.request ≡ some route
      → chain_of route ≡ before ++ spec ∷ behind
      → Passed plugins before x z
      → is_empty (text_of (lit "name") spec) ≡ false
      → Stops plugins spec z (y, false, e)
      → IsServed cfg plugins x (chain_ended y e)
  handed_on :
      {y : Exchange} {route : RouteConfig} {service : ServiceConfig}
      → IsProxied cfg plugins x route service y
      → IsServed cfg plugins x (proxied route service y)

-- The specs of a list have names.
abbrev HasName : PluginSpec → Type 0
HasName spec = is_empty (text_of (lit "name") spec) ≡ false

is_blank-HasName : (s : Bytes) → is_blank s ≡ false → is_empty s ≡ false
unfolding trim_space
is_blank-HasName [] h = absurd (ground arith)
is_blank-HasName (c ∷ s) h = refl

names_of : (specs : List PluginSpec) → All IsPlugin specs → All HasName specs
names_of [] h = tt
names_of (spec ∷ specs) (p, h) =
    (is_blank-HasName (text_of (lit "name") spec) p.0, names_of specs h)

chain_of-HasName : (route : RouteConfig) → All IsPlugin route.plugins → All HasName (chain_of route)
unfolding chain_of text_of get text_eq
chain_of-HasName route h =
    elim (Bool-cases (route.requires_auth && not (has_plugin route.plugins (lit "auth")))) [
      | inl a ↦
          rw (a, chain_of)
            (All-append HasName route.plugins (auth_spec ∷ []) (names_of route.plugins h)
              (named, tt))
      | inr a ↦ rw (a, chain_of) (names_of route.plugins h)
    ]
  where
    named : HasName auth_spec
    named = refl

All-middle :
    (before : List PluginSpec) (spec : PluginSpec) (behind : List PluginSpec)
    → All HasName (before ++ spec ∷ behind)
    → HasName spec
All-middle [] spec behind (h, _) = h
All-middle (s ∷ before) spec behind (_, h) = All-middle before spec behind h

-- A spec that stops a chain does not let the request on.
Stops-ends :
    (plugins : Map Plugin) (spec : PluginSpec) (z : Exchange) (v : Verdict)
    → Stops plugins spec z v
    → (y : Exchange) × (e : Option Error) × (v ≡ (y, false, e))
Stops-ends plugins spec z v (unnamed n q) =
    (write 500 (lit "PLUGIN_CONFIG_INVALID") z, some invalid_spec, q)
Stops-ends plugins spec z v (unknown n q) =
    (write 500 (lit "PLUGIN_NOT_FOUND") z, some (not_registered (text_of (lit "name") spec)), q)
Stops-ends plugins spec z v (failed p y b e g t q) = (y, some e, q)
Stops-ends plugins spec z v (refused p y g t q) = (y, none, q)

after_chain-ended :
    (route : RouteConfig) (service : ServiceConfig) (y : Exchange) (e : Option Error)
    → after_chain route service (y, false, e) ≡ chain_ended y e
unfolding after_chain
after_chain-ended route service y none = refl
after_chain-ended route service y (some e) = refl

after_chain-proxied :
    (route : RouteConfig) (service : ServiceConfig) (y : Exchange)
    → after_chain route service (y, true, none) ≡ proxied route service y
unfolding after_chain
after_chain-proxied route service y = refl

pub after_chain-IsServed :
    (cfg : GatewayConfig) (plugins : Map Plugin) (route : RouteConfig) (service : ServiceConfig)
    (target : Bytes) (x : Exchange)
    → find_route cfg.routes x.request ≡ some route
    → text_eq route.service_name (lit "all-services") ≡ false
    → select_target_service cfg.services route x.request ≡ some target
    → get target cfg.services ≡ some service
    → All IsPlugin route.plugins
    → IsServed cfg plugins x (after_chain route service (execute_chain plugins (chain_of route) x))
after_chain-IsServed cfg plugins route service target x f n t g ok =
    split (execute_chain-Ended plugins (chain_of route) x)
  where
    split :
        Ended plugins (chain_of route) x (execute_chain plugins (chain_of route) x)
        → IsServed cfg plugins x
            (after_chain route service (execute_chain plugins (chain_of route) x))
    split (all_passed y p q) =
        subst (IsServed cfg plugins x)
          (sym (ap (after_chain route service) q ∙ after_chain-proxied route service y))
          (handed_on (record { routed = f; not_health = n; selected = (target, t, g); let_on = p }))
    split (stopped before spec behind z q p st) =
        let (y, e, v) = Stops-ends plugins spec z (execute_chain plugins (chain_of route) x) st in
        let name =
          All-middle before spec behind (subst (All HasName) q (chain_of-HasName route ok)) in
        subst (IsServed cfg plugins x)
          (sym (ap (after_chain route service) v ∙ after_chain-ended route service y e))
          (chain_stopped route before spec behind z f q p name (subst (Stops plugins spec z) v st))

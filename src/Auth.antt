-- ===== src/Auth.antt =====
-- internal/plugin/auth/plugin.go: the authentication plugin, which asks an instance of the authentication
-- service about the request's token. The HTTP client is the parameter `post`, which takes the URL and
-- the token and gives the status and the body, or `none` for an error; `encoding/json` is `decode`.
-- What the health checker says of an instance is `is_healthy`. The plugin's choice of an instance
-- changes the balancers, which are handed through.
pub mod Login
use Prim.Native.String.{String}
use yuelaiengine_gateway.Common.{
  ℕ, zero, suc, Bool, true, false, ◌||◌, Option, none, some, List, [], ◌∷◌, ◌++◌, Bytes, lit,
  is_empty, null, length, ltb, leb, ◌==◌, text_eq, equal_fold, trim_space, Map, put, if◌then◌else◌,
}
use mathlib.Core.List.{reverse}
use yuelaiengine_gateway.Http.{Request, bearer_token}
use yuelaiengine_gateway.LoadBalancer.Instance.{ServiceInstance, Result, ok, err}
use yuelaiengine_gateway.LoadBalancer.Factory.{
  Balancer, LoadBalancerFactory, get_or_create, get_next_instance, get_all_instances,
}
use yuelaiengine_gateway.Plugin.{Exchange, Verdict, Error, service_failed}
use yuelaiengine_gateway.Plugin.Services.{refuse}

pub record ValidateResponse : Type 0 where
  pub valid : Bool
  pub user_id : Bytes
  pub role : Bytes

-- The token of a request: a bearer token, or else the header of its own.
unfoldable pub extract_token : Request → Bytes
extract_token r =
    let authz = trim_space (r.header (lit "Authorization")) in
    let own = trim_space (r.header (lit "X-Auth-Token")) in
    if is_empty authz then own else (elim (bearer_token authz) [ none ↦ own | some token ↦ token ])

-- How the loop over the instances ends: with an error, an instance, or no turns left.
pub data Picked : Type 0 where
  failed exhausted : Picked
  picked : ServiceInstance → Picked

unfoldable pub pick_healthy : (Bytes → Bool) → ℕ → Balancer → Balancer × Picked
pick_healthy is_healthy zero lb = (lb, exhausted)
pick_healthy is_healthy (suc n) lb =
    let rest = pick_healthy is_healthy n (get_next_instance lb).0 in
    elim (get_next_instance lb).1 [
      | err _ ↦ ((get_next_instance lb).0, failed)
      | ok i ↦ if is_healthy i.url then ((get_next_instance lb).0, picked i) else rest
    ]

-- What is picked in the end, where `first` is the first of the instances.
abbrev pub settled : ServiceInstance → Picked → Option ServiceInstance
settled first failed = none
settled first (picked i) = some i
settled first exhausted = some first

abbrev pub pick_among :
    (Bytes → Bool)
    → Bytes
    → LoadBalancerFactory
    → Balancer
    → List ServiceInstance
    → LoadBalancerFactory × Option ServiceInstance
pick_among is_healthy service f lb [] = (f, none)
pick_among is_healthy service f lb (first ∷ rest) =
    let (lb', outcome) = pick_healthy is_healthy (length (first ∷ rest)) lb in
    (put service lb' f, settled first outcome)

unfoldable pub pick_instance :
    (Bytes → Bool) → Bytes → LoadBalancerFactory → LoadBalancerFactory × Option ServiceInstance
pick_instance is_healthy auth_service f =
    let (f', lb) = get_or_create auth_service (lit "round_robin") f in
    pick_among is_healthy auth_service f' lb (get_all_instances lb)

abbrev trim_slashes : Bytes → Bytes
trim_slashes [] = []
trim_slashes (c ∷ s) = let rest = trim_slashes s in if c == b'/' then rest else c ∷ s

-- `strings.TrimRight(s, "/")`
abbrev pub trim_right_slash : Bytes → Bytes
trim_right_slash s = reverse (trim_slashes (reverse s))

-- `r.Header.Set(key, value)`, whose keys are the same in whatever case.
abbrev pub set_header : Bytes → Bytes → Request → Request
set_header key value r = record r { header = λ k. if equal_fold k key then value else r.header k }

-- A header that is set only to a text that is not empty.
abbrev pub set_if : Bytes → Bytes → Request → Request
set_if key value r = if is_empty value then r else set_header key value r

module _ (post : Bytes → Bytes → Option (ℕ × Bytes))
    (decode : Bytes → Option ValidateResponse) where
  -- The lines after the request to the service.
  abbrev pub read_answer : Option (ℕ × Bytes) → Option ValidateResponse
  read_answer none = none
  read_answer (some (code, body)) =
      if code == 401
      then some (record { valid = false; user_id = []; role = [] })
      else (if ltb code 200 || leb 300 code
          then none
          else (if is_empty body then none else decode body))

  unfoldable pub call_validate : Bytes → Bytes → Option ValidateResponse
  call_validate validate_url token = read_answer (post validate_url token)

  -- The lines after the call of the service.
  unfoldable pub after_answer : Option ValidateResponse → Exchange → Verdict
  after_answer none x = refuse 502 (lit "AUTH_VALIDATE_FAILED") (some service_failed) x
  after_answer (some result) x =
      if result.valid
      then (
        record x {
          request =
              set_if (lit "X-User-Role") result.role
                (set_if (lit "X-User-ID") result.user_id x.request);
        },
        true,
        none,
      )
      else refuse 401 (lit "AUTH_TOKEN_INVALID") none x

  -- The lines after the choice of an instance.
  unfoldable pub ask_instance : Bytes → Bytes → Option ServiceInstance → Exchange → Verdict
  ask_instance validate_path token none x =
      refuse 502 (lit "AUTH_SERVICE_UNAVAILABLE") (some service_failed) x
  ask_instance validate_path token (some i) x =
      after_answer (call_validate (trim_right_slash i.url ++ validate_path) token) x

  -- `Execute`
  unfoldable pub auth_plugin :
      (Bytes → Bool)
      → Bytes
      → Bytes
      → LoadBalancerFactory
      → Exchange
      → LoadBalancerFactory × Verdict
  auth_plugin is_healthy auth_service validate_path f x =
      if is_empty (extract_token x.request)
      then (f, refuse 401 (lit "AUTH_TOKEN_MISSING") none x)
      else (
        (pick_instance is_healthy auth_service f).0,
        ask_instance validate_path (extract_token x.request)
            (pick_instance is_healthy auth_service f).1 x,
      )

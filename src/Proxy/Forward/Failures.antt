-- ===== src/Proxy/Forward/Failures.antt =====
-- What the circuit breaker learns of the requests that are forwarded.
use mathlib.Core.Path.{ap₂}
use yuelaiengine_gateway.Common.{
  ℕ, suc, ◌+◌, Bool, false, not, ◌&&◌, ltb, leb, Option, none, some, List, [], ◌∷◌, ◌≡◌, refl, ap,
  ◌∙◌, Bytes, length, map, put, arith,
}
use yuelaiengine_gateway.Config.{RouteConfig, ServiceConfig}
use yuelaiengine_gateway.Http.{Request}
use yuelaiengine_gateway.CircuitBreaker
use yuelaiengine_gateway.CircuitBreaker.{CircuitBreaker, closed, record_result, run, step}
use yuelaiengine_gateway.CircuitBreaker.Breakers.{breaker}
use yuelaiengine_gateway.CircuitBreaker.Window.{IsOpenSince}
use yuelaiengine_gateway.CircuitBreaker.Recovery.{results, run-failures-opened}
use yuelaiengine_gateway.Health.{HealthChecker, is_instance_healthy}
use yuelaiengine_gateway.LoadBalancer.Instance.{ServiceInstance}
use yuelaiengine_gateway.LoadBalancer.Factory.{Balancer, get_or_create}
use yuelaiengine_gateway.Proxy.{get_healthy_instance}
use yuelaiengine_gateway.Transcoding.{RouteTranscoder}
use yuelaiengine_gateway.Transcoding.Resolver.{Disk}
use yuelaiengine_gateway.Transcoding.Responses.{Response}
use yuelaiengine_gateway.Proxy.Director.{director}
use yuelaiengine_gateway.Proxy.Transcoders.{prepare_transcoder}
use yuelaiengine_gateway.Proxy.Forward.{
  ProxyResponse, internal_error, bad_gateway, bad_request, forwarded, is_success, status_code,
  Proxy, Outside, recorded, modify_response, transcoded, send, after_prepare, to_url, release,
  after_choice, serve,
}

-- A status of 200 to 399.
abbrev pub is_fine : ℕ → Bool
is_fine status = not (ltb status 200) && not (leb 400 status)

fine_lem : (n : ℕ) → (leb 200 n && ltb n 400) ≡ is_fine n
fine_lem n = ground arith

is_success-is_fine : (reply : Option Response) → is_success reply ≡ is_fine (status_code reply)
is_success-is_fine reply = fine_lem (status_code reply)

-- What a response is to the circuit breaker: a success, a failure, or nothing.
abbrev pub result_of : ProxyResponse → Option Bool
result_of internal_error = none
result_of bad_gateway = some false
result_of bad_request = none
result_of (forwarded _ reply) = some (is_fine (status_code reply))

abbrev learned :
    ℕ → Bytes → Option Bool → Option CircuitBreaker.Service → Option CircuitBreaker.Service
learned now name none c = c
learned now name (some success) c = recorded now name success c

pub record Turn : Type 0 where
  pub now : ℕ
  pub disk : Disk
  pub checker : HealthChecker
  pub route : RouteConfig
  pub request : Request
  pub upstream : Request → Option Response

-- The breakers after a response are those before it with what the response means.
abbrev IsLearned :
    {D F : Type 0} → ℕ → Bytes → Option CircuitBreaker.Service → Proxy D F × ProxyResponse → Type 0
IsLearned now name c (p, response) = p.circuit_svc ≡ learned now name (result_of response) c

length-times : (ts : List Turn) → length (map (λ (t : Turn). t.now) ts) ≡ length ts
length-times [] = refl
length-times (t ∷ ts) = ap suc (length-times ts)

module _ {D F M : Type 0} (o : Outside D F M) where
  module _ (upstream : Request → Option Response) (disk : Disk) (now : ℕ) (route : RouteConfig)
      (name : Bytes) where
    send-IsLearned :
        (mode : Bytes) (transcoder : Option (RouteTranscoder D)) (url host : Bytes)
        (r : Option Request) (p : Proxy D F)
        → IsLearned now name p.circuit_svc
            (send o upstream disk now route name mode transcoder url host r p)
    unfolding send
    send-IsLearned mode transcoder url host none p = refl
    send-IsLearned mode transcoder url host (some r) p =
        let reply =
          modify_response o mode transcoder
            (upstream (director o.original_director route mode url host r)) in
        ap (λ success. recorded now name success p.circuit_svc) (is_success-is_fine reply)

    after_prepare-IsLearned :
        (url host : Bytes) (r : Request) (prepared : Option (Bytes × Option (RouteTranscoder D)))
        (p : Proxy D F)
        → IsLearned now name p.circuit_svc
            (after_prepare o upstream disk now route name url host r prepared p)
    unfolding after_prepare
    after_prepare-IsLearned url host r none p = refl
    after_prepare-IsLearned url host r (some (mode, t)) p =
        send-IsLearned mode t url host (transcoded o mode t r) p

    to_url-IsLearned :
        (url : Bytes) (r : Request) (host : Option Bytes) (p : Proxy D F)
        → IsLearned now name p.circuit_svc (to_url o upstream disk now route name url r host p)
    unfolding to_url
    to_url-IsLearned url r none p = refl
    to_url-IsLearned url r (some host) p =
        let (caches, prepared) = prepare_transcoder o.registry disk route p.caches in
        after_prepare-IsLearned url host r prepared (record p { caches = caches })

    after_choice-IsLearned :
        (r : Request) (choice : Balancer × Option ServiceInstance) (p : Proxy D F)
        → IsLearned now name p.circuit_svc (after_choice o upstream disk now route name r choice p)
    unfolding after_choice release
    after_choice-IsLearned r (lb, none) p = refl
    after_choice-IsLearned r (lb, some i) p =
        to_url-IsLearned i.url r (o.url_host i.url)
          (record p { lb_factory = put name lb p.lb_factory })

  -- The request of a turn.
  abbrev pub served : ServiceConfig → Turn → Proxy D F → Proxy D F × ProxyResponse
  served service t p = serve o t.upstream t.disk t.now t.checker t.route (some service) t.request p

  served-IsLearned :
      (service : ServiceConfig) (t : Turn) (p : Proxy D F)
      → IsLearned t.now service.name p.circuit_svc (served service t p)
  unfolding serve
  served-IsLearned service t p =
      let (f, lb) = get_or_create service.name service.load_balancer p.lb_factory in
      after_choice-IsLearned t.upstream t.disk t.now t.route service.name t.request
        (get_healthy_instance (λ url. is_instance_healthy service.name url t.checker) t.route
          t.request lb)
        (record p { lb_factory = f })

  abbrev pub serve_all : ServiceConfig → List Turn → Proxy D F → Proxy D F
  serve_all service [] p = p
  serve_all service (t ∷ ts) p = serve_all service ts (served service t p).0

  -- Every request fails: no instance is available, or the status is none of 200 to 399.
  abbrev pub AllFail : ServiceConfig → List Turn → Proxy D F → Type 0
  AllFail service [] p = Unit
  AllFail service (t ∷ ts) p =
      (result_of (served service t p).1 ≡ some false) × AllFail service ts (served service t p).0

  served-failed :
      (service : ServiceConfig) (t : Turn) (p : Proxy D F) (s : CircuitBreaker.Service)
      → p.circuit_svc ≡ some s
      → result_of (served service t p).1 ≡ some false
      → (served service t p).0.circuit_svc ≡ some (record_result t.now service.name false s)
  served-failed service t p s e f =
      served-IsLearned service t p ∙ ap₂ (learned t.now service.name) f e

  serve_all-failed :
      (service : ServiceConfig) (ts : List Turn) (p : Proxy D F) (s : CircuitBreaker.Service)
      → p.circuit_svc ≡ some s
      → AllFail service ts p
      → (serve_all service ts p).circuit_svc
        ≡ some (run s (results service.name false (map (λ (t : Turn). t.now) ts)))
  unfolding run step
  serve_all-failed service [] p s e f = e
  serve_all-failed service (t ∷ ts) p s e (f, fs) =
      serve_all-failed service ts (served service t p).0 (record_result t.now service.name false s)
        (served-failed service t p s e f) fs

  -- Where the breaker of a service is closed, as many requests in a row that fail as are missing to the
  -- failure threshold open it, and it is open since the last of them. A request fails if no instance is
  -- available or if the response's status is none of 200 to 399.
  pub serve_all-IsOpenSince :
      (service : ServiceConfig) (ts : List Turn) (last : Turn) (p : Proxy D F)
      (s : CircuitBreaker.Service) (cb : CircuitBreaker)
      → p.circuit_svc ≡ some s
      → breaker service.name s ≡ some cb
      → cb.state ≡ closed
      → cb.failure_count + length ts + 1 ≡ s.failure_threshold
      → AllFail service ts p
      → result_of (served service last (serve_all service ts p)).1 ≡ some false
      → (s' : CircuitBreaker.Service) × ((served service last
            (serve_all service ts p)).0.circuit_svc
          ≡ some s')
        × IsOpenSince service.name last.now s'
  serve_all-IsOpenSince service ts last p s cb has known is_closed missing fail fails =
      let times = map (λ (t : Turn). t.now) ts in
      let before = serve_all-failed service ts p s has fail in
      (
        record_result last.now service.name false (run s (results service.name false times)),
        served-failed service last (serve_all service ts p)
            (run s (results service.name false times)) before fails,
        run-failures-opened service.name s cb times last.now known is_closed
            (omega (arith, missing, length-times ts)),
      )

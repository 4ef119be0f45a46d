-- ===== src/Proxy/Forward.antt =====
-- internal/core/proxy/proxy.go (ServeHTTP) and types.go: the forwarding of a request. What comes of the
-- outgoing request is the parameter `upstream`, `none` where no response comes back.
pub mod Rewrite
pub mod Balance
pub mod Failures
use Prim.Native.String.{String}
use yuelaiengine_gateway.Common.{
  ℕ, Bool, true, false, ◌&&◌, Option, none, some, List, [], ◌∷◌, Bytes, lit, text_eq, ltb, leb,
  ◌==◌, if◌then◌else◌, Map, put,
}
use yuelaiengine_gateway.Config.{RouteConfig, ServiceConfig}
use yuelaiengine_gateway.Http.{Request}
use yuelaiengine_gateway.CircuitBreaker
use yuelaiengine_gateway.CircuitBreaker.{record_result}
use yuelaiengine_gateway.Health.{HealthChecker, is_instance_healthy}
use yuelaiengine_gateway.LoadBalancer.Instance.{ServiceInstance}
use yuelaiengine_gateway.LoadBalancer.Factory.{
  LoadBalancerFactory, Balancer, get_or_create, release_connection,
}
use yuelaiengine_gateway.Transcoding.{Codec, RouteTranscoder}
use yuelaiengine_gateway.Transcoding.Resolver.{Disk, Registry}
use yuelaiengine_gateway.Transcoding.Responses.{
  Response, apply_request_transcoding, apply_grpc_to_json_response_transcoding,
  apply_json_to_grpc_response_transcoding,
}
use yuelaiengine_gateway.Proxy.{get_healthy_instance}
use yuelaiengine_gateway.Proxy.Director.{director}
use yuelaiengine_gateway.Proxy.Transcoders.{Caches, prepare_transcoder}

-- The status that the wrapper kept, after the error handler, which answers 502 both where no response
-- came and where it could not be converted.
abbrev pub status_code : Option Response → ℕ
status_code none = 502
status_code (some r) = if r.status_code == 0 then 200 else r.status_code

abbrev pub is_success : Option Response → Bool
is_success reply = leb 200 (status_code reply) && ltb (status_code reply) 400

pub data ProxyResponse : Type 0 where
  internal_error : ProxyResponse
  bad_gateway : ProxyResponse
  bad_request : ProxyResponse
  forwarded : Request → Option Response → ProxyResponse

pub record Proxy (D F : Type 0) : Type 0 where
  pub lb_factory : LoadBalancerFactory
  pub circuit_svc : Option CircuitBreaker.Service
  pub caches : Caches D F

-- `cbSvc.RecordResult`, where there is a service.
abbrev pub recorded :
    ℕ → Bytes → Bool → Option CircuitBreaker.Service → Option CircuitBreaker.Service
recorded now name success none = none
recorded now name success (some s) = some (record_result now name success s)

-- What the proxy calls: the director that httputil makes for an instance's URL, the host of a URL that
-- `url.Parse` takes, the protobuf libraries, the JSON of an error and the texts of statuses.
pub record Outside (D F M : Type 0) : Type 0 where
  pub original_director : Bytes → Request → Request
  pub url_host : Bytes → Option Bytes
  pub registry : Registry D F
  pub codec : Codec D M
  pub marshal_error : Bytes → Bytes → Bytes
  pub status_text : ℕ → Bytes

module _ {D F M : Type 0} (o : Outside D F M) where
  abbrev pub record_outcome : ℕ → Bytes → Bool → Proxy D F → Proxy D F
  record_outcome now name success p = record p {
    circuit_svc = recorded now name success p.circuit_svc;
  }

  -- The request that is sent, with its body converted where the route has a transcoder.
  abbrev pub transcoded : Bytes → Option (RouteTranscoder D) → Request → Option Request
  transcoded mode none r = some r
  transcoded mode (some t) r = apply_request_transcoding o.codec t mode r

  -- `ModifyResponse`
  abbrev pub modify_response :
      Bytes → Option (RouteTranscoder D) → Option Response → Option Response
  modify_response mode none reply = reply
  modify_response mode (some t) none = none
  modify_response mode (some t) (some resp) =
      if text_eq mode (lit "http_json_to_grpc")
      then apply_grpc_to_json_response_transcoding o.codec t o.marshal_error o.status_text resp
      else (if text_eq mode (lit "grpc_to_http_json")
          then apply_json_to_grpc_response_transcoding o.codec t o.marshal_error o.status_text resp
          else some resp)

  module _ (upstream : Request → Option Response) (disk : Disk) (now : ℕ) (route : RouteConfig)
      (name : Bytes) where
    -- From the making of the director on.
    unfoldable pub send :
        Bytes
        → Option (RouteTranscoder D)
        → Bytes
        → Bytes
        → Option Request
        → Proxy D F
        → Proxy D F × ProxyResponse
    send mode transcoder url host none p = (p, bad_request)
    send mode transcoder url host (some r) p =
        let out = director o.original_director route mode url host r in
        let reply = modify_response mode transcoder (upstream out) in
        (record_outcome now name (is_success reply) p, forwarded out reply)

    -- After `prepareTranscoder`.
    unfoldable pub after_prepare :
        Bytes
        → Bytes
        → Request
        → Option (Bytes × Option (RouteTranscoder D))
        → Proxy D F
        → Proxy D F × ProxyResponse
    after_prepare url host r none p = (p, internal_error)
    after_prepare url host r (some (mode, transcoder)) p =
        send mode transcoder url host (transcoded mode transcoder r) p

    -- After the instance's URL is parsed.
    unfoldable pub to_url : Bytes → Request → Option Bytes → Proxy D F → Proxy D F × ProxyResponse
    to_url url r none p = (p, internal_error)
    to_url url r (some host) p =
        let (caches, prepared) = prepare_transcoder o.registry disk route p.caches in
        after_prepare url host r prepared (record p { caches = caches })

    -- The release that is deferred.
    unfoldable pub release :
        Balancer → Bytes → Proxy D F × ProxyResponse → Proxy D F × ProxyResponse
    release lb url (p, response) =
        (record p { lb_factory = put name (release_connection url lb).0 p.lb_factory }, response)

    -- After `getHealthyInstance`.
    unfoldable pub after_choice :
        Request → Balancer × Option ServiceInstance → Proxy D F → Proxy D F × ProxyResponse
    after_choice r (lb, none) p = (
      record_outcome now name false (record p { lb_factory = put name lb p.lb_factory }),
      bad_gateway,
    )
    after_choice r (lb, some i) p =
        release lb i.url
          (to_url i.url r (o.url_host i.url) (record p { lb_factory = put name lb p.lb_factory }))

  unfoldable pub serve :
      (Request → Option Response)
      → Disk
      → ℕ
      → HealthChecker
      → RouteConfig
      → Option ServiceConfig
      → Request
      → Proxy D F
      → Proxy D F × ProxyResponse
  serve upstream disk now hc route none r p = (p, internal_error)
  serve upstream disk now hc route (some service) r p =
      let (f, lb) = get_or_create service.name service.load_balancer p.lb_factory in
      after_choice upstream disk now route service.name r
        (get_healthy_instance (λ url. is_instance_healthy service.name url hc) route r lb)
        (record p { lb_factory = f })

-- ===== src/Lib.antt =====
-- The API gateway takes an HTTP request, finds its route, chooses the service for it, runs the route's
-- plugins, picks an instance of the service with the service's load balancer, and forwards the request.
-- This library models the parts of it that decide, and proves what they promise.
--
-- The parts, and the files that model them:
--   Gateway: internal/core/gateway.go, ServeHTTP. A request is an exchange (Plugin.Exchange) that holds
--     the two services which plugins call, the request and the response that is written. What becomes of
--     it is an outcome: an error response, the health report, the end of the plugin chain, the proxy, or
--     the panic of a division by zero in the weighted choice.
--   Router: internal/core/router.go. findRouteByPath is find_route_by_path, whose loop is find_from.
--   Traffic: selectTargetService and selectWeightedService of internal/core/gateway.go, and
--     internal/core/routingkey/routing_key.go.
--   Plugin: internal/plugin/manager.go and internal/plugin/httperr/httperr.go. Plugin.Keys models
--     internal/plugin/apikey and internal/plugin/rbac, Plugin.Services models internal/plugin/ratelimit
--     and internal/plugin/circuitbreaker.
--   CircuitBreaker: internal/service/circuitbreaker/service.go. Each method is one step under the
--     service's lock, from state to state, with the time of the step; run takes a sequence of calls.
--   Limiter, RateLimit: internal/core/limiter (the token bucket and the identifier strategies) and
--     internal/service/ratelimit/service.go.
--   LoadBalancer: internal/core/loadbalancer, a module for each balancer and Factory for the balancers of
--     all services. A pointer to an instance is its place in the balancer's list.
--   Proxy: internal/core/proxy/proxy.go, getHealthyInstance, with the health checker's answer as a
--     parameter. Proxy.Forward: ServeHTTP of that file; Proxy.Director: its director;
--     Proxy.Transcoders: prepareTranscoder of internal/core/proxy/transcoding.go.
--   Health: internal/core/health/checker.go. A pointer to a service's info is its place in the list of
--     all infos. HealthReport: internal/core/gateway_health.go.
--   Validation: internal/core/config_validation.go and validateRouteTranscodingConfigs of
--     internal/core/gateway_runtime.go. What is told is whether there is an error.
--   History: internal/core/config_versioning.go. Runtime: applyConfigLocked and syncServicesLocked of
--     internal/core/gateway_runtime.go, and the rollback; the gateway's state is the record Gateway.
--     Runtime.Reload: ReloadFromFile and the watcher of the file in the same file.
--   Admin: the handlers of internal/core/admin.go that change the configuration, and their
--     authorization. Admin.Forms: the form of routes in internal/core/admin_dto.go.
--   Auth: internal/plugin/auth/plugin.go.
--   Metrics: internal/core/metrics.go.
--   Transcoding: internal/core/transcoding, the frames of gRPC and the resolver of methods;
--     Transcoding.Responses: internal/core/proxy/transcoding.go, the bodies and the errors.
--   Config: the configuration records of internal/config/config.go; Config.File: its Load and Save.
--   Http, Common: requests, and shared types and lemmas.
--   Examples: tests, and each theorem with hypotheses or parameters at a concrete input.
--
-- How they interact: the router and the choice of the service read one snapshot of the configuration.
-- The chain hands the exchange from plugin to plugin; the rate limit and circuit breaker plugins step the
-- services of the exchange. Steps under a lock are atomic, so an interleaving of requests is a sequence
-- of calls, and the theorems on the circuit breaker and on the token bucket are about all such sequences.
--
-- The status hook that NewGateway sets carries each change of the health checker's record into the
-- balancers (Health.Mirror). Administration, rollback and validation meet in applyConfigLocked, which
-- runs under the gateway's lock and is one step on its state; the checker and the balancers are then set
-- to the services of the new configuration. The proxy asks the checker, takes a connection from the
-- balancer, gives it back, and tells the circuit breaker of the result.
--
-- Numbers. Counters of type uint64 wrap at 2 ^ 64 as written out; uint32 hashes at 2 ^ 32. Counters of
-- type int count requests and are not bounded; connection counts stop at 0, and weights and thresholds
-- from the configuration are integers. A capacity or refill rate below 0 counts as 0. Times are natural
-- numbers of nanoseconds of the monotonic clock. Texts are lists of bytes; lower case and white space are
-- those of ASCII.
--
-- Fuel. sort.Search is written out on fuel, the length of the ring, which is enough since the interval
-- shrinks at each turn. Decimal numbers are printed with fuel 20, the digits of a number of 64 bits.
--
-- Parameters. sort.Slice, which leaves the order of equal entries open, is any function that keeps the
-- entries and puts them in order. The number of tokens to refill, computed in floating point, is any
-- function of the elapsed time and the rate, bounded by their product where a theorem needs it; floating
-- point keeps to that bound while the product is below 2 ^ 50 token-nanoseconds, a million tokens. A map's
-- order of iteration is the order of the list that stands for the map. What headers, query and cookies of
-- a request hold are functions of the request. Outside the program are url.Parse (parse_url, url_host),
-- the HTTP client (client, post), the JSON decoder (decode), the writing of a file (save), the director of
-- httputil's reverse proxy and what comes of a forwarded request (upstream), the comparison of a latency
-- bucket with a share in floating point (reaches), the protobuf libraries (Codec, Registry), the JSON of
-- an error (marshal_error) and the texts of statuses (status_text). What the proxy takes
-- from outside is the record Proxy.Forward.Outside.
--
-- Not modelled: the pools of buffers and messages; the tickers, and the file output of the monitoring;
-- Shutdown; Clone, since values are never shared; the handlers that only print state, the forms of
-- services, rules and versions, and the text of the metrics; the logger, the web server and its API
-- document, the start-up code and the sample services.
pub mod Admin
pub mod Auth
pub mod CircuitBreaker
pub mod Common
pub mod Config
pub mod Examples
pub mod Gateway
pub mod Health
pub mod HealthReport
pub mod History
pub mod Http
pub mod Limiter
pub mod LoadBalancer
pub mod Metrics
pub mod Plugin
pub mod Proxy
pub mod RateLimit
pub mod Router
pub mod Runtime
pub mod Traffic
pub mod Transcoding
pub mod Validation

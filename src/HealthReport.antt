-- ===== src/HealthReport.antt =====
-- internal/core/gateway_health.go: the report of the services' health. Its text in JSON is left out.
pub mod Report
use Prim.Native.String.{String}
use yuelaiengine_gateway.Common.{
  ℕ, ◌+◌, Bool, true, false, ◌||◌, ◌&&◌, Option, none, some, List, [], ◌∷◌, Bytes, lit, text_eq,
  is_empty, has, Map, drop, length, ltb, if◌then◌else◌,
}
use yuelaiengine_gateway.Config.{RouteConfig, GatewayConfig}
use yuelaiengine_gateway.Http.{Request, last_index_byte, split_host_port}
use yuelaiengine_gateway.Router.{find_route_by_path}
use yuelaiengine_gateway.Traffic.{trim_prefix}
use yuelaiengine_gateway.Health.{HealthChecker, get_all_statuses, get_service_status}

-- The host has text after its last colon, where `net.SplitHostPort` fails.
abbrev pub after_colon : Bytes → Bytes
after_colon host = elim (last_index_byte b':' host) [
  | none ↦ []
  | some i ↦ if ltb (i + 1) (length host) then drop (i + 1) host else []
]

unfoldable pub extract_port : Bytes → Bytes
extract_port host =
    if is_empty host
    then []
    else (elim (split_host_port host) [ none ↦ after_colon host | some (_, port) ↦ port ])

-- A nil map of a service that is not registered is `[]`.
abbrev pub statuses_of : Bytes → HealthChecker → Map Bool
statuses_of name hc = elim (get_service_status name hc) [ none ↦ [] | some statuses ↦ statuses ]

-- `none` is nil.
unfoldable pub build_service_health_response :
    GatewayConfig → Bytes → HealthChecker → Option (Map (Map Bool))
build_service_health_response cfg name hc =
    if text_eq name (lit "all-services")
    then some (get_all_statuses hc)
    else (if has name cfg.services then some ((name, statuses_of name hc) ∷ []) else none)

-- The request is for the gateway's own port.
abbrev pub is_own_port : GatewayConfig → Bytes → Bool
is_own_port cfg host =
    is_empty (extract_port host) || text_eq (extract_port host) (trim_prefix cfg.port (lit ":"))

-- `resp`, before nil is replaced.
unfoldable pub scoped_response :
    GatewayConfig → RouteConfig → Bytes → HealthChecker → Option (Map (Map Bool))
scoped_response cfg route host hc =
    if text_eq route.health_check_scope (lit "auto")
    then (if is_own_port cfg host
        then some (get_all_statuses hc)
        else build_service_health_response cfg route.service_name hc)
    else (if text_eq route.health_check_scope (lit "all-services")
        then some (get_all_statuses hc)
        else build_service_health_response cfg route.service_name hc)

abbrev pub or_all : HealthChecker → Option (Map (Map Bool)) → Map (Map Bool)
or_all hc none = get_all_statuses hc
or_all hc (some report) = report

-- The report that is written, where `none` is the answer 404.
unfoldable pub health_check_handler :
    GatewayConfig → HealthChecker → Request → Option (Map (Map Bool))
health_check_handler cfg hc r = elim (find_route_by_path cfg.routes r.path) [
  | none ↦ none
  | some route ↦ some (or_all hc (scoped_response cfg route r.host hc))
]

-- ===== src/Proxy/Director.antt =====
-- internal/core/proxy/proxy.go (ServeHTTP): how the director changes the request that goes out.
use yuelaiengine_gateway.Common.{
  Bool, not, ◌&&◌, Bytes, lit, text_eq, is_empty, length, drop, leb, if◌then◌else◌, equal_fold,
}
use yuelaiengine_gateway.Config.{RouteConfig}
use yuelaiengine_gateway.Http.{Request}
use yuelaiengine_gateway.Auth.{set_header}

abbrev pub is_grpc : RouteConfig → Bool
is_grpc route = equal_fold route.upstream_protocol (lit "grpc")

abbrev pub or_slash : Bytes → Bytes
or_slash path = if is_empty path then lit "/" else path

-- The path without the route's prefix; it is only cut by the prefix's length.
abbrev pub rewritten : RouteConfig → Bytes → Bytes
rewritten route path =
    if not (is_empty route.path_prefix) && leb (length route.path_prefix) (length path)
    then or_slash (drop (length route.path_prefix) path)
    else path

abbrev pub to_upstream : RouteConfig → Request → Request
to_upstream route r =
    if is_grpc route
    then (if is_empty route.grpc_method
        then set_header (lit "TE") (lit "trailers") r
        else record (set_header (lit "TE") (lit "trailers") r) {
          method = lit "POST";
          path = route.grpc_method;
        })
    else record r { path = rewritten route r.path }

-- `switch convertMode`
abbrev pub converted : Bytes → Request → Request
converted mode r =
    if text_eq mode (lit "http_json_to_grpc")
    then record (set_header (lit "Content-Type") (lit "application/grpc") r) { method = lit "POST" }
    else (if text_eq mode (lit "grpc_to_http_json")
        then set_header (lit "Accept") (lit "application/json") r
        else r)

unfoldable pub director :
    (Bytes → Request → Request) → RouteConfig → Bytes → Bytes → Bytes → Request → Request
director original_director route mode url host r =
    set_header (lit "X-Gateway-Proxy") (lit "true")
      (converted mode (to_upstream route (record (original_director url r) { host = host })))

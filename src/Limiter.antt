-- ===== src/Limiter.antt =====
-- internal/core/limiter/limiter.go: the strategies by which a request is attributed to a client.
pub mod TokenBucket
pub mod Shards
pub mod Rate
use yuelaiengine_gateway.Common.{
  Bool, true, false, Option, none, some, List, Bytes, lit, text_eq, to_lower, is_empty,
  if◌then◌else◌,
}
use yuelaiengine_gateway.Http.{Request, before}

-- The function for the strategy "ip".
unfoldable pub client_ip : Request → Bytes
client_ip r =
    let forwarded = r.header (lit "X-Forwarded-For") in
    let real = if is_empty forwarded then r.header (lit "X-Real-Ip") else forwarded in
    if is_empty real then before b':' r.remote_addr else real

-- `none` is the error for an unknown strategy.
unfoldable pub get_identifier_func : Bytes → Option (Request → Bytes)
get_identifier_func strategy =
    let s = to_lower strategy in
    if text_eq s (lit "ip")
    then some client_ip
    else (if text_eq s (lit "path")
        then some (λ r. r.path)
        else (if text_eq s (lit "global") then some (λ r. lit "global") else none))

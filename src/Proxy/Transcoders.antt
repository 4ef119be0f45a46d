-- ===== src/Proxy/Transcoders.antt =====
-- internal/core/proxy/transcoding.go (prepareTranscoder): the transcoders of routes and their cache.
pub mod Kept
use yuelaiengine_gateway.Common.{
  Bool, Option, none, some, [], ◌++◌, Bytes, lit, trim_space, Map, get, put, if◌then◌else◌,
}
use yuelaiengine_gateway.Config.{RouteConfig}
use yuelaiengine_gateway.Validation.{convert_mode, is_no_convert, is_known_convert}
use yuelaiengine_gateway.Transcoding.{RouteTranscoder}
use yuelaiengine_gateway.Transcoding.Resolver.{
  Disk, DescriptorCacheEntry, Registry, new_route_transcoder,
}

-- The caches of the proxy: of the transcoders, and of the descriptor files.
pub record Caches (D F : Type 0) : Type 0 where
  pub transcoders : Map (RouteTranscoder D)
  pub descriptors : Map (DescriptorCacheEntry F)

abbrev pub bool_text : Bool → Bytes
bool_text b = if b then lit "true" else lit "false"

unfoldable pub transcoder_cache_key : RouteConfig → Bytes
transcoder_cache_key route =
    trim_space route.proto_descriptor
    ++ lit "|"
    ++ trim_space route.grpc_method
    ++ lit "|up="
    ++ bool_text route.emit_unpopulated
    ++ lit "|pn="
    ++ bool_text route.use_proto_names
    ++ lit "|du="
    ++ bool_text route.discard_unknown

module _ {D F : Type 0} (libs : Registry D F) where
  -- After `NewRouteTranscoder`.
  abbrev pub after_new :
      RouteConfig
      → Caches D F
      → Map (DescriptorCacheEntry F) × Option (RouteTranscoder D)
      → Caches D F × Option (Bytes × Option (RouteTranscoder D))
  after_new route c (descriptors, none) = (record c { descriptors = descriptors }, none)
  after_new route c (descriptors, some t) = (
    record {
      transcoders = put (transcoder_cache_key route) t c.transcoders;
      descriptors = descriptors;
    },
    some (convert_mode route, some t),
  )

  -- After the look into the cache.
  abbrev pub cached_or_new :
      Disk
      → RouteConfig
      → Caches D F
      → Option (RouteTranscoder D)
      → Caches D F × Option (Bytes × Option (RouteTranscoder D))
  cached_or_new disk route c (some t) = (c, some (convert_mode route, some t))
  cached_or_new disk route c none =
      after_new route c (new_route_transcoder libs disk route c.descriptors)

  -- The mode and the transcoder, if any; `none` is an error.
  unfoldable pub prepare_transcoder :
      Disk → RouteConfig → Caches D F → Caches D F × Option (Bytes × Option (RouteTranscoder D))
  prepare_transcoder disk route c =
      if is_no_convert (convert_mode route)
      then (c, some ([], none))
      else (if is_known_convert (convert_mode route)
          then cached_or_new disk route c (get (transcoder_cache_key route) c.transcoders)
          else (c, none))

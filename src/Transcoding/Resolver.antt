-- ===== src/Transcoding/Resolver.antt =====
-- internal/core/transcoding/descriptor_resolver.go and NewRouteTranscoder: the methods of descriptor
-- files, and the cache of these files. A file does not change within one call. `F` stands for the
-- registries that the protobuf libraries make of a file's content; `none` is an error.
pub mod Cached
use Prim.Native.String.{String}
use yuelaiengine_gateway.Common.{
  ℕ, Bool, true, false, ◌&&◌, ◌||◌, Option, none, some, List, [], ◌∷◌, ◌++◌, Bytes, lit, is_empty,
  text_eq, trim_space, Map, get, put, ◌==◌, if◌then◌else◌,
}
use yuelaiengine_gateway.Config.{RouteConfig}
use yuelaiengine_gateway.Traffic.{trim_prefix}
use yuelaiengine_gateway.Transcoding.{MethodDescriptors, RouteTranscoder}

-- Size and time of the last change.
abbrev pub Version : Type 0
Version = ℕ × ℕ

abbrev pub is_version : Version → Version → Bool
is_version (size, time) (size', time') = size == size' && time == time'

pub record Disk : Type 0 where
  pub stat : Bytes → Option Version
  pub read : Bytes → Option Bytes

pub record DescriptorCacheEntry (F : Type 0) : Type 0 where
  pub files : F
  pub version : Version

-- What the libraries do: registries from a file's content, the method of a service, and the tests of
-- names.
pub record Registry (D F : Type 0) : Type 0 where
  pub new_files : Bytes → Option F
  pub find_method : F → Bytes → Bytes → Option (D × D)
  pub is_full_name : Bytes → Bool
  pub is_name : Bytes → Bool

-- `strings.Split(s, "/")`
unfoldable pub split_slash : Bytes → List Bytes
split_slash [] = [] ∷ []
split_slash (c ∷ s) = elim (split_slash s) [
  | [] ↦ [] ∷ []
  | part ∷ parts ↦ if c == b'/' then [] ∷ part ∷ parts else (c ∷ part) ∷ parts
]

module _ {D F : Type 0} (libs : Registry D F) where
  -- The two parts of a method's name.
  unfoldable pub valid_names : List Bytes → Option (Bytes × Bytes)
  valid_names (service ∷ method ∷ []) =
      let service_name = trim_space service in
      let method_name = trim_space method in
      if is_empty service_name || is_empty method_name
      then none
      else (if libs.is_full_name service_name && libs.is_name method_name
          then some (service_name, method_name)
          else none)
  valid_names _ = none

  unfoldable pub parse_grpc_method : Bytes → Option (Bytes × Bytes)
  parse_grpc_method full_method =
      valid_names (split_slash (trim_prefix (trim_space full_method) (lit "/")))

  abbrev pub Cache : Type 0
  Cache = Map (DescriptorCacheEntry F)

  -- `os.ReadFile` and what follows.
  unfoldable pub load_content : Disk → Bytes → Version → Cache → Cache × Option F
  load_content disk path version cache = elim (disk.read path) [
    | none ↦ (cache, none)
    | some content ↦ elim (libs.new_files content) [
      | none ↦ (cache, none)
      | some files ↦ (put path (record { files = files; version = version }) cache, some files)
    ]
  ]

  -- After `os.Stat`, with what the cache has for the path.
  unfoldable pub load_version :
      Disk → Bytes → Version → Option (DescriptorCacheEntry F) → Cache → Cache × Option F
  load_version disk path version none cache = load_content disk path version cache
  load_version disk path version (some entry) cache =
      if is_version entry.version version
      then (cache, some entry.files)
      else load_content disk path version cache

  abbrev pub load_path : Disk → Bytes → Cache → Cache × Option F
  load_path disk path cache = elim (disk.stat path) [
    | none ↦ (cache, none)
    | some version ↦ load_version disk path version (get path cache) cache
  ]

  unfoldable pub load_files : Disk → Bytes → Cache → Cache × Option F
  load_files disk descriptor_path cache =
      if is_empty (trim_space descriptor_path)
      then (cache, none)
      else load_path disk (trim_space descriptor_path) cache

  abbrev pub method_of : Bytes → Bytes → Option (D × D) → Option (MethodDescriptors D)
  method_of service_name method_name none = none
  method_of service_name method_name (some (input, output)) = some (record {
    full_method = lit "/" ++ service_name ++ lit "/" ++ method_name;
    input = input;
    output = output;
  })

  -- After `loadFiles`.
  abbrev pub find_in : Bytes → Bytes → Cache × Option F → Cache × Option (MethodDescriptors D)
  find_in service_name method_name (cache, none) = (cache, none)
  find_in service_name method_name (cache, some files) =
      (cache, method_of service_name method_name (libs.find_method files service_name method_name))

  unfoldable pub resolve_grpc_method :
      Disk → Bytes → Bytes → Cache → Cache × Option (MethodDescriptors D)
  resolve_grpc_method disk descriptor_path full_method cache =
      elim (parse_grpc_method full_method) [
        | none ↦ (cache, none)
        | some (service_name, method_name) ↦
            find_in service_name method_name (load_files disk descriptor_path cache)
      ]

  -- `NewRouteTranscoder` with the options of a route.
  unfoldable pub new_route_transcoder :
      Disk → RouteConfig → Cache → Cache × Option (RouteTranscoder D)
  new_route_transcoder disk route cache =
      let (cache', method) =
        resolve_grpc_method disk route.proto_descriptor route.grpc_method cache in
      (
        cache',
        elim method [
          | none ↦ none
          | some m ↦ some (record {
            method = m;
            options = record {
              descriptor_path = route.proto_descriptor;
              grpc_method = route.grpc_method;
              emit_unpopulated = route.emit_unpopulated;
              use_proto_names = route.use_proto_names;
              discard_unknown = route.discard_unknown;
            };
          })
        ],
      )

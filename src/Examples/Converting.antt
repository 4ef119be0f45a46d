-- ===== src/Examples/Converting.antt =====
-- internal/core/transcoding and internal/core/proxy/transcoding.go at concrete bodies and files.
use yuelaiengine_gateway.Common.{
  ℕ, ◌^◌, ◌<◌, true, false, none, some, [], ◌∷◌, ◌++◌, ◌≡◌, ◌↔◌, refl, arith, Bytes, lit, length,
  ltb, map, trim_space, itoa, to_lower, text_eq, get, has_prefix, if◌then◌else◌,
}
use yuelaiengine_gateway.Config.{RouteConfig}
use yuelaiengine_gateway.Http.{Request}
use yuelaiengine_gateway.Proxy.Transcoders.{Caches, prepare_transcoder}
use yuelaiengine_gateway.Proxy.Transcoders.Kept.{prepare_all, prepare_transcoder-kept}
use yuelaiengine_gateway.Transcoding.{
  Codec, RouteTranscoder, ◌>>=◌, wrap_grpc_frame, unwrap_grpc_frame,
}
use yuelaiengine_gateway.Transcoding.Frames.{unwrap_grpc_frame_iff}
use yuelaiengine_gateway.Transcoding.Messages.{IsFaithful}
use yuelaiengine_gateway.Transcoding.Resolver.{
  Disk, Registry, new_route_transcoder, resolve_grpc_method, parse_grpc_method, valid_names,
  split_slash, load_files, load_version, load_content,
}
use yuelaiengine_gateway.Transcoding.Resolver.Cached.{Tells, load_all, anew_of, load_all-anew}
use yuelaiengine_gateway.Transcoding.Responses.{
  Response, apply_request_transcoding, apply_json_to_grpc_response_transcoding,
  apply_grpc_to_json_response_transcoding,
}
use yuelaiengine_gateway.Transcoding.Responses.Errors.{IsTold, apply_grpc_to_json-IsTold}
use yuelaiengine_gateway.Transcoding.Responses.Bodies.{apply_request_transcoding-message}
use yuelaiengine_gateway.Examples.Routing.{route, beta_request}

abbrev two_bytes : Bytes
two_bytes = 7 ∷ 255 ∷ []

abbrev framed : Bytes
framed = 0 ∷ 0 ∷ 0 ∷ 0 ∷ 2 ∷ two_bytes

unwrap_grpc_frame_iff_example :
    (unwrap_grpc_frame framed ≡ some two_bytes)
    ↔ ((framed ≡ wrap_grpc_frame two_bytes) × (length two_bytes < 2 ^ 32))
unwrap_grpc_frame_iff_example = unwrap_grpc_frame_iff framed two_bytes (omega arith)

-- Messages that are texts, in both forms; protobuf refuses those of 2 ^ 32 bytes and more.
abbrev pub plain : Codec Bytes Bytes
plain = record {
  empty = λ _. [];
  unmarshal_json = λ _ _ b. some b;
  marshal_json = λ _ _ m. some m;
  unmarshal_proto = λ _ b. some b;
  marshal_proto = λ m. if ltb (length m) (2 ^ 32) then some m else none;
}

same_text : (m b : Bytes) → (if ltb (length m) (2 ^ 32) then some m else none) ≡ some b → m ≡ b
same_text m b e = ground arith

short_text :
    (m b : Bytes) → (if ltb (length m) (2 ^ 32) then some m else none) ≡ some b → length b < 2 ^ 32
short_text m b e = ground arith

plain-IsFaithful : IsFaithful plain (lit "Echo")
plain-IsFaithful = record {
  reads = λ m b e. ground (arith, same_text m b e);
  reads_empty = λ m e. same_text m [] e;
  bounded = short_text;
}

abbrev echo : RouteTranscoder Bytes
echo = record {
  method = record { full_method = lit "/demo.Echo/Say"; input = lit "Echo"; output = lit "Echo" };
  options = record {
    descriptor_path = lit "echo.pb";
    grpc_method = lit "/demo.Echo/Say";
    emit_unpopulated = false;
    use_proto_names = false;
    discard_unknown = false;
  };
}

abbrev posted : Request
posted = record beta_request { body = some (lit "{7}") }

apply_request_transcoding-message_example :
    (r : Request) × ((apply_request_transcoding plain echo (lit "http_json_to_grpc") posted
        >>= apply_request_transcoding plain echo (lit "grpc_to_http_json"))
      ≡ some r)
    × (r.body ≡ some (lit "{7}"))
    × (r.header (lit "Content-Type") ≡ lit "application/json")
    × (r.header (lit "Content-Length") ≡ itoa 3)
unfolding trim_space
apply_request_transcoding-message_example =
    apply_request_transcoding-message plain echo posted (lit "{7}") (lit "{7}") (lit "{7}")
      (lit "{7}") plain-IsFaithful refl refl refl refl

abbrev pub answer : ℕ → Bytes → Response
answer status body = record {
  status_code = status;
  header = λ _. [];
  trailer = λ _. [];
  body = some body;
}

abbrev pub error_json : Bytes → Bytes → Bytes
error_json status message = status ++ message

abbrev pub no_text : ℕ → Bytes
no_text status = []

apply_grpc_to_json-IsTold_example :
    (r : Response) × ((apply_json_to_grpc_response_transcoding plain echo error_json no_text
          (answer 404 (lit "gone "))
        >>= apply_grpc_to_json_response_transcoding plain echo error_json no_text)
      ≡ some r)
    × IsTold error_json 404 (lit "gone") r
unfolding trim_space
apply_grpc_to_json-IsTold_example =
    apply_grpc_to_json-IsTold plain echo echo error_json no_text (answer 404 (lit "gone "))
      (lit "gone ") refl (omega arith) (omega arith) refl

abbrev pub registry : Registry Bytes Bytes
registry = record {
  new_files = λ content. some content;
  find_method = λ _ _ _. none;
  is_full_name = λ _. true;
  is_name = λ _. true;
}

-- A disk with one file of one byte, whose content goes with the time of its last change.
abbrev pub disk_at : ℕ → Disk
disk_at time = record { stat = λ _. some (1, time); read = λ _. some (time ∷ []) }

tells : (time : ℕ) → Tells (λ _ v. some (v.1 ∷ [])) (disk_at time)
tells time path v e = ground arith

load_all-anew_example :
    load_all registry
      ((disk_at 3, lit "a.pb") ∷ (disk_at 3, lit "a.pb") ∷ (disk_at 4, lit "a.pb") ∷ [])
      []
    ≡ map
        (anew_of registry)
        ((disk_at 3, lit "a.pb") ∷ (disk_at 3, lit "a.pb") ∷ (disk_at 4, lit "a.pb") ∷ [])
load_all-anew_example =
    load_all-anew registry (λ _ v. some (v.1 ∷ []))
      ((disk_at 3, lit "a.pb") ∷ (disk_at 3, lit "a.pb") ∷ (disk_at 4, lit "a.pb") ∷ [])
      (tells 3, (tells 3, (tells 4, tt)))

-- Every method has the same messages, whose type is the content of the descriptor file.
abbrev contents : Registry Bytes Bytes
contents = record registry { find_method = λ content _ _. some (content, content) }

abbrev converting : Bytes → RouteConfig
converting method = record (route (lit "/say")) {
  protocol_convert = lit " HTTP_JSON_to_grpc";
  proto_descriptor = lit "a.pb";
  grpc_method = method;
}

abbrev no_caches : Caches Bytes Bytes
no_caches = record { transcoders = []; descriptors = [] }

abbrev transcoder : RouteTranscoder Bytes
transcoder = record {
  method = record { full_method = lit "/Echo/Say"; input = 3 ∷ []; output = 3 ∷ [] };
  options = record {
    descriptor_path = lit "a.pb";
    grpc_method = lit "Echo/Say";
    emit_unpopulated = false;
    use_proto_names = false;
    discard_unknown = false;
  };
}

-- The file changes before the second route is used, and again before the first is used for the
-- second time.
prepare_transcoder-kept_example :
    (prepare_transcoder contents (disk_at 5) (converting (lit "Echo/Say")) (
      prepare_all contents
        ((disk_at 4, converting (lit "Echo/Shout")) ∷ [])
        (prepare_transcoder contents (disk_at 3) (converting (lit "Echo/Say")) no_caches).0)).1
    ≡ some (lit "http_json_to_grpc", some transcoder)
unfolding prepare_transcoder to_lower trim_space text_eq get new_route_transcoder
    resolve_grpc_method parse_grpc_method valid_names split_slash has_prefix load_files load_version
    load_content
prepare_transcoder-kept_example =
    prepare_transcoder-kept contents (disk_at 3) (disk_at 5) (converting (lit "Echo/Say")) no_caches
      (lit "http_json_to_grpc") transcoder ((disk_at 4, converting (lit "Echo/Shout")) ∷ []) refl

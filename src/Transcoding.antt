-- ===== src/Transcoding.antt =====
-- internal/core/transcoding/transcoding.go: the conversion between JSON and the frames of gRPC. The
-- protobuf libraries are the parameter `Codec`; a pooled message is reset before it is used, and so is
-- an empty one. `none` is an error.
pub mod Frames
pub mod Messages
pub mod Resolver
pub mod Escape
pub mod Responses
use Prim.Native.String.{String}
use yuelaiengine_gateway.Common.{
  ℕ, ◌+◌, ◌*◌, ◌/◌, ◌%◌, ◌^◌, Bool, Option, none, some, List, [], ◌∷◌, ◌++◌, Bytes, lit, length,
  is_empty, trim_space, ◌==◌, if◌then◌else◌,
}

-- `binary.BigEndian.PutUint32` of a number that `uint32(_)` cuts off.
abbrev pub put_uint32 : ℕ → Bytes
put_uint32 n = (n / 2 ^ 24 % 256) ∷ (n / 2 ^ 16 % 256) ∷ (n / 2 ^ 8 % 256) ∷ (n % 256) ∷ []

-- `binary.BigEndian.Uint32`
abbrev pub uint32 : ℕ → ℕ → ℕ → ℕ → ℕ
uint32 a b c d = a * 2 ^ 24 + b * 2 ^ 16 + c * 2 ^ 8 + d

unfoldable pub wrap_grpc_frame : Bytes → Bytes
wrap_grpc_frame payload = 0 ∷ put_uint32 (length payload % 2 ^ 32) ++ payload

unfoldable pub unwrap_grpc_frame : Bytes → Option Bytes
unwrap_grpc_frame (flag ∷ a ∷ b ∷ c ∷ d ∷ payload) =
    if flag == 0
    then (if length (flag ∷ a ∷ b ∷ c ∷ d ∷ payload) == 5 + uint32 a b c d
        then some payload
        else none)
    else none
unwrap_grpc_frame _ = none

pub record MethodDescriptors (D : Type 0) : Type 0 where
  pub full_method : Bytes
  pub input : D
  pub output : D

pub record Options : Type 0 where
  pub descriptor_path : Bytes
  pub grpc_method : Bytes
  pub emit_unpopulated : Bool
  pub use_proto_names : Bool
  pub discard_unknown : Bool

pub record RouteTranscoder (D : Type 0) : Type 0 where
  pub method : MethodDescriptors D
  pub options : Options

-- The libraries' messages `M` of descriptors `D`: the message without fields, and the messages' forms
-- in JSON and in protobuf.
pub record Codec (D M : Type 0) : Type 0 where
  pub empty : D → M
  pub unmarshal_json : Bool → D → Bytes → Option M
  pub marshal_json : Bool → Bool → M → Option Bytes
  pub unmarshal_proto : D → Bytes → Option M
  pub marshal_proto : M → Option Bytes

-- What follows a step that may fail.
infixl 5 ◌>>=◌
abbrev pub ◌>>=◌ {ℓ κ} : {A : Type ℓ} {B : Type κ} → Option A → (A → Option B) → Option B
none >>= f = none
some a >>= f = f a

abbrev pub or_braces : Bytes → Bytes
or_braces s = if is_empty s then lit "{}" else s

module _ {D M : Type 0} (codec : Codec D M) (t : RouteTranscoder D) where
  unfoldable pub json_to_proto_bytes : D → Bytes → Option Bytes
  json_to_proto_bytes desc json_body = do
    msg ← codec.unmarshal_json t.options.discard_unknown desc (or_braces (trim_space json_body))
    codec.marshal_proto msg

  abbrev pub unmarshalled : D → Bytes → Option M
  unmarshalled desc proto_body =
      if is_empty proto_body then some (codec.empty desc) else codec.unmarshal_proto desc proto_body

  unfoldable pub proto_bytes_to_json : D → Bytes → Option Bytes
  proto_bytes_to_json desc proto_body = do
    msg ← unmarshalled desc proto_body
    codec.marshal_json t.options.use_proto_names t.options.emit_unpopulated msg

  unfoldable pub json_to_grpc_request : Bytes → Option Bytes
  json_to_grpc_request json_body = do
    proto_body ← json_to_proto_bytes t.method.input json_body
    some (wrap_grpc_frame proto_body)

  unfoldable pub json_to_grpc_response : Bytes → Option Bytes
  json_to_grpc_response json_body = do
    proto_body ← json_to_proto_bytes t.method.output json_body
    some (wrap_grpc_frame proto_body)

  unfoldable pub grpc_request_to_json : Bytes → Option Bytes
  grpc_request_to_json grpc_body = do
    proto_body ← unwrap_grpc_frame grpc_body
    proto_bytes_to_json t.method.input proto_body

  unfoldable pub grpc_response_to_json : Bytes → Option Bytes
  grpc_response_to_json grpc_body = do
    proto_body ← unwrap_grpc_frame grpc_body
    proto_bytes_to_json t.method.output proto_body

-- ===== src/Transcoding/Messages.antt =====
-- A message that is written in protobuf, framed, and read back.
use yuelaiengine_gateway.Common.{
  ◌^◌, ◌<◌, Option, some, [], ◌∷◌, ◌≡◌, ap, sym, Bytes, length, trim_space,
}
use yuelaiengine_gateway.Transcoding.{
  Codec, RouteTranscoder, or_braces, json_to_proto_bytes, proto_bytes_to_json, wrap_grpc_frame,
  unwrap_grpc_frame, unmarshalled,
}
use yuelaiengine_gateway.Transcoding.Frames.{unwrap_grpc_frame-wrap}

-- Protobuf reads back what it wrote, the empty text being a message without fields, and writes less
-- than 2 ^ 32 bytes, as protobuf bounds a message by 2 GiB.
pub record IsFaithful {D M : Type 0} (codec : Codec D M) (desc : D) : Type 0 where
  pub reads :
      (m : M) (b : Bytes) → codec.marshal_proto m ≡ some b → codec.unmarshal_proto desc b ≡ some m
  pub reads_empty : (m : M) → codec.marshal_proto m ≡ some [] → m ≡ codec.empty desc
  pub bounded : (m : M) (b : Bytes) → codec.marshal_proto m ≡ some b → length b < 2 ^ 32

module _ {D M : Type 0} (codec : Codec D M) (t : RouteTranscoder D) where
  -- A message that is written in protobuf.
  unmarshalled-marshal :
      (desc : D) (m : M) (b : Bytes)
      → IsFaithful codec desc
      → codec.marshal_proto m ≡ some b
      → unmarshalled codec t desc b ≡ some m
  unmarshalled-marshal desc m [] law e = ap some (sym (law.reads_empty m e))
  unmarshalled-marshal desc m (c ∷ b) law e = law.reads m (c ∷ b) e

  -- The message that a text in JSON stands for.
  abbrev pub message_of : D → Bytes → Option M
  message_of desc json_body =
      codec.unmarshal_json t.options.discard_unknown desc (or_braces (trim_space json_body))

  abbrev pub json_of : M → Option Bytes
  json_of m = codec.marshal_json t.options.use_proto_names t.options.emit_unpopulated m

  pub there_and_back :
      (desc : D) (json_body proto_body : Bytes) (m : M)
      → IsFaithful codec desc
      → message_of desc json_body ≡ some m
      → codec.marshal_proto m ≡ some proto_body
      → (json_to_proto_bytes codec t desc json_body ≡ some proto_body)
        × (proto_bytes_to_json codec t desc proto_body ≡ json_of m)
        × (unwrap_grpc_frame (wrap_grpc_frame proto_body) ≡ some proto_body)
  unfolding json_to_proto_bytes proto_bytes_to_json
  there_and_back desc json_body proto_body m law e b = (
    rw (e, b),
    rw (unmarshalled-marshal desc m proto_body law b),
    unwrap_grpc_frame-wrap proto_body (law.bounded m proto_body b),
  )

-- ===== src/Transcoding/Responses/Bodies.antt =====
-- A body on its way from an HTTP service through gRPC back to a client of HTTP.
use yuelaiengine_gateway.Common.{
  ℕ, ◌<◌, false, Option, some, [], ◌∷◌, ◌≡◌, refl, ap, ◌∙◌, arith, Bytes, lit, leb, text_eq, itoa,
  length, if◌then◌else◌, equal_fold, to_lower, trim_space, is_empty,
}
use yuelaiengine_gateway.Http.{Request}
use yuelaiengine_gateway.Transcoding.{
  json_to_grpc_request, grpc_request_to_json, Codec, RouteTranscoder, ◌>>=◌, wrap_grpc_frame,
  json_to_grpc_response, grpc_response_to_json,
}
use yuelaiengine_gateway.Transcoding.Messages.{IsFaithful, message_of, json_of, there_and_back}
use yuelaiengine_gateway.Transcoding.Responses.{
  with_body, request_transcoded, apply_request_transcoding, Response, with_length, with_status,
  rewrite_response, cleanup_grpc_response_headers, grpc_status_and_message, grpc_to_json,
  json_to_grpc, apply_grpc_to_json_response_transcoding, apply_json_to_grpc_response_transcoding,
}

type-with_length :
    (body : Bytes) (header : Bytes → Bytes)
    → with_length body header (lit "Content-Type") ≡ header (lit "Content-Type")
unfolding equal_fold to_lower text_eq
type-with_length [] header = refl
type-with_length (c ∷ body) header = refl

length-with_length :
    (body : Bytes) (header : Bytes → Bytes)
    → with_length body header (lit "Content-Length")
      ≡ (if is_empty body then [] else itoa (length body))
unfolding equal_fold to_lower text_eq
length-with_length [] header = refl
length-with_length (c ∷ body) header = refl

module _ {D M : Type 0} (codec : Codec D M) (t : RouteTranscoder D) where
  request_to_frame :
      (r : Request) (raw_body frame : Bytes)
      → r.body ≡ some raw_body
      → json_to_grpc_request codec t raw_body ≡ some frame
      → apply_request_transcoding codec t (lit "http_json_to_grpc") r
        ≡ some (with_body (lit "application/grpc") frame r)
  unfolding apply_request_transcoding request_transcoded text_eq
  request_to_frame r raw_body frame has framed = simp (has, framed)

  request_from_frame :
      (r : Request) (frame json_body : Bytes)
      → r.body ≡ some frame
      → grpc_request_to_json codec t frame ≡ some json_body
      → apply_request_transcoding codec t (lit "grpc_to_http_json") r
        ≡ some (with_body (lit "application/json") json_body r)
  unfolding apply_request_transcoding request_transcoded text_eq
  request_from_frame r frame json_body has read = simp (has, read)

  -- A request whose body the message type accepts, converted to gRPC by one gateway and back by a
  -- second, has the same message in its body, as JSON, with the body's type and, unless it is empty,
  -- its length in the headers. Protobuf reads back what it writes.
  pub apply_request_transcoding-message :
      (r : Request) (raw_body proto_body json_body : Bytes) (m : M)
      → IsFaithful codec t.method.input
      → r.body ≡ some raw_body
      → message_of codec t t.method.input raw_body ≡ some m
      → codec.marshal_proto m ≡ some proto_body
      → json_of codec t m ≡ some json_body
      → (r' : Request) × ((apply_request_transcoding codec t (lit "http_json_to_grpc") r
            >>= apply_request_transcoding codec t (lit "grpc_to_http_json"))
          ≡ some r')
        × (r'.body ≡ some json_body)
        × (r'.header (lit "Content-Type") ≡ lit "application/json")
        × (r'.header (lit "Content-Length")
            ≡ (if is_empty json_body then [] else itoa (length json_body)))
  unfolding json_to_grpc_request grpc_request_to_json equal_fold to_lower text_eq
  apply_request_transcoding-message r raw_body proto_body json_body m law has stands written
        printed =
      let (there, back, framed) =
        there_and_back codec t t.method.input raw_body proto_body m law stands written in
      let frame : Bytes = wrap_grpc_frame proto_body in
      let to : json_to_grpc_request codec t raw_body ≡ some frame =
        rw (there, json_to_grpc_request) refl in
      let from : grpc_request_to_json codec t frame ≡ some json_body =
        rw (framed, grpc_request_to_json) (back ∙ printed) in
      let sent : Request = with_body (lit "application/grpc") frame r in
      (
        with_body (lit "application/json") json_body sent,
        ap
              (λ (x : Option Request).
                x >>= apply_request_transcoding codec t (lit "grpc_to_http_json"))
              (request_to_frame r raw_body frame has to)
            ∙ request_from_frame sent frame json_body refl from,
        refl,
        refl,
        length-with_length json_body sent.header,
      )

module _ {D M : Type 0} (codec : Codec D M) (t : RouteTranscoder D)
    (marshal_error : Bytes → Bytes → Bytes) (status_text : ℕ → Bytes) where
  to_frame :
      (resp : Response) (raw_body frame : Bytes)
      → resp.body ≡ some raw_body
      → leb 400 resp.status_code ≡ false
      → json_to_grpc_response codec t raw_body ≡ some frame
      → apply_json_to_grpc_response_transcoding codec t marshal_error status_text resp
        ≡ some (with_status (lit "0") (rewrite_response 200 (lit "application/grpc") frame resp))
  unfolding apply_json_to_grpc_response_transcoding json_to_grpc
  to_frame resp raw_body frame has fine framed = simp (has, fine, framed)

  status_read :
      (resp : Response) → (grpc_status_and_message (with_status (lit "0") resp)).0 ≡ lit "0"
  unfolding grpc_status_and_message equal_fold to_lower text_eq trim_space
  status_read resp = refl

  from_frame :
      (frame json_body : Bytes) (s : Bytes × Bytes) (resp : Response)
      → s.0 ≡ lit "0"
      → grpc_response_to_json codec t frame ≡ some json_body
      → grpc_to_json codec t marshal_error status_text frame s resp
        ≡ some (
            cleanup_grpc_response_headers
              (rewrite_response 200 (lit "application/json") json_body resp))
  unfolding grpc_to_json text_eq
  from_frame frame json_body (status, message) resp e read = rw e (simp read)

  -- A response below 400 whose body the message type accepts comes back with the status 200, as JSON,
  -- and with the same message in its body.
  pub apply_grpc_to_json-message :
      (resp : Response) (raw_body proto_body json_body : Bytes) (m : M)
      → IsFaithful codec t.method.output
      → resp.body ≡ some raw_body
      → resp.status_code < 400
      → message_of codec t t.method.output raw_body ≡ some m
      → codec.marshal_proto m ≡ some proto_body
      → json_of codec t m ≡ some json_body
      → (r : Response) × ((apply_json_to_grpc_response_transcoding codec t marshal_error status_text
              resp
            >>= apply_grpc_to_json_response_transcoding codec t marshal_error status_text)
          ≡ some r)
        × (r.status_code ≡ 200)
        × (r.body ≡ some json_body)
        × (r.header (lit "Content-Type") ≡ lit "application/json")
  unfolding apply_grpc_to_json_response_transcoding rewrite_response cleanup_grpc_response_headers
      json_to_grpc_response grpc_response_to_json equal_fold to_lower text_eq
  apply_grpc_to_json-message resp raw_body proto_body json_body m law has low stands written
        printed =
      let (there, back, framed) =
        there_and_back codec t t.method.output raw_body proto_body m law stands written in
      let frame : Bytes = wrap_grpc_frame proto_body in
      let to : json_to_grpc_response codec t raw_body ≡ some frame =
        rw (there, json_to_grpc_response) refl in
      let from : grpc_response_to_json codec t frame ≡ some json_body =
        rw (framed, grpc_response_to_json) (back ∙ printed) in
      let fine : leb 400 resp.status_code ≡ false = ground arith in
      let sent : Response = rewrite_response 200 (lit "application/grpc") frame resp in
      (
        cleanup_grpc_response_headers
            (rewrite_response 200 (lit "application/json") json_body (with_status (lit "0") sent)),
        ap
              (λ (x : Option Response).
                x >>= apply_grpc_to_json_response_transcoding codec t marshal_error status_text)
              (to_frame resp raw_body frame has fine to)
            ∙ from_frame frame json_body (grpc_status_and_message (with_status (lit "0") sent))
                (with_status (lit "0") sent) (status_read sent) from,
        refl,
        refl,
        type-with_length json_body _,
      )

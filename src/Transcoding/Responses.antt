-- ===== src/Transcoding/Responses.antt =====
-- internal/core/proxy/transcoding.go: the conversion of the bodies of requests and responses, and of
-- the errors of HTTP and gRPC. `marshal_error` is the JSON of an error, `status_text` is
-- `http.StatusText`.
pub mod Errors
pub mod Bodies
use Prim.Native.String.{String}
use yuelaiengine_gateway.Common.{
  ℕ, Bool, true, false, not, ◌&&◌, ◌||◌, Option, none, some, List, [], Bytes, lit, length, is_empty,
  text_eq, equal_fold, trim_space, itoa, leb, ◌==◌, if◌then◌else◌, ℤ,
}
use yuelaiengine_gateway.Http.{Request}
use yuelaiengine_gateway.Transcoding.{
  Codec, RouteTranscoder, ◌>>=◌, json_to_grpc_request, grpc_request_to_json, json_to_grpc_response,
  grpc_response_to_json,
}
use yuelaiengine_gateway.Transcoding.Escape.{query_escape, query_unescape, atoi}

-- The body is `none` where reading it fails.
pub record Response : Type 0 where
  pub status_code : ℕ
  pub header : Bytes → Bytes
  pub trailer : Bytes → Bytes
  pub body : Option Bytes

-- `Header.Set` and `Header.Del`, over what `Header.Get` answers.
abbrev pub set : Bytes → Bytes → (Bytes → Bytes) → Bytes → Bytes
set key value header k = if equal_fold k key then value else header k

abbrev pub del : Bytes → (Bytes → Bytes) → Bytes → Bytes
del key = set key []

-- The header of a body's length.
abbrev pub with_length : Bytes → (Bytes → Bytes) → Bytes → Bytes
with_length body header =
    if is_empty body
    then del (lit "Content-Length") header
    else set (lit "Content-Length") (itoa (length body)) header

abbrev pub with_body : Bytes → Bytes → Request → Request
with_body content_type body r = record r {
  body = some body;
  header = set (lit "Content-Type") content_type (with_length body r.header);
}

unfoldable pub rewrite_response : ℕ → Bytes → Bytes → Response → Response
rewrite_response status_code content_type body resp = record resp {
  status_code = status_code;
  body = some body;
  header = with_length body (set (lit "Content-Type") content_type resp.header);
}

unfoldable pub cleanup_grpc_response_headers : Response → Response
cleanup_grpc_response_headers resp = record resp {
  header = del (lit "Trailer") (
      del (lit "Grpc-Accept-Encoding") (
        del (lit "Grpc-Encoding")
          (del (lit "Grpc-Message") (del (lit "Grpc-Status") resp.header))));
  trailer = λ _. [];
}

-- A value of the header, or of the trailer if it is empty.
abbrev pub header_or_trailer : Bytes → Response → Bytes
header_or_trailer key resp =
    if is_empty (trim_space (resp.header key))
    then trim_space (resp.trailer key)
    else trim_space (resp.header key)

unfoldable pub grpc_status_and_message : Response → Bytes × Bytes
grpc_status_and_message resp =
    let message = header_or_trailer (lit "Grpc-Message") resp in
    (
      header_or_trailer (lit "Grpc-Status") resp,
      elim (query_unescape message) [ none ↦ message | some decoded ↦ decoded ],
    )

unfoldable pub http_status_of : ℕ → ℕ
http_status_of code =
    if code == 0
    then 200
    else if code == 3 || code == 9 || code == 11
    then 400
    else if code == 4
    then 504
    else if code == 5
    then 404
    else if code == 6 || code == 10
    then 409
    else if code == 7
    then 403
    else if code == 8
    then 429
    else if code == 12
    then 501
    else if code == 14
    then 503
    else if code == 16
    then 401
    else 500

unfoldable pub grpc_code_to_http_status : ℤ → ℕ
unfolding http_status_of
grpc_code_to_http_status (ℤ.pos code) = http_status_of code
grpc_code_to_http_status (ℤ.negsuc _) = 500

unfoldable pub http_status_to_grpc_code : ℕ → ℕ
http_status_to_grpc_code status =
    if status == 400
    then 3
    else if status == 401
    then 16
    else if status == 403
    then 7
    else if status == 404
    then 5
    else if status == 409
    then 10
    else if status == 429
    then 8
    else if status == 501
    then 12
    else if status == 502 || status == 503
    then 14
    else if status == 504
    then 4
    else if leb 500 status
    then 13
    else 2

-- The code, which is INTERNAL where the status is no number.
abbrev pub code_of : Bytes → ℤ
code_of grpc_status = elim (atoi grpc_status) [ none ↦ ℤ.pos 13 | some code ↦ code ]

abbrev pub with_status : Bytes → Response → Response
with_status grpc_status resp = record resp {
  header = set (lit "Grpc-Status") grpc_status resp.header;
}

abbrev pub with_message : Bytes → Response → Response
with_message message resp = record resp {
  header = set (lit "Grpc-Message") (query_escape message) resp.header;
}

abbrev pub or_text : Bytes → Bytes → Bytes
or_text message text = if is_empty message then text else message

module _ {D M : Type 0} (codec : Codec D M) (t : RouteTranscoder D) where
  -- After the body is read and closed.
  unfoldable pub request_transcoded : Bytes → Bytes → Request → Option Request
  request_transcoded mode raw_body r =
      if text_eq mode (lit "http_json_to_grpc")
      then (json_to_grpc_request codec t raw_body >>= λ body.
          some (with_body (lit "application/grpc") body r))
      else (if text_eq mode (lit "grpc_to_http_json")
          then (grpc_request_to_json codec t raw_body >>= λ body.
              some (with_body (lit "application/json") body r))
          else some (record r { body = none }))

  -- `none` is an error, and stands for the 502 of the conversions of responses below.
  unfoldable pub apply_request_transcoding : Bytes → Request → Option Request
  apply_request_transcoding mode r = do raw_body ← r.body; request_transcoded mode raw_body r

  module _ (marshal_error : Bytes → Bytes → Bytes) (status_text : ℕ → Bytes) where
    -- After the body is read.
    unfoldable pub grpc_to_json : Bytes → Bytes × Bytes → Response → Option Response
    grpc_to_json raw_body (grpc_status, grpc_message) resp =
        if not (is_empty grpc_status) && not (text_eq grpc_status (lit "0"))
        then some (
            cleanup_grpc_response_headers (
              rewrite_response (grpc_code_to_http_status (code_of grpc_status))
                (lit "application/json") (marshal_error grpc_status grpc_message) resp))
        else (grpc_response_to_json codec t raw_body >>= λ body. some (
            cleanup_grpc_response_headers
              (rewrite_response 200 (lit "application/json") body resp)))

    unfoldable pub apply_grpc_to_json_response_transcoding : Response → Option Response
    apply_grpc_to_json_response_transcoding resp = do
      raw_body ← resp.body
      grpc_to_json raw_body (grpc_status_and_message resp) resp

    -- A response of the status 400 or above.
    unfoldable pub grpc_error : Bytes → Response → Response
    grpc_error raw_body resp =
        with_message (or_text (trim_space raw_body) (status_text resp.status_code)) (
          with_status (itoa (http_status_to_grpc_code resp.status_code))
            (rewrite_response 200 (lit "application/grpc") [] resp))

    unfoldable pub json_to_grpc : Bytes → Response → Option Response
    json_to_grpc raw_body resp =
        if leb 400 resp.status_code
        then some (grpc_error raw_body resp)
        else (json_to_grpc_response codec t raw_body >>= λ body.
            some (with_status (lit "0") (rewrite_response 200 (lit "application/grpc") body resp)))

    unfoldable pub apply_json_to_grpc_response_transcoding : Response → Option Response
    apply_json_to_grpc_response_transcoding resp = do
      raw_body ← resp.body
      json_to_grpc raw_body resp

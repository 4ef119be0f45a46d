-- ===== src/Transcoding/Responses/Errors.antt =====
-- An error on its way from an HTTP service through gRPC back to a client of HTTP.
use yuelaiengine_gateway.Common.{
  ℕ, ◌<◌, ◌≤◌, Bool, true, false, ◌||◌, Option, some, List, [], ◌∷◌, ◌≡◌, refl, ap, ◌∙◌, arith,
  Bytes, lit, is_empty, text_eq, equal_fold, to_lower, trim_space, trim_space_visible, itoa, leb,
  ◌==◌, if◌then◌else◌, ℤ, All, any,
}
use yuelaiengine_gateway.Transcoding.{Codec, RouteTranscoder, ◌>>=◌}
use yuelaiengine_gateway.Transcoding.Escape.{
  query_escape, atoi, query_unescape-query_escape, query_escape_visible,
}
use yuelaiengine_gateway.Transcoding.Responses.{
  Response, with_status, with_message, or_text, rewrite_response, cleanup_grpc_response_headers,
  grpc_status_and_message, http_status_of, grpc_code_to_http_status, http_status_to_grpc_code,
  code_of, grpc_to_json, grpc_error, json_to_grpc, apply_grpc_to_json_response_transcoding,
  apply_json_to_grpc_response_transcoding,
}

-- The statuses that come back as they were.
abbrev pub kept : List ℕ
kept = 400 ∷ 401 ∷ 403 ∷ 404 ∷ 409 ∷ 429 ∷ 501 ∷ 503 ∷ 504 ∷ []

-- The status that comes back: those kept, 503 for 502, and 500 for any other.
abbrev pub seen_status : ℕ → ℕ
seen_status status =
    if any (λ k. status == k) kept then status else (if status == 502 then 503 else 500)

seen_status_lem :
    (status : ℕ) → http_status_of (http_status_to_grpc_code status) ≡ seen_status status
unfolding http_status_of http_status_to_grpc_code
seen_status_lem status = ground arith

-- A code is written in a way that is read back and is not the code of success.
record IsWritten (code : ℕ) : Type 0 where
  trimmed : trim_space (itoa code) ≡ itoa code
  some_text : is_empty (itoa code) ≡ false
  no_success : text_eq (itoa code) (lit "0") ≡ false
  reads : atoi (itoa code) ≡ some (ℤ.pos code)

code_2 : IsWritten 2
unfolding trim_space itoa text_eq atoi
code_2 = record { trimmed = refl; some_text = refl; no_success = refl; reads = refl }

code_3 : IsWritten 3
unfolding trim_space itoa text_eq atoi
code_3 = record { trimmed = refl; some_text = refl; no_success = refl; reads = refl }

code_4 : IsWritten 4
unfolding trim_space itoa text_eq atoi
code_4 = record { trimmed = refl; some_text = refl; no_success = refl; reads = refl }

code_5 : IsWritten 5
unfolding trim_space itoa text_eq atoi
code_5 = record { trimmed = refl; some_text = refl; no_success = refl; reads = refl }

code_7 : IsWritten 7
unfolding trim_space itoa text_eq atoi
code_7 = record { trimmed = refl; some_text = refl; no_success = refl; reads = refl }

code_8 : IsWritten 8
unfolding trim_space itoa text_eq atoi
code_8 = record { trimmed = refl; some_text = refl; no_success = refl; reads = refl }

code_10 : IsWritten 10
unfolding trim_space itoa text_eq atoi
code_10 = record { trimmed = refl; some_text = refl; no_success = refl; reads = refl }

code_12 : IsWritten 12
unfolding trim_space itoa text_eq atoi
code_12 = record { trimmed = refl; some_text = refl; no_success = refl; reads = refl }

code_13 : IsWritten 13
unfolding trim_space itoa text_eq atoi
code_13 = record { trimmed = refl; some_text = refl; no_success = refl; reads = refl }

code_14 : IsWritten 14
unfolding trim_space itoa text_eq atoi
code_14 = record { trimmed = refl; some_text = refl; no_success = refl; reads = refl }

code_16 : IsWritten 16
unfolding trim_space itoa text_eq atoi
code_16 = record { trimmed = refl; some_text = refl; no_success = refl; reads = refl }

either : (b : Bool) {m n : ℕ} → IsWritten m → IsWritten n → IsWritten (if b then m else n)
either true p q = p
either false p q = q

IsWritten-http_status_to_grpc_code : (status : ℕ) → IsWritten (http_status_to_grpc_code status)
unfolding http_status_to_grpc_code trim_space itoa text_eq atoi
IsWritten-http_status_to_grpc_code s = either (s == 400) (code_3) (
    either (s == 401) (code_16) (
      either (s == 403) (code_7) (
        either (s == 404) (code_5) (
          either (s == 409) (code_10) (
            either (s == 429) (code_8) (
              either (s == 501) (code_12) (
                either (s == 502 || s == 503) (code_14)
                  (either (s == 504) (code_4) (either (leb 500 s) (code_13) (code_2))))))))))

some_escaped : (m : Bytes) → is_empty m ≡ false → is_empty (query_escape m) ≡ false
unfolding query_escape
some_escaped [] h = h
some_escaped (c ∷ m) h = ground arith

-- What is read from the headers of an error.
read_back :
    (code : ℕ) (message : Bytes) (resp : Response)
    → IsWritten code
    → All (λ c. c < 256) message
    → is_empty message ≡ false
    → grpc_status_and_message (with_message message (with_status (itoa code) resp))
      ≡ (itoa code, message)
unfolding grpc_status_and_message equal_fold to_lower text_eq
read_back code message resp w bytes full =
    let visible = trim_space_visible (query_escape message) (query_escape_visible message bytes) in
    rw (
      w.trimmed,
      w.some_text,
      visible,
      some_escaped message full,
      query_unescape-query_escape message bytes,
    )

-- What the client is told of an error of the HTTP service.
pub record IsTold (marshal_error : Bytes → Bytes → Bytes) (original : ℕ) (message : Bytes)
    (r : Response) : Type 0 where
  pub status : r.status_code ≡ seen_status original
  pub body : r.body ≡ some (marshal_error (itoa (http_status_to_grpc_code original)) message)
  pub no_grpc_status : r.header (lit "Grpc-Status") ≡ []

module _ {D M : Type 0} (codec : Codec D M) (t t' : RouteTranscoder D)
    (marshal_error : Bytes → Bytes → Bytes) (status_text : ℕ → Bytes) where
  told :
      (code : ℕ) (message : Bytes) (resp : Response)
      → IsWritten code
      → (r : Response) × (grpc_to_json codec t' marshal_error status_text []
            (itoa code, message)
            resp
          ≡ some r)
        × (r.status_code ≡ http_status_of code)
        × (r.body ≡ some (marshal_error (itoa code) message))
        × (r.header (lit "Grpc-Status") ≡ [])
  unfolding grpc_to_json rewrite_response cleanup_grpc_response_headers grpc_code_to_http_status
      equal_fold to_lower text_eq
  told code message resp w =
      let answer : ℤ → Option Response = λ c. some (
        cleanup_grpc_response_headers (
          rewrite_response (grpc_code_to_http_status c) (lit "application/json")
            (marshal_error (itoa code) message) resp)) in
      let read : code_of (itoa code) ≡ ℤ.pos code = rw (w.reads, code_of) in
      (
        cleanup_grpc_response_headers (
            rewrite_response (http_status_of code) (lit "application/json")
              (marshal_error (itoa code) message) resp),
        rw (w.some_text, w.no_success, grpc_to_json) (ap answer read),
        refl,
        refl,
        refl,
      )

  to_grpc_error :
      (resp : Response) (raw_body : Bytes)
      → resp.body ≡ some raw_body
      → leb 400 resp.status_code ≡ true
      → apply_json_to_grpc_response_transcoding codec t marshal_error status_text resp
        ≡ some (grpc_error codec t marshal_error status_text raw_body resp)
  unfolding apply_json_to_grpc_response_transcoding json_to_grpc
  to_grpc_error resp raw_body has is_error = simp (has, is_error)

  -- An error of an HTTP service that a gateway turns into an error of gRPC, and that a second gateway
  -- turns back, reaches the client as an error with the message of the service, and with the status
  -- 400, 401, 403, 404, 409, 429, 501, 503 or 504 if it was that, 503 if it was 502, and 500 if it was
  -- any other from 400 on. The message is the trimmed body or, if that is empty, the text of the status;
  -- it is not empty, and its characters are bytes.
  pub apply_grpc_to_json-IsTold :
      (resp : Response) (raw_body : Bytes)
      → resp.body ≡ some raw_body
      → 400 ≤ resp.status_code
      → All (λ c. c < 256) (or_text (trim_space raw_body) (status_text resp.status_code))
      → is_empty (or_text (trim_space raw_body) (status_text resp.status_code)) ≡ false
      → (r : Response) × ((apply_json_to_grpc_response_transcoding codec t marshal_error status_text
              resp
            >>= apply_grpc_to_json_response_transcoding codec t' marshal_error status_text)
          ≡ some r)
        × IsTold marshal_error resp.status_code
            (or_text (trim_space raw_body) (status_text resp.status_code))
            r
  unfolding apply_grpc_to_json_response_transcoding grpc_error rewrite_response
  apply_grpc_to_json-IsTold resp raw_body has wrong bytes full =
      let message : Bytes = or_text (trim_space raw_body) (status_text resp.status_code) in
      let code : ℕ = http_status_to_grpc_code resp.status_code in
      let sent : Response = rewrite_response 200 (lit "application/grpc") [] resp in
      let back : Response → Option Response =
        apply_grpc_to_json_response_transcoding codec t' marshal_error status_text in
      let w = IsWritten-http_status_to_grpc_code resp.status_code in
      let is_error : leb 400 resp.status_code ≡ true = ground arith in
      let read = read_back code message sent w bytes full in
      let (r, answered, status, body, cleared) =
        told code message (with_message message (with_status (itoa code) sent)) w in
      (
        r,
        ap (λ (x : Option Response). x >>= back) (to_grpc_error resp raw_body has is_error)
            ∙ ap
                (λ (x : Bytes × Bytes).
                  grpc_to_json codec t' marshal_error status_text [] x
                    (grpc_error codec t marshal_error status_text raw_body resp))
                read
            ∙ answered,
        record {
          status = status ∙ seen_status_lem resp.status_code;
          body = body;
          no_grpc_status = cleared;
        },
      )

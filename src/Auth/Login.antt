-- ===== src/Auth/Login.antt =====
-- What a request that the authentication plugin lets on has shown, and the identity that it then has.
use yuelaiengine_gateway.Common.{
  ℕ, ◌≤◌, ◌<◌, Bool, true, false, ◌||◌, Option, none, some, ◌++◌, ◌≡◌, inl, inr, refl, ap, sym, ◌∙◌,
  arith, Bytes, lit, is_empty, ltb, leb, ◌==◌, equal_fold, if◌then◌else◌, Bool-cases,
  some_injective, none-some, to_lower, text_eq_refl,
}
use yuelaiengine_gateway.Http.{Request}
use yuelaiengine_gateway.LoadBalancer.Instance.{ServiceInstance}
use yuelaiengine_gateway.LoadBalancer.Factory.{LoadBalancerFactory}
use yuelaiengine_gateway.Plugin.{Exchange, Verdict}
use yuelaiengine_gateway.Auth.{
  ValidateResponse, extract_token, pick_instance, trim_right_slash, set_header, set_if, read_answer,
  call_validate, after_answer, ask_instance, auth_plugin,
}

-- The value of a header of the identity: the service's, or the client's own where the service gives none.
abbrev pub identity_header : Bytes → Bytes → Request → Bytes
identity_header value key r = if is_empty value then r.header key else value

-- A request that is let on: its token is not empty, an instance of the authentication service was there
-- and answered it with a status of success and a body that says the token is valid, and the identity is
-- the one that the service gave.
pub record IsLoggedIn (post : Bytes → Bytes → Option (ℕ × Bytes))
    (decode : Bytes → Option ValidateResponse) (validate_path : Bytes)
    (instance_found : Option ServiceInstance) (x y : Exchange) : Type 0 where
  pub token : is_empty (extract_token x.request) ≡ false
  pub inst : ServiceInstance
  pub found : instance_found ≡ some inst
  pub status : ℕ
  pub body : Bytes
  pub asked :
      post (trim_right_slash inst.url ++ validate_path) (extract_token x.request)
      ≡ some (status, body)
  pub success : (200 ≤ status) × (status < 300)
  pub result : ValidateResponse
  pub decoded : decode body ≡ some result
  pub valid : result.valid ≡ true
  pub user :
      y.request.header (lit "X-User-ID")
      ≡ identity_header result.user_id (lit "X-User-ID") x.request
  pub role :
      y.request.header (lit "X-User-Role")
      ≡ identity_header result.role (lit "X-User-Role") x.request

set_if-same :
    (key value : Bytes) (r : Request)
    → (set_if key value r).header key ≡ identity_header value key r
unfolding equal_fold
set_if-same key value r = elim (Bool-cases (is_empty value)) [
  | inl e ↦ rw e refl
  | inr e ↦ rw (e, set_header, equal_fold, text_eq_refl (to_lower key)) refl
]

set_if-other :
    (key other value : Bytes) (r : Request)
    → equal_fold other key ≡ false
    → (set_if key value r).header other ≡ r.header other
set_if-other key other value r n = elim (Bool-cases (is_empty value)) [
  | inl e ↦ rw e refl
  | inr e ↦ rw (e, set_header, n) refl
]

module _ (post : Bytes → Bytes → Option (ℕ × Bytes))
    (decode : Bytes → Option ValidateResponse) where
  read_answer-some :
      (answer : Option (ℕ × Bytes)) (result : ValidateResponse)
      → read_answer post decode answer ≡ some result
      → result.valid ≡ true
      → (status : ℕ) × (body : Bytes) × (answer ≡ some (status, body))
        × (200 ≤ status)
        × (status < 300)
        × (decode body ≡ some result)
  read_answer-some none result e v = absurd (none-some result e)
  read_answer-some (some (code, body)) result e v = elim (Bool-cases (code == 401)) [
    | inl a ↦
        let no =
          ap (λ (o : ValidateResponse). o.valid)
            (some_injective _ result (rw (read_answer, a) at e)) in
        let bad : false ≡ true = no ∙ v in absurd (ground arith)
    | inr a ↦ elim (Bool-cases (ltb code 200 || leb 300 code)) [
      | inl b ↦ absurd (none-some result (rw (read_answer, a, b) at e))
      | inr b ↦ elim (Bool-cases (is_empty body)) [
        | inl c ↦ absurd (none-some result (rw (read_answer, a, b, c) at e))
        | inr c ↦ (code, body, refl, ground arith, ground arith, rw (read_answer, a, b, c) at e)
      ]
    ]
  ]

  after_answer-on :
      (o : Option ValidateResponse) (x y : Exchange)
      → after_answer post decode o x ≡ (y, true, none)
      → (result : ValidateResponse) × (o ≡ some result)
        × (result.valid ≡ true)
        × (y.request
            ≡ set_if
                (lit "X-User-Role")
                result.role
                (set_if (lit "X-User-ID") result.user_id x.request))
  unfolding after_answer
  after_answer-on none x y h =
      let stopped : false ≡ true = ap (λ (v : Verdict). v.1) h in absurd (ground arith)
  after_answer-on (some result) x y h = elim (Bool-cases result.valid) [
    | inl v ↦
        (result, refl, v, sym (ap (λ (w : Verdict). w.0.request) (simp (after_answer, v) at h)))
    | inr v ↦
        let stopped : false ≡ true = ap (λ (w : Verdict). w.1) (simp (after_answer, v) at h) in
        absurd (ground arith)
  ]

  ask_instance-on :
      (validate_path : Bytes) (o : Option ServiceInstance) (x y : Exchange)
      → is_empty (extract_token x.request) ≡ false
      → ask_instance post decode validate_path (extract_token x.request) o x ≡ (y, true, none)
      → IsLoggedIn post decode validate_path o x y
  unfolding ask_instance call_validate equal_fold
  ask_instance-on validate_path none x y t h =
      let stopped : false ≡ true = ap (λ (v : Verdict). v.1) h in absurd (ground arith)
  ask_instance-on validate_path (some i) x y t h =
      let token = extract_token x.request in
      let (result, e, v, r) =
        after_answer-on (call_validate post decode (trim_right_slash i.url ++ validate_path) token)
          x y h in
      let (status, body, asked, low, high, decoded) =
        read_answer-some (post (trim_right_slash i.url ++ validate_path) token) result e v in
      let with_id = set_if (lit "X-User-ID") result.user_id x.request in
      record {
        token = t;
        inst = i;
        found = refl;
        status = status;
        body = body;
        asked = asked;
        success = (low, high);
        result = result;
        decoded = decoded;
        valid = v;
        user =
            ap (λ (q : Request). q.header (lit "X-User-ID")) r
            ∙ set_if-other (lit "X-User-Role") (lit "X-User-ID") result.role with_id refl
            ∙ set_if-same (lit "X-User-ID") result.user_id x.request;
        role =
            ap (λ (q : Request). q.header (lit "X-User-Role")) r
            ∙ set_if-same (lit "X-User-Role") result.role with_id
            ∙ ap (λ h. if is_empty result.role then h else result.role)
                (set_if-other (lit "X-User-ID") (lit "X-User-Role") result.user_id x.request refl);
      }

  -- The authentication plugin lets a request on only if it has a token, an instance of the authentication
  -- service was found, and that instance answered the token with success and a body that says it is
  -- valid; and the request's identity headers are then what the service gave, or the client's own where
  -- the service gave an empty one.
  pub auth_plugin-IsLoggedIn :
      (is_healthy : Bytes → Bool) (auth_service validate_path : Bytes) (f f' : LoadBalancerFactory)
      (x y : Exchange)
      → auth_plugin post decode is_healthy auth_service validate_path f x ≡ (f', (y, true, none))
      → IsLoggedIn post decode validate_path (pick_instance is_healthy auth_service f).1 x y
  unfolding auth_plugin
  auth_plugin-IsLoggedIn is_healthy auth_service validate_path f f' x y h =
      elim (Bool-cases (is_empty (extract_token x.request))) [
        | inl t ↦
            let stopped : false ≡ true =
              ap (λ (v : LoadBalancerFactory × Verdict). v.1.1) (rw (auth_plugin, t) at h) in
            absurd (ground arith)
        | inr t ↦
            ask_instance-on validate_path (pick_instance is_healthy auth_service f).1 x y t
              (ap (λ (v : LoadBalancerFactory × Verdict). v.1) (rw (auth_plugin, t) at h))
      ]

-- ===== src/Admin/Access.antt =====
-- Who may use the administration interface.
use yuelaiengine_gateway.Common.{
  ℕ, Bool, true, false, not, ◌&&◌, Option, none, some, [], ◌∷◌, ◌++◌, ◌≡◌, ◌⊎◌, inl, inr, refl, sym,
  ◌∙◌, arith, Bytes, lit, text_eq, text_eq_iff, is_empty, is_empty_iff, trim_space, equal_fold,
  Bool-cases,
}
use yuelaiengine_gateway.Http.{Request, bearer_token, bearer_token-some}
use yuelaiengine_gateway.Config.{GatewayConfig}
use yuelaiengine_gateway.Runtime.{Gateway}
use yuelaiengine_gateway.Admin.{Reply, refused, authorize_admin, admin_endpoint}

-- The request carries the token, or none is set.
pub data IsAuthorized (cfg : GatewayConfig) (r : Request) : Type 0 where
  no_token : trim_space cfg.admin_token ≡ [] → IsAuthorized cfg r
  own_header :
      trim_space (r.header (lit "X-Admin-Token")) ≡ trim_space cfg.admin_token → IsAuthorized cfg r
  bearer :
      (scheme rest : Bytes)
      → trim_space (r.header (lit "Authorization")) ≡ scheme ++ 32 ∷ rest
      → equal_fold scheme (lit "Bearer") ≡ true
      → trim_space rest ≡ trim_space cfg.admin_token
      → IsAuthorized cfg r

authorize_admin-IsAuthorized :
    (cfg : GatewayConfig) (r : Request) → authorize_admin cfg r ≡ true → IsAuthorized cfg r
unfolding authorize_admin
authorize_admin-IsAuthorized cfg r h = elim (Bool-cases (is_empty (trim_space cfg.admin_token))) [
  | inl e ↦ no_token ((is_empty_iff (trim_space cfg.admin_token)).0 e)
  | inr e ↦
      elim (Bool-cases
        (text_eq (trim_space (r.header (lit "X-Admin-Token"))) (trim_space cfg.admin_token))) [
          | inl x ↦ own_header ((text_eq_iff _ _).0 x)
          | inr x ↦ elim (Bool-cases (is_empty (trim_space (r.header (lit "Authorization"))))) [
            | inl a ↦
                let bad : false ≡ true = rw (authorize_admin, e, x, a) at h in absurd (ground arith)
            | inr a ↦
                with_token (bearer_token (trim_space (r.header (lit "Authorization")))) refl
                  (rw (authorize_admin, e, x, a) at h)
          ]
        ]
]
  where
    with_token :
        (o : Option Bytes)
        → bearer_token (trim_space (r.header (lit "Authorization"))) ≡ o
        → (elim (bearer_token (trim_space (r.header (lit "Authorization")))) [
          | none ↦ false
          | some token ↦ text_eq token (trim_space cfg.admin_token)
        ])
          ≡ true
        → IsAuthorized cfg r
    with_token none q t = let bad : false ≡ true = rw q at t in absurd (ground arith)
    with_token (some token) q t =
        let (scheme, rest, s, f, m) = bearer_token-some _ token q in
        let same : token ≡ trim_space cfg.admin_token = (text_eq_iff _ _).0 (rw q at t) in
        bearer scheme rest s f (sym m ∙ same)

-- A handler that is run: the request is authorized and has the method that is asked for, if one is.
-- Otherwise nothing changes, and the answer is an error.
pub data IsGuarded (method : Bytes) (handler : Gateway → Gateway × Reply) (r : Request)
    (g : Gateway) : Gateway × Reply → Type 0 where
  run :
      IsAuthorized g.config r
      → (method ≡ []) ⊎ (r.method ≡ method)
      → IsGuarded method handler r g (handler g)
  turned_away : (status : ℕ) (code : Bytes) → IsGuarded method handler r g (g, refused status code)

-- An administration endpoint runs its handler only for a request that carries the administrator's token,
-- in its own header or as a bearer token, where one is configured, and that has the endpoint's method;
-- for every other request the gateway stays as it is and the answer is an error.
pub admin_endpoint-IsGuarded :
    (method : Bytes) (handler : Gateway → Gateway × Reply) (r : Request) (g : Gateway)
    → IsGuarded method handler r g (admin_endpoint method handler r g)
unfolding admin_endpoint
admin_endpoint-IsGuarded method handler r g = elim (Bool-cases (authorize_admin g.config r)) [
  | inr a ↦ rw (admin_endpoint, a) (turned_away 401 (lit "ADMIN_UNAUTHORIZED"))
  | inl a ↦ elim (Bool-cases (not (is_empty method) && not (text_eq r.method method))) [
    | inl m ↦ rw (admin_endpoint, a, m) (turned_away 405 (lit "METHOD_NOT_ALLOWED"))
    | inr m ↦
        rw (admin_endpoint, a, m)
          (run (authorize_admin-IsAuthorized g.config r a)
            (allowed (is_empty method) (text_eq r.method method) refl refl m))
  ]
]
  where
    allowed :
        (e t : Bool)
        → is_empty method ≡ e
        → text_eq r.method method ≡ t
        → (not (is_empty method) && not (text_eq r.method method)) ≡ false
        → (method ≡ []) ⊎ (r.method ≡ method)
    allowed true t p q m = inl ((is_empty_iff method).0 p)
    allowed false true p q m = inr ((text_eq_iff r.method method).0 q)
    allowed false false p q m = let bad : true ≡ false = rw (p, q) at m in absurd (ground arith)

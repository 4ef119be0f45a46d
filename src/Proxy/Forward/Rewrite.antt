-- ===== src/Proxy/Forward/Rewrite.antt =====
-- The path that an instance is asked for.
use mathlib.Core.Bool.{false≢true}
use yuelaiengine_gateway.Common.{
  if◌then◌else◌, true, false, [], ◌∷◌, ◌++◌, ◌≡◌, inl, inr, refl, ap, ◌∙◌, arith, Bytes, lit,
  length, length-append, drop, is_empty, has_prefix, has_prefix_iff, leb, Bool-cases, text_eq,
}
use yuelaiengine_gateway.Config.{RouteConfig}
use yuelaiengine_gateway.Http.{Request}
use yuelaiengine_gateway.Router.{is_prefix, prefix_match}
use yuelaiengine_gateway.Proxy.Director.{
  is_grpc, or_slash, rewritten, to_upstream, converted, director,
}

drop-append : (s t : Bytes) → drop (length s) (s ++ t) ≡ t
drop-append [] t = refl
drop-append (a ∷ s) t = drop-append s t

prefix_le : (s t : Bytes) → leb (length s) (length (s ++ t)) ≡ true
prefix_le s t = ground (arith, length-append s t)

-- A conversion changes neither path nor host.
abbrev IsSameTarget : Request → Request → Type 0
IsSameTarget r r' = (r.path ≡ r'.path) × (r.host ≡ r'.host)

converted-IsSameTarget : (mode : Bytes) (r : Request) → IsSameTarget (converted mode r) r
converted-IsSameTarget mode r = elim (Bool-cases (text_eq mode (lit "http_json_to_grpc"))) [
  | inl e ↦ rw e (refl, refl)
  | inr e ↦ elim (Bool-cases (text_eq mode (lit "grpc_to_http_json"))) [
    | inl f ↦ rw (e, f) (refl, refl)
    | inr f ↦ rw (e, f) (refl, refl)
  ]
]

has_prefix-is_prefix :
    (path : Bytes) (route : RouteConfig)
    → is_prefix path route ≡ true
    → (is_empty route.path_prefix ≡ false) × (has_prefix path route.path_prefix ≡ true)
unfolding prefix_match
has_prefix-is_prefix path route h = elim (Bool-cases (is_empty route.path_prefix)) [
  | inl e ↦ absurd (false≢true (rw e at h))
  | inr e ↦ elim (Bool-cases (has_prefix path route.path_prefix)) [
    | inl f ↦ (e, f)
    | inr f ↦ absurd (false≢true (rw (e, f, prefix_match) at h))
  ]
]

rewritten-append :
    (route : RouteConfig) (rest : Bytes)
    → is_empty route.path_prefix ≡ false
    → rewritten route (route.path_prefix ++ rest) ≡ or_slash rest
rewritten-append route rest e =
    rw (e, prefix_le route.path_prefix rest) (ap or_slash (drop-append route.path_prefix rest))

-- Where a route matches by its prefix, the upstream is not gRPC, and the instance's URL adds nothing to
-- the path, the outgoing request asks for what follows the prefix, or for "/" where nothing does, and
-- goes to the instance's host, whatever conversion the route has.
pub director-path :
    (original_director : Bytes → Request → Request) (route : RouteConfig) (mode url host : Bytes)
    (r : Request)
    → (original_director url r).path ≡ r.path
    → is_grpc route ≡ false
    → is_prefix r.path route ≡ true
    → (rest : Bytes) × (r.path ≡ route.path_prefix ++ rest)
      × ((director original_director route mode url host r).path
          ≡ (if is_empty rest then lit "/" else rest))
      × ((director original_director route mode url host r).host ≡ host)
unfolding director
director-path original_director route mode url host r plain http matched =
    let sent : Request = record (original_director url r) { host = host } in
    let (some_prefix, starts) = has_prefix-is_prefix r.path route matched in
    let (rest, e) = (has_prefix_iff r.path route.path_prefix).0 starts in
    let (path, target) = converted-IsSameTarget mode (to_upstream route sent) in
    (
      rest,
      e,
      path ∙ rw http (ap (rewritten route) (plain ∙ e) ∙ rewritten-append route rest some_prefix),
      target ∙ rw http refl,
    )

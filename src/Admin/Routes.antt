-- ===== src/Admin/Routes.antt =====
-- An administrator's route stands in the table once.
use yuelaiengine_gateway.Common.{
  true, false, Option, none, some, List, [], ◌∷◌, ◌≡◌, ◌↔◌, inl, inr, refl, ◌∙◌, arith, Bytes,
  text_eq_iff, All, In, In-there, trim_space, is_empty_iff, if◌then◌else◌, Bool-cases,
}
use yuelaiengine_gateway.Config.{RouteConfig}
use yuelaiengine_gateway.Validation.{is_blank}
use yuelaiengine_gateway.Admin.{same_route_identity, upsert_route}

-- What a route is known by: its path, or else its prefix.
abbrev pub identity : RouteConfig → Bytes × Bytes
identity a = (trim_space a.path, if is_blank a.path then trim_space a.path_prefix else [])

pub same_route_identity_iff :
    (a b : RouteConfig) → (same_route_identity a b ≡ true) ↔ (identity a ≡ identity b)
unfolding same_route_identity
same_route_identity_iff a b = ground (
  arith,
  text_eq_iff (trim_space a.path) (trim_space b.path),
  text_eq_iff (trim_space a.path_prefix) (trim_space b.path_prefix),
  is_empty_iff (trim_space a.path),
  is_empty_iff (trim_space b.path),
)

abbrev pub DiffersFrom : RouteConfig → Option RouteConfig → Type 0
DiffersFrom a none = Unit
DiffersFrom a (some b) = same_route_identity a b ≡ false

-- No two routes of the table have the same identity.
abbrev pub HasDistinctRoutes : List (Option RouteConfig) → Type 0
HasDistinctRoutes [] = Unit
HasDistinctRoutes (none ∷ routes) = HasDistinctRoutes routes
HasDistinctRoutes (some a ∷ routes) = All (DiffersFrom a) routes × HasDistinctRoutes routes

-- Routes of one identity differ from the same routes.
DiffersFrom-same :
    (a b : RouteConfig) (o : Option RouteConfig)
    → same_route_identity a b ≡ true
    → DiffersFrom a o
    → DiffersFrom b o
DiffersFrom-same a b none s d = tt
DiffersFrom-same a b (some c) s d = elim (Bool-cases (same_route_identity b c)) [
  | inr e ↦ e
  | inl e ↦
      let both = (same_route_identity_iff a b).0 s ∙ (same_route_identity_iff b c).0 e in
      let bad : same_route_identity a c ≡ true = (same_route_identity_iff a c).1 both in
      absurd (ground arith)
]

All-DiffersFrom_same :
    (a b : RouteConfig) (routes : List (Option RouteConfig))
    → same_route_identity a b ≡ true
    → All (DiffersFrom a) routes
    → All (DiffersFrom b) routes
All-DiffersFrom_same a b [] s h = tt
All-DiffersFrom_same a b (o ∷ routes) s (d, h) =
    (DiffersFrom-same a b o s d, All-DiffersFrom_same a b routes s h)

All-DiffersFrom_upsert :
    (a route : RouteConfig) (routes : List (Option RouteConfig))
    → same_route_identity a route ≡ false
    → All (DiffersFrom a) routes
    → All (DiffersFrom a) (upsert_route route routes)
unfolding upsert_route
All-DiffersFrom_upsert a route [] n h = (n, tt)
All-DiffersFrom_upsert a route (none ∷ routes) n (d, h) =
    (tt, All-DiffersFrom_upsert a route routes n h)
All-DiffersFrom_upsert a route (some e ∷ routes) n (d, h) =
    elim (Bool-cases (same_route_identity e route)) [
      | inl s ↦ rw (upsert_route, s) (n, h)
      | inr s ↦ rw (upsert_route, s) (d, All-DiffersFrom_upsert a route routes n h)
    ]

-- An administrator's route is in the table afterwards, and a table in which no two routes have the same
-- identity stays one: a route of the same path, or else of the same prefix, is replaced.
pub upsert_route-HasDistinctRoutes :
    (route : RouteConfig) (routes : List (Option RouteConfig))
    → HasDistinctRoutes routes
    → HasDistinctRoutes (upsert_route route routes) × In (some route) (upsert_route route routes)
unfolding upsert_route
upsert_route-HasDistinctRoutes route [] h = ((tt, tt), (0, refl))
upsert_route-HasDistinctRoutes route (none ∷ routes) h =
    let (d, i) = upsert_route-HasDistinctRoutes route routes h in
    (d, In-there (some route) none (upsert_route route routes) i)
upsert_route-HasDistinctRoutes route (some e ∷ routes) (a, h) =
    elim (Bool-cases (same_route_identity e route)) [
      | inl s ↦ rw (upsert_route, s) ((All-DiffersFrom_same e route routes s a, h), (0, refl))
      | inr s ↦
          let (d, i) = upsert_route-HasDistinctRoutes route routes h in
          rw (upsert_route, s)
            (
              (All-DiffersFrom_upsert e route routes s a, d),
              In-there (some route) (some e) (upsert_route route routes) i,
            )
    ]

-- ===== src/Router/Best.antt =====
-- Which route is found.
use mathlib.Core.Path.{subst}
use mathlib.Core.Bool.{false≢true, and-eq-true_iff}
use yuelaiengine_gateway.Common.{
  ℕ, ◌≤◌, true, false, ◌&&◌, Option, none, some, List, [], ◌∷◌, ◌≡◌, ◌⊎◌, inl, inr, refl, ap, ◌∙◌,
  sym, arith, Bytes, length, Bool-cases, All, In, In-here, In-there,
}
use yuelaiengine_gateway.Config.{RouteConfig}
use yuelaiengine_gateway.Router.{is_exact, is_prefix, is_longer, find_from, find_route_by_path}

-- No route of the list is for exactly this path.
abbrev pub NotExact : Bytes → Option RouteConfig → Type 0
NotExact path none = Unit
NotExact path (some route) = is_exact path route ≡ false

-- A route that matches by prefix has a prefix of at most `n` bytes.
abbrev pub IsWithin : Bytes → ℕ → Option RouteConfig → Type 0
IsWithin path n none = Unit
IsWithin path n (some route) = is_prefix path route ≡ true → length route.path_prefix ≤ n

-- A route matches by prefix not at all.
abbrev pub NotPrefix : Bytes → Option RouteConfig → Type 0
NotPrefix path none = Unit
NotPrefix path (some route) = is_prefix path route ≡ false

abbrev pub BestWithin : Option RouteConfig → ℕ → Type 0
BestWithin none n = Unit
BestWithin (some best) n = length best.path_prefix ≤ n

-- What the loop finds from a best route so far.
data Found (path : Bytes) (routes : List (Option RouteConfig)) (best : Option RouteConfig)
    (found : Option RouteConfig) : Type 0 where
  exact :
      (route : RouteConfig)
      → found ≡ some route
      → In (some route) routes
      → is_exact path route ≡ true
      → Found path routes best found
  longest :
      (route : RouteConfig)
      → found ≡ some route
      → All (NotExact path) routes
      → (In (some route) routes × (is_prefix path route ≡ true)) ⊎ (best ≡ some route)
      → All (IsWithin path (length route.path_prefix)) routes
      → BestWithin best (length route.path_prefix)
      → Found path routes best found
  nothing :
      found ≡ none
      → All (NotExact path) routes
      → All (NotPrefix path) routes
      → best ≡ none
      → Found path routes best found

module _ (path : Bytes) (routes : List (Option RouteConfig)) where
  Found-none :
      (best found : Option RouteConfig)
      → Found path routes best found
      → Found path (none ∷ routes) best found
  Found-none best found (exact r e i x) = exact r e (In-there (some r) none routes i) x
  Found-none best found (longest r e ne (inl (i, p)) w b) =
      longest r e (tt, ne) (inl (In-there (some r) none routes i, p)) (tt, w) b
  Found-none best found (longest r e ne (inr q) w b) = longest r e (tt, ne) (inr q) (tt, w) b
  Found-none best found (nothing e ne np q) = nothing e (tt, ne) (tt, np) q

  module _ (route : RouteConfig) (inexact : is_exact path route ≡ false) where
    shorter :
        (best : Option RouteConfig) (n : ℕ)
        → is_longer route best ≡ true
        → length route.path_prefix ≤ n
        → BestWithin best n
    shorter none n l h = tt
    shorter (some b) n l h = ground arith

    -- The route becomes the best one so far.
    Found-better :
        (best found : Option RouteConfig)
        → is_prefix path route ≡ true
        → is_longer route best ≡ true
        → Found path routes (some route) found
        → Found path (some route ∷ routes) best found
    Found-better best found p l (exact r e i x) =
        exact r e (In-there (some r) (some route) routes i) x
    Found-better best found p l (longest r e ne (inl (i, q)) w b) =
        longest r e (inexact, ne) (inl (In-there (some r) (some route) routes i, q)) ((λ _. b), w)
          (shorter best _ l b)
    Found-better best found p l (longest r e ne (inr q) w b) =
        let same : route ≡ r = ground arith in
        longest r e (inexact, ne)
          (inl ((0, ap some q), subst (λ (x : RouteConfig). is_prefix path x ≡ true) same p))
          ((λ _. b), w) (shorter best _ l b)
    Found-better best found p l (nothing e ne np q) = absurd (ground arith)

    covered :
        (best : Option RouteConfig) (n : ℕ)
        → is_prefix path route && is_longer route best ≡ false
        → BestWithin best n
        → is_prefix path route ≡ true
        → length route.path_prefix ≤ n
    covered none n h b p = absurd (false≢true (sym h ∙ rw p))
    covered (some x) n h b p =
        let short : is_longer route (some x) ≡ false = rw p at h in ground arith

    -- The route is passed over.
    Found-worse :
        (best found : Option RouteConfig)
        → is_prefix path route && is_longer route best ≡ false
        → Found path routes best found
        → Found path (some route ∷ routes) best found
    Found-worse best found h (exact r e i x) = exact r e (In-there (some r) (some route) routes i) x
    Found-worse best found h (longest r e ne (inl (i, q)) w b) =
        longest r e (inexact, ne) (inl (In-there (some r) (some route) routes i, q))
          (covered best _ h b, w) b
    Found-worse best found h (longest r e ne (inr q) w b) =
        longest r e (inexact, ne) (inr q) (covered best _ h b, w) b
    Found-worse best found h (nothing e ne np q) = nothing e (inexact, ne) (alone best h q, np) q
      where
        alone :
            (best : Option RouteConfig)
            → is_prefix path route && is_longer route best ≡ false
            → best ≡ none
            → is_prefix path route ≡ false
        alone none h q = elim (Bool-cases (is_prefix path route)) [
          | inl p ↦ absurd (false≢true (sym h ∙ rw p))
          | inr p ↦ p
        ]
        alone (some x) h q = absurd (ground arith)

find_from-Found :
    (path : Bytes) (routes : List (Option RouteConfig)) (best : Option RouteConfig)
    → Found path routes best (find_from path routes best)
unfolding find_from
find_from-Found path [] none = nothing refl tt tt refl
find_from-Found path [] (some b) = longest b refl tt (inr refl) tt (omega arith)
find_from-Found path (none ∷ routes) best =
    Found-none path routes best _ (find_from-Found path routes best)
find_from-Found path (some route ∷ routes) best = elim (Bool-cases (is_exact path route)) [
  | inl x ↦ rw x (exact route refl (In-here (some route) routes) x)
  | inr x ↦ elim (Bool-cases (is_prefix path route && is_longer route best)) [
    | inl h ↦
        let both : (is_prefix path route ≡ true) × (is_longer route best ≡ true) =
          (and-eq-true_iff _ _).0 h in
        rw (x, h)
          (Found-better path routes route x best _ both.0 both.1
            (find_from-Found path routes (some route)))
    | inr h ↦
        rw (x, h) (Found-worse path routes route x best _ h (find_from-Found path routes best))
  ]
]

-- What `findRouteByPath` promises.
pub data IsBest (path : Bytes) (routes : List (Option RouteConfig)) (found : Option RouteConfig)
    : Type 0 where
  exact_route :
      (route : RouteConfig)
      → found ≡ some route
      → In (some route) routes
      → is_exact path route ≡ true
      → IsBest path routes found
  longest_prefix :
      (route : RouteConfig)
      → found ≡ some route
      → All (NotExact path) routes
      → In (some route) routes
      → is_prefix path route ≡ true
      → All (IsWithin path (length route.path_prefix)) routes
      → IsBest path routes found
  no_route :
      found ≡ none
      → All (NotExact path) routes
      → All (NotPrefix path) routes
      → IsBest path routes found

-- The route that is found is one of the table that is for exactly the path; or, where no route is for
-- exactly the path, one whose prefix matches and is at least as long as every other prefix that
-- matches; and there is none only where no route matches in either way.
pub find_route_by_path-IsBest :
    (routes : List (Option RouteConfig)) (path : Bytes)
    → IsBest path routes (find_route_by_path routes path)
unfolding find_route_by_path
find_route_by_path-IsBest routes path = best (find_from-Found path routes none)
  where
    best : {found : Option RouteConfig} → Found path routes none found → IsBest path routes found
    best (exact r e i x) = exact_route r e i x
    best (longest r e ne (inl (i, p)) w b) = longest_prefix r e ne i p w
    best (longest r e ne (inr q) w b) = absurd (ground arith)
    best (nothing e ne np q) = no_route e ne np

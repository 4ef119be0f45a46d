-- ===== src/Router.antt =====
-- internal/core/router.go: the route of a request. A nil route is `none`.
pub mod Prefix
pub mod Best
use yuelaiengine_gateway.Common.{
  ℕ, ◌+◌, Bool, true, false, not, ◌&&◌, ◌||◌, Option, none, some, List, [], ◌∷◌, Bytes, text_eq,
  is_empty, has_prefix, ends_slash, head_is, drop, length, any, null, trim_space, equal_fold,
  if◌then◌else◌, ltb, ◌==◌,
}
use yuelaiengine_gateway.Config.{RouteConfig}
use yuelaiengine_gateway.Http.{Request}

unfoldable pub prefix_match : Bytes → Bytes → Bool
prefix_match path prefix =
    if is_empty prefix || not (has_prefix path prefix)
    then false
    else (if (length path == length prefix) || ends_slash prefix
        then true
        else head_is b'/' (drop (length prefix) path))

unfoldable pub method_allowed : List Bytes → Bytes → Bool
method_allowed allowed_methods method =
    if null allowed_methods
    then true
    else any (λ m. equal_fold (trim_space m) method) allowed_methods

-- `route.Path != "" && path == route.Path`
abbrev pub is_exact : Bytes → RouteConfig → Bool
is_exact path route = not (is_empty route.path) && text_eq path route.path

-- `route.PathPrefix != "" && prefixMatch(path, route.PathPrefix)`
abbrev pub is_prefix : Bytes → RouteConfig → Bool
is_prefix path route = not (is_empty route.path_prefix) && prefix_match path route.path_prefix

-- `len(route.PathPrefix) > bestPrefixLen`, where `bestPrefixLen` is -1 as long as there is no best
-- route, and then the length of its prefix.
abbrev pub is_longer : RouteConfig → Option RouteConfig → Bool
is_longer route none = true
is_longer route (some best) = ltb (length best.path_prefix) (length route.path_prefix)

-- The loop of `findRouteByPath`.
unfoldable pub find_from :
    Bytes → List (Option RouteConfig) → Option RouteConfig → Option RouteConfig
find_from path [] best = best
find_from path (none ∷ routes) best = find_from path routes best
find_from path (some route ∷ routes) best =
    let rest =
      find_from path routes
        (if is_prefix path route && is_longer route best then some route else best) in
    if is_exact path route then some route else rest

unfoldable pub find_route_by_path : List (Option RouteConfig) → Bytes → Option RouteConfig
find_route_by_path routes path = find_from path routes none

unfoldable pub find_route : List (Option RouteConfig) → Request → Option RouteConfig
find_route routes r = elim (find_route_by_path routes r.path) [
  | none ↦ none
  | some route ↦ if method_allowed route.methods r.method then some route else none
]

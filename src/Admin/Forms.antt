-- ===== src/Admin/Forms.antt =====
-- internal/core/admin_dto.go, and decodeRouteConfig and sameRouteIdentity of internal/core/admin.go: the
-- form in which the interface shows and takes a route. Maps and lists that are nil are empty ones. The
-- field Extra is never read, and left out. `unmarshal` is `json.Unmarshal` into either form.
use mathlib.Core.Path.{subst}
use yuelaiengine_gateway.Common.{
  Bool, false, ◌&&◌, Option, none, some, List, [], ◌∷◌, ◌≡◌, refl, ap, Bytes, Map, ℤ, is_empty, In,
  In-there, All-get_elem?, ◌∙◌, none-some, some_injective, suc, zero, if◌then◌else◌,
}
use yuelaiengine_gateway.Config.{PluginSpec, RouteConfig}
use yuelaiengine_gateway.Validation.{is_blank}
use yuelaiengine_gateway.Admin.{same_route_identity, upsert_route}
use yuelaiengine_gateway.Admin.Routes.{same_route_identity_iff, DiffersFrom, HasDistinctRoutes}

pub record AdminRouteDto : Type 0 where
  pub path_prefix : Bytes
  pub path : Bytes
  pub service_name : Bytes
  pub plugins : List PluginSpec
  pub methods : List Bytes
  pub requires_auth : Bool
  pub health_check_scope : Bytes
  pub upstream_protocol : Bytes
  pub protocol_convert : Bytes
  pub grpc_method : Bytes
  pub proto_descriptor : Bytes
  pub emit_unpopulated : Bool
  pub use_proto_names : Bool
  pub discard_unknown : Bool
  pub hash_on : Bytes
  pub ab_header : Bytes
  pub ab_variants : Map Bytes
  pub traffic_weights : Map ℤ

unfoldable pub route_dto_from_config : RouteConfig → AdminRouteDto
route_dto_from_config item = record {
  path_prefix = item.path_prefix;
  path = item.path;
  service_name = item.service_name;
  plugins = item.plugins;
  methods = item.methods;
  requires_auth = item.requires_auth;
  health_check_scope = item.health_check_scope;
  upstream_protocol = item.upstream_protocol;
  protocol_convert = item.protocol_convert;
  grpc_method = item.grpc_method;
  proto_descriptor = item.proto_descriptor;
  emit_unpopulated = item.emit_unpopulated;
  use_proto_names = item.use_proto_names;
  discard_unknown = item.discard_unknown;
  hash_on = item.hash_on;
  ab_header = item.ab_header;
  ab_variants = item.ab_variants;
  traffic_weights = item.traffic_weights;
}

unfoldable pub route_dto_list_from_config : List (Option RouteConfig) → List AdminRouteDto
route_dto_list_from_config [] = []
route_dto_list_from_config (none ∷ routes) = route_dto_list_from_config routes
route_dto_list_from_config (some item ∷ routes) =
    route_dto_from_config item ∷ route_dto_list_from_config routes

unfoldable pub to_config_route : AdminRouteDto → RouteConfig
to_config_route d = record {
  path_prefix = d.path_prefix;
  path = d.path;
  service_name = d.service_name;
  plugins = d.plugins;
  methods = d.methods;
  requires_auth = d.requires_auth;
  health_check_scope = d.health_check_scope;
  upstream_protocol = d.upstream_protocol;
  protocol_convert = d.protocol_convert;
  grpc_method = d.grpc_method;
  proto_descriptor = d.proto_descriptor;
  emit_unpopulated = d.emit_unpopulated;
  use_proto_names = d.use_proto_names;
  discard_unknown = d.discard_unknown;
  hash_on = d.hash_on;
  ab_header = d.ab_header;
  ab_variants = d.ab_variants;
  traffic_weights = d.traffic_weights;
}

-- The form with the names of the fields in Go, for older clients.
abbrev pub old_route : Option RouteConfig → Option RouteConfig
old_route none = none
old_route (some route) =
    if is_blank route.path_prefix && is_blank route.path then none else some route

abbrev pub new_route : Option AdminRouteDto → Option RouteConfig → Option RouteConfig
new_route none old = old_route old
new_route (some dto) old =
    if is_blank dto.path_prefix && is_blank dto.path
    then old_route old
    else some (to_config_route dto)

unfoldable pub decode_route_config :
    (Bytes → Option AdminRouteDto) → (Bytes → Option RouteConfig) → Bytes → Option RouteConfig
decode_route_config unmarshal unmarshal_old raw =
    if is_empty raw then none else new_route (unmarshal raw) (unmarshal_old raw)

to_config_route-shown :
    (item : RouteConfig) (dto : AdminRouteDto)
    → route_dto_from_config item ≡ dto
    → item ≡ to_config_route dto
unfolding route_dto_from_config to_config_route
to_config_route-shown item dto e = ap to_config_route e

-- A route of the table that is put in leaves the table as it is.
upsert_route-here :
    (item : RouteConfig) (routes : List (Option RouteConfig))
    → upsert_route item (some item ∷ routes) ≡ some item ∷ routes
unfolding upsert_route
upsert_route-here item routes = simp ((same_route_identity_iff item item).1 refl)

-- What is shown of the table is a route of it, and putting that in leaves the table as it is.
shown :
    (routes : List (Option RouteConfig)) (dto : AdminRouteDto)
    → HasDistinctRoutes routes
    → In dto (route_dto_list_from_config routes)
    → In (some (to_config_route dto)) routes × (upsert_route (to_config_route dto) routes ≡ routes)
unfolding route_dto_list_from_config upsert_route
shown [] dto distinct (i, e) = absurd (none-some dto e)
shown (none ∷ routes) dto distinct i =
    let (there, same) = shown routes dto distinct i in
    (In-there (some (to_config_route dto)) none routes there, ap (λ rs. none ∷ rs) same)
shown (some item ∷ routes) dto (differs, distinct) (zero, e) =
    let k = to_config_route-shown item dto (some_injective (route_dto_from_config item) dto e) in
    (
      (0, ap (λ (r : RouteConfig). some (some r)) k),
      subst (λ (r : RouteConfig). upsert_route r (some item ∷ routes) ≡ some item ∷ routes) k
          (upsert_route-here item routes),
    )
shown (some item ∷ routes) dto (differs, distinct) (suc i, e) =
    let (there, same) = shown routes dto distinct (i, e) in
    let other : same_route_identity item (to_config_route dto) ≡ false =
      All-get_elem? (DiffersFrom item) routes there.0 differs there.1 in
    (In-there (some (to_config_route dto)) (some item) routes there, simp (other, same))

-- Every entry of the list of routes that names a path or a prefix can be sent back as it was shown:
-- JSON that reads back as the entry is decoded to the very route of the table, and putting that in
-- leaves the table as it is, where no two routes of the table have the same path or prefix.
pub decode_route_config-shown :
    (unmarshal : Bytes → Option AdminRouteDto) (unmarshal_old : Bytes → Option RouteConfig)
    (routes : List (Option RouteConfig)) (dto : AdminRouteDto) (raw : Bytes)
    → HasDistinctRoutes routes
    → In dto (route_dto_list_from_config routes)
    → is_empty raw ≡ false
    → unmarshal raw ≡ some dto
    → (is_blank dto.path_prefix && is_blank dto.path) ≡ false
    → (route : RouteConfig) × (decode_route_config unmarshal unmarshal_old raw ≡ some route)
      × In (some route) routes
      × (route_dto_from_config route ≡ dto)
      × (upsert_route route routes ≡ routes)
unfolding decode_route_config route_dto_from_config to_config_route
decode_route_config-shown unmarshal unmarshal_old routes dto raw distinct i there e named =
    let (has, same) = shown routes dto distinct i in
    (
      to_config_route dto,
      simp there (ap (λ o. new_route o (unmarshal_old raw)) e ∙ simp named),
      has,
      refl,
      same,
    )

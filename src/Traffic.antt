-- ===== src/Traffic.antt =====
-- internal/core/gateway.go (selectTargetService, selectWeightedService) and
-- internal/core/routingkey/routing_key.go: which service a request of a route goes to. The entries
-- of a weight map come in the order in which Go's `range` happens to meet them.
pub mod Sorted
pub mod Weights
pub mod Target
use Prim.Native.String.{String}
use yuelaiengine_gateway.Common.{
  ℕ, ◌+◌, ◌%◌, ◌<◌, Bool, true, false, not, ◌&&◌, ◌||◌, Option, none, some, List, [], ◌∷◌, Bytes,
  lit, text_eq, is_empty, Map, get, has, ℤ, pos_part, if◌then◌else◌, ltb, ◌==◌, fnv32a, u32,
  trim_space, to_lower, has_prefix, drop, length, null,
}
use yuelaiengine_gateway.Config.{RouteConfig, ServiceConfig}
use yuelaiengine_gateway.Http.{Request, before, split_host_port}

-- `strings.TrimPrefix(s, p)`
abbrev pub trim_prefix : Bytes → Bytes → Bytes
trim_prefix s p = if has_prefix s p then drop (length p) s else s

-- The branch for the strategies "" and "ip".
unfoldable pub ip_key : Request → Bytes
ip_key r =
    let xff = trim_space (r.header (lit "X-Forwarded-For")) in
    let xrip = trim_space (r.header (lit "X-Real-IP")) in
    if not (is_empty xff)
    then trim_space (before b',' xff)
    else (if not (is_empty xrip) then xrip else (elim (split_host_port r.remote_addr) [
      | none ↦ r.remote_addr
      | some (host, _) ↦ host
    ]))

unfoldable pub value_by_strategy : Bytes → Request → Bytes
value_by_strategy strategy r =
    let s = trim_space (to_lower strategy) in
    if is_empty s || text_eq s (lit "ip")
    then ip_key r
    else (if text_eq s (lit "path")
        then r.path
        else (if has_prefix s (lit "header:")
            then trim_space (r.header (trim_space (trim_prefix s (lit "header:"))))
            else (if has_prefix s (lit "query:")
                then trim_space (r.query (trim_space (trim_prefix s (lit "query:"))))
                else (if has_prefix s (lit "cookie:")
                    then (elim (r.cookie (trim_space (trim_prefix s (lit "cookie:")))) [
                      | none ↦ []
                      | some value ↦ trim_space value
                    ])
                    else []))))

-- `<` on texts, byte by byte.
unfoldable pub text_lt : Bytes → Bytes → Bool
text_lt s [] = false
text_lt [] (_ ∷ _) = true
text_lt (a ∷ s) (b ∷ t) = ltb a b || ((a == b) && text_lt s t)

unfoldable pub insert_text : Bytes → List Bytes → List Bytes
insert_text s [] = s ∷ []
insert_text s (t ∷ ts) = if text_lt t s then t ∷ insert_text s ts else s ∷ t ∷ ts

-- `sort.Strings`: on texts, which are equal where neither is less, the sorted list is unique.
unfoldable pub sort_texts : List Bytes → List Bytes
sort_texts [] = []
sort_texts (s ∷ ts) = insert_text s (sort_texts ts)

-- The loop over the map: the services of positive weight, and the sum of those weights.
unfoldable pub weighted_services : Map ℤ → List Bytes
weighted_services [] = []
weighted_services ((svc, w) ∷ ws) =
    let rest = weighted_services ws in if ltb 0 (pos_part w) then svc ∷ rest else rest

unfoldable pub total_weight : Map ℤ → ℕ
total_weight [] = 0
total_weight ((svc, w) ∷ ws) = pos_part w + total_weight ws

-- `weights[svc]` of a service of positive weight.
abbrev pub weight_of : Map ℤ → Bytes → ℕ
weight_of weights svc = elim (get svc weights) [ none ↦ 0 | some w ↦ pos_part w ]

-- The loop over the sorted services; `fallback` is `services[0]`.
unfoldable pub select_by_weight : Map ℤ → ℕ → ℕ → Bytes → List Bytes → Bytes
select_by_weight weights target cumulative fallback [] = fallback
select_by_weight weights target cumulative fallback (svc ∷ services) =
    let rest =
      select_by_weight weights target (cumulative + weight_of weights svc) fallback services in
    if ltb target (cumulative + weight_of weights svc) then svc else rest

abbrev pub first_text : List Bytes → Bytes
first_text [] = []
first_text (s ∷ _) = s

-- `none` is the panic of a division by zero, which a total that is a multiple of 2 ^ 32 leads to.
unfoldable pub select_weighted_service : Map ℤ → Bytes → Option Bytes
select_weighted_service weights key =
    let services = sort_texts (weighted_services weights) in
    if (total_weight weights == 0) || null services
    then some []
    else (if (total_weight weights % u32) == 0
        then none
        else some (
            select_by_weight weights (fnv32a key % (total_weight weights % u32)) 0
              (first_text services) services))

-- The service of an A/B variant, if it is defined.
unfoldable pub known_variant : Map ServiceConfig → Map Bytes → Bytes → Option Bytes
known_variant services variants val = elim (get val variants) [
  | none ↦ none
  | some svc ↦ if has svc services then some svc else none
]

-- The A/B part of `selectTargetService`: the service for the value of the header, as it stands or in
-- lower case.
unfoldable pub ab_service : Map ServiceConfig → RouteConfig → Request → Option Bytes
ab_service services route r =
    let val = trim_space (r.header route.ab_header) in
    if is_empty route.ab_header || null route.ab_variants || is_empty val
    then none
    else (elim (known_variant services route.ab_variants val) [
      | some svc ↦ some svc
      | none ↦ known_variant services route.ab_variants (to_lower val)
    ])

-- The key of the weighted choice.
unfoldable pub traffic_key : RouteConfig → Request → Bytes
traffic_key route r =
    let key = value_by_strategy route.hash_on r in if is_empty key then r.path else key

-- The part of `selectTargetService` below A/B; `none` is the panic.
unfoldable pub weighted_or_default : Map ServiceConfig → RouteConfig → Request → Option Bytes
weighted_or_default services route r =
    if null route.traffic_weights
    then some route.service_name
    else (elim (select_weighted_service route.traffic_weights (traffic_key route r)) [
      | none ↦ none
      | some svc ↦
          if not (is_empty svc) && has svc services then some svc else some route.service_name
    ])

unfoldable pub select_target_service : Map ServiceConfig → RouteConfig → Request → Option Bytes
select_target_service services route r = elim (ab_service services route r) [
  | some svc ↦ some svc
  | none ↦ weighted_or_default services route r
]

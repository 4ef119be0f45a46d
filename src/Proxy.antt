-- ===== src/Proxy.antt =====
-- internal/core/proxy/proxy.go (getHealthyInstance): the instance that a request is forwarded to. What
-- the health checker says of an instance's URL is the parameter `is_healthy`.
pub mod Picking
pub mod Director
pub mod Transcoders
pub mod Forward
pub mod Leaking
use Prim.Native.String.{String}
use yuelaiengine_gateway.Common.{
  ℕ, zero, suc, Bool, Option, none, some, List, Bytes, is_empty, null, length, if◌then◌else◌,
}
use yuelaiengine_gateway.Config.{RouteConfig}
use yuelaiengine_gateway.Http.{Request}
use yuelaiengine_gateway.Traffic.{traffic_key}
use yuelaiengine_gateway.LoadBalancer.Instance.{ServiceInstance, Result, ok, err}
use yuelaiengine_gateway.LoadBalancer.ConsistentHash
use yuelaiengine_gateway.LoadBalancer.Factory.{
  Balancer, round_robin, weighted_round_robin, least_connections, consistent_hash,
  get_next_instance, get_all_instances,
}

-- `lb.(hashSelector)` and the choice by the key, which only counts if the instance is healthy.
unfoldable pub pick_by_key : (Bytes → Bool) → Bytes → Balancer → Option ServiceInstance
pick_by_key is_healthy key (round_robin r) = none
pick_by_key is_healthy key (weighted_round_robin w) = none
pick_by_key is_healthy key (least_connections l) = none
pick_by_key is_healthy key (consistent_hash c) =
    if is_empty key then none else (elim (ConsistentHash.get_instance_by_key key c) [
      | err _ ↦ none
      | ok i ↦ if is_healthy i.url then some i else none
    ])

-- The loop, for `n` turns.
unfoldable pub retry : (Bytes → Bool) → ℕ → Balancer → Balancer × Option ServiceInstance
retry is_healthy zero lb = (lb, none)
retry is_healthy (suc n) lb =
    let rest = retry is_healthy n (get_next_instance lb).0 in
    elim (get_next_instance lb).1 [
      | err _ ↦ ((get_next_instance lb).0, none)
      | ok i ↦ if is_healthy i.url then ((get_next_instance lb).0, some i) else rest
    ]

-- `getHealthyInstance`; its two errors are both `none`.
unfoldable pub get_healthy_instance :
    (Bytes → Bool) → RouteConfig → Request → Balancer → Balancer × Option ServiceInstance
get_healthy_instance is_healthy route r lb =
    if null (get_all_instances lb)
    then (lb, none)
    else (elim (pick_by_key is_healthy (traffic_key route r) lb) [
      | some i ↦ (lb, some i)
      | none ↦ retry is_healthy (length (get_all_instances lb)) lb
    ])

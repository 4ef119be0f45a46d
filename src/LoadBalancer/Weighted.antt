-- ===== src/LoadBalancer/Weighted.antt =====
-- internal/core/loadbalancer/weighted_round_robin.go. The sum of the weights is not bounded here.
pub mod Shares
use yuelaiengine_gateway.Common.{
  ℕ, ◌+◌, ◌%◌, Bool, ◌&&◌, Option, none, some, List, [], ◌∷◌, ◌++◌, Bytes, length, null,
  if◌then◌else◌, filter_by, pos_part, ltb, ◌==◌,
}
use yuelaiengine_gateway.LoadBalancer.Instance.{
  ServiceInstance, Error, no_instances, no_healthy_instances, out_of_range, Result, ok, err,
  healthy, elem_at, next_index, drawn, update_first, with_alive, found_or,
}

pub record WeightedRoundRobinBalancer : Type 0 where
  pub instances : List ServiceInstance
  pub current : ℕ

abbrev pub new_weighted : WeightedRoundRobinBalancer
new_weighted = record { instances = []; current = 0 }

unfoldable pub register_instance :
    ServiceInstance → WeightedRoundRobinBalancer → WeightedRoundRobinBalancer
register_instance i w = record w { instances = w.instances ++ i ∷ [] }

-- `instance.Weight > 0`
abbrev pub has_weight : ServiceInstance → Bool
has_weight i = ltb 0 (pos_part i.weight)

-- The healthy instances with a weight, in the order of the list.
abbrev pub weighted : List ServiceInstance → List ServiceInstance
weighted xs = filter_by has_weight (healthy xs)

abbrev pub total_weight : List ServiceInstance → ℕ
total_weight [] = 0
total_weight (x ∷ xs) = pos_part x.weight + total_weight xs

-- The loop that sums the weights up to the target; `selected` is what it starts from.
unfoldable pub select_by_weight : ℕ → ℕ → ServiceInstance → List ServiceInstance → ServiceInstance
select_by_weight target cumulative selected [] = selected
select_by_weight target cumulative selected (x ∷ xs) =
    let rest = select_by_weight target (cumulative + pos_part x.weight) selected xs in
    if ltb target (cumulative + pos_part x.weight) then x else rest

-- `weightedInstances[0]`, and the loop from there.
unfoldable pub select_weighted : ℕ → List ServiceInstance → Result ServiceInstance
select_weighted target [] = err out_of_range
select_weighted target (x ∷ xs) = ok (select_by_weight target 0 x (x ∷ xs))

unfoldable pub get_next_instance :
    WeightedRoundRobinBalancer → WeightedRoundRobinBalancer × Result ServiceInstance
get_next_instance w =
    if null w.instances
    then (w, err no_instances)
    else (if null (healthy w.instances) then (w, err no_healthy_instances) else (
      record w { current = next_index w.current },
      (if total_weight (weighted w.instances) == 0
          then elem_at (healthy w.instances) (drawn w.current % length (healthy w.instances))
          else select_weighted (drawn w.current % total_weight (weighted w.instances))
              (weighted w.instances)),
    ))

unfoldable pub get_all_instances : WeightedRoundRobinBalancer → List ServiceInstance
get_all_instances w = healthy w.instances

unfoldable pub set_instance_alive :
    Bytes → Bool → WeightedRoundRobinBalancer → WeightedRoundRobinBalancer × Option Error
set_instance_alive url alive w =
    found_or url w (λ xs. record w { instances = xs })
      (update_first url (with_alive alive) w.instances)

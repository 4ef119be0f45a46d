-- ===== src/LoadBalancer/RoundRobin.antt =====
-- internal/core/loadbalancer/round_robin.go. Each method is one step under the balancer's lock, and
-- the atomic cursor is drawn once in it.
pub mod Fairness
use yuelaiengine_gateway.Common.{
  ℕ, ◌%◌, Bool, Option, none, some, List, [], ◌∷◌, ◌++◌, Bytes, length, null, if◌then◌else◌,
}
use yuelaiengine_gateway.LoadBalancer.Instance.{
  ServiceInstance, Error, no_instances, no_healthy_instances, Result, ok, err, healthy, elem_at,
  next_index, drawn, update_first, with_alive, found_or,
}

pub record RoundRobinBalancer : Type 0 where
  pub instances : List ServiceInstance
  pub index : ℕ

abbrev pub new_round_robin : RoundRobinBalancer
new_round_robin = record { instances = []; index = 0 }

unfoldable pub register_instance : ServiceInstance → RoundRobinBalancer → RoundRobinBalancer
register_instance i r = record r { instances = r.instances ++ i ∷ [] }

unfoldable pub get_next_instance : RoundRobinBalancer → RoundRobinBalancer × Result ServiceInstance
get_next_instance r =
    if null r.instances
    then (r, err no_instances)
    else (if null (healthy r.instances) then (r, err no_healthy_instances) else (
      record r { index = next_index r.index },
      elem_at (healthy r.instances) (drawn r.index % length (healthy r.instances)),
    ))

unfoldable pub get_all_instances : RoundRobinBalancer → List ServiceInstance
get_all_instances r = healthy r.instances

unfoldable pub set_instance_alive :
    Bytes → Bool → RoundRobinBalancer → RoundRobinBalancer × Option Error
set_instance_alive url alive r =
    found_or url r (λ xs. record r { instances = xs })
      (update_first url (with_alive alive) r.instances)

-- ===== src/LoadBalancer/LeastConnections.antt =====
-- internal/core/loadbalancer/least_connections.go. A selected instance is changed through its
-- pointer, so the loop carries the places of the instances. `int` connection counts are never
-- negative: `ReleaseConnection` stops at 0.
pub mod Choice
pub mod Release
use yuelaiengine_gateway.Common.{
  ℕ, zero, suc, ◌+◌, ◌-◌, Bool, true, false, Option, none, some, List, [], ◌∷◌, ◌++◌, Bytes, null,
  if◌then◌else◌, ltb, modify,
}
use yuelaiengine_gateway.LoadBalancer.Instance.{
  ServiceInstance, Error, no_instances, Result, ok, err, healthy, elem_at, update_first, found_or,
}

pub record LeastConnectionsBalancer : Type 0 where
  pub instances : List ServiceInstance

abbrev pub new_least_connections : LeastConnectionsBalancer
new_least_connections = record { instances = [] }

unfoldable pub register_instance :
    ServiceInstance → LeastConnectionsBalancer → LeastConnectionsBalancer
register_instance i l = record l { instances = l.instances ++ i ∷ [] }

-- The healthy instances with their places, the first place being `n`.
abbrev pub placed : ℕ → List ServiceInstance → List (ℕ × ServiceInstance)
placed n [] = []
placed n (x ∷ xs) = let rest = placed (n + 1) xs in if x.alive then (n, x) ∷ rest else rest

-- The loop that keeps the instance with the fewest connections so far.
unfoldable pub least : ℕ → ℕ × ServiceInstance → List (ℕ × ServiceInstance) → ℕ × ServiceInstance
least min_connections selected [] = selected
least min_connections selected ((i, x) ∷ rest) =
    let lower = least x.connections (i, x) rest in
    let same = least min_connections selected rest in
    if ltb x.connections min_connections then lower else same

abbrev pub connected : ServiceInstance → ServiceInstance
connected i = record i { connections = i.connections + 1 }

-- The branches of `GetNextInstance` after the filter.
unfoldable pub take_least :
    LeastConnectionsBalancer
    → List (ℕ × ServiceInstance)
    → LeastConnectionsBalancer × Result ServiceInstance
take_least l [] = (l, err no_instances)
take_least l ((i, x) ∷ rest) =
    let (j, y) = least x.connections (i, x) ((i, x) ∷ rest) in
    (record l { instances = modify l.instances j connected }, ok (connected y))

unfoldable pub get_next_instance :
    LeastConnectionsBalancer → LeastConnectionsBalancer × Result ServiceInstance
get_next_instance l =
    if null l.instances then (l, err no_instances) else take_least l (placed 0 l.instances)

unfoldable pub get_all_instances : LeastConnectionsBalancer → List ServiceInstance
get_all_instances l = healthy l.instances

-- `Connections--`, and 0 if that is negative.
abbrev pub released : ServiceInstance → ServiceInstance
released i = record i { connections = i.connections - 1 }

unfoldable pub release_connection :
    Bytes → LeastConnectionsBalancer → LeastConnectionsBalancer × Option Error
release_connection url l =
    found_or url l (λ xs. record l { instances = xs }) (update_first url released l.instances)

-- An instance that comes back starts from no connections.
abbrev pub revived : Bool → ServiceInstance → ServiceInstance
revived true i = record i { alive = true; connections = 0 }
revived false i = record i { alive = false }

unfoldable pub set_instance_alive :
    Bytes → Bool → LeastConnectionsBalancer → LeastConnectionsBalancer × Option Error
set_instance_alive url alive l =
    found_or url l (λ xs. record l { instances = xs })
      (update_first url (revived alive) l.instances)

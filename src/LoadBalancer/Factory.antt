-- ===== src/LoadBalancer/Factory.antt =====
-- internal/core/loadbalancer/loadbalancer.go: the factory keeps the balancer of each service. A
-- balancer is shared by all who look it up, so a call that changes one puts it back in its place.
-- The snapshot is replaced under the factory's lock; each method here is one step.
pub mod Services
pub mod Alive
use Prim.Native.String.{String}
use yuelaiengine_gateway.Common.{
  ℕ, Bool, true, false, Option, none, some, List, [], ◌∷◌, map, Bytes, lit, text_eq, Map, get, put,
  delete, has, if◌then◌else◌,
}
use yuelaiengine_gateway.LoadBalancer.Instance.{
  ServiceInstance, Error, service_not_found, no_hash_selection, Result, ok, err,
}
use yuelaiengine_gateway.LoadBalancer.RoundRobin
use yuelaiengine_gateway.LoadBalancer.RoundRobin.{RoundRobinBalancer, new_round_robin}
use yuelaiengine_gateway.LoadBalancer.Weighted
use yuelaiengine_gateway.LoadBalancer.Weighted.{WeightedRoundRobinBalancer, new_weighted}
use yuelaiengine_gateway.LoadBalancer.LeastConnections
use yuelaiengine_gateway.LoadBalancer.LeastConnections.{
  LeastConnectionsBalancer, new_least_connections,
}
use yuelaiengine_gateway.LoadBalancer.ConsistentHash
use yuelaiengine_gateway.LoadBalancer.ConsistentHash.{
  HashRingEntry, ConsistentHashBalancer, new_consistent_hash,
}

-- The implementations of the interface `LoadBalancer`.
pub data Balancer : Type 0 where
  round_robin : RoundRobinBalancer → Balancer
  weighted_round_robin : WeightedRoundRobinBalancer → Balancer
  least_connections : LeastConnectionsBalancer → Balancer
  consistent_hash : ConsistentHashBalancer → Balancer

abbrev pub LoadBalancerFactory : Type 0
LoadBalancerFactory = Map Balancer

-- `newBalancer`
unfoldable pub new_balancer : Bytes → Balancer
new_balancer algorithm =
    if text_eq algorithm (lit "round_robin")
    then round_robin new_round_robin
    else (if text_eq algorithm (lit "weighted_round_robin")
        then weighted_round_robin new_weighted
        else (if text_eq algorithm (lit "least_connections")
            then least_connections new_least_connections
            else (if text_eq algorithm (lit "consistent_hash")
                then consistent_hash new_consistent_hash
                else round_robin new_round_robin)))

unfoldable pub register_instance :
    (List HashRingEntry → List HashRingEntry) → ServiceInstance → Balancer → Balancer
register_instance sort i (round_robin r) = round_robin (RoundRobin.register_instance i r)
register_instance sort i (weighted_round_robin w) =
    weighted_round_robin (Weighted.register_instance i w)
register_instance sort i (least_connections l) =
    least_connections (LeastConnections.register_instance i l)
register_instance sort i (consistent_hash c) =
    consistent_hash (ConsistentHash.register_instance sort i c)

unfoldable pub get_next_instance : Balancer → Balancer × Result ServiceInstance
get_next_instance (round_robin r) =
    let (r', pick) = RoundRobin.get_next_instance r in (round_robin r', pick)
get_next_instance (weighted_round_robin w) =
    let (w', pick) = Weighted.get_next_instance w in (weighted_round_robin w', pick)
get_next_instance (least_connections l) =
    let (l', pick) = LeastConnections.get_next_instance l in (least_connections l', pick)
get_next_instance (consistent_hash c) =
    let (c', pick) = ConsistentHash.get_next_instance c in (consistent_hash c', pick)

unfoldable pub get_all_instances : Balancer → List ServiceInstance
get_all_instances (round_robin r) = RoundRobin.get_all_instances r
get_all_instances (weighted_round_robin w) = Weighted.get_all_instances w
get_all_instances (least_connections l) = LeastConnections.get_all_instances l
get_all_instances (consistent_hash c) = ConsistentHash.get_all_instances c

unfoldable pub set_instance_alive :
    (List HashRingEntry → List HashRingEntry) → Bytes → Bool → Balancer → Balancer × Option Error
set_instance_alive sort url alive (round_robin r) =
    let (r', e) = RoundRobin.set_instance_alive url alive r in (round_robin r', e)
set_instance_alive sort url alive (weighted_round_robin w) =
    let (w', e) = Weighted.set_instance_alive url alive w in (weighted_round_robin w', e)
set_instance_alive sort url alive (least_connections l) =
    let (l', e) = LeastConnections.set_instance_alive url alive l in (least_connections l', e)
set_instance_alive sort url alive (consistent_hash c) =
    let (c', e) = ConsistentHash.set_instance_alive sort url alive c in (consistent_hash c', e)

-- Only the least-connections balancer counts connections; for the others this is a no-op.
unfoldable pub release_connection : Bytes → Balancer → Balancer × Option Error
release_connection url (round_robin r) = (round_robin r, none)
release_connection url (weighted_round_robin w) = (weighted_round_robin w, none)
release_connection url (least_connections l) =
    let (l', e) = LeastConnections.release_connection url l in (least_connections l', e)
release_connection url (consistent_hash c) = (consistent_hash c, none)

-- `GetOrCreateLoadBalancer`: the second look under the lock is the first one again.
unfoldable pub get_or_create : Bytes → Bytes → LoadBalancerFactory → LoadBalancerFactory × Balancer
get_or_create service algorithm f = elim (get service f) [
  | some lb ↦ (f, lb)
  | none ↦ (put service (new_balancer algorithm) f, new_balancer algorithm)
]

-- The loop that registers the instances.
unfoldable pub register_all :
    (List HashRingEntry → List HashRingEntry) → List ServiceInstance → Balancer → Balancer
register_all sort [] lb = lb
register_all sort (i ∷ is) lb = register_all sort is (register_instance sort i lb)

unfoldable pub replace_service_instances :
    (List HashRingEntry → List HashRingEntry)
    → Bytes
    → Bytes
    → List ServiceInstance
    → LoadBalancerFactory
    → LoadBalancerFactory
replace_service_instances sort service algorithm instances f =
    put service (register_all sort instances (new_balancer algorithm)) f

unfoldable pub remove_service : Bytes → LoadBalancerFactory → LoadBalancerFactory
remove_service service f = if has service f then delete service f else f

unfoldable pub list_services : LoadBalancerFactory → List Bytes
list_services f = map (λ (e : Bytes × Balancer). e.0) f

abbrev pub instance_by_key : Bytes → Bytes → Balancer → Result ServiceInstance
instance_by_key service key (consistent_hash c) = ConsistentHash.get_instance_by_key key c
instance_by_key service key _ = err (no_hash_selection service)

unfoldable pub get_instance_by_key : Bytes → Bytes → LoadBalancerFactory → Result ServiceInstance
get_instance_by_key service key f = elim (get service f) [
  | none ↦ err (service_not_found service)
  | some lb ↦ instance_by_key service key lb
]

unfoldable pub update_instance_alive :
    (List HashRingEntry → List HashRingEntry)
    → Bytes
    → Bytes
    → Bool
    → LoadBalancerFactory
    → LoadBalancerFactory × Option Error
update_instance_alive sort service url alive f = elim (get service f) [
  | none ↦ (f, some (service_not_found service))
  | some lb ↦ let (lb', e) = set_instance_alive sort url alive lb in (put service lb' f, e)
]

unfoldable pub release_service_connection :
    Bytes → Bytes → LoadBalancerFactory → LoadBalancerFactory × Option Error
release_service_connection service url f = elim (get service f) [
  | none ↦ (f, some (service_not_found service))
  | some lb ↦ let (lb', e) = release_connection url lb in (put service lb' f, e)
]

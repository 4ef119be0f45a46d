-- ===== src/Examples/Hashing.antt =====
-- The hash ring and the factory of internal/core/loadbalancer at concrete inputs.
use mathlib.Core.Option
use yuelaiengine_gateway.Common.{ℕ, true, List, [], ◌∷◌, ◌≡◌, arith, Bytes, lit}
use yuelaiengine_gateway.LoadBalancer.ConsistentHash
use yuelaiengine_gateway.LoadBalancer.ConsistentHash.{
  HashRingEntry, ConsistentHashBalancer, new_consistent_hash, pick_from_ring, hash_string,
  get_instance_by_key,
}
use yuelaiengine_gateway.LoadBalancer.ConsistentHash.Search.{successor, pick_from_ring-successor}
use yuelaiengine_gateway.LoadBalancer.ConsistentHash.Ring.{IsRing, register_instance-IsRing}
use yuelaiengine_gateway.LoadBalancer.Factory.{LoadBalancerFactory, new_balancer}
use yuelaiengine_gateway.Examples.Balancing.{instance_named}
use yuelaiengine_gateway.Examples.Sorting.{insertion_sort, insertion_sort-IsSort}

abbrev entry : ℕ → ℕ → HashRingEntry
entry hash place = record { hash = hash; place = place }

abbrev small_ring : List HashRingEntry
small_ring = entry 1_000 0 ∷ entry 2_000_000_000 1 ∷ entry 4_000_000_000 0 ∷ []

pick_from_ring-successor_example :
    pick_from_ring small_ring (lit "alice")
    ≡ Option.map (λ (e : HashRingEntry). e.place) (successor (hash_string (lit "alice")) small_ring)
pick_from_ring-successor_example =
    pick_from_ring-successor small_ring (lit "alice")
      ((omega arith, (omega arith, tt)), ((omega arith, tt), (tt, tt)))

abbrev url_a : Bytes
url_a = lit "http://a:80"

abbrev one_instance : ConsistentHashBalancer
one_instance =
    ConsistentHash.register_instance insertion_sort (instance_named url_a true 0)
      new_consistent_hash

-- The same, under a name of its own for the other theorems.
one_instance-IsRing : IsRing one_instance
one_instance-IsRing =
    register_instance-IsRing insertion_sort insertion_sort-IsSort (instance_named url_a true 0)
      new_consistent_hash

abbrev orders : Bytes
orders = lit "orders"

abbrev users : Bytes
users = lit "users"

abbrev factory : LoadBalancerFactory
factory = (users, new_balancer (lit "round_robin")) ∷ []

-- ===== src/Examples/Balancing.antt =====
-- The balancers of internal/core/loadbalancer at concrete inputs.
use yuelaiengine_gateway.Common.{
  ℕ, ◌%◌, Bool, true, false, List, [], ◌∷◌, ◌++◌, ◌≡◌, ◌⊎◌, arith, Bytes, lit, pos, drop, take, map,
}
use yuelaiengine_gateway.LoadBalancer.Instance.{ServiceInstance, no_instances, ok, err, healthy}
use yuelaiengine_gateway.LoadBalancer.RoundRobin.{RoundRobinBalancer}
use yuelaiengine_gateway.LoadBalancer.RoundRobin.Fairness
use yuelaiengine_gateway.LoadBalancer.RoundRobin.Fairness.{picks-round, get_next_instance-alive}
use yuelaiengine_gateway.LoadBalancer.Weighted.{WeightedRoundRobinBalancer}
use yuelaiengine_gateway.LoadBalancer.Weighted.Shares
use yuelaiengine_gateway.LoadBalancer.Weighted.Shares.{shares, picks-shares}
use yuelaiengine_gateway.LoadBalancer.LeastConnections
use yuelaiengine_gateway.LoadBalancer.LeastConnections.{LeastConnectionsBalancer, connected}
use yuelaiengine_gateway.LoadBalancer.LeastConnections.Choice.{IsChosen, get_next_instance-fewest}

abbrev pub instance_named : Bytes → Bool → ℕ → ServiceInstance
instance_named url alive connections = record {
  url = url;
  alive = alive;
  weight = pos 2;
  connections = connections;
}

abbrev pub three : List ServiceInstance
three =
    instance_named (lit "http://a:80") true 3
    ∷ instance_named (lit "http://b:80") false 0
    ∷ instance_named (lit "http://c:80") true 1
    ∷ []

abbrev rotating : RoundRobinBalancer
rotating = record { instances = three; index = 7 }

picks-round_example :
    Fairness.picks 2 rotating
    ≡ map ok (drop (7 % 2) (healthy three) ++ take (7 % 2) (healthy three))
picks-round_example = picks-round rotating (omega arith) (omega arith)

abbrev by_weight : WeightedRoundRobinBalancer
by_weight = record { instances = three; current = 5 }

picks-shares_example :
    Shares.picks 4 by_weight ≡ map ok (drop (5 % 4) (shares three) ++ take (5 % 4) (shares three))
picks-shares_example = picks-shares by_weight (omega arith) (omega arith)

abbrev pub counting : LeastConnectionsBalancer
counting = record { instances = three }

get_next_instance-fewest_example :
    ((j : ℕ) × (x : ServiceInstance) × IsChosen counting j x)
    ⊎ ((healthy three ≡ [])
        × (LeastConnections.get_next_instance counting ≡ (counting, err no_instances)))
get_next_instance-fewest_example = get_next_instance-fewest counting

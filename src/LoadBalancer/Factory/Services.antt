-- ===== src/LoadBalancer/Factory/Services.antt =====
-- The balancers of the services stay apart, and health changes reach the right one.
use yuelaiengine_gateway.Common.{
  none, some, List, [], ◌∷◌, ◌++◌, ◌≡◌, refl, ap, sym, ◌∙◌, arith, inl, inr, Bytes, text_eq,
  text_eq_iff, get, get-put, get-delete, has, if◌then◌else◌, Option-cases, Bool-cases,
}
use mathlib.Core.List.{append_assoc, append-nil}
use yuelaiengine_gateway.LoadBalancer.Instance.{ServiceInstance}
use yuelaiengine_gateway.LoadBalancer.RoundRobin
use yuelaiengine_gateway.LoadBalancer.Weighted
use yuelaiengine_gateway.LoadBalancer.LeastConnections
use yuelaiengine_gateway.LoadBalancer.ConsistentHash
use yuelaiengine_gateway.LoadBalancer.ConsistentHash.{HashRingEntry, rebuild_ring}
use yuelaiengine_gateway.LoadBalancer.Factory.{
  Balancer, round_robin, weighted_round_robin, least_connections, consistent_hash,
  LoadBalancerFactory, new_balancer, register_instance, register_all, replace_service_instances,
  remove_service, get_or_create,
}

-- The instances that a balancer knows, alive or not.
abbrev pub instances_of : Balancer → List ServiceInstance
instances_of (round_robin r) = r.instances
instances_of (weighted_round_robin w) = w.instances
instances_of (least_connections l) = l.instances
instances_of (consistent_hash c) = c.instances

instances_of-register :
    (sort : List HashRingEntry → List HashRingEntry) (i : ServiceInstance) (lb : Balancer)
    → instances_of (register_instance sort i lb) ≡ instances_of lb ++ i ∷ []
unfolding register_instance RoundRobin.register_instance Weighted.register_instance
    LeastConnections.register_instance ConsistentHash.register_instance rebuild_ring
instances_of-register sort i (round_robin r) = refl
instances_of-register sort i (weighted_round_robin w) = refl
instances_of-register sort i (least_connections l) = refl
instances_of-register sort i (consistent_hash c) = refl

instances_of-register_all :
    (sort : List HashRingEntry → List HashRingEntry) (is : List ServiceInstance) (lb : Balancer)
    → instances_of (register_all sort is lb) ≡ instances_of lb ++ is
unfolding register_all
instances_of-register_all sort [] lb = sym (append-nil (instances_of lb))
instances_of-register_all sort (i ∷ is) lb =
    instances_of-register_all sort is (register_instance sort i lb)
    ∙ ap (λ xs. xs ++ is) (instances_of-register sort i lb)
    ∙ append_assoc (instances_of lb) (i ∷ []) is

instances_of-new_balancer : (algorithm : Bytes) → instances_of (new_balancer algorithm) ≡ []
unfolding new_balancer
instances_of-new_balancer algorithm = ground arith

-- After `ReplaceServiceInstances` a service has exactly the given instances in the given order,
-- whatever the algorithm and whatever was there before, and every other service keeps its balancer.
pub replace_service_instances-get :
    (sort : List HashRingEntry → List HashRingEntry) (service other algorithm : Bytes)
    (is : List ServiceInstance) (f : LoadBalancerFactory)
    → (lb : Balancer) × (instances_of lb ≡ is)
      × (get other (replace_service_instances sort service algorithm is f)
          ≡ (if text_eq service other then some lb else get other f))
unfolding replace_service_instances
replace_service_instances-get sort service other algorithm is f = (
  register_all sort is (new_balancer algorithm),
  instances_of-register_all sort is (new_balancer algorithm)
      ∙ ap (λ xs. xs ++ is) (instances_of-new_balancer algorithm),
  get-put service other _ f,
)

-- `RemoveService` removes the service's balancer, if there is one, and no other.
pub remove_service-get :
    (service other : Bytes) (f : LoadBalancerFactory)
    → get other (remove_service service f) ≡ (if text_eq service other then none else get other f)
unfolding remove_service
remove_service-get service other f = elim (Option-cases (get service f)) [
  | inl e ↦
      rw (e, has)
        (elim (Bool-cases (text_eq service other)) [
          | inl q ↦ rw q (rw (← (text_eq_iff service other).0 q) e)
          | inr q ↦ rw q
        ])
  | inr (lb, e) ↦ rw (e, has) (get-delete service other f)
]

-- `GetOrCreateLoadBalancer` answers with the balancer that was there, whatever algorithm is asked
-- for, or else with a new one; the answer is what is then stored for the service, and every other
-- service keeps its balancer.
pub get_or_create-get :
    (service algorithm other : Bytes) (f : LoadBalancerFactory)
    → let (f', lb) = get_or_create service algorithm f in
      (lb ≡ (elim (get service f) [ none ↦ new_balancer algorithm | some old ↦ old ]))
      × (get other f' ≡ (if text_eq service other then some lb else get other f))
unfolding get_or_create
get_or_create-get service algorithm other f = elim (Option-cases (get service f)) [
  | inl e ↦ rw (e, get_or_create) (refl, get-put service other _ f)
  | inr (lb, e) ↦
      rw (e, get_or_create)
        (
          refl,
          elim (Bool-cases (text_eq service other)) [
            | inl q ↦ rw q (rw (← (text_eq_iff service other).0 q) e)
            | inr q ↦ rw q
          ],
        )
]

-- ===== src/Proxy/Picking.antt =====
-- What the choice of an instance leaves behind.
use mathlib.Core.Path.{subst}
use yuelaiengine_gateway.Common.{
  ℕ, zero, suc, Bool, true, Option, none, some, ◌≡◌, ◌⊎◌, inl, inr, refl, arith, Bytes, null,
  length, is_empty, Bool-cases, Option-cases,
}
use yuelaiengine_gateway.Config.{RouteConfig}
use yuelaiengine_gateway.Http.{Request}
use yuelaiengine_gateway.Traffic.{traffic_key}
use yuelaiengine_gateway.LoadBalancer.Instance.{ServiceInstance, Error, Result, ok, err}
use yuelaiengine_gateway.LoadBalancer.ConsistentHash
use yuelaiengine_gateway.LoadBalancer.Factory.{
  Balancer, round_robin, weighted_round_robin, least_connections, consistent_hash,
  get_next_instance, get_all_instances,
}
use yuelaiengine_gateway.Proxy.{pick_by_key, retry, get_healthy_instance}

Result-split :
    (r : Result ServiceInstance)
    → ((x : ServiceInstance) × (r ≡ ok x)) ⊎ ((e : Error) × (r ≡ err e))
Result-split (ok x) = inl (x, refl)
Result-split (err e) = inr (e, refl)

pub none≢some : (i : ServiceInstance) → ◌≡◌ {A = Option ServiceInstance} none (some i) → ⊥
none≢some i h = ground arith

pick_by_key-healthy :
    (is_healthy : Bytes → Bool) (key : Bytes) (lb : Balancer) (i : ServiceInstance)
    → pick_by_key is_healthy key lb ≡ some i
    → is_healthy i.url ≡ true
unfolding pick_by_key
pick_by_key-healthy is_healthy key (round_robin r) i h = absurd (none≢some i h)
pick_by_key-healthy is_healthy key (weighted_round_robin w) i h = absurd (none≢some i h)
pick_by_key-healthy is_healthy key (least_connections l) i h = absurd (none≢some i h)
pick_by_key-healthy is_healthy key (consistent_hash c) i h = elim (Bool-cases (is_empty key)) [
  | inl n ↦ absurd (none≢some i (rw (n, pick_by_key) at h))
  | inr n ↦ elim (Result-split (ConsistentHash.get_instance_by_key key c)) [
    | inr (e, q) ↦ absurd (none≢some i (rw (n, q, pick_by_key) at h))
    | inl (x, q) ↦ elim (Bool-cases (is_healthy x.url)) [
      | inr a ↦ absurd (none≢some i (rw (n, q, a, pick_by_key) at h))
      | inl a ↦
          let here : some x ≡ some i = rw (n, q, a, pick_by_key) at h in
          let same : x ≡ i = ground arith in
          subst (λ (y : ServiceInstance). is_healthy y.url ≡ true) same a
    ]
  ]
]

retry-healthy :
    (is_healthy : Bytes → Bool) (n : ℕ) (lb : Balancer) (i : ServiceInstance)
    → (retry is_healthy n lb).1 ≡ some i
    → is_healthy i.url ≡ true
unfolding retry
retry-healthy is_healthy zero lb i h = absurd (none≢some i h)
retry-healthy is_healthy (suc n) lb i h = elim (Result-split (get_next_instance lb).1) [
  | inr (e, q) ↦ absurd (none≢some i (rw (q, retry) at h))
  | inl (x, q) ↦ elim (Bool-cases (is_healthy x.url)) [
    | inl a ↦
        let here : some x ≡ some i = rw (q, a, retry) at h in
        let same : x ≡ i = ground arith in
        subst (λ (y : ServiceInstance). is_healthy y.url ≡ true) same a
    | inr a ↦ retry-healthy is_healthy n (get_next_instance lb).0 i (rw (q, a, retry) at h)
  ]
]

-- A request is only forwarded to an instance that the health checker takes to be healthy, whatever the
-- balancer of the service and whatever it believes of the instance.
pub get_healthy_instance-healthy :
    (is_healthy : Bytes → Bool) (route : RouteConfig) (r : Request) (lb : Balancer)
    (i : ServiceInstance)
    → (get_healthy_instance is_healthy route r lb).1 ≡ some i
    → is_healthy i.url ≡ true
unfolding get_healthy_instance
get_healthy_instance-healthy is_healthy route r lb i h =
    elim (Bool-cases (null (get_all_instances lb))) [
      | inl n ↦ absurd (none≢some i (rw (n, get_healthy_instance) at h))
      | inr n ↦ elim (Option-cases (pick_by_key is_healthy (traffic_key route r) lb)) [
        | inl p ↦
            retry-healthy is_healthy (length (get_all_instances lb)) lb i
              (rw (n, p, get_healthy_instance) at h)
        | inr (x, p) ↦
            let here : some x ≡ some i = rw (n, p, get_healthy_instance) at h in
            let same : x ≡ i = ground arith in
            subst (λ (y : ServiceInstance). is_healthy y.url ≡ true) same
              (pick_by_key-healthy is_healthy (traffic_key route r) lb x p)
      ]
    ]

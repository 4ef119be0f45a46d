-- ===== src/LoadBalancer/Factory/Alive.antt =====
-- What a change of an instance's health does to the flags that the balancers of a factory keep.
use mathlib.Core.Path.{subst}
use yuelaiengine_gateway.Common.{
  Bool, true, false, ◌&&◌, Option, none, some, List, [], ◌∷◌, ◌≡◌, refl, ap, sym, ◌∙◌, arith, inl,
  inr, ◌⊎◌, Bytes, text_eq, text_eq_iff, get, get-put, if◌then◌else◌, Option-cases, Bool-cases,
  same_bool,
}
use yuelaiengine_gateway.LoadBalancer.Instance.{ServiceInstance, update_first, with_alive, found_or}
use yuelaiengine_gateway.LoadBalancer.RoundRobin
use yuelaiengine_gateway.LoadBalancer.Weighted
use yuelaiengine_gateway.LoadBalancer.LeastConnections
use yuelaiengine_gateway.LoadBalancer.LeastConnections.{revived}
use yuelaiengine_gateway.LoadBalancer.ConsistentHash
use yuelaiengine_gateway.LoadBalancer.ConsistentHash.{HashRingEntry, rebuild_ring, find_url}
use yuelaiengine_gateway.LoadBalancer.Factory.{
  Balancer, round_robin, weighted_round_robin, least_connections, consistent_hash,
  LoadBalancerFactory, set_instance_alive, update_instance_alive,
}
use yuelaiengine_gateway.LoadBalancer.Factory.Services.{instances_of}

-- The flag of the first instance with a URL.
abbrev pub alive_in : Bytes → List ServiceInstance → Option Bool
alive_in url xs = elim (find_url url xs) [ none ↦ none | some x ↦ some x.alive ]

abbrev pub alive_of : Bytes → Bytes → LoadBalancerFactory → Option Bool
alive_of service url f = elim (get service f) [
  | none ↦ none
  | some lb ↦ alive_in url (instances_of lb)
]

-- A flag that is there is set.
abbrev pub marked : Bool → Option Bool → Option Bool
marked alive none = none
marked alive (some _) = some alive

-- A change of the first instance with a URL is seen in its flag, and in no other's.
alive_in-update_first :
    (g : ServiceInstance → ServiceInstance) (alive : Bool) (url u : Bytes)
    (xs : List ServiceInstance)
    → ((x : ServiceInstance) → ((g x).url ≡ x.url) × ((g x).alive ≡ alive))
    → ((update_first url g xs ≡ none) × (alive_in url xs ≡ none))
      ⊎ ((ys : List ServiceInstance) × (update_first url g xs ≡ some ys)
          × (alive_in u ys
              ≡ (if text_eq url u then marked alive (alive_in u xs) else alive_in u xs)))
unfolding update_first find_url
alive_in-update_first g alive url u [] h = inl (refl, refl)
alive_in-update_first g alive url u (x ∷ xs) h = elim (Bool-cases (text_eq x.url url)) [
  | inl e ↦ inr (g x ∷ xs, rw e refl, first e (Bool-cases (text_eq url u)))
  | inr e ↦ elim (alive_in-update_first g alive url u xs h) [
    | inl (m, n) ↦ inl (rw (e, m) refl, rw (e, alive_in, find_url) n)
    | inr (ys, m, n) ↦ inr (x ∷ ys, rw (e, m) refl, later e ys n (Bool-cases (text_eq x.url u)))
  ]
]
  where
    first :
        text_eq x.url url ≡ true
        → (text_eq url u ≡ true) ⊎ (text_eq url u ≡ false)
        → alive_in u (g x ∷ xs)
          ≡ (if text_eq url u then marked alive (alive_in u (x ∷ xs)) else alive_in u (x ∷ xs))
    first e (inl q) =
        let tu : text_eq x.url u ≡ true =
          ground (arith, text_eq_iff x.url url, text_eq_iff url u, text_eq_iff x.url u) in
        let tg : text_eq (g x).url u ≡ true = rw (h x).0 tu in
        rw (q, tg, tu, alive_in, find_url) (ap some (h x).1)
    first e (inr q) =
        let tu : text_eq x.url u ≡ false =
          ground (arith, text_eq_iff x.url url, text_eq_iff url u, text_eq_iff x.url u) in
        let tg : text_eq (g x).url u ≡ false = rw (h x).0 tu in
        rw (q, tg, tu, alive_in, find_url) refl

    later :
        text_eq x.url url ≡ false
        → (ys : List ServiceInstance)
        → alive_in u ys ≡ (if text_eq url u then marked alive (alive_in u xs) else alive_in u xs)
        → (text_eq x.url u ≡ true) ⊎ (text_eq x.url u ≡ false)
        → alive_in u (x ∷ ys)
          ≡ (if text_eq url u then marked alive (alive_in u (x ∷ xs)) else alive_in u (x ∷ xs))
    later e ys n (inl q) =
        let other : text_eq url u ≡ false =
          ground (arith, text_eq_iff x.url url, text_eq_iff url u, text_eq_iff x.url u) in
        rw (q, other, alive_in, find_url) refl
    later e ys n (inr q) = rw (q, alive_in, find_url) n

revived-alive :
    (alive : Bool) (x : ServiceInstance)
    → ((revived alive x).url ≡ x.url) × ((revived alive x).alive ≡ alive)
revived-alive true x = (refl, refl)
revived-alive false x = (refl, refl)

-- A flag that already is as it should be, or is not there.
alive_in-unchanged :
    (alive : Bool) (url u : Bytes) (xs : List ServiceInstance)
    → marked alive (alive_in url xs) ≡ alive_in url xs
    → alive_in u xs ≡ (if text_eq url u then marked alive (alive_in u xs) else alive_in u xs)
alive_in-unchanged alive url u xs e = elim (Bool-cases (text_eq url u)) [
  | inl q ↦
      rw q (
        subst (λ v. alive_in v xs ≡ marked alive (alive_in v xs)) ((text_eq_iff url u).0 q) (sym e))
  | inr q ↦ rw q
]

alive_in-found_or {ℓ} :
    {B : Type ℓ} (g : ServiceInstance → ServiceInstance) (alive : Bool) (url u : Bytes) (b : B)
    (xs : List ServiceInstance) (f : List ServiceInstance → B) (of : B → List ServiceInstance)
    → ((x : ServiceInstance) → ((g x).url ≡ x.url) × ((g x).alive ≡ alive))
    → of b ≡ xs
    → ((ys : List ServiceInstance) → of (f ys) ≡ ys)
    → alive_in u (of (found_or url b f (update_first url g xs)).0)
      ≡ (if text_eq url u then marked alive (alive_in u xs) else alive_in u xs)
alive_in-found_or g alive url u b xs f of h k l = elim (alive_in-update_first g alive url u xs h) [
  | inl (m, n) ↦ rw (m, k) (alive_in-unchanged alive url u xs (ap (marked alive) n ∙ sym n))
  | inr (ys, m, n) ↦ rw (m, l ys) n
]

consistent_hash-same :
    (sort : List HashRingEntry → List HashRingEntry) (alive : Bool) (url u : Bytes)
    (c : ConsistentHash.ConsistentHashBalancer)
    → alive_in u (ConsistentHash.set_instance_alive sort url alive c).0.instances
      ≡ (if text_eq url u then marked alive (alive_in u c.instances) else alive_in u c.instances)
unfolding ConsistentHash.set_instance_alive rebuild_ring
consistent_hash-same sort alive url u c = elim (Option-cases (find_url url c.instances)) [
  | inl e ↦
      rw (e, ConsistentHash.set_instance_alive)
        (alive_in-unchanged alive url u c.instances (unknown e))
  | inr (x, e) ↦ elim (Bool-cases (same_bool x.alive alive)) [
    | inl q ↦
        rw (e, q, ConsistentHash.set_instance_alive)
          (alive_in-unchanged alive url u c.instances (known x e q))
    | inr q ↦
        elim (alive_in-update_first (with_alive alive) alive url u c.instances
          (λ y. (refl, refl))) [
            | inl (m, n) ↦
                rw (e, q, m, ConsistentHash.set_instance_alive)
                  (alive_in-unchanged alive url u c.instances (ap (marked alive) n ∙ sym n))
            | inr (ys, m, n) ↦ rw (e, q, m, ConsistentHash.set_instance_alive) n
          ]
  ]
]
  where
    unknown :
        find_url url c.instances ≡ none
        → marked alive (alive_in url c.instances) ≡ alive_in url c.instances
    unknown e = rw (e, alive_in, marked) refl

    known :
        (x : ServiceInstance)
        → find_url url c.instances ≡ some x
        → same_bool x.alive alive ≡ true
        → marked alive (alive_in url c.instances) ≡ alive_in url c.instances
    known x e q =
        rw (e, alive_in, marked) (let same : x.alive ≡ alive = ground arith in ap some (sym same))

set_instance_alive-alive_in :
    (sort : List HashRingEntry → List HashRingEntry) (url u : Bytes) (alive : Bool) (lb : Balancer)
    → alive_in u (instances_of (set_instance_alive sort url alive lb).0) ≡ (
        if text_eq url u
        then marked alive (alive_in u (instances_of lb))
        else alive_in u (instances_of lb))
unfolding set_instance_alive RoundRobin.set_instance_alive Weighted.set_instance_alive
    LeastConnections.set_instance_alive
set_instance_alive-alive_in sort url u alive (round_robin r) =
    alive_in-found_or (with_alive alive) alive url u r r.instances
      (λ xs. record r { instances = xs }) (λ b. b.instances) (λ x. (refl, refl)) refl (λ ys. refl)
set_instance_alive-alive_in sort url u alive (weighted_round_robin w) =
    alive_in-found_or (with_alive alive) alive url u w w.instances
      (λ xs. record w { instances = xs }) (λ b. b.instances) (λ x. (refl, refl)) refl (λ ys. refl)
set_instance_alive-alive_in sort url u alive (least_connections l) =
    alive_in-found_or (revived alive) alive url u l l.instances (λ xs. record l { instances = xs })
      (λ b. b.instances) (revived-alive alive) refl (λ ys. refl)
set_instance_alive-alive_in sort url u alive (consistent_hash c) =
    consistent_hash-same sort alive url u c

-- `UpdateInstanceAlive` sets the flag of the first instance of the service with the URL, if the service
-- has one, whichever algorithm balances it, and changes no other flag of any service.
pub update_instance_alive-alive_of :
    (sort : List HashRingEntry → List HashRingEntry) (service other url u : Bytes) (alive : Bool)
    (f : LoadBalancerFactory)
    → alive_of other u (update_instance_alive sort service url alive f).0 ≡ (
        if text_eq service other && text_eq url u
        then marked alive (alive_of other u f)
        else alive_of other u f)
unfolding update_instance_alive
update_instance_alive-alive_of sort service other url u alive f =
    elim (Option-cases (get service f)) [
      | inl e ↦ elim (Bool-cases (text_eq service other)) [
        | inl q ↦
            let nowhere : get other f ≡ none =
              subst (λ s. get s f ≡ none) ((text_eq_iff service other).0 q) e in
            rw (e, q, update_instance_alive, alive_of, nowhere)
              (elim (Bool-cases (text_eq url u)) [ inl r ↦ rw r refl | inr r ↦ rw r refl ])
        | inr q ↦ rw (e, q, update_instance_alive) refl
      ]
      | inr (lb, e) ↦ elim (Bool-cases (text_eq service other)) [
        | inl q ↦
            let here : get other f ≡ some lb =
              subst (λ s. get s f ≡ some lb) ((text_eq_iff service other).0 q) e in
            rw
              (
                e,
                update_instance_alive,
                alive_of,
                here,
                get-put service other (set_instance_alive sort url alive lb).0 f,
                q,
              )
              (set_instance_alive-alive_in sort url u alive lb)
        | inr q ↦
            rw
              (
                e,
                update_instance_alive,
                alive_of,
                get-put service other (set_instance_alive sort url alive lb).0 f,
                q,
              )
              refl
      ]
    ]

-- ===== src/Runtime/Sync.antt =====
-- Which balancers there are after the services are brought in line with a configuration, and for how
-- long an instance that never answers is held for alive.
use mathlib.Core.Path.{subst}
use yuelaiengine_gateway.Common.{
  Bool, true, false, ◌||◌, Option, none, some, List, [], ◌∷◌, ◌≡◌, inl, inr, refl, ap, ◌∙◌, arith,
  Bytes, text_eq, text_eq_iff, Map, get, has, map, if◌then◌else◌, Bool-cases,
}
use yuelaiengine_gateway.Config.{ServiceConfig}
use yuelaiengine_gateway.LoadBalancer.ConsistentHash.{HashRingEntry}
use yuelaiengine_gateway.LoadBalancer.Factory
use yuelaiengine_gateway.LoadBalancer.Factory.{
  Balancer, LoadBalancerFactory, replace_service_instances,
}
use yuelaiengine_gateway.LoadBalancer.Factory.Services.{
  instances_of, replace_service_instances-get, remove_service-get,
}
use yuelaiengine_gateway.Health
use yuelaiengine_gateway.Health.{HealthChecker, register_service}
use yuelaiengine_gateway.Runtime.{new_instance, sync_service, sync_new, sync_old, sync_services}

-- The keys of a map are different, and each service is filed under its own name.
abbrev pub IsFiled : Map ServiceConfig → Type 0
IsFiled [] = Unit
IsFiled ((key, svc) ∷ services) = (svc.name ≡ key) × (get key services ≡ none) × IsFiled services

-- A balancer with exactly the configured instances, all held for alive.
abbrev pub IsBalanced : Bytes → ServiceConfig → LoadBalancerFactory → Type 0
IsBalanced service svc f =
    (lb : Balancer) × (get service f ≡ some lb) × (instances_of lb ≡ map new_instance svc.instances)

sync_new-none :
    (sort : List HashRingEntry → List HashRingEntry) (services : Map ServiceConfig)
    (service : Bytes) (s : HealthChecker × LoadBalancerFactory)
    → IsFiled services
    → get service services ≡ none
    → get service (sync_new sort services s).1 ≡ get service s.1
unfolding sync_new sync_service get
sync_new-none sort [] service s filed h = refl
sync_new-none sort ((key, svc) ∷ services) service (hc, f) (n, d, filed) h =
    elim (Bool-cases (text_eq key service)) [
      | inl e ↦ let bad : some svc ≡ none = rw e at h in absurd (ground arith)
      | inr e ↦
          let (lb, _, g) =
            replace_service_instances-get sort svc.name service svc.load_balancer
              (map new_instance svc.instances) f in
          sync_new-none sort services service (sync_service sort svc (hc, f)) filed (rw e at h)
          ∙ g
          ∙ rw (n, e) refl
    ]

sync_new-some :
    (sort : List HashRingEntry → List HashRingEntry) (services : Map ServiceConfig)
    (service : Bytes) (svc : ServiceConfig) (s : HealthChecker × LoadBalancerFactory)
    → IsFiled services
    → get service services ≡ some svc
    → IsBalanced service svc (sync_new sort services s).1
unfolding sync_new sync_service get
sync_new-some sort [] service svc s filed h = absurd (ground arith)
sync_new-some sort ((key, first) ∷ services) service svc (hc, f) (n, d, filed) h =
    elim (Bool-cases (text_eq key service)) [
      | inr e ↦
          sync_new-some sort services service svc (sync_service sort first (hc, f)) filed
            (rw e at h)
      | inl e ↦
          let here : some first ≡ some svc = rw e at h in
          let same : first ≡ svc = ground arith in
          let key_same : key ≡ service = (text_eq_iff key service).0 e in
          let (lb, i, g) =
            replace_service_instances-get sort first.name service first.load_balancer
              (map new_instance first.instances) f in
          (
            lb,
            sync_new-none sort services service (sync_service sort first (hc, f)) filed
                  (subst (λ k. get k services ≡ none) key_same d)
                ∙ g
                ∙ rw (n, e) refl,
            i ∙ ap (λ (x : ServiceConfig). map new_instance x.instances) same,
          )
    ]

has-cons :
    (key service : Bytes) (svc : ServiceConfig) (services : Map ServiceConfig)
    → has service ((key, svc) ∷ services) ≡ (text_eq key service || has service services)
unfolding get
has-cons key service svc services = elim (Bool-cases (text_eq key service)) [
  | inl e ↦ rw (e, has, get) refl
  | inr e ↦ rw (e, has, get) refl
]

-- What the second loop does with a service.
sync_old-get :
    (new old : Map ServiceConfig) (service : Bytes) (s : HealthChecker × LoadBalancerFactory)
    → get service (sync_old new old s).1 ≡ (
        if has service new
        then get service s.1
        else (if has service old then none else get service s.1))
unfolding sync_old get
sync_old-get new [] service (hc, f) = elim (Bool-cases (has service new)) [
  | inl n ↦ rw n refl
  | inr n ↦ rw n refl
]
sync_old-get new ((key, svc) ∷ old) service (hc, f) = elim (Bool-cases (has key new)) [
  | inl e ↦
      rw (sync_old, e, has-cons key service svc old)
        (sync_old-get new old service (hc, f)
          ∙ stay (text_eq key service) (has service old) (has service new) (get service f)
              (λ t. subst (λ k. has k new ≡ true) ((text_eq_iff key service).0 t) e))
  | inr e ↦
      rw (sync_old, e, has-cons key service svc old)
        (sync_old-get new old service (Health.remove_service key hc, Factory.remove_service key f)
          ∙ ap
              (λ (o : Option Balancer).
                if has service new then o else (if has service old then none else o))
              (remove_service-get key service f)
          ∙ gone (text_eq key service) (has service old) (has service new) (get service f)
              (λ t. subst (λ k. has k new ≡ false) ((text_eq_iff key service).0 t) e))
]
  where
    stay :
        (t o n : Bool) (b : Option Balancer)
        → (t ≡ true → n ≡ true)
        → (if n then b else (if o then none else b))
          ≡ (if n then b else (if t || o then none else b))
    stay true o n b h = let yes : n ≡ true = h refl in rw yes refl
    stay false o n b h = refl

    gone :
        (t o n : Bool) (b : Option Balancer)
        → (t ≡ true → n ≡ false)
        → (let c : Option Balancer = if t then none else b in
            if n then c else (if o then none else c))
          ≡ (if n then b else (if t || o then none else b))
    gone true true n b h = let no : n ≡ false = h refl in rw no refl
    gone true false n b h = let no : n ≡ false = h refl in rw no refl
    gone false o n b h = refl

-- The balancer of a service after a synchronisation that finds `found` for it in the new configuration.
abbrev pub IsSynced :
    Bytes
    → Map ServiceConfig
    → LoadBalancerFactory
    → LoadBalancerFactory
    → Option ServiceConfig
    → Type 0
IsSynced service old before after (some svc) = IsBalanced service svc after
IsSynced service old before after none =
    get service after ≡ (if has service old then none else get service before)

-- After a synchronisation, each service of the new configuration has a balancer with exactly the
-- instances of the configuration, each held for alive; a service of the old configuration that the new
-- one leaves out has none; and all other services keep theirs. The new configuration has different
-- keys, and files each service under its own name.
pub sync_services-IsSynced :
    (sort : List HashRingEntry → List HashRingEntry) (old new : Map ServiceConfig) (service : Bytes)
    (s : HealthChecker × LoadBalancerFactory)
    → IsFiled new
    → IsSynced service old s.1 (sync_services sort old new s).1 (get service new)
unfolding sync_services
sync_services-IsSynced sort old new service s filed = split (get service new) refl
  where
    split :
        (found : Option ServiceConfig)
        → get service new ≡ found
        → IsSynced service old s.1 (sync_services sort old new s).1 found
    split none e =
        sync_old-get new old service (sync_new sort new s)
        ∙ rw (has, e)
            (ap (λ (o : Option Balancer). if has service old then none else o)
              (sync_new-none sort new service s filed e))
    split (some svc) e =
        let (lb, g, i) = sync_new-some sort new service svc s filed e in
        (lb, sync_old-get new old service (sync_new sort new s) ∙ rw (has, e) g, i)

-- A name that was a key of the old configuration and is none of the new one has no balancer and no
-- health after a synchronisation, whatever the services are called.
pub sync_services-dropped :
    (sort : List HashRingEntry → List HashRingEntry) (old new : Map ServiceConfig) (key : Bytes)
    (s : HealthChecker × LoadBalancerFactory)
    → has key old ≡ true
    → has key new ≡ false
    → get key (sync_services sort old new s).1 ≡ none
unfolding sync_services
sync_services-dropped sort old new key s h n =
    sync_old-get new old key (sync_new sort new s) ∙ rw (h, n) refl

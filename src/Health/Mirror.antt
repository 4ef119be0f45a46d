-- ===== src/Health/Mirror.antt =====
-- The status hook of internal/core/gateway.go (NewGateway), which passes each change of an instance's
-- status on to the balancers: how far what a balancer holds for alive is what the checker knows.
use yuelaiengine_gateway.Common.{
  ℕ, ◌<◌, Bool, none, some, List, [], ◌∷◌, ◌≡◌, ◌⊎◌, inl, inr, refl, ap, sym, ◌∙◌, arith, Bytes,
  text_eq, text_eq_iff, Map, get, put, delete, get-put, get-delete, length, get_elem?,
  length-append, length-modify, Bool-cases, Option-cases,
}
use yuelaiengine_gateway.LoadBalancer.ConsistentHash.{HashRingEntry}
use yuelaiengine_gateway.LoadBalancer.Factory.{LoadBalancerFactory, update_instance_alive}
use yuelaiengine_gateway.Health.{
  HealthChecker, Change, new_health_checker, register_service, new_info, remove_service,
  with_status, is_unchanged, update_service_status,
}
use yuelaiengine_gateway.Health.Updates.{update_service_status-services}

-- The hook, called for one change after the other.
unfoldable pub notify :
    (List HashRingEntry → List HashRingEntry)
    → List Change
    → LoadBalancerFactory
    → LoadBalancerFactory
notify sort [] f = f
notify sort ((service, url, is_healthy) ∷ changes) f =
    notify sort changes (update_instance_alive sort service url is_healthy f).0

-- A result of a check, with the hook.
unfoldable pub probe :
    (List HashRingEntry → List HashRingEntry)
    → Bytes
    → ℕ
    → Bytes
    → Bool
    → HealthChecker × LoadBalancerFactory
    → HealthChecker × LoadBalancerFactory
probe sort name p url is_healthy (hc, f) =
    let (checked, changes) = update_service_status name p url is_healthy hc in
    (checked, notify sort changes f)

-- The states of the checker that its operations lead to.
pub data Reachable : HealthChecker → Type 0 where
  started : Reachable new_health_checker
  registered :
      {hc : HealthChecker} (name : Bytes) (instances : List Bytes) (health_path : Bytes)
      → Reachable hc
      → Reachable (register_service name instances health_path hc)
  removed : {hc : HealthChecker} (name : Bytes) → Reachable hc → Reachable (remove_service name hc)
  updated :
      {hc : HealthChecker} (name : Bytes) (p : ℕ) (url : Bytes) (is_healthy : Bool)
      → Reachable hc
      → Reachable (update_service_status name p url is_healthy hc).0

-- No info is registered twice, and every registered one is there.
pub record IsOwned (hc : HealthChecker) : Type 0 where
  pub there : (name : Bytes) (p : ℕ) → get name hc.services ≡ some p → p < length hc.infos
  pub own : (a b : Bytes) (p : ℕ) → get a hc.services ≡ some p → get b hc.services ≡ some p → a ≡ b

length-update :
    (name : Bytes) (p : ℕ) (url : Bytes) (h : Bool) (hc : HealthChecker)
    → length (update_service_status name p url h hc).0.infos ≡ length hc.infos
unfolding update_service_status
length-update name p url h hc = elim (Option-cases (get_elem? hc.infos p)) [
  | inl e ↦ rw (e, update_service_status) refl
  | inr (info, e) ↦ elim (Bool-cases (is_unchanged url h info)) [
    | inl u ↦ rw (e, u, update_service_status) refl
    | inr u ↦ rw (e, u, update_service_status) (length-modify hc.infos p (with_status url h))
  ]
]

get-registered :
    (name other : Bytes) (p n : ℕ) (services : Map ℕ)
    → get other (put name n services) ≡ some p
    → ((name ≡ other) × (p ≡ n)) ⊎ (get other services ≡ some p)
get-registered name other p n services e = elim (Bool-cases (text_eq name other)) [
  | inl q ↦
      let here : some n ≡ some p = sym (get-put name other n services ∙ rw q refl) ∙ e in
      inl ((text_eq_iff name other).0 q, ground arith)
  | inr q ↦ inr (sym (get-put name other n services ∙ rw q refl) ∙ e)
]

get-removed :
    (name other : Bytes) (p : ℕ) (services : Map ℕ)
    → get other (delete name services) ≡ some p
    → get other services ≡ some p
get-removed name other p services e = elim (Bool-cases (text_eq name other)) [
  | inl q ↦
      let bad : none ≡ some p = sym (get-delete name other services ∙ rw q refl) ∙ e in
      absurd (ground arith)
  | inr q ↦ sym (get-delete name other services ∙ rw q refl) ∙ e
]

pub Reachable-IsOwned : {hc : HealthChecker} → Reachable hc → IsOwned hc
unfolding register_service remove_service get
Reachable-IsOwned started = record {
  there = λ n p e. absurd (ground arith);
  own = λ a b p e g. absurd (ground arith);
}
Reachable-IsOwned (registered {hc} name instances health_path r) =
    let o = Reachable-IsOwned r in
    record {
      there = λ a p e.
          let more = length-append hc.infos (new_info name instances health_path hc ∷ []) in
          elim (get-registered name a p (length hc.infos) hc.services e) [
            | inl (_, q) ↦ omega (arith, q, more)
            | inr g ↦ omega (arith, o.there a p g, more)
          ];
      own = λ a b p e g. elim (get-registered name a p (length hc.infos) hc.services e) [
        | inl (s, q) ↦ elim (get-registered name b p (length hc.infos) hc.services g) [
          | inl (t, _) ↦ sym s ∙ t
          | inr g' ↦ absurd (omega (arith, q, o.there b p g'))
        ]
        | inr e' ↦ elim (get-registered name b p (length hc.infos) hc.services g) [
          | inl (_, q) ↦ absurd (omega (arith, q, o.there a p e'))
          | inr g' ↦ o.own a b p e' g'
        ]
      ];
    }
Reachable-IsOwned (removed {hc} name r) =
    let o = Reachable-IsOwned r in
    record {
      there = λ a p e. o.there a p (get-removed name a p hc.services e);
      own = λ a b p e g.
          o.own a b p (get-removed name a p hc.services e) (get-removed name b p hc.services g);
    }
Reachable-IsOwned (updated {hc} name p url h r) =
    let o = Reachable-IsOwned r in
    let same = update_service_status-services name p url h hc in
    record {
      there = λ a q e.
          let old : q < length hc.infos = o.there a q (sym (ap (get a) same) ∙ e) in
          omega (arith, old, length-update name p url h hc);
      own = λ a b q e g. o.own a b q (sym (ap (get a) same) ∙ e) (sym (ap (get b) same) ∙ g);
    }

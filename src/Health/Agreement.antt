-- ===== src/Health/Agreement.antt =====
-- How far what a balancer holds for alive is what the checker knows.
use mathlib.Core.Path.{subst}
use yuelaiengine_gateway.Common.{
  ℕ, Bool, true, false, ◌&&◌, Option, none, some, List, [], ◌∷◌, ◌≡◌, ◌⊎◌, inl, inr, refl, ap, sym,
  ◌∙◌, arith, Bytes, text_eq, text_eq_iff, get, get_elem?, if◌then◌else◌, Bool-cases, Option-cases,
}
use yuelaiengine_gateway.LoadBalancer.ConsistentHash.{HashRingEntry}
use yuelaiengine_gateway.LoadBalancer.Factory.{LoadBalancerFactory}
use yuelaiengine_gateway.LoadBalancer.Factory.Alive.{
  alive_of, marked, update_instance_alive-alive_of,
}
use yuelaiengine_gateway.Health.{
  ServiceCheckInfo, HealthChecker, load, is_unchanged, update_service_status,
}
use yuelaiengine_gateway.Health.Updates.{
  PointsTo, update_service_status-IsUpdated, update_service_status-other,
  update_service_status-services,
}
use yuelaiengine_gateway.Health.Mirror.{notify, probe, Reachable, Reachable-IsOwned}

-- What the checker has recorded for an instance of a service.
abbrev pub known_status : Bytes → Bytes → HealthChecker → Option Bool
known_status name url hc = elim (load name hc) [ none ↦ none | some info ↦ get url info.status ]

-- The balancer's flag and the checker's record do not contradict each other.
abbrev pub Agrees : Bytes → Bytes → HealthChecker × LoadBalancerFactory → Type 0
Agrees name url (hc, f) =
    (known alive : Bool)
    → known_status name url hc ≡ some known
    → alive_of name url f ≡ some alive
    → known ≡ alive

known_status-at :
    (name url : Bytes) (p : ℕ) (hc : HealthChecker) (o : Option ServiceCheckInfo)
    → get name hc.services ≡ some p
    → get_elem? hc.infos p ≡ o
    → known_status name url hc ≡ (elim o [ none ↦ none | some info ↦ get url info.status ])
unfolding load
known_status-at name url p hc o g at = rw (known_status, load, g, at) refl

-- A service that is not registered with the pointer keeps its record.
known_status-other :
    (name other u url : Bytes) (p : ℕ) (h : Bool) (hc : HealthChecker)
    → (get other hc.services ≡ some p → ⊥)
    → known_status other u (update_service_status name p url h hc).0 ≡ known_status other u hc
unfolding load
known_status-other name other u url p h hc ne =
    let after = (update_service_status name p url h hc).0 in
    let same : get other after.services ≡ get other hc.services =
      ap (get other) (update_service_status-services name p url h hc) in
    elim (Option-cases (get other hc.services)) [
      | inl e ↦ rw (known_status, load, same ∙ e, e) refl
      | inr (q, e) ↦
          known_status-at other u q after _ (same ∙ e)
            (update_service_status-other name p q url h hc (λ s. ne (e ∙ ap some (sym s))))
          ∙ sym (known_status-at other u q hc _ e refl)
    ]

-- The record of an instance of the service that is registered with the pointer.
known_status-update :
    (name u url : Bytes) (p : ℕ) (h : Bool) (hc : HealthChecker) (info : ServiceCheckInfo)
    → get name hc.services ≡ some p
    → PointsTo p info hc
    → known_status name u (update_service_status name p url h hc).0
      ≡ (if text_eq url u then some h else known_status name u hc)
known_status-update name u url p h hc info g at =
    let (after, at_after, f) = update_service_status-IsUpdated name p url h hc info at in
    let checked = (update_service_status name p url h hc).0 in
    known_status-at name u p checked (some after)
      (ap (get name) (update_service_status-services name p url h hc) ∙ g) at_after
    ∙ f.status u
    ∙ ap (λ (o : Option Bool). if text_eq url u then some h else o)
        (sym (known_status-at name u p hc (some info) g at))

-- Either nothing changes, since the result is the one on record, or the hook hears of it.
update_service_status-cases :
    (name url : Bytes) (p : ℕ) (h : Bool) (hc : HealthChecker) (info : ServiceCheckInfo)
    → PointsTo p info hc
    → (update_service_status name p url h hc ≡ (hc, []))
      ⊎ ((update_service_status name p url h hc).1 ≡ (name, url, h) ∷ [])
unfolding update_service_status
update_service_status-cases name url p h hc info at = elim (Bool-cases (is_unchanged url h info)) [
  | inl e ↦ inl (rw (at, e, update_service_status) refl)
  | inr e ↦ inr (rw (at, e, update_service_status) refl)
]

marked-some : (h a : Bool) (o : Option Bool) → marked h o ≡ some a → h ≡ a
marked-some h a none e = absurd (ground arith)
marked-some h a (some b) e = ground arith

-- What the hook does with one change.
alive_of-notify :
    (sort : List HashRingEntry → List HashRingEntry) (name other url u : Bytes) (h : Bool)
    (f : LoadBalancerFactory)
    → alive_of other u (notify sort ((name, url, h) ∷ []) f) ≡ (
        if text_eq name other && text_eq url u
        then marked h (alive_of other u f)
        else alive_of other u f)
unfolding notify
alive_of-notify sort name other url u h f = update_instance_alive-alive_of sort name other url u h f

changed-Agrees :
    (sort : List HashRingEntry → List HashRingEntry) (name other url u : Bytes) (p : ℕ) (h : Bool)
    (hc : HealthChecker) (f : LoadBalancerFactory) (info : ServiceCheckInfo)
    → Reachable hc
    → get name hc.services ≡ some p
    → PointsTo p info hc
    → Agrees other u (hc, f)
    → Agrees other u
        ((update_service_status name p url h hc).0, notify sort ((name, url, h) ∷ []) f)
changed-Agrees sort name other url u p h hc f info r g at old known alive k a =
    elim (Bool-cases (text_eq name other)) [
      | inl q ↦
          let same : name ≡ other = (text_eq_iff name other).0 q in
          let seen =
            sym (
              known_status-update other u url p h hc info
                (subst (λ n. get n hc.services ≡ some p) same g) at)
            ∙ ap (λ n. known_status other u (update_service_status n p url h hc).0) (sym same)
            ∙ k in
          elim (Bool-cases (text_eq url u)) [
            | inl v ↦
                let now : some h ≡ some known = rw v at seen in
                let flag : marked h (alive_of other u f) ≡ some alive =
                  rw (q, v) at (sym (alive_of-notify sort name other url u h f) ∙ a) in
                let one : h ≡ known = ground arith in
                sym one ∙ marked-some h alive (alive_of other u f) flag
            | inr v ↦
                old known alive (rw v at seen)
                  (rw (q, v) at (sym (alive_of-notify sort name other url u h f) ∙ a))
          ]
      | inr q ↦
          old known alive (sym (known_status-other name other u url p h hc (not_own q)) ∙ k)
            (rw q at (sym (alive_of-notify sort name other url u h f) ∙ a))
    ]
  where
    not_own : text_eq name other ≡ false → get other hc.services ≡ some p → ⊥
    not_own q e =
        let same : name ≡ other = (Reachable-IsOwned r).own name other p g e in
        let yes : text_eq name other ≡ true = (text_eq_iff name other).1 same in
        absurd (ground arith)

-- A result of a check of a registered service, passed on by the hook, never makes a balancer's flag
-- contradict the checker's record: where the two did not contradict each other before, of whatever
-- service and instance, they do not after.
pub probe-Agrees :
    (sort : List HashRingEntry → List HashRingEntry) (name other url u : Bytes) (p : ℕ) (h : Bool)
    (hc : HealthChecker) (f : LoadBalancerFactory) (info : ServiceCheckInfo)
    → Reachable hc
    → get name hc.services ≡ some p
    → PointsTo p info hc
    → Agrees other u (hc, f)
    → Agrees other u (probe sort name p url h (hc, f))
unfolding probe notify
probe-Agrees sort name other url u p h hc f info r g at old known alive k a =
    elim (update_service_status-cases name url p h hc info at) [
      | inl e ↦ old known alive (rw (probe, e) at k) (rw (probe, e, notify) at a)
      | inr e ↦
          changed-Agrees sort name other url u p h hc f info r g at old known alive k
            (sym (ap (λ changes. alive_of other u (notify sort changes f)) e) ∙ a)
    ]

-- ===== src/LoadBalancer/ConsistentHash/Lookup.antt =====
-- What a key is given by a proper ring.
use mathlib.Core.Path.{subst}
use yuelaiengine_gateway.Common.{
  ℕ, true, some, List, [], ◌∷◌, ◌≡◌, refl, sym, ap, ◌∙◌, arith, Bytes, leb, get_elem?, All,
  Bool-cases, Option-cases, inl, inr, ◌⊎◌,
}
use yuelaiengine_gateway.LoadBalancer.Instance.{
  ServiceInstance, no_healthy_instances, ok, err, healthy, healthy_none,
}
use yuelaiengine_gateway.LoadBalancer.ConsistentHash.{
  HashRingEntry, ConsistentHashBalancer, pick_from_ring, get_instance_by_key, instance_at,
  hash_string,
}
use yuelaiengine_gateway.LoadBalancer.ConsistentHash.Search.{
  successor, successor-none, successor-some, first_from, pick_from_ring-successor,
}
use yuelaiengine_gateway.LoadBalancer.ConsistentHash.Ring.{IsRing, IsLive}

head_exists :
    (target : ℕ) (e : HashRingEntry) (es : List HashRingEntry)
    → (d : HashRingEntry) × (successor target (e ∷ es) ≡ some d)
head_exists target e es = elim (Option-cases (first_from target (e ∷ es))) [
  | inl q ↦ (e, successor-none target (e ∷ es) q)
  | inr (d, q) ↦ (d, successor-some target (e ∷ es) d q)
]

first_from-All :
    (P : HashRingEntry → Type 0) (target : ℕ) (es : List HashRingEntry) (d : HashRingEntry)
    → All P es
    → first_from target es ≡ some d
    → P d
first_from-All P target [] d all e = absurd (ground arith)
first_from-All P target (x ∷ es) d (p, all) e = elim (Bool-cases (leb target x.hash)) [
  | inl q ↦
      let here : some x ≡ some d = rw q at e in let same : x ≡ d = ground arith in subst P same p
  | inr q ↦ first_from-All P target es d all (rw q at e)
]

successor-All :
    (P : HashRingEntry → Type 0) (target : ℕ) (e : HashRingEntry) (es : List HashRingEntry)
    (d : HashRingEntry)
    → All P (e ∷ es)
    → successor target (e ∷ es) ≡ some d
    → P d
successor-All P target e es d all q = elim (Option-cases (first_from target (e ∷ es))) [
  | inl h ↦
      let here : some e ≡ some d = sym (successor-none target (e ∷ es) h) ∙ q in
      let same : e ≡ d = ground arith in subst P same all.0
  | inr (x, h) ↦
      let here : some x ≡ some d = sym (successor-some target (e ∷ es) x h) ∙ q in
      let same : x ≡ d = ground arith in subst P same (first_from-All P target (e ∷ es) x all h)
]

-- On a proper ring, every key is given a registered instance that is alive, that of the next entry
-- clockwise; a key is refused only if no registered instance is alive.
pub get_instance_by_key-alive :
    (c : ConsistentHashBalancer) (key : Bytes)
    → IsRing c
    → ((x : ServiceInstance) × (e : HashRingEntry) × (get_instance_by_key key c ≡ ok x)
        × (successor (hash_string key) c.ring ≡ some e)
        × (get_elem? c.instances e.place ≡ some x)
        × (x.alive ≡ true))
      ⊎ ((get_instance_by_key key c ≡ err no_healthy_instances) × (healthy c.instances ≡ []))
unfolding get_instance_by_key
get_instance_by_key-alive c key r = split c.ring refl
  where
    split :
        (ring : List HashRingEntry)
        → c.ring ≡ ring
        → ((x : ServiceInstance) × (e : HashRingEntry) × (get_instance_by_key key c ≡ ok x)
            × (successor (hash_string key) c.ring ≡ some e)
            × (get_elem? c.instances e.place ≡ some x)
            × (x.alive ≡ true))
          ⊎ ((get_instance_by_key key c ≡ err no_healthy_instances) × (healthy c.instances ≡ []))
    split [] q = inr (rw q (unfold pick_from_ring in refl), healthy_none c.instances (r.covered q))
    split (d ∷ ds) q =
        let (e, found) = head_exists (hash_string key) d ds in
        let found' : successor (hash_string key) c.ring ≡ some e = rw q found in
        let (_, (x, at, a)) =
          successor-All (IsLive 0 c.instances) (hash_string key) d ds e
            (subst (All (IsLive 0 c.instances)) q r.live) found in
        let at' : get_elem? c.instances e.place ≡ some x =
          ap (get_elem? c.instances) (omega arith) ∙ at in
        let picked : pick_from_ring c.ring key ≡ some e.place =
          pick_from_ring-successor c.ring key r.in_order ∙ rw found' in
        inl (x, e, rw (picked, instance_at) (rw at'), found', at', a)

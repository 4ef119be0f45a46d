-- ===== src/LoadBalancer/RoundRobin/Fairness.antt =====
-- Every healthy instance gets its turn.
use native.Mathlib.Nat.{mod-lt}
use yuelaiengine_gateway.Common.{
  ℕ, zero, suc, ◌+◌, ◌%◌, ◌≤◌, ◌<◌, true, false, List, [], ◌∷◌, ◌++◌, ◌≡◌, refl, ap, ◌∙◌, arith,
  map, length, take, drop, null, u64, Bool-cases, In, length-cases, ◌⊎◌, inl, inr,
}
use yuelaiengine_gateway.LoadBalancer.Instance.{
  ServiceInstance, Error, no_instances, no_healthy_instances, Result, ok, err, healthy, elem_at,
  drawn, elem_at-healthy,
}
use yuelaiengine_gateway.LoadBalancer.Cycle.{walk, walk-round}
use yuelaiengine_gateway.LoadBalancer.RoundRobin.{RoundRobinBalancer, get_next_instance}

-- The answers to `n` requests in a row.
unfoldable pub picks : ℕ → RoundRobinBalancer → List (Result ServiceInstance)
picks zero r = []
picks (suc n) r = let (r', pick) = get_next_instance r in pick ∷ picks n r'

pub drawn_id : (n : ℕ) → n < u64 → drawn n ≡ n
drawn_id n h = omega arith

pub null_of_zero {ℓ} : {A : Type ℓ} (xs : List A) → length xs ≡ 0 → null xs ≡ true
null_of_zero [] h = refl
null_of_zero (x ∷ xs) h = absurd (omega arith)

pub null_of_healthy : (xs : List ServiceInstance) → 0 < length (healthy xs) → null xs ≡ false
null_of_healthy [] h = absurd (omega arith)
null_of_healthy (x ∷ xs) h = refl

pub null_of_pos {ℓ} : {A : Type ℓ} (xs : List A) → 0 < length xs → null xs ≡ false
null_of_pos [] h = absurd (omega arith)
null_of_pos (x ∷ xs) h = refl

get_next_instance_ok :
    (r : RoundRobinBalancer)
    → 0 < length (healthy r.instances)
    → r.index < u64
    → get_next_instance r ≡ (
      record r { index = (r.index + 1) % u64 },
      elem_at (healthy r.instances) (r.index % length (healthy r.instances)),
    )
unfolding get_next_instance
get_next_instance_ok r h b =
    rw (null_of_healthy r.instances h, null_of_pos (healthy r.instances) h, drawn_id r.index b)

pub picks-walk :
    (n : ℕ) (r : RoundRobinBalancer)
    → 0 < length (healthy r.instances)
    → r.index + n ≤ u64
    → picks n r ≡ walk (healthy r.instances) n r.index
unfolding picks walk
picks-walk zero r h b = refl
picks-walk (suc zero) r h b = rw (get_next_instance_ok r h (omega arith))
picks-walk (suc (suc n)) r h b =
    let next : (r.index + 1) % u64 ≡ r.index + 1 = omega arith in
    let later : picks (suc n) (record r { index = r.index + 1 })
        ≡ walk (healthy r.instances) (suc n) (r.index + 1) =
      picks-walk (suc n) (record r { index = r.index + 1 }) h (omega arith) in
    rw (get_next_instance_ok r h (omega arith)) (
      rw next
        (ap (◌∷◌ (elem_at (healthy r.instances) (r.index % length (healthy r.instances)))) later))

-- As long as the set of healthy instances stays the same, as many requests in a row as there are
-- healthy instances are given each of them exactly once: in the order of registration from the
-- cursor's place on, and then from the start. The cursor may not pass 2 ^ 64 on the way.
pub picks-round :
    (r : RoundRobinBalancer)
    → let live = healthy r.instances in
      0 < length live
      → r.index + length live ≤ u64
      → picks (length live) r
        ≡ map ok (drop (r.index % length live) live ++ take (r.index % length live) live)
picks-round r h b = picks-walk _ r h b ∙ walk-round (healthy r.instances) r.index h

get_next_instance_none :
    (r : RoundRobinBalancer)
    → length (healthy r.instances) ≡ 0
    → (e : Error) × (get_next_instance r ≡ (r, err e))
unfolding get_next_instance
get_next_instance_none r h = elim (Bool-cases (null r.instances)) [
  | inl q ↦ (no_instances, rw q)
  | inr q ↦ (no_healthy_instances, rw (q, null_of_zero (healthy r.instances) h))
]

-- A request is answered by a registered instance that is alive exactly when there is one, and fails
-- with the balancer unchanged when there is none.
pub get_next_instance-alive :
    (r : RoundRobinBalancer)
    → r.index < u64
    → ((x : ServiceInstance) × ((get_next_instance r).1 ≡ ok x)
        × In x r.instances
        × (x.alive ≡ true))
      ⊎ ((healthy r.instances ≡ []) × ((e : Error) × (get_next_instance r ≡ (r, err e))))
get_next_instance-alive r b = elim (length-cases (healthy r.instances)) [
  | inl h ↦
      let (x, e, i, a) =
        elem_at-healthy r.instances (r.index % length (healthy r.instances)) (mod-lt _ h) in
      inl (x, rw (get_next_instance_ok r h b) e, i, a)
  | inr h ↦ inr (h, get_next_instance_none r (rw h))
]

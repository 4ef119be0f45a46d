-- ===== src/LoadBalancer/Weighted/Shares.antt =====
-- Every healthy instance gets its share.
use native.Mathlib.Nat.{mod-lt, suc-add}
use yuelaiengine_gateway.Common.{
  ℕ, zero, suc, ◌+◌, ◌-◌, ◌%◌, ◌≤◌, ◌<◌, List, [], ◌∷◌, ◌++◌, ◌≡◌, refl, ap, ◌∙◌, arith, map,
  length, take, drop, u64, Bool-cases, inl, inr, get_elem?, replicate, length-append,
  length-replicate, if◌then◌else◌, pos_part, ltb, ◌==◌, some,
}
use yuelaiengine_gateway.LoadBalancer.Instance.{ServiceInstance, Result, ok, healthy, elem_at}
use yuelaiengine_gateway.LoadBalancer.Cycle.{walk, walk-round}
use yuelaiengine_gateway.LoadBalancer.RoundRobin.Fairness.{drawn_id, null_of_pos, null_of_healthy}
use yuelaiengine_gateway.LoadBalancer.Weighted.{
  WeightedRoundRobinBalancer, get_next_instance, weighted, total_weight, select_by_weight,
  select_weighted,
}

-- Each instance as often as its weight says.
abbrev pub expand : List ServiceInstance → List ServiceInstance
expand [] = []
expand (x ∷ xs) = replicate (pos_part x.weight) x ++ expand xs

length-expand : (xs : List ServiceInstance) → length (expand xs) ≡ total_weight xs
length-expand [] = refl
length-expand (x ∷ xs) = omega (
  arith,
  length-append (replicate (pos_part x.weight) x) (expand xs),
  length-replicate (pos_part x.weight) x,
  length-expand xs,
)

get_elem?-replicate_append_lt :
    (n i : ℕ) (x : ServiceInstance) (ys : List ServiceInstance)
    → i < n
    → get_elem? (replicate n x ++ ys) i ≡ some x
get_elem?-replicate_append_lt zero i x ys h = absurd (omega arith)
get_elem?-replicate_append_lt (suc n) zero x ys h = refl
get_elem?-replicate_append_lt (suc n) (suc i) x ys h =
    get_elem?-replicate_append_lt n i x ys (omega arith)

get_elem?-replicate_append :
    (n i : ℕ) (x : ServiceInstance) (ys : List ServiceInstance)
    → get_elem? (replicate n x ++ ys) (n + i) ≡ get_elem? ys i
get_elem?-replicate_append zero i x ys = ap (get_elem? ys) (omega arith)
get_elem?-replicate_append (suc n) i x ys = rw suc-add (get_elem?-replicate_append n i x ys)

-- The loop over the cumulated weights is an index into the expanded list.
select_by_weight-expand :
    (target cumulative : ℕ) (selected : ServiceInstance) (xs : List ServiceInstance)
    → cumulative ≤ target
    → target < cumulative + total_weight xs
    → get_elem? (expand xs) (target - cumulative)
      ≡ some (select_by_weight target cumulative selected xs)
unfolding select_by_weight
select_by_weight-expand target cumulative selected [] l h = absurd (omega arith)
select_by_weight-expand target cumulative selected (x ∷ xs) l h =
    elim (Bool-cases (ltb target (cumulative + pos_part x.weight))) [
      | inl e ↦ rw e (
          get_elem?-replicate_append_lt (pos_part x.weight) (target - cumulative) x (expand xs)
            (ground arith))
      | inr e ↦
          let past : cumulative + pos_part x.weight ≤ target = ground arith in
          rw e (
            ap (get_elem? (expand (x ∷ xs))) (omega arith)
            ∙ get_elem?-replicate_append (pos_part x.weight)
                (target - (cumulative + pos_part x.weight)) x (expand xs)
            ∙ select_by_weight-expand target (cumulative + pos_part x.weight) selected xs past
                (omega arith))
    ]

select_weighted-expand :
    (target : ℕ) (xs : List ServiceInstance)
    → target < total_weight xs
    → select_weighted target xs ≡ elem_at (expand xs) target
unfolding select_weighted
select_weighted-expand target [] h = absurd (omega arith)
select_weighted-expand target (x ∷ xs) h =
    let found : get_elem? (expand (x ∷ xs)) target ≡ some (select_by_weight target 0 x (x ∷ xs)) =
      ap (get_elem? (expand (x ∷ xs))) (omega arith)
      ∙ select_by_weight-expand target 0 x (x ∷ xs) (omega arith) (omega arith) in
    rw (found, elem_at)

-- The answers to `n` requests in a row.
unfoldable pub picks : ℕ → WeightedRoundRobinBalancer → List (Result ServiceInstance)
picks zero w = []
picks (suc n) w = let (w', pick) = get_next_instance w in pick ∷ picks n w'

-- The instances by which a balancer goes round: each as often as its weight says, or each once where
-- no healthy instance has a weight.
abbrev pub shares : List ServiceInstance → List ServiceInstance
shares xs = if total_weight (weighted xs) == 0 then healthy xs else expand (weighted xs)

get_next_instance_ok :
    (w : WeightedRoundRobinBalancer)
    → 0 < length (healthy w.instances)
    → w.current < u64
    → get_next_instance w ≡ (
      record w { current = (w.current + 1) % u64 },
      elem_at (shares w.instances) (w.current % length (shares w.instances)),
    )
unfolding get_next_instance
get_next_instance_ok w h b = elim (Bool-cases (total_weight (weighted w.instances) == 0)) [
  | inl e ↦
      rw (
        null_of_healthy w.instances h,
        null_of_pos (healthy w.instances) h,
        e,
        drawn_id w.current b,
      )
  | inr e ↦
      let pos : 0 < total_weight (weighted w.instances) = ground arith in
      rw
        (
          null_of_healthy w.instances h,
          null_of_pos (healthy w.instances) h,
          e,
          drawn_id w.current b,
          length-expand (weighted w.instances),
        )
        (ap
          (λ (r : Result ServiceInstance).
            let next : WeightedRoundRobinBalancer × Result ServiceInstance =
              (record w { current = (w.current + 1) % u64 }, r) in
            next)
          (select_weighted-expand _ (weighted w.instances) (mod-lt _ pos)))
]

length-shares : (xs : List ServiceInstance) → 0 < length (healthy xs) → 0 < length (shares xs)
length-shares xs h = elim (Bool-cases (total_weight (weighted xs) == 0)) [
  | inl e ↦ rw e h
  | inr e ↦ rw (e, length-expand (weighted xs)) (ground arith)
]

picks-walk :
    (n : ℕ) (w : WeightedRoundRobinBalancer)
    → 0 < length (healthy w.instances)
    → w.current + n ≤ u64
    → picks n w ≡ walk (shares w.instances) n w.current
unfolding picks walk
picks-walk zero w h b = refl
picks-walk (suc zero) w h b = rw (get_next_instance_ok w h (omega arith))
picks-walk (suc (suc n)) w h b =
    let next : (w.current + 1) % u64 ≡ w.current + 1 = omega arith in
    let later : picks (suc n) (record w { current = w.current + 1 })
        ≡ walk (shares w.instances) (suc n) (w.current + 1) =
      picks-walk (suc n) (record w { current = w.current + 1 }) h (omega arith) in
    rw (get_next_instance_ok w h (omega arith)) (
      rw next
        (ap (◌∷◌ (elem_at (shares w.instances) (w.current % length (shares w.instances)))) later))

-- As long as the instances stay the same, as many requests in a row as the weights of the healthy
-- instances add up to are given each of them exactly as often as its weight says: in one run for
-- each, from the cursor's place on, and then from the start. Where no healthy instance has a weight,
-- each healthy one is given once in as many requests as there are. The cursor may not pass 2 ^ 64 on
-- the way.
pub picks-shares :
    (w : WeightedRoundRobinBalancer)
    → let turns = shares w.instances in
      0 < length (healthy w.instances)
      → w.current + length turns ≤ u64
      → picks (length turns) w
        ≡ map ok (drop (w.current % length turns) turns ++ take (w.current % length turns) turns)
picks-shares w h b =
    picks-walk _ w h b ∙ walk-round (shares w.instances) w.current (length-shares w.instances h)

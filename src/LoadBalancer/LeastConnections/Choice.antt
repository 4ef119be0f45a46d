-- ===== src/LoadBalancer/LeastConnections/Choice.antt =====
-- The chosen instance has the fewest connections, and a release undoes a choice.
use mathlib.Core.Path.{subst}
use mathlib.Core.Bool.{false≢true}
use yuelaiengine_gateway.Common.{
  ℕ, zero, suc, ◌+◌, ◌-◌, ◌≤◌, Bool, true, false, some, List, [], ◌∷◌, ◌≡◌, refl, ap, sym, ◌∙◌,
  arith, null, if◌then◌else◌, ltb, modify, get_elem?, All, Bool-cases, inl, inr, ◌⊎◌,
}
use yuelaiengine_gateway.LoadBalancer.Instance.{
  ServiceInstance, no_instances, ok, err, healthy, All-healthy, healthy_none,
}
use yuelaiengine_gateway.LoadBalancer.LeastConnections.{
  LeastConnectionsBalancer, placed, least, connected, take_least, get_next_instance,
}

abbrev IsBelow : ℕ → ℕ × ServiceInstance → Type 0
IsBelow n (_, x) = n ≤ x.connections

All-IsBelow :
    (m n : ℕ) (xs : List (ℕ × ServiceInstance)) → m ≤ n → All (IsBelow n) xs → All (IsBelow m) xs
All-IsBelow m n [] h all = tt
All-IsBelow m n (x ∷ xs) h (b, all) = (omega arith, All-IsBelow m n xs h all)

-- `r` is one of what the loop meets, and none of that has fewer connections.
abbrev IsLeast :
    (ℕ × ServiceInstance → Type 0)
    → ServiceInstance
    → List (ℕ × ServiceInstance)
    → ℕ × ServiceInstance
    → Type 0
IsLeast P x rest r = P r × (r.1.connections ≤ x.connections) × All (IsBelow r.1.connections) rest

least_lower :
    (i k : ℕ) (x z : ServiceInstance) (rest : List (ℕ × ServiceInstance))
    → ltb z.connections x.connections ≡ true
    → least x.connections (i, x) ((k, z) ∷ rest) ≡ least z.connections (k, z) rest
unfolding least
least_lower i k x z rest e = rw e

least_same :
    (i k : ℕ) (x z : ServiceInstance) (rest : List (ℕ × ServiceInstance))
    → ltb z.connections x.connections ≡ false
    → least x.connections (i, x) ((k, z) ∷ rest) ≡ least x.connections (i, x) rest
unfolding least
least_same i k x z rest e = rw e

least_lem :
    (P : ℕ × ServiceInstance → Type 0) (i : ℕ) (x : ServiceInstance)
    (rest : List (ℕ × ServiceInstance))
    → P (i, x)
    → All P rest
    → IsLeast P x rest (least x.connections (i, x) rest)
least_lem P i x [] p all = unfold least in (p, omega arith, tt)
least_lem P i x ((k, z) ∷ rest) p (q, all) = elim (Bool-cases (ltb z.connections x.connections)) [
  | inl e ↦
      let (a, b, c) = least_lem P k z rest q all in
      subst (IsLeast P x ((k, z) ∷ rest)) (sym (least_lower i k x z rest e))
        (a, ground arith, (b, c))
  | inr e ↦
      let (a, b, c) = least_lem P i x rest p all in
      subst (IsLeast P x ((k, z) ∷ rest)) (sym (least_same i k x z rest e))
        (a, b, (ground arith, c))
]

-- A place in the list, of an instance that is alive.
abbrev IsPlace : ℕ → List ServiceInstance → ℕ × ServiceInstance → Type 0
IsPlace n xs (i, x) = (n ≤ i) × (get_elem? xs (i - n) ≡ some x) × (x.alive ≡ true)

IsPlace-cons :
    (n : ℕ) (y : ServiceInstance) (xs : List ServiceInstance) (c : List (ℕ × ServiceInstance))
    → All (IsPlace (n + 1) xs) c
    → All (IsPlace n (y ∷ xs)) c
IsPlace-cons n y xs [] all = tt
IsPlace-cons n y xs ((i, x) ∷ c) ((l, e, a), all) =
    let moved : i - n ≡ suc (i - (n + 1)) = omega arith in
    ((omega arith, rw moved e, a), IsPlace-cons n y xs c all)

All-if {ℓ κ} :
    {A : Type ℓ} (P : A → Type κ) (b : Bool) (x : A) (xs : List A)
    → (b ≡ true → P x)
    → All P xs
    → All P (if b then x ∷ xs else xs)
All-if P true x xs p all = (p refl, all)
All-if P false x xs p all = all

placed-IsPlace : (n : ℕ) (xs : List ServiceInstance) → All (IsPlace n xs) (placed n xs)
placed-IsPlace n [] = tt
placed-IsPlace n (x ∷ xs) =
    All-if (IsPlace n (x ∷ xs)) x.alive (n, x) (placed (n + 1) xs) (λ a. (omega arith, here, a))
      (IsPlace-cons n x xs (placed (n + 1) xs) (placed-IsPlace (n + 1) xs))
  where
    here : get_elem? (x ∷ xs) (n - n) ≡ some x
    here = let none_left : n - n ≡ 0 = omega arith in rw none_left

-- What holds of all healthy instances with their places.
placed-All :
    (m n : ℕ) (xs : List ServiceInstance) (k : ℕ) (z : ServiceInstance)
    → All (IsBelow m) (placed n xs)
    → get_elem? xs k ≡ some z
    → z.alive ≡ true
    → m ≤ z.connections
placed-All m n [] k z all e a = absurd (ground arith)
placed-All m n (x ∷ xs) zero z all e a =
    (let same : x ≡ z = ground arith in
      first x.alive (rw same a) all (ap (λ (i : ServiceInstance). i.connections) same))
  where
    first :
        (b : Bool)
        → b ≡ true
        → All (IsBelow m) (if b then (n, x) ∷ placed (n + 1) xs else placed (n + 1) xs)
        → x.connections ≡ z.connections
        → m ≤ z.connections
    first true _ (h, _) q = omega arith
    first false h _ _ = absurd (false≢true h)
placed-All m n (x ∷ xs) (suc k) z all e a = placed-All m (n + 1) xs k z (later x.alive all) e a
  where
    later :
        (b : Bool)
        → All (IsBelow m) (if b then (n, x) ∷ placed (n + 1) xs else placed (n + 1) xs)
        → All (IsBelow m) (placed (n + 1) xs)
    later true (_, h) = h
    later false h = h

null_of_placed :
    (n : ℕ) (xs : List ServiceInstance) {c : ℕ × ServiceInstance} {cs : List (ℕ × ServiceInstance)}
    → placed n xs ≡ c ∷ cs
    → null xs ≡ false
null_of_placed n [] e = absurd (ground arith)
null_of_placed n (x ∷ xs) e = refl

-- What a request does when it is given an instance: `x` at place `j` before it is counted.
pub record IsChosen (l : LeastConnectionsBalancer) (j : ℕ) (x : ServiceInstance) : Type 0 where
  pub place : get_elem? l.instances j ≡ some x
  pub living : x.alive ≡ true
  pub fewest : All (λ (z : ServiceInstance). x.connections ≤ z.connections) (healthy l.instances)
  pub answered :
      get_next_instance l
      ≡ (record l { instances = modify l.instances j connected }, ok (connected x))

chosen :
    (l : LeastConnectionsBalancer) (i : ℕ) (x : ServiceInstance) (rest : List (ℕ × ServiceInstance))
    → placed 0 l.instances ≡ (i, x) ∷ rest
    → (j : ℕ) × (y : ServiceInstance) × IsChosen l j y
chosen l i x rest e =
    let all : All (IsPlace 0 l.instances) ((i, x) ∷ rest) =
      subst (All (IsPlace 0 l.instances)) e (placed-IsPlace 0 l.instances) in
    let r = least x.connections (i, x) ((i, x) ∷ rest) in
    let (at, below, fewest) = least_lem (IsPlace 0 l.instances) i x ((i, x) ∷ rest) all.0 all in
    (
      r.0,
      r.1,
      record {
        place = ap (get_elem? l.instances) (omega arith) ∙ at.1;
        living = at.2;
        fewest =
            All-healthy (λ (z : ServiceInstance). r.1.connections ≤ z.connections) l.instances
              (λ k z ez az.
                placed-All r.1.connections 0 l.instances k z
                  (subst (All (IsBelow r.1.connections)) (sym e) fewest) ez az);
        answered = answer;
      },
    )
  where
    answer : get_next_instance l ≡ (
        let r = least x.connections (i, x) ((i, x) ∷ rest) in
        (record l { instances = modify l.instances r.0 connected }, ok (connected r.1)))
    answer =
        unfold get_next_instance in
        rw (null_of_placed 0 l.instances e) (rw e (unfold take_least in refl))

placed_none :
    (n : ℕ) (xs : List ServiceInstance)
    → placed n xs ≡ []
    → (k : ℕ) (z : ServiceInstance) → get_elem? xs k ≡ some z
    → z.alive ≡ false
placed_none n xs e k z h = elim (Bool-cases z.alive) [
  | inl a ↦ absurd (
      not_above (
        placed-All (suc z.connections) n xs k z
          (subst (All (IsBelow (suc z.connections))) (sym e) tt) h a))
  | inr a ↦ a
]
  where
    not_above : suc z.connections ≤ z.connections → ⊥
    not_above h = omega arith

get_next_instance_none :
    (l : LeastConnectionsBalancer)
    → placed 0 l.instances ≡ []
    → get_next_instance l ≡ (l, err no_instances)
unfolding get_next_instance
get_next_instance_none l e = elim (Bool-cases (null l.instances)) [
  | inl q ↦ rw q
  | inr q ↦ rw (q, e) (unfold take_least in refl)
]

-- A request is given an instance that is alive and than which no living instance has fewer
-- connections; that instance alone is changed, to have one connection more. A request fails, and
-- changes nothing, exactly when no instance is alive.
pub get_next_instance-fewest :
    (l : LeastConnectionsBalancer)
    → ((j : ℕ) × (x : ServiceInstance) × IsChosen l j x)
      ⊎ ((healthy l.instances ≡ []) × (get_next_instance l ≡ (l, err no_instances)))
get_next_instance-fewest l = split (placed 0 l.instances) refl
  where
    split :
        (c : List (ℕ × ServiceInstance))
        → placed 0 l.instances ≡ c
        → ((j : ℕ) × (x : ServiceInstance) × IsChosen l j x)
          ⊎ ((healthy l.instances ≡ []) × (get_next_instance l ≡ (l, err no_instances)))
    split [] e =
        inr (healthy_none l.instances (placed_none 0 l.instances e), get_next_instance_none l e)
    split ((i, x) ∷ rest) e = inl (chosen l i x rest e)

-- ===== src/LoadBalancer/Instance.antt =====
-- internal/core/loadbalancer/loadbalancer.go, and the loops that the four balancers share.
-- The program holds pointers to instances; a pointer is the instance's place in the balancer's list,
-- which only grows. No nil instance is ever registered.
use yuelaiengine_gateway.Common.{
  ℕ, zero, suc, ◌+◌, ◌-◌, ◌%◌, Bool, true, false, Option, none, some, List, [], ◌∷◌, ◌≡◌, refl,
  arith, Bytes, text_eq, text_eq_iff, ℤ, get_elem?, modify, filter_by, if◌then◌else◌, u64, ◌<◌,
  length, get_elem?_total, In, get_elem?-filter_by, All, All-get_elem?, All-filter_by,
  filter_by_none,
}

pub record ServiceInstance : Type 0 where
  pub url : Bytes
  pub alive : Bool
  pub weight : ℤ
  pub connections : ℕ

-- The errors of the balancers; `out_of_range` stands for the panic of an index out of range.
pub data Error : Type 0 where
  no_instances no_healthy_instances out_of_range : Error
  instance_not_found : Bytes → Error
  service_not_found : Bytes → Error
  no_hash_selection : Bytes → Error

pub data Result {ℓ} (A : Type ℓ) : Type ℓ where
  ok : A → Result A
  err : Error → Result A

abbrev pub is_alive : ServiceInstance → Bool
is_alive i = i.alive

-- The loop that filters the healthy instances, which is all of `GetAllInstances`.
abbrev pub healthy : List ServiceInstance → List ServiceInstance
healthy = filter_by is_alive

-- `xs[i]`
abbrev pub elem_at {ℓ} : {A : Type ℓ} → List A → ℕ → Result A
elem_at xs i = elim (get_elem? xs i) [ none ↦ err out_of_range | some x ↦ ok x ]

-- `index.Add(1) - 1` on a counter of 64 bits: the number drawn, and the next value.
abbrev pub next_index : ℕ → ℕ
next_index n = (n + 1) % u64

abbrev pub drawn : ℕ → ℕ
drawn n = (next_index n + u64 - 1) % u64

-- The loop that changes the first instance with a URL; `none` if there is none.
unfoldable pub update_first :
    Bytes
    → (ServiceInstance → ServiceInstance)
    → List ServiceInstance
    → Option (List ServiceInstance)
update_first url f [] = none
update_first url f (x ∷ xs) =
    let rest = update_first url f xs in
    if text_eq x.url url
    then some (f x ∷ xs)
    else (elim rest [ none ↦ none | some ys ↦ some (x ∷ ys) ])

abbrev pub with_alive : Bool → ServiceInstance → ServiceInstance
with_alive alive i = record i { alive = alive }

-- What a balancer makes of the changed list, or the error of a URL that is not there.
abbrev pub found_or {ℓ} :
    {B : Type ℓ}
    → Bytes
    → B
    → (List ServiceInstance → B)
    → Option (List ServiceInstance)
    → B × Option Error
found_or url b f none = (b, some (instance_not_found url))
found_or url b f (some xs) = (f xs, none)

-- No two instances have the same URL.
abbrev pub DistinctUrls : List ServiceInstance → Type 0
DistinctUrls [] = Unit
DistinctUrls (x ∷ xs) =
    All (λ (y : ServiceInstance). text_eq x.url y.url ≡ false) xs × DistinctUrls xs

-- The first instance with the URL of the instance at place `j` is that instance.
pub update_first_at :
    (f : ServiceInstance → ServiceInstance) (xs : List ServiceInstance) (j : ℕ)
    (x : ServiceInstance)
    → DistinctUrls xs
    → get_elem? xs j ≡ some x
    → update_first x.url f xs ≡ some (modify xs j f)
unfolding update_first
update_first_at f [] j x d e = ground arith
update_first_at f (y ∷ xs) zero x (h, d) e =
    let same : y ≡ x = ground arith in rw (← same) (rw ((text_eq_iff y.url y.url).1 refl))
update_first_at f (y ∷ xs) (suc j) x (h, d) e =
    let later = update_first_at f xs j x d e in
    let differ : text_eq y.url x.url ≡ false =
      All-get_elem? (λ (z : ServiceInstance). text_eq y.url z.url ≡ false) xs j h e in
    rw (differ, later)

-- The healthy instances are registered and alive.
pub get_elem?-healthy :
    (xs : List ServiceInstance) (i : ℕ) (x : ServiceInstance)
    → get_elem? (healthy xs) i ≡ some x
    → In x xs × (x.alive ≡ true)
get_elem?-healthy xs i x e = get_elem?-filter_by is_alive xs i x e

pub elem_at-healthy :
    (xs : List ServiceInstance) (i : ℕ)
    → i < length (healthy xs)
    → (x : ServiceInstance) × (elem_at (healthy xs) i ≡ ok x) × In x xs × (x.alive ≡ true)
elem_at-healthy xs i h =
    let (x, e) = get_elem?_total (healthy xs) i h in
    let (k, a) = get_elem?-healthy xs i x e in (x, rw (e, elem_at), k, a)

-- What holds of every instance that is alive, wherever it stands, holds of the healthy ones.
pub All-healthy :
    (P : ServiceInstance → Type 0) (xs : List ServiceInstance)
    → ((k : ℕ) (z : ServiceInstance) → get_elem? xs k ≡ some z → z.alive ≡ true → P z)
    → All P (healthy xs)
All-healthy P xs h = All-filter_by P is_alive xs h

pub healthy_none :
    (xs : List ServiceInstance)
    → ((k : ℕ) (z : ServiceInstance) → get_elem? xs k ≡ some z → z.alive ≡ false)
    → healthy xs ≡ []
healthy_none xs h = filter_by_none is_alive xs h

-- ===== src/Proxy/Leaking.antt =====
-- What a choice that fails leaves behind in a least-connections balancer.
use yuelaiengine_gateway.Common.{
  ◌⊎◌, ◌≤◌, true, some_injective, ℕ, zero, suc, ◌+◌, ◌<◌, Bool, false, none, some, List, [], ◌∷◌,
  ◌≡◌, inl, inr, refl, ap, sym, All, In-filter_by, All-get_elem?, Bool-cases, ◌∙◌, arith, Bytes,
  length, modify, get_elem?,
}
use yuelaiengine_gateway.Config.{RouteConfig}
use yuelaiengine_gateway.Http.{Request}
use yuelaiengine_gateway.LoadBalancer.Instance.{ServiceInstance, Result, ok, is_alive, healthy}
use yuelaiengine_gateway.LoadBalancer.LeastConnections
use yuelaiengine_gateway.LoadBalancer.LeastConnections.{LeastConnectionsBalancer, connected}
use yuelaiengine_gateway.LoadBalancer.LeastConnections.Choice.{get_next_instance-fewest, IsChosen}
use yuelaiengine_gateway.LoadBalancer.Factory.{
  Balancer, least_connections, get_next_instance, get_all_instances,
}
use yuelaiengine_gateway.Proxy.{pick_by_key, retry, get_healthy_instance}
use yuelaiengine_gateway.LoadBalancer.RoundRobin.Fairness.{null_of_pos}
use yuelaiengine_gateway.Proxy.Picking.{none≢some}

-- The connections that are counted.
abbrev pub connections_of : List ServiceInstance → ℕ
connections_of [] = 0
connections_of (x ∷ xs) = x.connections + connections_of xs

connections_of-modify :
    (xs : List ServiceInstance) (j : ℕ) (x : ServiceInstance)
    → get_elem? xs j ≡ some x
    → connections_of (modify xs j connected) ≡ connections_of xs + 1
connections_of-modify [] j x e = absurd (none≢some x e)
connections_of-modify (y ∷ xs) zero x e = omega arith
connections_of-modify (y ∷ xs) (suc j) x e = omega (arith, connections_of-modify xs j x e)

length-healthy-modify :
    (xs : List ServiceInstance) (j : ℕ)
    → length (healthy (modify xs j connected)) ≡ length (healthy xs)
length-healthy-modify [] j = refl
length-healthy-modify (y ∷ xs) zero = ground arith
length-healthy-modify (y ∷ xs) (suc j) = ground (arith, length-healthy-modify xs j)

next-IsChosen :
    (l : LeastConnectionsBalancer) (j : ℕ) (x : ServiceInstance)
    → IsChosen l j x
    → get_next_instance (least_connections l) ≡ (
      least_connections (record l { instances = modify l.instances j connected }),
      ok (connected x),
    )
unfolding get_next_instance
next-IsChosen l j x c = rw c.answered

retry-rejected :
    (is_healthy : Bytes → Bool) (n : ℕ) (lb next : Balancer) (x : ServiceInstance)
    → get_next_instance lb ≡ (next, ok x)
    → is_healthy x.url ≡ false
    → retry is_healthy (suc n) lb ≡ retry is_healthy n next
unfolding retry
retry-rejected is_healthy n lb next x e sick =
    let picked : (get_next_instance lb).1 ≡ ok x =
      ap (λ (p : Balancer × Result ServiceInstance). p.1) e in
    let left : (get_next_instance lb).0 ≡ next =
      ap (λ (p : Balancer × Result ServiceInstance). p.0) e in
    rw (picked, retry) (rw (sick, retry) (ap (retry is_healthy n) left))

-- Only living instances have changed, and those by having as many connections or more.
abbrev pub HasGrown : List ServiceInstance → List ServiceInstance → Type 0
HasGrown [] [] = Unit
HasGrown [] (y ∷ ys) = ⊥
HasGrown (x ∷ xs) [] = ⊥
HasGrown (x ∷ xs) (y ∷ ys) =
    (y ≡ record x { connections = y.connections })
    × ((x.alive ≡ true) ⊎ (y.connections ≡ x.connections))
    × (x.connections ≤ y.connections)
    × HasGrown xs ys

HasGrown-refl : (xs : List ServiceInstance) → HasGrown xs xs
HasGrown-refl [] = tt
HasGrown-refl (x ∷ xs) = (refl, inr refl, omega arith, HasGrown-refl xs)

HasGrown-modify :
    (xs : List ServiceInstance) (j : ℕ) (x : ServiceInstance)
    → get_elem? xs j ≡ some x
    → x.alive ≡ true
    → HasGrown xs (modify xs j connected)
HasGrown-modify [] j x e a = absurd (none≢some x e)
HasGrown-modify (y ∷ xs) zero x e a =
    let same : y ≡ x = some_injective y x e in
    (refl, inl (ap (λ (z : ServiceInstance). z.alive) same ∙ a), omega arith, HasGrown-refl xs)
HasGrown-modify (y ∷ xs) (suc j) x e a = (refl, inr refl, omega arith, HasGrown-modify xs j x e a)

HasGrown-trans :
    (xs ys zs : List ServiceInstance) → HasGrown xs ys → HasGrown ys zs → HasGrown xs zs
HasGrown-trans [] [] zs g h = h
HasGrown-trans [] (y ∷ ys) zs g h = absurd g
HasGrown-trans (x ∷ xs) [] zs g h = absurd g
HasGrown-trans (x ∷ xs) (y ∷ ys) [] g h = absurd h
HasGrown-trans (x ∷ xs) (y ∷ ys) (z ∷ zs) (e, a, m, g) (f, b, n, h) = (
  f ∙ ap (λ (w : ServiceInstance). record w { connections = z.connections }) e,
  changed a b,
  omega (arith, m, n),
  HasGrown-trans xs ys zs g h,
)
  where
    changed :
        (x.alive ≡ true) ⊎ (y.connections ≡ x.connections)
        → (y.alive ≡ true) ⊎ (z.connections ≡ y.connections)
        → (x.alive ≡ true) ⊎ (z.connections ≡ x.connections)
    changed (inl p) q = inl p
    changed (inr p) (inl q) = inl (sym (ap (λ (w : ServiceInstance). w.alive) e) ∙ q)
    changed (inr p) (inr q) = inr (q ∙ p)

-- The health checker rejects each of the instances.
abbrev AreSick : (Bytes → Bool) → List ServiceInstance → Type 0
AreSick is_healthy xs = All (λ (x : ServiceInstance). is_healthy x.url ≡ false) xs

AreSick-living :
    (is_healthy : Bytes → Bool) (xs : List ServiceInstance) (j : ℕ) (x : ServiceInstance)
    → get_elem? xs j ≡ some x
    → x.alive ≡ true
    → AreSick is_healthy (healthy xs)
    → is_healthy x.url ≡ false
AreSick-living is_healthy xs j x e a sick =
    let (k, at) = In-filter_by is_alive xs x (j, e) a in
    All-get_elem? (λ (z : ServiceInstance). is_healthy z.url ≡ false) (healthy xs) k sick at

AreSick-modify :
    (is_healthy : Bytes → Bool) (xs : List ServiceInstance) (j : ℕ)
    → AreSick is_healthy (healthy xs)
    → AreSick is_healthy (healthy (modify xs j connected))
AreSick-modify is_healthy [] j sick = sick
AreSick-modify is_healthy (y ∷ xs) zero sick = elim (Bool-cases y.alive) [
  | inl a ↦ simp a (simp a at sick)
  | inr a ↦ simp a (simp a at sick)
]
AreSick-modify is_healthy (y ∷ xs) (suc j) sick = elim (Bool-cases y.alive) [
  | inl a ↦
      let (first, others) = simp a at sick in simp a (first, AreSick-modify is_healthy xs j others)
  | inr a ↦ simp a (AreSick-modify is_healthy xs j (simp a at sick))
]

retry-connections :
    (is_healthy : Bytes → Bool) (n : ℕ) (l : LeastConnectionsBalancer)
    → AreSick is_healthy (healthy l.instances)
    → 0 < length (healthy l.instances)
    → (l' : LeastConnectionsBalancer) × (retry is_healthy n (least_connections l)
        ≡ (least_connections l', none))
      × (connections_of l'.instances ≡ connections_of l.instances + n)
      × HasGrown l.instances l'.instances
unfolding retry
retry-connections is_healthy zero l sick some_left =
    (l, refl, omega arith, HasGrown-refl l.instances)
retry-connections is_healthy (suc n) l sick some_left = elim (get_next_instance-fewest l) [
  | inr (none_left, _) ↦ absurd (empty (healthy l.instances) none_left some_left)
  | inl (j, x, c) ↦
      let l1 : LeastConnectionsBalancer = record l { instances = modify l.instances j connected } in
      let same = length-healthy-modify l.instances j in
      let more = connections_of-modify l.instances j x c.place in
      let (l', e, total, grown) =
        retry-connections is_healthy n l1 (AreSick-modify is_healthy l.instances j sick)
          (rw same some_left) in
      let rejected = AreSick-living is_healthy l.instances j x c.place c.living sick in
      (
        l',
        retry-rejected is_healthy n (least_connections l) (least_connections l1) (connected x)
              (next-IsChosen l j x c) rejected
            ∙ e,
        omega arith,
        HasGrown-trans l.instances l1.instances l'.instances
            (HasGrown-modify l.instances j x c.place c.living) grown,
      )
]
  where
    empty : (xs : List ServiceInstance) → xs ≡ [] → 0 < length xs → ⊥
    empty [] e h = omega arith
    empty (y ∷ ys) e h = ground arith

-- Where the health checker rejects every instance that a least-connections balancer takes to be
-- alive, and there is one, a request fails and leaves connections counted: over all instances as many
-- more as there are living ones, each on a living instance, perhaps several on one. No instance has
-- fewer than before, and nothing else of the instances has changed.
pub get_healthy_instance-connections :
    (is_healthy : Bytes → Bool) (route : RouteConfig) (r : Request) (l : LeastConnectionsBalancer)
    → All (λ (x : ServiceInstance). is_healthy x.url ≡ false) (healthy l.instances)
    → 0 < length (healthy l.instances)
    → (l' : LeastConnectionsBalancer) × (get_healthy_instance is_healthy route r
          (least_connections l)
        ≡ (least_connections l', none))
      × (connections_of l'.instances ≡ connections_of l.instances + length (healthy l.instances))
      × HasGrown l.instances l'.instances
unfolding get_healthy_instance get_all_instances LeastConnections.get_all_instances pick_by_key
get_healthy_instance-connections is_healthy route r l sick some_left =
    let (l', e, total, grown) =
      retry-connections is_healthy (length (healthy l.instances)) l sick some_left in
    (l', rw (null_of_pos (healthy l.instances) some_left) e, total, grown)

-- ===== src/LoadBalancer/ConsistentHash/Ring.antt =====
-- The ring of a balancer holds exactly the living instances.
use yuelaiengine_gateway.Common.{
  same_bool, ℕ, zero, suc, ◌+◌, ◌-◌, ◌≤◌, ◌<◌, Bool, true, false, some, List, [], ◌∷◌, ◌++◌, ◌≡◌,
  refl, sym, ap, ◌∙◌, arith, Bytes, length, get_elem?, if◌then◌else◌, All, All-append, Bool-cases,
  Option-cases, inl, inr, ◌⊎◌,
}
use yuelaiengine_gateway.LoadBalancer.Instance.{ServiceInstance, update_first, with_alive}
use yuelaiengine_gateway.LoadBalancer.ConsistentHash.{
  HashRingEntry, ConsistentHashBalancer, virtual_nodes, ring_entries, rebuild_ring,
  register_instance, set_instance_alive, default_virtual_nodes, find_url,
}
use yuelaiengine_gateway.LoadBalancer.ConsistentHash.Search.{IsSorted}

-- What `sort.Slice` does with the entries: a list in order, of the same entries.
pub record IsSort (sort : List HashRingEntry → List HashRingEntry) : Type 1 where
  pub sorted : (es : List HashRingEntry) → IsSorted (sort es)
  pub kept : (P : HashRingEntry → Type 0) (es : List HashRingEntry) → All P es → All P (sort es)
  pub same_length : (es : List HashRingEntry) → length (sort es) ≡ length es

-- The entry points at a living instance.
abbrev pub IsLive : ℕ → List ServiceInstance → HashRingEntry → Type 0
IsLive n xs e =
    (n ≤ e.place)
    × ((x : ServiceInstance) × (get_elem? xs (e.place - n) ≡ some x) × (x.alive ≡ true))

pub record IsRing (c : ConsistentHashBalancer) : Type 0 where
  pub in_order : IsSorted c.ring
  pub live : All (IsLive 0 c.instances) c.ring
  pub covered :
      c.ring ≡ []
      → (k : ℕ) (z : ServiceInstance) → get_elem? c.instances k ≡ some z
      → z.alive ≡ false

virtual_nodes-All :
    (P : HashRingEntry → Type 0) (url : Bytes) (place i n : ℕ)
    → ((h : ℕ) → P (record { hash = h; place = place }))
    → All P (virtual_nodes url place i n)
unfolding virtual_nodes
virtual_nodes-All P url place i zero p = tt
virtual_nodes-All P url place i (suc n) p = (p _, virtual_nodes-All P url place (i + 1) n p)

IsLive-cons :
    (n : ℕ) (y : ServiceInstance) (xs : List ServiceInstance) (es : List HashRingEntry)
    → All (IsLive (n + 1) xs) es
    → All (IsLive n (y ∷ xs)) es
IsLive-cons n y xs [] all = tt
IsLive-cons n y xs (e ∷ es) ((l, (x, q, a)), all) =
    let moved : e.place - n ≡ suc (e.place - (n + 1)) = omega arith in
    ((omega arith, (x, rw moved q, a)), IsLive-cons n y xs es all)

All-if_append :
    (P : HashRingEntry → Type 0) (b : Bool) (xs ys : List HashRingEntry)
    → (b ≡ true → All P xs)
    → All P ys
    → All P (if b then xs ++ ys else ys)
All-if_append P true xs ys hx hy = All-append P xs ys (hx refl) hy
All-if_append P false xs ys hx hy = hy

ring_entries-All : (n : ℕ) (xs : List ServiceInstance) → All (IsLive n xs) (ring_entries n xs)
unfolding ring_entries
ring_entries-All n [] = tt
ring_entries-All n (x ∷ xs) =
    All-if_append (IsLive n (x ∷ xs)) x.alive (virtual_nodes x.url n 0 default_virtual_nodes)
      (ring_entries (n + 1) xs)
      (λ a.
        virtual_nodes-All (IsLive n (x ∷ xs)) x.url n 0 default_virtual_nodes
          (λ h. (omega arith, (x, here, a))))
      (IsLive-cons n x xs (ring_entries (n + 1) xs) (ring_entries-All (n + 1) xs))
  where
    here : get_elem? (x ∷ xs) (n - n) ≡ some x
    here = let none_left : n - n ≡ 0 = omega arith in rw none_left

length-virtual_nodes : (url : Bytes) (place i n : ℕ) → length (virtual_nodes url place i n) ≡ n
unfolding virtual_nodes
length-virtual_nodes url place i zero = refl
length-virtual_nodes url place i (suc n) = ap suc (length-virtual_nodes url place (i + 1) n)

if_append_empty :
    (b : Bool) (xs ys : List HashRingEntry)
    → 0 < length xs
    → length (if b then xs ++ ys else ys) ≡ 0
    → (b ≡ false) × (length ys ≡ 0)
if_append_empty true [] ys p e = absurd (omega arith)
if_append_empty true (x ∷ xs) ys p e = absurd (omega arith)
if_append_empty false xs ys p e = (refl, e)

some_nodes : (url : Bytes) (n : ℕ) → 0 < length (virtual_nodes url n 0 default_virtual_nodes)
some_nodes url n = rw (length-virtual_nodes url n 0 default_virtual_nodes) (omega arith)

-- No entries means that no instance is alive.
ring_entries_empty :
    (n : ℕ) (xs : List ServiceInstance)
    → length (ring_entries n xs) ≡ 0
    → (k : ℕ) (z : ServiceInstance) → get_elem? xs k ≡ some z
    → z.alive ≡ false
unfolding ring_entries
ring_entries_empty n [] e k z h = absurd (ground arith)
ring_entries_empty n (x ∷ xs) e zero z h =
    let same : x ≡ z = ground arith in
    let (dead, _) = if_append_empty x.alive _ (ring_entries (n + 1) xs) (some_nodes x.url n) e in
    rw (← same) dead
ring_entries_empty n (x ∷ xs) e (suc k) z h =
    let (_, rest) = if_append_empty x.alive _ (ring_entries (n + 1) xs) (some_nodes x.url n) e in
    ring_entries_empty (n + 1) xs rest k z h

module _ (sort : List HashRingEntry → List HashRingEntry) (ok_sort : IsSort sort) where
  pub rebuild_ring-IsRing : (c : ConsistentHashBalancer) → IsRing (rebuild_ring sort c)
  unfolding rebuild_ring
  rebuild_ring-IsRing c = record {
    in_order = ok_sort.sorted (ring_entries 0 c.instances);
    live = ok_sort.kept (IsLive 0 c.instances) _ (ring_entries-All 0 c.instances);
    covered = λ e k z h.
        ring_entries_empty 0 c.instances
          (sym (ok_sort.same_length (ring_entries 0 c.instances)) ∙ ap length e) k z h;
  }

  -- With a sort that keeps the entries and puts them in order, registering an instance makes a proper
  -- ring: its entries are in order and point at living instances, and it is empty only if no instance
  -- is alive.
  pub register_instance-IsRing :
      (i : ServiceInstance) (c : ConsistentHashBalancer) → IsRing (register_instance sort i c)
  unfolding register_instance
  register_instance-IsRing i c =
      rebuild_ring-IsRing (record c { instances = c.instances ++ i ∷ [] })

  -- With such a sort, changing the health of an instance keeps a proper ring proper.
  pub set_instance_alive-IsRing :
      (url : Bytes) (alive : Bool) (c : ConsistentHashBalancer)
      → IsRing c
      → IsRing (set_instance_alive sort url alive c).0
  unfolding set_instance_alive
  set_instance_alive-IsRing url alive c r = elim (set_cases url alive c) [
    | inl same ↦ rw same r
    | inr (xs, made) ↦ rw made (rebuild_ring-IsRing (record c { instances = xs }))
  ]
    where
      set_cases :
          (url : Bytes) (alive : Bool) (c : ConsistentHashBalancer)
          → ((set_instance_alive sort url alive c).0 ≡ c)
            ⊎ ((xs : List ServiceInstance) × ((set_instance_alive sort url alive c).0
                  ≡ rebuild_ring sort (record c { instances = xs })))
      set_cases url alive c = elim (Option-cases (find_url url c.instances)) [
        | inl e ↦ inl (rw (e, set_instance_alive))
        | inr (x, e) ↦ elim (Bool-cases (same_bool x.alive alive)) [
          | inl q ↦ inl (rw (e, set_instance_alive) (rw q))
          | inr q ↦ elim (Option-cases (update_first url (with_alive alive) c.instances)) [
            | inl u ↦ inl (rw (e, set_instance_alive) (rw (q, u)))
            | inr (xs, u) ↦ inr (xs, rw (e, set_instance_alive) (rw (q, u)))
          ]
        ]
      ]

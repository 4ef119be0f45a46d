-- ===== src/LoadBalancer/ConsistentHash.antt =====
-- internal/core/loadbalancer/consistent_hash.go. An entry of the ring holds a pointer to its
-- instance, which is the instance's place. `sort.Slice` is not stable and leaves the order of equal
-- hashes open, so the sort is the parameter `sort`.
pub mod Search
pub mod Ring
pub mod Lookup
use Prim.Native.String.{String}
use mathlib.Core.Option
use yuelaiengine_gateway.Common.{
  same_bool, ℕ, zero, suc, ◌+◌, ◌-◌, ◌/◌, ◌%◌, ◌≤◌, Bool, true, false, not, ◌&&◌, Option, none,
  some, List, [], ◌∷◌, ◌++◌, Bytes, lit, length, null, if◌then◌else◌, ltb, leb, get_elem?, itoa,
  fnv32a, All, In, text_eq, u64,
}
use yuelaiengine_gateway.LoadBalancer.Instance.{
  ServiceInstance, Error, no_healthy_instances, instance_not_found, Result, ok, err, healthy,
  update_first, with_alive, next_index,
}

pub record HashRingEntry : Type 0 where
  pub hash : ℕ
  pub place : ℕ

pub record ConsistentHashBalancer : Type 0 where
  pub instances : List ServiceInstance
  pub ring : List HashRingEntry
  pub counter : ℕ

abbrev pub new_consistent_hash : ConsistentHashBalancer
new_consistent_hash = record { instances = []; ring = []; counter = 0 }

abbrev pub default_virtual_nodes : ℕ
default_virtual_nodes = 100

-- `hashString`
abbrev pub hash_string : Bytes → ℕ
hash_string = fnv32a

-- The inner loop of `rebuildRingLocked`: `n` virtual nodes from number `i` on.
unfoldable pub virtual_nodes : Bytes → ℕ → ℕ → ℕ → List HashRingEntry
virtual_nodes url place i zero = []
virtual_nodes url place i (suc n) =
    record { hash = hash_string (url ++ lit "#" ++ itoa i); place = place }
    ∷ virtual_nodes url place (i + 1) n

-- The outer loop of `rebuildRingLocked`, over the instances from place `i` on.
unfoldable pub ring_entries : ℕ → List ServiceInstance → List HashRingEntry
ring_entries i [] = []
ring_entries i (x ∷ xs) =
    let rest = ring_entries (i + 1) xs in
    if x.alive then virtual_nodes x.url i 0 default_virtual_nodes ++ rest else rest

unfoldable pub rebuild_ring :
    (List HashRingEntry → List HashRingEntry) → ConsistentHashBalancer → ConsistentHashBalancer
rebuild_ring sort c = record c { ring = sort (ring_entries 0 c.instances) }

-- `sort.Search`, from `i` up to `j`, with fuel.
unfoldable pub search : ℕ → (ℕ → Bool) → ℕ → ℕ → ℕ
search zero f i j = i
search (suc fuel) f i j =
    let h = (i + j) / 2 in
    let rest = search fuel f (if not (f h) then h + 1 else i) (if not (f h) then j else h) in
    if ltb i j then rest else i

-- `ring[i].hash >= target`
abbrev pub is_at_least : List HashRingEntry → ℕ → ℕ → Bool
is_at_least ring target i = elim (get_elem? ring i) [ none ↦ false | some e ↦ leb target e.hash ]

unfoldable pub pick_from_ring : List HashRingEntry → Bytes → Option ℕ
pick_from_ring ring key =
    if null ring
    then none
    else (let idx = search (length ring) (is_at_least ring (hash_string key)) 0 (length ring) in
        let idx' : ℕ = if leb (length ring) idx then 0 else idx in
        Option.map (λ (e : HashRingEntry). e.place) (get_elem? ring idx'))

abbrev pub instance_at : ConsistentHashBalancer → Option ℕ → Result ServiceInstance
instance_at c none = err no_healthy_instances
instance_at c (some i) = elim (get_elem? c.instances i) [
  | none ↦ err no_healthy_instances
  | some x ↦ ok x
]

unfoldable pub get_instance_by_key : Bytes → ConsistentHashBalancer → Result ServiceInstance
get_instance_by_key key c = instance_at c (pick_from_ring c.ring key)

unfoldable pub get_next_instance :
    ConsistentHashBalancer → ConsistentHashBalancer × Result ServiceInstance
get_next_instance c =
    let c' : ConsistentHashBalancer = record c { counter = next_index c.counter } in
    (c', get_instance_by_key (itoa c'.counter) c')

unfoldable pub get_all_instances : ConsistentHashBalancer → List ServiceInstance
get_all_instances c = healthy c.instances

unfoldable pub register_instance :
    (List HashRingEntry → List HashRingEntry)
    → ServiceInstance
    → ConsistentHashBalancer
    → ConsistentHashBalancer
register_instance sort i c = rebuild_ring sort (record c { instances = c.instances ++ i ∷ [] })

-- The first instance with the URL, if there is one.
unfoldable pub find_url : Bytes → List ServiceInstance → Option ServiceInstance
find_url url [] = none
find_url url (x ∷ xs) = if text_eq x.url url then some x else find_url url xs

unfoldable pub set_instance_alive :
    (List HashRingEntry → List HashRingEntry)
    → Bytes
    → Bool
    → ConsistentHashBalancer
    → ConsistentHashBalancer × Option Error
set_instance_alive sort url alive c = elim (find_url url c.instances) [
  | none ↦ (c, some (instance_not_found url))
  | some x ↦
      if same_bool x.alive alive
      then (c, none)
      else (elim (update_first url (with_alive alive) c.instances) [
        | none ↦ (c, none)
        | some xs ↦ (rebuild_ring sort (record c { instances = xs }), none)
      ])
]

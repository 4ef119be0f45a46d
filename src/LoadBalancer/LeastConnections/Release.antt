-- ===== src/LoadBalancer/LeastConnections/Release.antt =====
-- A connection that is released is the one that was taken.
use yuelaiengine_gateway.Common.{
  ℕ, zero, suc, false, none, some, List, [], ◌∷◌, ◌≡◌, arith, modify, get_elem?,
  get_elem?-modify_self, modify_undo, text_eq, All, inl, inr,
}
use yuelaiengine_gateway.LoadBalancer.Instance.{ServiceInstance, ok, update_first_at, DistinctUrls}
use yuelaiengine_gateway.LoadBalancer.LeastConnections.{
  LeastConnectionsBalancer, connected, get_next_instance, released, release_connection,
}
use yuelaiengine_gateway.LoadBalancer.LeastConnections.Choice.{get_next_instance-fewest}

All-modify :
    (P : ServiceInstance → Type 0) (xs : List ServiceInstance) (j : ℕ)
    → ((x : ServiceInstance) → P x → P (connected x))
    → All P xs
    → All P (modify xs j connected)
All-modify P [] j keep all = tt
All-modify P (x ∷ xs) zero keep (p, all) = (keep x p, all)
All-modify P (x ∷ xs) (suc j) keep (p, all) = (p, All-modify P xs j keep all)

DistinctUrls-modify :
    (xs : List ServiceInstance) (j : ℕ) → DistinctUrls xs → DistinctUrls (modify xs j connected)
DistinctUrls-modify [] j d = tt
DistinctUrls-modify (x ∷ xs) zero d = d
DistinctUrls-modify (x ∷ xs) (suc j) (h, d) = (
  All-modify (λ (y : ServiceInstance). text_eq x.url y.url ≡ false) xs j (λ y h. h) h,
  DistinctUrls-modify xs j d,
)

release_chosen :
    (l : LeastConnectionsBalancer) (j : ℕ) (y : ServiceInstance)
    → DistinctUrls l.instances
    → get_elem? l.instances j ≡ some y
    → release_connection y.url (record l { instances = modify l.instances j connected }) ≡ (l, none)
unfolding release_connection
release_chosen l j y d e =
    rw
      (update_first_at released (modify l.instances j connected) j (connected y)
        (DistinctUrls-modify l.instances j d) (get_elem?-modify_self l.instances j connected y e))
      (rw (modify_undo l.instances j connected released y e undo))
  where
    undo : released (connected y) ≡ y
    undo = ground arith

-- With distinct URLs, releasing the connection of the instance that a request was given puts the
-- balancer back to where it was before the request.
pub release_connection-get_next_instance :
    (l : LeastConnectionsBalancer) (x : ServiceInstance)
    → DistinctUrls l.instances
    → (get_next_instance l).1 ≡ ok x
    → release_connection x.url (get_next_instance l).0 ≡ (l, none)
release_connection-get_next_instance l x d e = elim (get_next_instance-fewest l) [
  | inl (j, y, c) ↦
      let given : connected y ≡ x = ground (arith, c.answered) in
      rw (c.answered, ← given) (release_chosen l j y d c.place)
  | inr (_, none_left) ↦ absurd (ground (arith, none_left))
]

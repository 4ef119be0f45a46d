-- ===== src/Limiter/Shards.antt =====
-- The shards together are one map from clients to buckets.
use yuelaiengine_gateway.Common.{
  ℕ, zero, suc, ◌%◌, ◌<◌, Bool, false, Option, some, List, [], ◌∷◌, ◌≡◌, ◌≢◌, refl, inl, inr, ap,
  arith, Bytes, Map, get, put, get-put, length, length-modify, modify, fnv32a, if◌then◌else◌,
  text_eq, text_eq_iff, Bool-cases,
}
use yuelaiengine_gateway.Limiter.TokenBucket.{
  Bucket, MemoryTokenBucket, new_memory_token_bucket, shard_index, shard_at, take_token,
  bucket_or_full, allow,
}
use native.Mathlib.Decide.{ℕ_discrete}

-- The bucket of a client, wherever it is kept.
unfoldable pub bucket_of : Bytes → MemoryTokenBucket → Option Bucket
bucket_of identifier b = get identifier (shard_at b.shards (shard_index b identifier))

shard_at-modify :
    (shards : List (Map Bucket)) (i : ℕ) (f : Map Bucket → Map Bucket)
    → i < length shards
    → shard_at (modify shards i f) i ≡ f (shard_at shards i)
shard_at-modify [] i f h = absurd (omega arith)
shard_at-modify (x ∷ xs) zero f h = refl
shard_at-modify (x ∷ xs) (suc i) f h = shard_at-modify xs i f (omega arith)

shard_at-modify_ne :
    (shards : List (Map Bucket)) (i j : ℕ) (f : Map Bucket → Map Bucket)
    → i ≢ j
    → shard_at (modify shards i f) j ≡ shard_at shards j
shard_at-modify_ne [] i j f h = refl
shard_at-modify_ne (x ∷ xs) zero zero f h = absurd (h refl)
shard_at-modify_ne (x ∷ xs) zero (suc j) f h = refl
shard_at-modify_ne (x ∷ xs) (suc i) zero f h = refl
shard_at-modify_ne (x ∷ xs) (suc i) (suc j) f h = shard_at-modify_ne xs i j f (λ e. h (ap suc e))

pub shard_index-lt :
    (b : MemoryTokenBucket) (identifier : Bytes)
    → 0 < length b.shards
    → shard_index b identifier < length b.shards
unfolding shard_index
shard_index-lt b identifier h = grind arith

pub length-shards-allow :
    (refill : ℕ → ℕ → ℕ) (now : ℕ) (identifier : Bytes) (b : MemoryTokenBucket)
    → length (allow refill now identifier b).0.shards ≡ length b.shards
unfolding allow
length-shards-allow refill now identifier b = length-modify b.shards _ _

pub length-shards-new :
    (capacity rate : ℕ) (name : Bytes)
    → length (new_memory_token_bucket capacity rate name).shards ≡ 256
unfolding new_memory_token_bucket
length-shards-new capacity rate name = refl

shard_index-allow :
    (refill : ℕ → ℕ → ℕ) (now : ℕ) (identifier other : Bytes) (b : MemoryTokenBucket)
    → shard_index (allow refill now identifier b).0 other ≡ shard_index b other
unfolding shard_index
shard_index-allow refill now identifier other b =
    ap (λ (n : ℕ). fnv32a other % n) (length-shards-allow refill now identifier b)

get_shard-put :
    (shards : List (Map Bucket)) (idx : Bytes → ℕ) (k other : Bytes) (v : Bucket)
    → idx k < length shards
    → get other (shard_at (modify shards (idx k) (put k v)) (idx other))
      ≡ (if text_eq k other then some v else get other (shard_at shards (idx other)))
get_shard-put shards idx k other v h = elim (ℕ_discrete (idx k) (idx other)) [
  | yes e ↦ rw (← e) (
      rw (shard_at-modify shards (idx k) (put k v) h) (get-put k other v (shard_at shards (idx k))))
  | no ne ↦
      let differ : text_eq k other ≡ false = elim (Bool-cases (text_eq k other)) [
        | inl q ↦ absurd (ne (ap idx ((text_eq_iff k other).0 q)))
        | inr q ↦ q
      ] in
      rw (differ, shard_at-modify_ne shards (idx k) (idx other) (put k v) ne)
]

-- The step of the client's own bucket.
abbrev pub own_step : (ℕ → ℕ → ℕ) → ℕ → Bytes → MemoryTokenBucket → Bucket × Bool
own_step refill now identifier b =
    take_token refill b.capacity b.refill_rate now
      (bucket_or_full b.capacity now (bucket_of identifier b))

-- `Allow` behaves as on a single map from clients to buckets, although the buckets are kept in shards
-- that distinct clients share: it answers from the client's own bucket, full for a new client, stores
-- what `take_token` leaves of that bucket, and leaves the bucket of every other client as it was.
pub bucket_of-allow :
    (refill : ℕ → ℕ → ℕ) (now : ℕ) (identifier other : Bytes) (b : MemoryTokenBucket)
    → 0 < length b.shards
    → ((allow refill now identifier b).1 ≡ (own_step refill now identifier b).1)
      × (bucket_of other (allow refill now identifier b).0 ≡ (
          if text_eq identifier other
          then some (own_step refill now identifier b).0
          else bucket_of other b))
unfolding bucket_of
bucket_of-allow refill now identifier other b h = (
  unfold allow in refl,
  rw (shard_index-allow refill now identifier other b) (
      unfold allow in
      get_shard-put b.shards (shard_index b) identifier other _ (shard_index-lt b identifier h)),
)

-- ===== src/Limiter/TokenBucket.antt =====
-- internal/core/limiter/token_bucket.go: a token bucket for each client, in 256 shards.
-- `Allow` runs under its shard's lock, so it is one step; `now` is the monotonic clock in
-- nanoseconds. Capacity and rate are not negative: `validateGatewayConfig` refuses other ones.
-- The program computes `int(elapsed.Seconds() * float64(refillRate))` in floating point, which is
-- the parameter `refill`, of the elapsed time and the rate.
use yuelaiengine_gateway.Common.{
  ℕ, ◌+◌, ◌-◌, ◌%◌, Bool, true, false, Option, none, some, List, [], Bytes, Map, get, put, length,
  replicate, modify, get_elem?, ltb, fnv32a, if◌then◌else◌,
}

pub record Bucket : Type 0 where
  pub tokens : ℕ
  pub last_check : ℕ

pub record MemoryTokenBucket : Type 0 where
  pub name : Bytes
  pub capacity : ℕ
  pub refill_rate : ℕ
  pub shards : List (Map Bucket)

abbrev pub shard_count : ℕ
shard_count = 256

unfoldable pub new_memory_token_bucket : ℕ → ℕ → Bytes → MemoryTokenBucket
new_memory_token_bucket capacity refill_rate name = record {
  name = name;
  capacity = capacity;
  refill_rate = refill_rate;
  shards = replicate shard_count [];
}

unfoldable pub shard_index : MemoryTokenBucket → Bytes → ℕ
shard_index b identifier = fnv32a identifier % length b.shards

abbrev pub shard_at : List (Map Bucket) → ℕ → Map Bucket
shard_at shards i = elim (get_elem? shards i) [ none ↦ [] | some shard ↦ shard ]

-- `if refillCount > 0 { … }`
unfoldable pub added : ℕ → ℕ → Bucket → Bucket
added refill_count now b =
    if ltb 0 refill_count then record { tokens = b.tokens + refill_count; last_check = now } else b

-- `if currentBucket.tokens > b.capacity { … }`
unfoldable pub capped : ℕ → Bucket → Bucket
capped capacity b = if ltb capacity b.tokens then record b { tokens = capacity } else b

-- The lines of `Allow` that take a token, if there is one.
unfoldable pub spend : Bucket → Bucket × Bool
spend b = if ltb 0 b.tokens then (record b { tokens = b.tokens - 1 }, true) else (b, false)

-- The part of `Allow` that works on the client's bucket.
unfoldable pub take_token : (ℕ → ℕ → ℕ) → ℕ → ℕ → ℕ → Bucket → Bucket × Bool
take_token refill capacity rate now b =
    spend (capped capacity (added (refill (now - b.last_check) rate) now b))

-- The bucket of a client; a new client's is full.
unfoldable pub bucket_or_full : ℕ → ℕ → Option Bucket → Bucket
bucket_or_full capacity now none = record { tokens = capacity; last_check = now }
bucket_or_full capacity now (some b) = b

unfoldable pub allow : (ℕ → ℕ → ℕ) → ℕ → Bytes → MemoryTokenBucket → MemoryTokenBucket × Bool
allow refill now identifier b =
    let i = shard_index b identifier in
    let current = bucket_or_full b.capacity now (get identifier (shard_at b.shards i)) in
    let (next, allowed) = take_token refill b.capacity b.refill_rate now current in
    (record b { shards = modify b.shards i (put identifier next) }, allowed)

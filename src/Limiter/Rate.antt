-- ===== src/Limiter/Rate.antt =====
-- How many requests a client gets through: the bound that a token bucket exists for.
use yuelaiengine_gateway.Common.{
  ℕ, zero, suc, ◌+◌, ◌-◌, ◌*◌, ◌≤◌, ◌<◌, Option, none, some, List, [], ◌∷◌, ◌≡◌, refl, inl, inr, ap,
  sym, ◌∙◌, arith, Bytes, if◌then◌else◌, text_eq, text_eq_iff, Bool-cases, length, get, replicate,
  ◌&&◌, ltb,
}
use native.Mathlib.Nat.{add-mul, le_trans, le_refl}
use yuelaiengine_gateway.Limiter.TokenBucket.{
  Bucket, MemoryTokenBucket, new_memory_token_bucket, added, capped, spend, shard_at, take_token,
  bucket_or_full, allow,
}
use yuelaiengine_gateway.Limiter.Shards.{
  bucket_of, bucket_of-allow, own_step, length-shards-allow, length-shards-new,
}

-- Nanoseconds in a second.
abbrev pub second : ℕ
second = 1_000_000_000

-- The refill is at most the elapsed time by the rate. In floating point, where the product is off by
-- less than one part in 2 ^ 51, that is so while the product is below 2 ^ 50 nanoseconds by the rate.
abbrev pub IsBounded : (ℕ → ℕ → ℕ) → Type 0
IsBounded refill = (elapsed rate : ℕ) → refill elapsed rate * second ≤ elapsed * rate

-- Times that do not go back, from `t` to `end` at most.
abbrev pub IsOrdered : ℕ → ℕ → List (ℕ × Bytes) → Type 0
IsOrdered t end [] = t ≤ end
IsOrdered t end ((now, _) ∷ rs) = (t ≤ now) × IsOrdered now end rs

-- How many of the requests of `identifier` get through, among requests of any clients.
unfoldable pub granted : (ℕ → ℕ → ℕ) → Bytes → MemoryTokenBucket → List (ℕ × Bytes) → ℕ
granted refill identifier b [] = 0
granted refill identifier b ((now, i) ∷ rs) =
    let (b', allowed) = allow refill now i b in
    (if text_eq i identifier && allowed then 1 else 0) + granted refill identifier b' rs

mul_split : (a b r : ℕ) → a ≤ b → (b - a) * r + a * r ≡ b * r
mul_split a b r h = sym (add-mul (b - a) a r) ∙ ap (λ (n : ℕ). n * r) (omega arith)

IsOrdered-le : (t end : ℕ) (rs : List (ℕ × Bytes)) → IsOrdered t end rs → t ≤ end
IsOrdered-le t end [] h = h
IsOrdered-le t end ((now, _) ∷ rs) (h, hs) = le_trans h (IsOrdered-le now end rs hs)

added_credit :
    (count rate now : ℕ) (b : Bucket)
    → b.last_check ≤ now
    → count * second ≤ (now - b.last_check) * rate
    → let b' = added count now b in
      (b'.tokens * second + b.last_check * rate ≤ b.tokens * second + b'.last_check * rate)
      × (b'.last_check ≤ now)
unfolding added
added_credit count rate now b l h = elim (Bool-cases (ltb 0 count)) [
  | inl e ↦ rw e (earned, omega arith)
  | inr e ↦ rw e (omega arith, omega arith)
]
  where
    earned : (b.tokens + count) * second + b.last_check * rate ≤ b.tokens * second + now * rate
    earned = omega (arith, mul_split b.last_check now rate l)

capped_credit :
    (capacity : ℕ) (b : Bucket)
    → ((capped capacity b).tokens ≤ b.tokens) × ((capped capacity b).last_check ≡ b.last_check)
unfolding capped
capped_credit capacity b = ground arith

spend_credit :
    (b : Bucket)
    → ((spend b).0.tokens + (if (spend b).1 then 1 else 0) ≡ b.tokens)
      × ((spend b).0.last_check ≡ b.last_check)
unfolding spend
spend_credit b = ground arith

-- A token that is taken was in the bucket, or was earned since the bucket's last refill.
take_token_credit :
    (refill : ℕ → ℕ → ℕ) (capacity rate now : ℕ) (b : Bucket)
    → IsBounded refill
    → b.last_check ≤ now
    → let (b', allowed) = take_token refill capacity rate now b in
      ((b'.tokens + (if allowed then 1 else 0)) * second + b.last_check * rate
        ≤ b.tokens * second + b'.last_check * rate)
      × (b'.last_check ≤ now)
unfolding take_token
take_token_credit refill capacity rate now b bounded l =
    let count : ℕ = refill (now - b.last_check) rate in
    let (gain, l') = added_credit count rate now b l (bounded (now - b.last_check) rate) in
    let (less, same) = capped_credit capacity (added count now b) in
    let s = spend_credit (capped capacity (added count now b)) in
    (rw (s.0, s.1, same) (omega arith), rw (s.1, same) l')

mul_mono : (a b r : ℕ) → a ≤ b → a * r ≤ b * r
mul_mono a b r h = grind arith

-- A new client's bucket counts from its first request.
or_full_earlier :
    (capacity rate t now end n : ℕ) (o : Option Bucket)
    → t ≤ now
    → n * second + (bucket_or_full capacity now o).last_check * rate
      ≤ (bucket_or_full capacity now o).tokens * second + end * rate
    → n * second + (bucket_or_full capacity t o).last_check * rate
      ≤ (bucket_or_full capacity t o).tokens * second + end * rate
unfolding bucket_or_full
or_full_earlier capacity rate t now end n none l h = omega (arith, mul_mono t now rate l)
or_full_earlier capacity rate t now end n (some b) l h = h

or_full_later :
    (capacity t now : ℕ) (o : Option Bucket)
    → t ≤ now
    → (bucket_or_full capacity t o).last_check ≤ t
    → (bucket_or_full capacity now o).last_check ≤ now
unfolding bucket_or_full
or_full_later capacity t now none l h = omega arith
or_full_later capacity t now (some b) l h = omega arith

-- The settings of a limiter, which requests leave alone.
abbrev HasSettings : ℕ → ℕ → MemoryTokenBucket → Type 0
HasSettings capacity rate b =
    (0 < length b.shards) × (b.capacity ≡ capacity) × (b.refill_rate ≡ rate)

module _ (refill : ℕ → ℕ → ℕ) (bounded : IsBounded refill) (capacity rate end : ℕ) where
  -- What a client gets and the credit it has used up, against what its bucket holds at time `t`.
  abbrev Credit : ℕ → Option Bucket → ℕ → Type 0
  Credit t o n =
      let bucket = bucket_or_full capacity t o in
      n * second + bucket.last_check * rate ≤ bucket.tokens * second + end * rate

  take_token-Credit :
      (now n : ℕ) (bucket : Bucket)
      → bucket.last_check ≤ now
      → let (next, allowed) = take_token refill capacity rate now bucket in
        n * second + next.last_check * rate ≤ next.tokens * second + end * rate
        → ((if allowed then 1 else 0) + n) * second + bucket.last_check * rate
          ≤ bucket.tokens * second + end * rate
  take_token-Credit now n bucket l ih =
      let (gain, _) = take_token_credit refill capacity rate now bucket bounded l in omega arith

  allow-HasSettings :
      (now : ℕ) (i : Bytes) (b : MemoryTokenBucket)
      → HasSettings capacity rate b
      → HasSettings capacity rate (allow refill now i b).0
  allow-HasSettings now i b (p, c, r) =
      (rw (length-shards-allow refill now i b) p, unfold allow in c, unfold allow in r)

  -- What the request of a client does to its bucket, with the settings in place.
  own_step_settings :
      (now : ℕ) (i identifier : Bytes) (b : MemoryTokenBucket)
      → i ≡ identifier
      → HasSettings capacity rate b
      → own_step refill now i b
        ≡ take_token refill capacity rate now (bucket_or_full capacity now (bucket_of identifier b))
  own_step_settings now i identifier b e (_, c, r) = rw (e, c, r)

  own_request :
      (now n : ℕ) (i identifier : Bytes) (b : MemoryTokenBucket)
      → i ≡ identifier
      → HasSettings capacity rate b
      → (bucket_or_full capacity now (bucket_of identifier b)).last_check ≤ now
      → (own_step refill now i b).0.last_check ≤ now
        × (Credit now (some (own_step refill now i b).0) n
            → Credit now
                (bucket_of identifier b)
                ((if (own_step refill now i b).1 then 1 else 0) + n))
  unfolding bucket_or_full
  own_request now n i identifier b e s l =
      let bucket = bucket_or_full capacity now (bucket_of identifier b) in
      rw (own_step_settings now i identifier b e s) (
        (take_token_credit refill capacity rate now bucket bounded l).1,
        take_token-Credit now n bucket l,
      )

  granted-Credit :
      (identifier : Bytes) (t : ℕ) (b : MemoryTokenBucket) (rs : List (ℕ × Bytes))
      → HasSettings capacity rate b
      → IsOrdered t end rs
      → (bucket_or_full capacity t (bucket_of identifier b)).last_check ≤ t
      → Credit t (bucket_of identifier b) (granted refill identifier b rs)
  unfolding granted bucket_or_full
  granted-Credit identifier t b [] s o l = omega (arith, mul_mono _ end rate (le_trans l o))
  granted-Credit identifier t b ((now, i) ∷ rs) s (o, os) l =
      let b' = (allow refill now i b).0 in
      let next = granted-Credit identifier now b' rs (allow-HasSettings now i b s) os in
      let (answer, stored) = bucket_of-allow refill now i identifier b s.0 in
      let l' = or_full_later capacity t now (bucket_of identifier b) o l in
      or_full_earlier capacity rate t now end _ (bucket_of identifier b) o
        (elim (Bool-cases (text_eq i identifier)) [
          | inl e ↦
              let same : bucket_of identifier b' ≡ some (own_step refill now i b).0 =
                rw e at stored in
              let (kept, credit) =
                own_request now (granted refill identifier b' rs) i identifier b
                  ((text_eq_iff i identifier).0 e) s l' in
              rw (e, answer) (credit ((rw same at next) kept))
          | inr e ↦
              let same : bucket_of identifier b' ≡ bucket_of identifier b = rw e at stored in
              let later = (rw same at next) l' in rw e (omega arith)
        ])

shard_at_new : (n i : ℕ) → shard_at (replicate n []) i ≡ []
shard_at_new zero i = refl
shard_at_new (suc n) zero = refl
shard_at_new (suc n) (suc i) = shard_at_new n i

bucket_of-new :
    (capacity rate : ℕ) (name identifier : Bytes)
    → bucket_of identifier (new_memory_token_bucket capacity rate name) ≡ none
unfolding bucket_of new_memory_token_bucket get
bucket_of-new capacity rate name identifier = rw (shard_at_new 256 _)

-- Whatever other clients do, from a new limiter one client gets at most `capacity` requests through
-- plus what `rate` tokens a second amount to between the times `t` and `end` of the observation, for
-- any requests at times that do not go back. The refill may be any that never exceeds the elapsed
-- time by the rate.
pub granted_bound :
    (refill : ℕ → ℕ → ℕ) (capacity rate t end : ℕ) (name identifier : Bytes) (rs : List (ℕ × Bytes))
    → IsBounded refill
    → IsOrdered t end rs
    → granted refill identifier (new_memory_token_bucket capacity rate name) rs * second
      ≤ capacity * second + (end - t) * rate
granted_bound refill capacity rate t end name identifier rs bounded o =
    let b = new_memory_token_bucket capacity rate name in
    let settings : HasSettings capacity rate b = (
      rw (length-shards-new capacity rate name) (omega arith),
      unfold new_memory_token_bucket in refl,
      unfold new_memory_token_bucket in refl,
    ) in
    let new : bucket_of identifier b ≡ none = bucket_of-new capacity rate name identifier in
    let start : (bucket_or_full capacity t (bucket_of identifier b)).last_check ≤ t =
      rw new (unfold bucket_or_full in le_refl t) in
    let credit =
      granted-Credit refill bounded capacity rate end identifier t b rs settings o start in
    let credit' : granted refill identifier b rs * second + t * rate
        ≤ capacity * second + end * rate =
      unfold bucket_or_full in (rw new at credit) in
    omega (arith, mul_split t end rate (IsOrdered-le t end rs o))

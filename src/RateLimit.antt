-- ===== src/RateLimit.antt =====
-- internal/service/ratelimit/service.go: the limiters of the configured rules, by name.
pub mod Rules
use yuelaiengine_gateway.Common.{
  ℕ, Bool, true, false, ◌||◌, Option, none, some, List, [], ◌∷◌, Bytes, lit, text_eq, is_empty, Map,
  get, put, pos_part, if◌then◌else◌,
}
use yuelaiengine_gateway.Config.{RateLimiterRule}
use yuelaiengine_gateway.Limiter.TokenBucket.{MemoryTokenBucket, new_memory_token_bucket, allow}

-- The implementations of the interface `limiter.Limiter`.
pub data Limiter : Type 0 where
  no_op : Limiter
  memory : MemoryTokenBucket → Limiter

-- `Limiter.Allow`, by implementation.
unfoldable pub allow_limiter : (ℕ → ℕ → ℕ) → ℕ → Bytes → Limiter → Limiter × Bool
allow_limiter refill now identifier no_op = (no_op, true)
allow_limiter refill now identifier (memory b) =
    let (b', allowed) = allow refill now identifier b in (memory b', allowed)

pub data Error : Type 0 where
  unknown_type : Bytes → Bytes → Error
  rule_not_found : Bytes → Error

pub data Result {ℓ} (A : Type ℓ) : Type ℓ where
  ok : A → Result A
  err : Error → Result A

infixl 5 ◌>>=◌
abbrev pub ◌>>=◌ {ℓ κ} : {A : Type ℓ} {B : Type κ} → Result A → (A → Result B) → Result B
ok a >>= f = f a
err e >>= f = err e

pub record Service : Type 0 where
  pub limiters : Map Limiter

-- The `switch` over the type of a rule.
unfoldable pub new_limiter : RateLimiterRule → Result Limiter
new_limiter rule =
    if text_eq rule.rule_type (lit "memory_token_bucket")
    then ok (
        memory (
          new_memory_token_bucket (pos_part rule.token_bucket.capacity)
            (pos_part rule.token_bucket.refill_rate) rule.name))
    else (if is_empty rule.rule_type || text_eq rule.rule_type (lit "noop")
        then ok no_op
        else err (unknown_type rule.rule_type rule.name))

-- The loop of `NewService` over the rules.
unfoldable pub add_rules : List RateLimiterRule → Map Limiter → Result Service
add_rules [] limiters = ok (record { limiters = limiters })
add_rules (rule ∷ rules) limiters = do
  lim ← new_limiter rule
  add_rules rules (put rule.name lim limiters)

unfoldable pub new_service : List RateLimiterRule → Result Service
new_service rules = add_rules rules []

unfoldable pub check_limit :
    (ℕ → ℕ → ℕ) → ℕ → Bytes → Bytes → Service → Service × Bool × Option Error
check_limit refill now rule_name identifier s = elim (get rule_name s.limiters) [
  | none ↦ (s, false, some (rule_not_found rule_name))
  | some lim ↦
      let (lim', is_allowed) = allow_limiter refill now identifier lim in
      (record s { limiters = put rule_name lim' s.limiters }, is_allowed, none)
]

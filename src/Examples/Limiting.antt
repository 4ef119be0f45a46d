-- ===== src/Examples/Limiting.antt =====
-- The limiters of internal/core/limiter and internal/service/ratelimit at concrete inputs, with an
-- exact refill.
use yuelaiengine_gateway.Common.{ℕ, ◌+◌, ◌-◌, ◌*◌, ◌/◌, ◌≤◌, List, [], ◌∷◌, arith, Bytes, lit, pos}
use yuelaiengine_gateway.Config.{RateLimiterRule}
use yuelaiengine_gateway.Limiter.TokenBucket.{MemoryTokenBucket, new_memory_token_bucket}
use yuelaiengine_gateway.Limiter.Rate.{granted, granted_bound, IsBounded, second}
use yuelaiengine_gateway.RateLimit.{no_op, memory, Service}

abbrev pub exact_refill : ℕ → ℕ → ℕ
exact_refill elapsed rate = elapsed * rate / second

exact_refill-IsBounded : IsBounded exact_refill
exact_refill-IsBounded elapsed rate = omega arith

abbrev alice : Bytes
alice = lit "10.0.0.1"

abbrev bob : Bytes
bob = lit "10.0.0.2"

abbrev two_tokens : MemoryTokenBucket
two_tokens = new_memory_token_bucket 2 10 (lit "api")

abbrev requests : List (ℕ × Bytes)
requests = (0, alice) ∷ (10, bob) ∷ (20, alice) ∷ (30, alice) ∷ (100_000_030, alice) ∷ []

granted_bound_example :
    granted exact_refill alice two_tokens requests * second ≤ 2 * second + (200_000_000 - 0) * 10
granted_bound_example =
    granted_bound exact_refill 2 10 0 200_000_000 (lit "api") alice requests exact_refill-IsBounded
      (omega arith, (omega arith, (omega arith, (omega arith, (omega arith, omega arith)))))

abbrev rule : Bytes → Bytes → RateLimiterRule
rule name rule_type = record {
  name = name;
  rule_type = rule_type;
  token_bucket = record { capacity = pos 2; refill_rate = pos 10 };
}

abbrev rules : List RateLimiterRule
rules = rule (lit "a") (lit "memory_token_bucket") ∷ rule (lit "b") (lit "noop") ∷ []

abbrev pub service : Service
service = record {
  limiters = (lit "a", memory (new_memory_token_bucket 2 10 (lit "a"))) ∷ (lit "b", no_op) ∷ [];
}

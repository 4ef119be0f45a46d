-- ===== src/Examples/Breaking.antt =====
-- The circuit breakers of internal/service/circuitbreaker/service.go at concrete inputs.
use yuelaiengine_gateway.Common.{
  ℕ, All, get, text_eq, true, false, some, List, [], ◌∷◌, ◌≡◌, refl, arith, Bytes, lit, pos,
}
use yuelaiengine_gateway.CircuitBreaker.{
  opened, half_open, CircuitBreaker, Service, open_state, Call, check, result, states, reset_of,
  new_service, check_circuit, run,
}
use yuelaiengine_gateway.CircuitBreaker.Breakers.{breaker}
use yuelaiengine_gateway.CircuitBreaker.Invariant.{IsValid, run-new_service-IsValid}
use yuelaiengine_gateway.CircuitBreaker.Window.{check-run-refused, IsEarly}

abbrev pub orders : Bytes
orders = lit "orders"

abbrev users : Bytes
users = lit "users"

-- A service with thresholds 5 and 2, a timeout of 1000 and one breaker.
abbrev pub with_breaker : CircuitBreaker → Service
with_breaker cb = record {
  circuit_breakers = (orders, cb) ∷ [];
  failure_threshold = 5;
  success_threshold = 2;
  reset_timeout = 1000;
  open_transitions = 0;
}

abbrev pub open_at_100 : CircuitBreaker
open_at_100 = record { state = opened; failure_count = 5; success_count = 0; last_open_time = 100 }

abbrev probing : CircuitBreaker
probing = record { state = half_open; failure_count = 0; success_count = 0; last_open_time = 100 }

abbrev pub mixed_calls : List (ℕ × Call)
mixed_calls =
    (200, check orders)
    ∷ (300, result orders true)
    ∷ (400, states)
    ∷ (500, reset_of users)
    ∷ (600, result orders false)
    ∷ []

run-new_service-IsValid_example : IsValid (run (new_service (pos 5) (pos 2) (pos 1000)) mixed_calls)
run-new_service-IsValid_example = run-new_service-IsValid (pos 5) (pos 2) (pos 1000) mixed_calls

pub All-IsEarly : All (IsEarly orders 1100) mixed_calls
All-IsEarly = (
  (omega arith, λ h. ground arith),
  (
    (omega arith, λ h. ground arith),
    (
      (omega arith, λ h. ground arith),
      ((omega arith, λ h. ground arith), ((omega arith, λ h. ground arith), tt)),
    ),
  ),
)

check-run-refused_example :
    ((check_circuit 900 orders (run (with_breaker open_at_100) mixed_calls)).1 ≡ false)
    × ((check_circuit 900 orders (run (with_breaker open_at_100) mixed_calls)).2 ≡ some open_state)
unfolding breaker get text_eq
check-run-refused_example =
    check-run-refused orders 100 900 (with_breaker open_at_100) mixed_calls (omega arith)
      (open_at_100, refl, refl, refl) All-IsEarly (omega arith)

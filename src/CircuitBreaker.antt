-- ===== src/CircuitBreaker.antt =====
-- internal/service/circuitbreaker/service.go: the circuit breakers of the upstream services.
-- Each method runs under the service's lock, so it is one step from a state to a state; `now` is
-- the monotonic clock, in nanoseconds, at that step. Logging is left out. The counters of type
-- `int` count recorded results and are not bounded here; `openTransitions` wraps at 2 ^ 64.
pub mod Breakers
pub mod Invariant
pub mod Window
pub mod Transitions
pub mod Recovery
use Prim.Native.String.{String}
use yuelaiengine_gateway.Common.{
  ℕ, suc, ◌+◌, ◌-◌, ◌*◌, ◌%◌, ◌^◌, Bool, true, false, ◌&&◌, Option, none, some, List, [], ◌∷◌,
  Bytes, lit, Map, get, put, map_values, ℤ, pos_part, leb, ◌==◌, if◌then◌else◌, u64,
}

pub data State : Type 0 where
  closed half_open opened : State

-- `State.GetState`; its `default` branch has no value of `State` here.
unfoldable pub get_state : State → Bytes
get_state closed = lit "closed"
get_state half_open = lit "half-open"
get_state opened = lit "open"

abbrev pub is_open : State → Bool
is_open opened = true
is_open _ = false

abbrev pub is_half_open : State → Bool
is_half_open half_open = true
is_half_open _ = false

abbrev pub is_closed : State → Bool
is_closed closed = true
is_closed _ = false

pub data Error : Type 0 where
  open_state too_many_requests service_not_found : Error

pub record CircuitBreaker : Type 0 where
  pub state : State
  pub failure_count : ℕ
  pub success_count : ℕ
  pub last_open_time : ℕ

pub record CircuitState : Type 0 where
  pub service_name : Bytes
  pub state : Bytes
  pub failure_count : ℕ
  pub success_count : ℕ
  pub last_open_time : ℕ
  pub failure_threshold : ℕ
  pub success_threshold : ℕ
  pub reset_timeout : ℕ

pub record Service : Type 0 where
  pub circuit_breakers : Map CircuitBreaker
  pub failure_threshold : ℕ
  pub success_threshold : ℕ
  pub reset_timeout : ℕ
  pub open_transitions : ℕ

-- `&CircuitBreaker{state: StateClosed}`
abbrev pub fresh : CircuitBreaker
fresh = record { state = closed; failure_count = 0; success_count = 0; last_open_time = 0 }

-- A minute in nanoseconds.
abbrev pub minute : ℕ
minute = 60_000_000_000

abbrev pub positive_or : ℤ → ℕ → ℕ
positive_or z d = if pos_part z == 0 then d else pos_part z

unfoldable pub new_service : ℤ → ℤ → ℤ → Service
new_service failure_threshold success_threshold reset_timeout = record {
  circuit_breakers = [];
  failure_threshold = positive_or failure_threshold 5;
  success_threshold = positive_or success_threshold 2;
  reset_timeout = positive_or reset_timeout minute;
  open_transitions = 0;
}

-- The transition from open to half-open, which a check and a query of the states both make.
abbrev pub half_opened : CircuitBreaker → CircuitBreaker
half_opened cb = record cb { state = half_open; failure_count = 0; success_count = 0 }

-- `cb.state == StateOpen && time.Since(cb.lastOpenTime) >= s.ResetTimeout`
abbrev pub is_due : ℕ → ℕ → CircuitBreaker → Bool
is_due timeout now cb = is_open cb.state && leb timeout (now - cb.last_open_time)

-- The body of the loop of `GetAllState` that changes the breaker.
unfoldable pub observe : ℕ → ℕ → CircuitBreaker → CircuitBreaker
observe timeout now cb = if is_due timeout now cb then half_opened cb else cb

unfoldable pub describe : Service → Bytes → CircuitBreaker → CircuitState
describe s name cb = record {
  service_name = name;
  state = get_state cb.state;
  failure_count = cb.failure_count;
  success_count = cb.success_count;
  last_open_time = cb.last_open_time;
  failure_threshold = s.failure_threshold;
  success_threshold = s.success_threshold;
  reset_timeout = s.reset_timeout;
}

unfoldable pub get_all_state : ℕ → Service → Service × Map CircuitState
get_all_state now s =
    let cbs = map_values (λ _ cb. observe s.reset_timeout now cb) s.circuit_breakers in
    (record s { circuit_breakers = cbs }, map_values (describe s) cbs)

-- The breaker of a service; `CheckCircuit` and `Reset` create one that is missing.
unfoldable pub find_or_create : Bytes → Map CircuitBreaker → CircuitBreaker
find_or_create name m = elim (get name m) [ none ↦ fresh | some cb ↦ cb ]

unfoldable pub reset : Bytes → Service → Service
reset name s =
    let cb = find_or_create name s.circuit_breakers in
    let cb' : CircuitBreaker = record cb { state = closed; failure_count = 0; success_count = 0 } in
    record s { circuit_breakers = put name cb' s.circuit_breakers }

-- The `switch` of `CheckCircuit`.
unfoldable pub check_breaker : ℕ → ℕ → CircuitBreaker → State → CircuitBreaker × Bool × Option Error
check_breaker timeout now cb opened =
    if leb timeout (now - cb.last_open_time)
    then (half_opened cb, true, none)
    else (cb, false, some open_state)
check_breaker timeout now cb half_open = (cb, true, none)
check_breaker timeout now cb closed = (cb, true, none)

unfoldable pub check_circuit : ℕ → Bytes → Service → Service × Bool × Option Error
check_circuit now name s =
    let cb = find_or_create name s.circuit_breakers in
    let (cb', allowed, err) = check_breaker s.reset_timeout now cb cb.state in
    (record s { circuit_breakers = put name cb' s.circuit_breakers }, allowed, err)

-- `if success { … }` of `RecordResult`
unfoldable pub record_success : ℕ → CircuitBreaker → CircuitBreaker
record_success success_threshold cb =
    let cb1 : CircuitBreaker = record cb { success_count = cb.success_count + 1 } in
    if is_half_open cb1.state && leb success_threshold cb1.success_count
    then record cb1 { state = closed; failure_count = 0; success_count = 0 }
    else cb1

-- A move to the open state at `now`, counted in `openTransitions`.
abbrev pub trip : ℕ → CircuitBreaker × ℕ → CircuitBreaker × ℕ
trip now (cb, n) = (record cb { state = opened; last_open_time = now }, (n + 1) % u64)

-- `else { … }` of `RecordResult`: two tests in a row, the second on the state that the first left.
unfoldable pub record_failure : ℕ → ℕ → CircuitBreaker → ℕ → CircuitBreaker × ℕ
record_failure failure_threshold now cb n =
    let cb1 : CircuitBreaker = record cb { failure_count = cb.failure_count + 1 } in
    let (cb2, n2) =
      if is_closed cb1.state && leb failure_threshold cb1.failure_count
      then trip now (cb1, n)
      else (cb1, n) in
    if is_half_open cb2.state then trip now (cb2, n2) else (cb2, n2)

unfoldable pub record_breaker : Service → ℕ → Bool → CircuitBreaker → CircuitBreaker × ℕ
unfolding record_success record_failure
record_breaker s now true cb = (record_success s.success_threshold cb, s.open_transitions)
record_breaker s now false cb = record_failure s.failure_threshold now cb s.open_transitions

unfoldable pub record_result : ℕ → Bytes → Bool → Service → Service
record_result now name success s = elim (get name s.circuit_breakers) [
  | none ↦ s
  | some cb ↦
      let (cb', n) = record_breaker s now success cb in
      record s { circuit_breakers = put name cb' s.circuit_breakers; open_transitions = n }
]

unfoldable pub open_transition_count : Service → ℕ
open_transition_count s = s.open_transitions

-- The calls of the service's interface that change its state.
pub data Call : Type 0 where
  check : Bytes → Call
  result : Bytes → Bool → Call
  states : Call
  reset_of : Bytes → Call

unfoldable pub step : ℕ → Call → Service → Service
step now (check name) s = (check_circuit now name s).0
step now (result name success) s = record_result now name success s
step now states s = (get_all_state now s).0
step now (reset_of name) s = reset name s

-- Calls in the order in which they take the lock, each with its time.
unfoldable pub run : Service → List (ℕ × Call) → Service
run s [] = s
run s ((now, c) ∷ cs) = run (step now c s) cs

-- ===== src/CircuitBreaker/Breakers.antt =====
-- What one call does to the breaker of each service, so that later proofs can leave the map shut.
use yuelaiengine_gateway.Common.{
  ℕ, Bool, Option, none, some, ◌≡◌, refl, ◌≢◌, arith, Bytes, get, put, get-put_self, get-put_ne,
  get-map_values, Option-cases, inl, inr,
}
use mathlib.Core.Option
use yuelaiengine_gateway.CircuitBreaker.{
  closed, CircuitBreaker, Service, Call, check, result, states, reset_of, observe, find_or_create,
  reset, check_breaker, check_circuit, record_breaker, record_result, get_all_state, step, fresh,
  closed, fresh,
}

-- The breaker of `name`, if there is one.
unfoldable pub breaker : Bytes → Service → Option CircuitBreaker
breaker name s = get name s.circuit_breakers

-- The service that a call names.
abbrev pub target : Call → Option Bytes
target (check name) = some name
target (result name _) = some name
target states = none
target (reset_of name) = some name

pub find_or_create-some :
    (name : Bytes) (s : Service) (cb : CircuitBreaker)
    → breaker name s ≡ some cb
    → find_or_create name s.circuit_breakers ≡ cb
unfolding find_or_create breaker
find_or_create-some name s cb e = rw (e, find_or_create)

pub find_or_create-none :
    (name : Bytes) (s : Service)
    → breaker name s ≡ none
    → find_or_create name s.circuit_breakers ≡ fresh
unfolding find_or_create breaker
find_or_create-none name s e = rw (e, find_or_create)

pub breaker-reset :
    (name : Bytes) (s : Service)
    → breaker name (reset name s)
      ≡ some (record (find_or_create name s.circuit_breakers) {
        state = closed;
        failure_count = 0;
        success_count = 0;
      })
unfolding reset breaker
breaker-reset name s = get-put_self name _ s.circuit_breakers

pub record_result-none :
    (now : ℕ) (name : Bytes) (success : Bool) (s : Service)
    → breaker name s ≡ none
    → record_result now name success s ≡ s
unfolding record_result breaker
record_result-none now name success s h = rw (h, record_result)

pub record_result-some :
    (now : ℕ) (name : Bytes) (success : Bool) (s : Service) (cb : CircuitBreaker)
    → breaker name s ≡ some cb
    → record_result now name success s ≡ record s {
      circuit_breakers = put name (record_breaker s now success cb).0 s.circuit_breakers;
      open_transitions = (record_breaker s now success cb).1;
    }
unfolding record_result breaker
record_result-some now name success s cb h = rw (h, record_result)

-- A call that names one service leaves the breaker of every other service as it was, together with
-- the settings of the service.
pub breaker-step_ne :
    (now : ℕ) (c : Call) (s : Service) (name other : Bytes)
    → target c ≡ some name
    → name ≢ other
    → breaker other (step now c s) ≡ breaker other s
unfolding step check_circuit reset breaker
breaker-step_ne now (check n) s name other h ne =
    get-put_ne n other _ s.circuit_breakers (λ e. ne (ground arith))
breaker-step_ne now (result n b) s name other h ne = elim (Option-cases (breaker n s)) [
  | inl e ↦ rw (record_result-none now n b s e)
  | inr (cb, e) ↦
      rw (record_result-some now n b s cb e)
        (get-put_ne n other _ s.circuit_breakers (λ e. ne (ground arith)))
]
breaker-step_ne now states s name other h ne = cc
breaker-step_ne now (reset_of n) s name other h ne =
    get-put_ne n other _ s.circuit_breakers (λ e. ne (ground arith))

pub breaker-check :
    (now : ℕ) (name : Bytes) (s : Service)
    → breaker name (check_circuit now name s).0
      ≡ some
          (check_breaker s.reset_timeout now
            (find_or_create name s.circuit_breakers)
            (find_or_create name s.circuit_breakers).state).0
unfolding check_circuit breaker
breaker-check now name s = get-put_self name _ s.circuit_breakers

pub breaker-result :
    (now : ℕ) (name : Bytes) (success : Bool) (s : Service) (cb : CircuitBreaker)
    → breaker name s ≡ some cb
    → breaker name (record_result now name success s) ≡ some (record_breaker s now success cb).0
breaker-result now name success s cb h =
    rw (record_result-some now name success s cb h)
      (unfold breaker in get-put_self name _ s.circuit_breakers)

pub breaker-states :
    (now : ℕ) (name : Bytes) (s : Service)
    → breaker name (get_all_state now s).0
      ≡ Option.map (observe s.reset_timeout now) (breaker name s)
unfolding get_all_state breaker
breaker-states now name s =
    get-map_values (λ _ cb. observe s.reset_timeout now cb) name s.circuit_breakers

-- The settings of the service.
abbrev pub settings : Service → ℕ × ℕ × ℕ
settings s = (s.failure_threshold, s.success_threshold, s.reset_timeout)

pub settings-step : (now : ℕ) (c : Call) (s : Service) → settings (step now c s) ≡ settings s
unfolding step check_circuit reset get_all_state
settings-step now (result n b) s = elim (Option-cases (breaker n s)) [
  | inl e ↦ rw (record_result-none now n b s e)
  | inr (cb, e) ↦ rw (record_result-some now n b s cb e)
]
settings-step now (check n) s = refl
settings-step now states s = refl
settings-step now (reset_of n) s = refl

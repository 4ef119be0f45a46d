-- ===== src/CircuitBreaker/Transitions.antt =====
-- The counter of moves to the open state.
use yuelaiengine_gateway.Common.{
  ℕ, ◌+◌, ◌%◌, ◌<◌, Bool, true, false, not, ◌&&◌, none, some, List, [], ◌∷◌, ◌≡◌, refl, inl, inr,
  arith, Bytes, u64, if◌then◌else◌, Option-cases, ◌∙◌, ◌⊎◌,
}
use yuelaiengine_gateway.CircuitBreaker.{
  is_open, CircuitBreaker, Service, Call, check, result, states, reset_of, observe, check_breaker,
  check_circuit, record_breaker, record_result, get_all_state, reset, step, run,
  open_transition_count, fresh,
}
use yuelaiengine_gateway.CircuitBreaker.Breakers.{
  breaker, find_or_create-some, find_or_create-none, breaker-reset, target, record_result-none,
  record_result-some, breaker-result, breaker-check,
}

unfoldable pub is_open_at : Bytes → Service → Bool
is_open_at name s = elim (breaker name s) [ none ↦ false | some cb ↦ is_open cb.state ]

-- 1 if the breaker of `name` was not open before and is open after.
abbrev pub opening : Bytes → Service → Service → ℕ
opening name s s' = if not (is_open_at name s) && is_open_at name s' then 1 else 0

-- The moves to open along a sequence of calls, seen from outside: for each call, whether the breaker
-- of the service that it names went from not open to open.
unfoldable pub openings : Service → List (ℕ × Call) → ℕ
openings s [] = 0
openings s ((now, c) ∷ cs) =
    elim (target c) [ none ↦ 0 | some name ↦ opening name s (step now c s) ]
    + openings (step now c s) cs

is_open_at-some :
    (name : Bytes) (s : Service) (cb : CircuitBreaker)
    → breaker name s ≡ some cb
    → is_open_at name s ≡ is_open cb.state
unfolding is_open_at
is_open_at-some name s cb e = rw (e, is_open_at)

check_not_opening :
    (t now : ℕ) (cb : CircuitBreaker)
    → (is_open (check_breaker t now cb cb.state).0.state ≡ false) ⊎ (is_open cb.state ≡ true)
unfolding check_breaker
check_not_opening t now cb = ground arith

pub states_not_opening :
    (t now : ℕ) (cb : CircuitBreaker)
    → (is_open (observe t now cb).state ≡ false) ⊎ (is_open cb.state ≡ true)
unfolding observe
states_not_opening t now cb = ground arith

record_breaker_count :
    (s : Service) (now : ℕ) (success : Bool) (cb : CircuitBreaker)
    → s.open_transitions < u64
    → (record_breaker s now success cb).1
      ≡ (s.open_transitions
          + (if not (is_open cb.state) && is_open (record_breaker s now success cb).0.state
              then 1
              else 0))
        % u64
unfolding record_breaker
record_breaker_count s now true cb h = ground arith
record_breaker_count s now false cb h = ground arith

opening_of :
    (name : Bytes) (s s' : Service) (cb' : CircuitBreaker)
    → breaker name s' ≡ some cb'
    → opening name s s' ≡ (if not (is_open_at name s) && is_open cb'.state then 1 else 0)
opening_of name s s' cb' e = rw (is_open_at-some name s' cb' e)

opening-check :
    (now : ℕ) (name : Bytes) (s : Service) → opening name s (check_circuit now name s).0 ≡ 0
opening-check now name s = elim (Option-cases (breaker name s)) [
  | inl e ↦
      let fresh_after : breaker name (check_circuit now name s).0 ≡ some fresh =
        breaker-check now name s
        ∙ rw (find_or_create-none name s e) (unfold check_breaker in refl) in
      rw (is_open_at-some name (check_circuit now name s).0 fresh fresh_after) (ground arith)
  | inr (cb, e) ↦
      let after = breaker-check now name s in
      rw
        (
          is_open_at-some name _ _ after,
          find_or_create-some name s cb e,
          is_open_at-some name s cb e,
        )
        (ground (arith, check_not_opening s.reset_timeout now cb))
]

opening-reset : (name : Bytes) (s : Service) → opening name s (reset name s) ≡ 0
opening-reset name s = rw (is_open_at-some name _ _ (breaker-reset name s)) (ground arith)

open_transitions-result :
    (now : ℕ) (name : Bytes) (success : Bool) (s : Service)
    → s.open_transitions < u64
    → (record_result now name success s).open_transitions
      ≡ (s.open_transitions + opening name s (record_result now name success s)) % u64
open_transitions-result now name success s h = elim (Option-cases (breaker name s)) [
  | inl e ↦ rw (record_result-none now name success s e) (ground arith)
  | inr (cb, e) ↦
      let after = breaker-result now name success s cb e in
      rw (is_open_at-some name _ _ after, is_open_at-some name s cb e)
        (rw (record_result-some now name success s cb e) (record_breaker_count s now success cb h))
]

-- One call counts the opening that it makes.
open_transitions-step :
    (now : ℕ) (c : Call) (s : Service)
    → s.open_transitions < u64
    → (step now c s).open_transitions
      ≡ (s.open_transitions
          + elim (target c) [ none ↦ 0 | some name ↦ opening name s (step now c s) ])
        % u64
unfolding step
open_transitions-step now (check n) s h =
    rw (opening-check now n s) (unfold check_circuit in omega arith)
open_transitions-step now (result n b) s h = open_transitions-result now n b s h
open_transitions-step now states s h = unfold get_all_state in omega arith
open_transitions-step now (reset_of n) s h = rw (opening-reset n s) (unfold reset in omega arith)

-- After any calls, `OpenTransitionCount` has grown by the number of calls that took the breaker of
-- the service they name from a state other than open to open, modulo 2 ^ 64.
pub open_transition_count-run :
    (s : Service) (cs : List (ℕ × Call))
    → open_transition_count s < u64
    → open_transition_count (run s cs) ≡ (open_transition_count s + openings s cs) % u64
unfolding run openings open_transition_count
open_transition_count-run s [] h = omega arith
open_transition_count-run s ((now, c) ∷ cs) h =
    let one = open_transitions-step now c s h in
    omega (arith, open_transition_count-run (step now c s) cs (omega arith))

-- ===== src/CircuitBreaker/Window.antt =====
-- An open breaker rejects its service until the reset timeout has passed, whatever else happens.
use yuelaiengine_gateway.Common.{
  ℕ, ◌+◌, ◌<◌, Bool, true, false, some, List, [], ◌∷◌, ◌≡◌, ◌≢◌, refl, inl, inr, arith, Bytes, All,
  text_eq, text_eq_iff, Bool-cases, ap, ◌∙◌,
}
use yuelaiengine_gateway.CircuitBreaker.{
  opened, CircuitBreaker, Service, open_state, Call, check, result, states, reset_of, observe,
  check_breaker, check_circuit, record_breaker, step, run,
}
use yuelaiengine_gateway.CircuitBreaker.Breakers.{
  breaker, find_or_create-some, breaker-step_ne, breaker-check, breaker-result, breaker-states,
  settings-step,
}

-- The breaker of `name` is open since time `t`.
abbrev pub IsOpenSince : Bytes → ℕ → Service → Type 0
IsOpenSince name t s =
    (cb : CircuitBreaker) × (breaker name s ≡ some cb)
    × (cb.state ≡ opened)
    × (cb.last_open_time ≡ t)

-- A call before the end of the timeout that is no reset of `name`.
abbrev pub IsEarly : Bytes → ℕ → ℕ × Call → Type 0
IsEarly name end (now, c) = (now < end) × (c ≢ reset_of name)

observe_early :
    (timeout now t : ℕ) (cb : CircuitBreaker)
    → 0 < timeout
    → now < t + timeout
    → cb.state ≡ opened
    → cb.last_open_time ≡ t
    → observe timeout now cb ≡ cb
unfolding observe
observe_early timeout now t cb p h o l = ground arith

pub check_breaker_early :
    (timeout now t : ℕ) (cb : CircuitBreaker)
    → 0 < timeout
    → now < t + timeout
    → cb.state ≡ opened
    → cb.last_open_time ≡ t
    → check_breaker timeout now cb cb.state ≡ (cb, false, some open_state)
unfolding check_breaker
check_breaker_early timeout now t cb p h o l = ground arith

record_breaker_open :
    (s : Service) (now : ℕ) (success : Bool) (cb : CircuitBreaker)
    → cb.state ≡ opened
    → ((record_breaker s now success cb).0.state ≡ opened)
      × ((record_breaker s now success cb).0.last_open_time ≡ cb.last_open_time)
unfolding record_breaker
record_breaker_open s now true cb o = ground arith
record_breaker_open s now false cb o = ground arith

other_call :
    (name other : Bytes) (t now : ℕ) (c : Call) (s : Service)
    → breaker name (step now c s) ≡ breaker name s
    → IsOpenSince name t s
    → IsOpenSince name t (step now c s)
other_call name other t now c s same (cb, e, o, l) = (cb, same ∙ e, o, l)

check_early :
    (name : Bytes) (t now : ℕ) (s : Service)
    → 0 < s.reset_timeout
    → now < t + s.reset_timeout
    → IsOpenSince name t s
    → IsOpenSince name t (check_circuit now name s).0
check_early name t now s p h (cb, e, o, l) = (
  cb,
  breaker-check now name s
      ∙ rw (find_or_create-some name s cb e, check_breaker_early s.reset_timeout now t cb p h o l),
  o,
  l,
)

step_early :
    (name : Bytes) (t now : ℕ) (c : Call) (s : Service)
    → 0 < s.reset_timeout
    → IsEarly name (t + s.reset_timeout) (now, c)
    → IsOpenSince name t s
    → IsOpenSince name t (step now c s)
step_early name t now (check n) s p (h, _) i = elim (Bool-cases (text_eq n name)) [
  | inl q ↦ unfold step in rw ((text_eq_iff n name).0 q) (check_early name t now s p h i)
  | inr q ↦
      other_call name n t now (check n) s
        (breaker-step_ne now (check n) s n name refl (ground (arith, text_eq_iff n name))) i
]
step_early name t now (result n b) s p (h, _) (cb, e, o, l) = elim (Bool-cases (text_eq n name)) [
  | inl q ↦
      let same = (text_eq_iff n name).0 q in
      let (o', l') = record_breaker_open s now b cb o in
      unfold step in
      rw same ((record_breaker s now b cb).0, breaker-result now name b s cb e, o', l' ∙ l)
  | inr q ↦
      other_call name n t now (result n b) s
        (breaker-step_ne now (result n b) s n name refl (ground (arith, text_eq_iff n name)))
        (cb, e, o, l)
]
step_early name t now states s p (h, _) (cb, e, o, l) = (
  cb,
  unfold step in
      breaker-states now name s ∙ rw e (ap some (observe_early s.reset_timeout now t cb p h o l)),
  o,
  l,
)
step_early name t now (reset_of n) s p (_, ne) i =
    other_call name n t now (reset_of n) s
      (breaker-step_ne now (reset_of n) s n name refl (λ q. ne (ap reset_of q))) i

reset_timeout-step :
    (now : ℕ) (c : Call) (s : Service) → (step now c s).reset_timeout ≡ s.reset_timeout
reset_timeout-step now c s = ap (λ (x : ℕ × ℕ × ℕ). x.2) (settings-step now c s)

run_early :
    (name : Bytes) (t timeout : ℕ) (s : Service) (cs : List (ℕ × Call))
    → s.reset_timeout ≡ timeout
    → 0 < timeout
    → All (IsEarly name (t + timeout)) cs
    → IsOpenSince name t s
    → IsOpenSince name t (run s cs) × ((run s cs).reset_timeout ≡ timeout)
unfolding run
run_early name t timeout s [] r p h i = (i, r)
run_early name t timeout s ((now, c) ∷ cs) r p (h, hs) i =
    run_early name t timeout (step now c s) cs (reset_timeout-step now c s ∙ r) p hs
      (step_early name t now c s (rw r p) (rw r h) i)

-- Once the breaker of a service has opened at time `t`, every check of that service before
-- `t + reset_timeout` is refused with `ErrOpenState`, after any sequence of calls before that time
-- with no reset of that service: checks, results of either kind, queries of the states, and all
-- calls for other services.
pub check-run-refused :
    (name : Bytes) (t now : ℕ) (s : Service) (cs : List (ℕ × Call))
    → 0 < s.reset_timeout
    → IsOpenSince name t s
    → All (IsEarly name (t + s.reset_timeout)) cs
    → now < t + s.reset_timeout
    → ((check_circuit now name (run s cs)).1 ≡ false)
      × ((check_circuit now name (run s cs)).2 ≡ some open_state)
unfolding check_circuit
check-run-refused name t now s cs p i hs h =
    let ((cb, e, o, l), r) = run_early name t s.reset_timeout s cs refl p hs i in
    let answer : check_breaker (run s cs).reset_timeout now cb cb.state
        ≡ (cb, false, some open_state) =
      check_breaker_early (run s cs).reset_timeout now t cb (rw r p) (rw r h) o l in
    rw (find_or_create-some name (run s cs) cb e) (rw answer (refl, refl))

-- ===== src/CircuitBreaker/Recovery.antt =====
-- How a breaker opens and how it closes again; what a query of the states does to later checks.
use yuelaiengine_gateway.Common.{
  ℕ, ◌+◌, ◌≤◌, ◌<◌, Bool, true, false, Option, some, List, [], ◌∷◌, ◌≡◌, refl, inl, inr, arith,
  Bytes, length, map, ap, ◌∙◌, sym, Option-cases,
}
use yuelaiengine_gateway.CircuitBreaker.{
  opened, closed, half_open, CircuitBreaker, Service, Error, Call, result, observe, find_or_create,
  check_breaker, check_circuit, record_breaker, record_result, get_all_state, step, run,
}
use yuelaiengine_gateway.CircuitBreaker.Breakers.{
  breaker, find_or_create-some, find_or_create-none, breaker-check, breaker-result, breaker-states,
  settings-step,
}
use yuelaiengine_gateway.CircuitBreaker.Window.{IsOpenSince}

-- Results of one kind for one service, at the given times.
abbrev pub results : Bytes → Bool → List ℕ → List (ℕ × Call)
results name success = map (λ now. (now, result name success))

success_short :
    (s : Service) (now : ℕ) (cb : CircuitBreaker)
    → cb.state ≡ half_open
    → cb.success_count + 1 < s.success_threshold
    → (record_breaker s now true cb).0 ≡ record cb { success_count = cb.success_count + 1 }
unfolding record_breaker
success_short s now cb h k = ground arith

success_last :
    (s : Service) (now : ℕ) (cb : CircuitBreaker)
    → cb.state ≡ half_open
    → s.success_threshold ≤ cb.success_count + 1
    → (record_breaker s now true cb).0
      ≡ record cb { state = closed; failure_count = 0; success_count = 0 }
unfolding record_breaker
success_last s now cb h k = ground arith

success_threshold-step :
    (now : ℕ) (c : Call) (s : Service) → (step now c s).success_threshold ≡ s.success_threshold
success_threshold-step now c s = ap (λ (x : ℕ × ℕ × ℕ). x.1) (settings-step now c s)

failure_threshold-step :
    (now : ℕ) (c : Call) (s : Service) → (step now c s).failure_threshold ≡ s.failure_threshold
failure_threshold-step now c s = ap (λ (x : ℕ × ℕ × ℕ). x.0) (settings-step now c s)

-- A half-open breaker closes, with both counters at 0, on exactly the successes that are missing to
-- the success threshold, at whatever times they are recorded.
pub run-successes-closed :
    (name : Bytes) (s : Service) (cb : CircuitBreaker) (now : ℕ) (times : List ℕ)
    → breaker name s ≡ some cb
    → cb.state ≡ half_open
    → cb.success_count + length (now ∷ times) ≡ s.success_threshold
    → breaker name (run s (results name true (now ∷ times)))
      ≡ some (record cb { state = closed; failure_count = 0; success_count = 0 })
unfolding run step
run-successes-closed name s cb now [] e h n =
    breaker-result now name true s cb e ∙ ap some (success_last s now cb h (omega arith))
run-successes-closed name s cb now (next ∷ times) e h n =
    let cb1 : CircuitBreaker = record cb { success_count = cb.success_count + 1 } in
    let e1 : breaker name (record_result now name true s) ≡ some cb1 =
      breaker-result now name true s cb e ∙ ap some (success_short s now cb h (omega arith)) in
    let kept = success_threshold-step now (result name true) s in
    run-successes-closed name (record_result now name true s) cb1 next times e1 h (omega arith)

failure_short :
    (s : Service) (now : ℕ) (cb : CircuitBreaker)
    → cb.state ≡ closed
    → cb.failure_count + 1 < s.failure_threshold
    → (record_breaker s now false cb).0 ≡ record cb { failure_count = cb.failure_count + 1 }
unfolding record_breaker
failure_short s now cb h k = ground arith

failure_last :
    (s : Service) (now : ℕ) (cb : CircuitBreaker)
    → cb.state ≡ closed
    → s.failure_threshold ≤ cb.failure_count + 1
    → ((record_breaker s now false cb).0.state ≡ opened)
      × ((record_breaker s now false cb).0.last_open_time ≡ now)
unfolding record_breaker
failure_last s now cb h k = ground arith

-- A closed breaker opens on exactly the failures that are missing to the failure threshold, and is
-- open since the last of them.
pub run-failures-opened :
    (name : Bytes) (s : Service) (cb : CircuitBreaker) (times : List ℕ) (now : ℕ)
    → breaker name s ≡ some cb
    → cb.state ≡ closed
    → cb.failure_count + length times + 1 ≡ s.failure_threshold
    → IsOpenSince name now (record_result now name false (run s (results name false times)))
unfolding run step
run-failures-opened name s cb [] now e h n =
    let (o, l) = failure_last s now cb h (omega arith) in
    ((record_breaker s now false cb).0, breaker-result now name false s cb e, o, l)
run-failures-opened name s cb (t ∷ times) now e h n =
    let cb1 : CircuitBreaker = record cb { failure_count = cb.failure_count + 1 } in
    let e1 : breaker name (record_result t name false s) ≡ some cb1 =
      breaker-result t name false s cb e ∙ ap some (failure_short s t cb h (omega arith)) in
    let kept = failure_threshold-step t (result name false) s in
    run-failures-opened name (record_result t name false s) cb1 times now e1 h (omega arith)

failure_half_open :
    (s : Service) (now : ℕ) (cb : CircuitBreaker)
    → cb.state ≡ half_open
    → ((record_breaker s now false cb).0.state ≡ opened)
      × ((record_breaker s now false cb).0.last_open_time ≡ now)
unfolding record_breaker
failure_half_open s now cb h = ground arith

-- One failure takes a half-open breaker back to open, and its timeout starts anew.
pub record_result-half_open :
    (name : Bytes) (s : Service) (cb : CircuitBreaker) (now : ℕ)
    → breaker name s ≡ some cb
    → cb.state ≡ half_open
    → IsOpenSince name now (record_result now name false s)
record_result-half_open name s cb now e h =
    let (o, l) = failure_half_open s now cb h in
    ((record_breaker s now false cb).0, breaker-result now name false s cb e, o, l)

check_breaker-observe :
    (timeout now : ℕ) (cb : CircuitBreaker)
    → check_breaker timeout now (observe timeout now cb) (observe timeout now cb).state
      ≡ check_breaker timeout now cb cb.state
unfolding check_breaker observe
check_breaker-observe timeout now cb = ground arith

find_or_create-states :
    (now : ℕ) (name : Bytes) (s : Service)
    → find_or_create name (get_all_state now s).0.circuit_breakers
      ≡ observe s.reset_timeout now (find_or_create name s.circuit_breakers)
find_or_create-states now name s = elim (Option-cases (breaker name s)) [
  | inl e ↦
      find_or_create-none name (get_all_state now s).0 (breaker-states now name s ∙ rw e)
      ∙ rw (find_or_create-none name s e) (unfold observe in refl)
  | inr (cb, e) ↦
      find_or_create-some name (get_all_state now s).0 (observe s.reset_timeout now cb)
        (breaker-states now name s ∙ rw e)
      ∙ rw (find_or_create-some name s cb e)
]

-- A query of all states makes no difference to a check at the same time: the check gives the same
-- answer, and leaves the service's breaker the same, as without the query, although the query itself
-- moves breakers from open to half-open.
pub check_circuit-get_all_state :
    (now : ℕ) (name : Bytes) (s : Service)
    → let queried = check_circuit now name (get_all_state now s).0 in
      let plain = check_circuit now name s in
      (queried.1 ≡ plain.1)
      × (queried.2 ≡ plain.2)
      × (breaker name queried.0 ≡ breaker name plain.0)
unfolding get_all_state
check_circuit-get_all_state now name s =
    let same : check_breaker s.reset_timeout now
          (find_or_create name (get_all_state now s).0.circuit_breakers)
          (find_or_create name (get_all_state now s).0.circuit_breakers).state
        ≡ check_breaker s.reset_timeout now (find_or_create name s.circuit_breakers)
            (find_or_create name s.circuit_breakers).state =
      rw (find_or_create-states now name s) (check_breaker-observe s.reset_timeout now _) in
    (
      unfold check_circuit in ap (λ (r : CircuitBreaker × Bool × Option Error). r.1) same,
      unfold check_circuit in ap (λ (r : CircuitBreaker × Bool × Option Error). r.2) same,
      breaker-check now name (get_all_state now s).0
          ∙ ap (λ (r : CircuitBreaker × Bool × Option Error). some r.0) same
          ∙ sym (breaker-check now name s),
    )

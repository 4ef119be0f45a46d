-- ===== src/CircuitBreaker/Invariant.antt =====
-- What holds of every breaker between two calls.
use yuelaiengine_gateway.Common.{
  ℕ, ◌<◌, Bool, true, false, List, [], ◌∷◌, ◌≡◌, inl, inr, arith, Bytes, ℤ, get, AllValues,
  AllValues-get, AllValues-put, AllValues-map_values, Option-cases, Map,
}
use yuelaiengine_gateway.CircuitBreaker.{
  closed, half_open, CircuitBreaker, Service, Call, check, result, states, reset_of, observe,
  find_or_create, reset, check_breaker, check_circuit, record_breaker, get_all_state, step, run,
  fresh, new_service,
}
use yuelaiengine_gateway.CircuitBreaker.Breakers.{breaker, record_result-none, record_result-some}

-- A closed breaker has room for one more failure; a half-open one has seen no failure since it
-- became half-open, and has not yet seen enough successes.
pub record IsSound (failures successes : ℕ) (cb : CircuitBreaker) : Type 0 where
  pub closed_below : cb.state ≡ closed → cb.failure_count < failures
  pub half_open_clean : cb.state ≡ half_open → cb.failure_count ≡ 0
  pub half_open_below : cb.state ≡ half_open → cb.success_count < successes

pub record IsValid (s : Service) : Type 0 where
  pub failures_pos : 0 < s.failure_threshold
  pub successes_pos : 0 < s.success_threshold
  pub timeout_pos : 0 < s.reset_timeout
  pub all_sound : AllValues (IsSound s.failure_threshold s.success_threshold) s.circuit_breakers

module _ (f g : ℕ) (fp : 0 < f) (gp : 0 < g) where
  fresh-IsSound : IsSound f g fresh
  fresh-IsSound = ground arith

  observe-IsSound :
      (t now : ℕ) (cb : CircuitBreaker) → IsSound f g cb → IsSound f g (observe t now cb)
  unfolding observe
  observe-IsSound t now cb h = ground arith

  check_breaker-IsSound :
      (t now : ℕ) (cb : CircuitBreaker)
      → IsSound f g cb
      → IsSound f g (check_breaker t now cb cb.state).0
  unfolding check_breaker
  check_breaker-IsSound t now cb h = ground arith

  find_or_create-IsSound :
      (name : Bytes) (m : Map CircuitBreaker)
      → AllValues (IsSound f g) m
      → IsSound f g (find_or_create name m)
  unfolding find_or_create
  find_or_create-IsSound name m h = elim (Option-cases (get name m)) [
    | inl e ↦ rw (e, find_or_create) fresh-IsSound
    | inr (cb, e) ↦ rw (e, find_or_create) (AllValues-get (IsSound f g) name m h e)
  ]

record_breaker-IsSound :
    (s : Service) (now : ℕ) (success : Bool) (cb : CircuitBreaker)
    → 0 < s.failure_threshold
    → IsSound s.failure_threshold s.success_threshold cb
    → IsSound s.failure_threshold s.success_threshold (record_breaker s now success cb).0
unfolding record_breaker
record_breaker-IsSound s now true cb p h = ground arith
record_breaker-IsSound s now false cb p h = ground arith

-- Every call keeps the invariant.
pub step-IsValid : (now : ℕ) (c : Call) (s : Service) → IsValid s → IsValid (step now c s)
unfolding step check_circuit reset get_all_state
step-IsValid now (check n) s v =
    let old = find_or_create-IsSound _ _ v.failures_pos v.successes_pos n _ v.all_sound in
    record {
      failures_pos = v.failures_pos;
      successes_pos = v.successes_pos;
      timeout_pos = v.timeout_pos;
      all_sound =
          AllValues-put _ n _ s.circuit_breakers v.all_sound
            (check_breaker-IsSound _ _ v.failures_pos v.successes_pos _ now _ old);
    }
step-IsValid now (result n b) s v = elim (Option-cases (breaker n s)) [
  | inl e ↦ rw (record_result-none now n b s e) v
  | inr (cb, e) ↦ rw (record_result-some now n b s cb e) (record {
    failures_pos = v.failures_pos;
    successes_pos = v.successes_pos;
    timeout_pos = v.timeout_pos;
    all_sound = AllValues-put _ n _ s.circuit_breakers v.all_sound (
        record_breaker-IsSound s now b cb v.failures_pos
          (AllValues-get _ n s.circuit_breakers v.all_sound (unfold breaker in e)));
  })
]
step-IsValid now states s v = record {
  failures_pos = v.failures_pos;
  successes_pos = v.successes_pos;
  timeout_pos = v.timeout_pos;
  all_sound =
      AllValues-map_values _ _ s.circuit_breakers
        (λ k cb h. observe-IsSound _ _ v.failures_pos v.successes_pos s.reset_timeout now cb h)
        v.all_sound;
}
step-IsValid now (reset_of n) s v = record {
  failures_pos = v.failures_pos;
  successes_pos = v.successes_pos;
  timeout_pos = v.timeout_pos;
  all_sound = AllValues-put _ n _ s.circuit_breakers v.all_sound (ground (arith, v.failures_pos));
}

pub run-IsValid : (s : Service) (cs : List (ℕ × Call)) → IsValid s → IsValid (run s cs)
unfolding run
run-IsValid s [] v = v
run-IsValid s ((now, c) ∷ cs) v = run-IsValid (step now c s) cs (step-IsValid now c s v)

pub new_service-IsValid : (f g t : ℤ) → IsValid (new_service f g t)
unfolding new_service
new_service-IsValid f g t = ground arith

-- Whatever thresholds a service is created with, after any calls at any times its thresholds and its
-- timeout are positive, each closed breaker has seen fewer failures than the failure threshold, and
-- each half-open one has no failure and fewer successes than the success threshold.
pub run-new_service-IsValid :
    (f g t : ℤ) (cs : List (ℕ × Call)) → IsValid (run (new_service f g t) cs)
run-new_service-IsValid f g t cs = run-IsValid _ cs (new_service-IsValid f g t)

-- ===== src/Plugin/Services/Refusal.antt =====
-- What the plugins make of the answers of their services.
use mathlib.Core.Bool.{false≢true}
use yuelaiengine_gateway.Common.{
  ℕ, ◌+◌, ◌<◌, Bool, true, false, Option, none, some, List, ◌≡◌, ◌⊎◌, refl, inl, inr, Bytes, All,
  lit, is_empty, Bool-cases, Option-cases,
}
use yuelaiengine_gateway.Config.{PluginSpec}
use yuelaiengine_gateway.Http.{Request}
use yuelaiengine_gateway.Limiter.{get_identifier_func}
use yuelaiengine_gateway.RateLimit.{check_limit}
use yuelaiengine_gateway.RateLimit
use yuelaiengine_gateway.CircuitBreaker.{check_circuit, open_state, Call, run}
use yuelaiengine_gateway.CircuitBreaker
use yuelaiengine_gateway.CircuitBreaker.Window.{IsOpenSince, IsEarly, check-run-refused}
use yuelaiengine_gateway.Plugin.{Exchange, write, text_of}
use yuelaiengine_gateway.Plugin.Services.{
  rule_and_strategy, after_limit, rate_limit_plugin, after_check, circuit_breaker_plugin,
}

after_check_open :
    (x : Exchange) (allowed : Bool) (err : Option CircuitBreaker.Error)
    → allowed ≡ false
    → err ≡ some open_state
    → after_check x allowed err ≡ (write 503 (lit "CIRCUIT_OPEN") x, false, none)
unfolding after_check
after_check_open x allowed err a e = rw (a, e)

-- Through the plugin, a service whose breaker opened at time `t` answers every request before the end
-- of the reset timeout with status 503, whatever calls the breakers saw in between, if none of them
-- resets it.
pub circuit_breaker_plugin-refused :
    (spec : PluginSpec) (x : Exchange) (t now : ℕ) (s : CircuitBreaker.Service)
    (cs : List (ℕ × Call))
    → let name = text_of (lit "service") spec in
      is_empty name ≡ false
      → x.circuit_breaker ≡ run s cs
      → 0 < s.reset_timeout
      → IsOpenSince name t s
      → All (IsEarly name (t + s.reset_timeout)) cs
      → now < t + s.reset_timeout
      → circuit_breaker_plugin now spec x ≡ (
        write 503
            (lit "CIRCUIT_OPEN")
            (record x { circuit_breaker = (check_circuit now name (run s cs)).0 }),
        false,
        none,
      )
unfolding circuit_breaker_plugin
circuit_breaker_plugin-refused spec x t now s cs n e p o early h =
    let (a, err) = check-run-refused (text_of (lit "service") spec) t now s cs p o early h in
    rw (n, e) (after_check_open _ _ _ a err)

after_limit-true :
    (x : Exchange) (allowed : Bool) (err : Option RateLimit.Error)
    → (after_limit x allowed err).1 ≡ true
    → (allowed ≡ true) × (err ≡ none)
unfolding after_limit
after_limit-true x allowed (some e) h = absurd (false≢true h)
after_limit-true x true none h = (refl, refl)
after_limit-true x false none h = absurd (false≢true h)

-- The rate limit plugin lets a request on only if its spec names a rule and a strategy that there is,
-- and the strategy finds no identifier in the request or the limiter of the rule grants it.
pub rate_limit_plugin-granted :
    (refill : ℕ → ℕ → ℕ) (now : ℕ) (spec : PluginSpec) (x : Exchange)
    → (rate_limit_plugin refill now spec x).1 ≡ true
    → (rule strategy : Bytes) × (identify : Request → Bytes) × (rule_and_strategy spec
        ≡ some (rule, strategy))
      × (get_identifier_func strategy ≡ some identify)
      × ((is_empty (identify x.request) ≡ true)
          ⊎ ((check_limit refill now rule (identify x.request) x.rate_limit).1 ≡ true))
unfolding rate_limit_plugin
rate_limit_plugin-granted refill now spec x h = elim (Option-cases (rule_and_strategy spec)) [
  | inl e ↦ absurd (false≢true (rw (e, rate_limit_plugin) at h))
  | inr ((rule, strategy), e) ↦ elim (Option-cases (get_identifier_func strategy)) [
    | inl g ↦ absurd (false≢true (rw (e, g, rate_limit_plugin) at h))
    | inr (identify, g) ↦ elim (Bool-cases (is_empty (identify x.request))) [
      | inl n ↦ (rule, strategy, identify, e, g, inl n)
      | inr n ↦ (
        rule,
        strategy,
        identify,
        e,
        g,
        inr (after_limit-true _ _ _ (rw (e, g, n, rate_limit_plugin) at h)).0,
      )
    ]
  ]
]

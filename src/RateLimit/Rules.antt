-- ===== src/RateLimit/Rules.antt =====
-- What the rules of a configuration come to.
use yuelaiengine_gateway.Common.{
  ℕ, true, false, Option, none, some, List, [], ◌∷◌, ◌≡◌, refl, inl, inr, arith, ◌↔◌, ◌⊎◌, Bytes,
  lit, text_eq, text_eq_iff, Map, get, put, get-put, All, if◌then◌else◌, Option-cases, ◌∙◌,
  is_empty_iff, ap,
}
use mathlib.Core.Bool.{false≢true}
use yuelaiengine_gateway.Config.{RateLimiterRule}
use yuelaiengine_gateway.RateLimit.{
  Limiter, Error, Result, ok, err, Service, new_limiter, add_rules, new_service, check_limit,
  allow_limiter, rule_not_found,
}

-- The types of rules that there are.
abbrev pub IsKnown : RateLimiterRule → Type 0
IsKnown rule =
    (rule.rule_type ≡ lit "memory_token_bucket")
    ⊎ (rule.rule_type ≡ [])
    ⊎ (rule.rule_type ≡ lit "noop")

-- The limiter of the last rule of that name.
abbrev pub last_of : Bytes → List RateLimiterRule → Option Limiter → Option Limiter
last_of name [] found = found
last_of name (rule ∷ rules) found = last_of name rules (
    if text_eq rule.name name
    then (elim (new_limiter rule) [ ok lim ↦ some lim | err _ ↦ none ])
    else found)

pub Result-cases {ℓ} :
    {A : Type ℓ} (r : Result A) → ((a : A) × (r ≡ ok a)) ⊎ ((e : Error) × (r ≡ err e))
Result-cases (ok a) = inl (a, refl)
Result-cases (err e) = inr (e, refl)

new_limiter_of_IsKnown :
    (rule : RateLimiterRule) → IsKnown rule → (lim : Limiter) × (new_limiter rule ≡ ok lim)
unfolding new_limiter
new_limiter_of_IsKnown rule h = elim (Result-cases (new_limiter rule)) [
  | inl r ↦ r
  | inr (e, r) ↦ absurd (
      ground (
        arith,
        text_eq_iff rule.rule_type (lit "memory_token_bucket"),
        text_eq_iff rule.rule_type (lit "noop"),
        is_empty_iff rule.rule_type,
      ))
]

new_limiter-IsKnown :
    (rule : RateLimiterRule) (lim : Limiter) → new_limiter rule ≡ ok lim → IsKnown rule
unfolding new_limiter
new_limiter-IsKnown rule lim e = ground (
  arith,
  text_eq_iff rule.rule_type (lit "memory_token_bucket"),
  text_eq_iff rule.rule_type (lit "noop"),
  is_empty_iff rule.rule_type,
)

add_rules_total :
    (rules : List RateLimiterRule) (m : Map Limiter)
    → All IsKnown rules
    → (s : Service) × (add_rules rules m ≡ ok s)
unfolding add_rules
add_rules_total [] m h = (record { limiters = m }, refl)
add_rules_total (rule ∷ rules) m (k, h) =
    let (lim, e) = new_limiter_of_IsKnown rule k in
    rw e (add_rules_total rules (put rule.name lim m) h)

add_rules_sound :
    (rules : List RateLimiterRule) (m : Map Limiter) (s : Service)
    → add_rules rules m ≡ ok s
    → All IsKnown rules × ((name : Bytes) → get name s.limiters ≡ last_of name rules (get name m))
unfolding add_rules
add_rules_sound [] m s e = (tt, λ name. ground arith)
add_rules_sound (rule ∷ rules) m s e = elim (Result-cases (new_limiter rule)) [
  | inl (lim, q) ↦
      let (known, found) = add_rules_sound rules (put rule.name lim m) s (rw q at e) in
      (
        (new_limiter-IsKnown rule lim q, known),
        λ name. found name ∙ rw q (ap (last_of name rules) (get-put rule.name name lim m)),
      )
  | inr (x, q) ↦ absurd (ground arith)
]

-- The service is created exactly when every rule has one of the known types.
pub new_service-ok_iff :
    (rules : List RateLimiterRule)
    → ((s : Service) × (new_service rules ≡ ok s)) ↔ All IsKnown rules
unfolding new_service
new_service-ok_iff rules =
    ((λ (s, e). (add_rules_sound rules [] s e).0), (λ h. add_rules_total rules [] h))

-- In a service that was created, the limiter of a name is that of the last rule of that name, and a
-- name that no rule has is not there.
pub get-new_service :
    (rules : List RateLimiterRule) (s : Service) (name : Bytes)
    → new_service rules ≡ ok s
    → get name s.limiters ≡ last_of name rules none
unfolding new_service get
get-new_service rules s name e = (add_rules_sound rules [] s e).1 name

check_limit-none :
    (refill : ℕ → ℕ → ℕ) (now : ℕ) (rule_name identifier : Bytes) (s : Service)
    → get rule_name s.limiters ≡ none
    → check_limit refill now rule_name identifier s ≡ (s, false, some (rule_not_found rule_name))
unfolding check_limit
check_limit-none refill now rule_name identifier s h = rw (h, check_limit)

check_limit-some :
    (refill : ℕ → ℕ → ℕ) (now : ℕ) (rule_name identifier : Bytes) (s : Service) (lim : Limiter)
    → get rule_name s.limiters ≡ some lim
    → check_limit refill now rule_name identifier s ≡ (
      record s { limiters = put rule_name (allow_limiter refill now identifier lim).0 s.limiters },
      (allow_limiter refill now identifier lim).1,
      none,
    )
unfolding check_limit
check_limit-some refill now rule_name identifier s lim h = rw (h, check_limit)

-- A request is let through only under a rule that is there and whose limiter allows the client; then
-- there is no error, that limiter has moved on, and the limiters of all other rules are as before.
pub check_limit-allowed :
    (refill : ℕ → ℕ → ℕ) (now : ℕ) (rule_name identifier : Bytes) (s : Service)
    → (check_limit refill now rule_name identifier s).1 ≡ true
    → (lim : Limiter) × (get rule_name s.limiters ≡ some lim)
      × ((allow_limiter refill now identifier lim).1 ≡ true)
      × ((check_limit refill now rule_name identifier s).2 ≡ none)
      × ((other : Bytes)
          → get other (check_limit refill now rule_name identifier s).0.limiters ≡ (
              if text_eq rule_name other
              then some (allow_limiter refill now identifier lim).0
              else get other s.limiters))
check_limit-allowed refill now rule_name identifier s h =
    elim (Option-cases (get rule_name s.limiters)) [
      | inl e ↦ absurd (false≢true (rw (check_limit-none refill now rule_name identifier s e) at h))
      | inr (lim, e) ↦
          let step = check_limit-some refill now rule_name identifier s lim e in
          (lim, e, rw step at h, rw step, λ other. rw step (get-put rule_name other _ s.limiters))
    ]

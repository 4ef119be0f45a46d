-- ===== src/Admin/Rules.antt =====
-- What an administrator's change of a rate limit rule does to the limiters that run.
use mathlib.Core.Path.{subst}
use yuelaiengine_gateway.Common.{
  ℕ, false, Option, none, some, List, [], ◌∷◌, ◌≡◌, inl, inr, refl, ap, sym, ◌∙◌, arith, Bytes, lit,
  text_eq, text_eq_iff, text_eq_refl, get, All, trim_space, Bool-cases, some_injective,
}
use yuelaiengine_gateway.Config.{RateLimiterRule, GatewayConfig}
use yuelaiengine_gateway.LoadBalancer.ConsistentHash.{HashRingEntry}
use yuelaiengine_gateway.RateLimit
use yuelaiengine_gateway.RateLimit.{Limiter, new_limiter}
use yuelaiengine_gateway.RateLimit.Rules.{last_of, get-new_service}
use yuelaiengine_gateway.Validation.{is_blank}
use yuelaiengine_gateway.Runtime.{Gateway}
use yuelaiengine_gateway.Admin.Changes.{IsMutated, applied, rejected, mutate_config-IsMutated}
use yuelaiengine_gateway.Admin.{
  Reply, done, bad_request, requested_rule, upsert_rule, mutate_config,
  handle_rate_limit_rule_upsert,
}

-- No two rules have the same name.
abbrev pub HasDistinctNames : List RateLimiterRule → Type 0
HasDistinctNames [] = Unit
HasDistinctNames (r ∷ rules) =
    All (λ (q : RateLimiterRule). text_eq q.name r.name ≡ false) rules × HasDistinctNames rules

-- The limiter that a rule describes.
abbrev pub limiter_of : RateLimiterRule → Option Limiter
limiter_of rule = elim (new_limiter rule) [ RateLimit.ok lim ↦ some lim | RateLimit.err _ ↦ none ]

last_of_other :
    (name : Bytes) (rules : List RateLimiterRule) (found : Option Limiter)
    → All (λ (q : RateLimiterRule). text_eq q.name name ≡ false) rules
    → last_of name rules found ≡ found
last_of_other name [] found h = refl
last_of_other name (r ∷ rules) found (e, h) = rw e (last_of_other name rules found h)

last_of-upsert_rule :
    (rule : RateLimiterRule) (rules : List RateLimiterRule) (found : Option Limiter)
    → HasDistinctNames rules
    → last_of rule.name (upsert_rule rule rules) found ≡ limiter_of rule
unfolding upsert_rule
last_of-upsert_rule rule [] found d = rw (text_eq_refl rule.name) refl
last_of-upsert_rule rule (r ∷ rules) found (h, d) = elim (Bool-cases (text_eq r.name rule.name)) [
  | inl e ↦
      let same : r.name ≡ rule.name = (text_eq_iff r.name rule.name).0 e in
      rw (upsert_rule, e, last_of, text_eq_refl rule.name)
        (last_of_other rule.name rules (limiter_of rule)
          (subst (λ n. All (λ (q : RateLimiterRule). text_eq q.name n ≡ false) rules) same h))
  | inr e ↦ rw (upsert_rule, e, last_of) (last_of-upsert_rule rule rules _ d)
]

last_of-upsert_other :
    (name : Bytes) (rule : RateLimiterRule) (rules : List RateLimiterRule) (found : Option Limiter)
    → text_eq rule.name name ≡ false
    → last_of name (upsert_rule rule rules) found ≡ last_of name rules found
unfolding upsert_rule
last_of-upsert_other name rule [] found n = rw n refl
last_of-upsert_other name rule (r ∷ rules) found n = elim (Bool-cases (text_eq r.name rule.name)) [
  | inl e ↦
      let other : text_eq r.name name ≡ false =
        subst (λ k. text_eq k name ≡ false) (sym ((text_eq_iff r.name rule.name).0 e)) n in
      rw (upsert_rule, e, last_of, n, other) refl
  | inr e ↦ rw (upsert_rule, e, last_of) (last_of-upsert_other name rule rules _ n)
]

module _ (sort : List HashRingEntry → List HashRingEntry)
    (parse_url : Bytes → Option (Bytes × Bytes)) (parse_path : Bytes → Option Bytes) where
  -- After an administrator's rule is reported as done, the limiter of its name is the one that the rule
  -- describes, and every other name keeps the limiter that the old rules describe. No two of the old
  -- rules have the same name.
  pub handle_rate_limit_rule_upsert-limiters :
      (now : ℕ) (req : RateLimiterRule) (g : Gateway)
      → HasDistinctNames g.config.rules
      → (handle_rate_limit_rule_upsert sort parse_url parse_path now (some req) g).1 ≡ done
      → (limits : RateLimit.Service) × ((handle_rate_limit_rule_upsert sort parse_url parse_path now
            (some req)
            g).0.rate_limit_svc
          ≡ some limits)
        × (get (trim_space req.name) limits.limiters ≡ limiter_of (requested_rule req))
        × ((name : Bytes)
            → text_eq (trim_space req.name) name ≡ false
            → get name limits.limiters ≡ last_of name g.config.rules none)
  unfolding handle_rate_limit_rule_upsert
  handle_rate_limit_rule_upsert-limiters now req g distinct h =
      elim (Bool-cases (is_blank req.name)) [
        | inl e ↦
            let bad : bad_request ≡ done = rw (handle_rate_limit_rule_upsert, e) at h in
            absurd (ground arith)
        | inr e ↦
            rw (handle_rate_limit_rule_upsert, e)
              (by_change
                (mutate_config sort parse_url parse_path now (lit "admin:ratelimit:upsert") change
                  g)
                (mutate_config-IsMutated sort parse_url parse_path now
                  (lit "admin:ratelimit:upsert") change g)
                (rw (handle_rate_limit_rule_upsert, e) at h))
      ]
    where
      change : GatewayConfig → Option GatewayConfig
      change cfg = some (record cfg { rules = upsert_rule (requested_rule req) cfg.rules })

      by_change :
          (r : Gateway × Reply)
          → IsMutated sort parse_url parse_path now (lit "admin:ratelimit:upsert") change g r.0 r.1
          → r.1 ≡ done
          → (limits : RateLimit.Service) × (r.0.rate_limit_svc ≡ some limits)
            × (get (trim_space req.name) limits.limiters ≡ limiter_of (requested_rule req))
            × ((name : Bytes)
                → text_eq (trim_space req.name) name ≡ false
                → get name limits.limiters ≡ last_of name g.config.rules none)
      by_change (g', _) (applied next m a ran) q =
          let (limits, made, now_there) = ran.limits in
          let rules : next.rules ≡ upsert_rule (requested_rule req) g.config.rules =
            ap (λ (c : GatewayConfig). c.rules) (some_injective next _ (sym m)) in
          (
            limits,
            now_there,
            get-new_service next.rules limits (trim_space req.name) made
                ∙ ap (λ rs. last_of (trim_space req.name) rs none) rules
                ∙ last_of-upsert_rule (requested_rule req) g.config.rules none distinct,
            λ name n.
                get-new_service next.rules limits name made
                ∙ ap (λ rs. last_of name rs none) rules
                ∙ last_of-upsert_other name (requested_rule req) g.config.rules none n,
          )
      by_change (g', _) (rejected k n) q = absurd (ground arith)

-- ===== src/Admin/Changes.antt =====
-- A change of the configuration takes effect as a whole or not at all.
use mathlib.Core.Path.{subst}
use yuelaiengine_gateway.Common.{
  List, ℕ, Option, none, some, ◌≡◌, refl, ap, sym, ◌∙◌, Bytes, lit, some_injective, none-some,
}
use yuelaiengine_gateway.Config.{GatewayConfig}
use yuelaiengine_gateway.LoadBalancer.ConsistentHash.{HashRingEntry}
use yuelaiengine_gateway.Runtime.{Error, Gateway, apply_config}
use yuelaiengine_gateway.Runtime.Apply.{IsRunning, IsKept, same_gateway}
use yuelaiengine_gateway.Runtime.Outcome.{
  IsAccepted, apply_config-IsAccepted_iff, apply_config-IsRunning, apply_config-IsKept,
}
use yuelaiengine_gateway.Admin.{Reply, done, refused, reply_of, mutate_config}

module _ (sort : List HashRingEntry → List HashRingEntry)
    (parse_url : Bytes → Option (Bytes × Bytes)) (parse_path : Bytes → Option Bytes) where
  -- What becomes of a change.
  pub data IsMutated (now : ℕ) (source : Bytes) (mutator : GatewayConfig → Option GatewayConfig)
      (g g' : Gateway) : Reply → Type 0 where
    applied :
        (next : GatewayConfig)
        → mutator g.config ≡ some next
        → IsAccepted parse_url parse_path next
        → IsRunning now next source g g'
        → IsMutated now source mutator g g' done
    rejected :
        IsKept g g'
        → ((next : GatewayConfig)
            → mutator g.config ≡ some next
            → IsAccepted parse_url parse_path next
            → ⊥)
        → IsMutated now source mutator g g' (refused 400 (lit "CONFIG_APPLY_FAILED"))

  -- A change is reported as done exactly when the configuration that it makes is accepted, and then that
  -- configuration runs; otherwise the change is refused, and the configuration, the router, the limiters,
  -- the circuit breakers and the history stay as they were.
  pub mutate_config-IsMutated :
      (now : ℕ) (source : Bytes) (mutator : GatewayConfig → Option GatewayConfig) (g : Gateway)
      → let (g', reply) = mutate_config sort parse_url parse_path now source mutator g in
        IsMutated now source mutator g g' reply
  unfolding mutate_config
  mutate_config-IsMutated now source mutator g = split (mutator g.config) refl
    where
      tried :
          (next : GatewayConfig) (r : Gateway × Option Error)
          → mutator g.config ≡ some next
          → apply_config sort parse_url parse_path now next source g ≡ r
          → let (g', reply) = reply_of sort parse_url parse_path (lit "CONFIG_APPLY_FAILED") r in
            IsMutated now source mutator g g' reply
      tried next (g', none) m e =
          let fine = ap (λ (r : Gateway × Option Error). r.1) e in
          applied next m
            ((apply_config-IsAccepted_iff sort parse_url parse_path now next source g).0 fine)
            (subst (λ (r : Gateway × Option Error). IsRunning now next source g r.0) e
              (apply_config-IsRunning sort parse_url parse_path now next source g fine))
      tried next (g', some x) m e =
          let failed = ap (λ (r : Gateway × Option Error). r.1) e in
          rejected
            (subst (λ (r : Gateway × Option Error). IsKept g r.0) e
              (apply_config-IsKept sort parse_url parse_path now next source g x failed).0)
            (λ other o a.
              let same : other ≡ next = some_injective other next (sym o ∙ m) in
              let fine =
                (apply_config-IsAccepted_iff sort parse_url parse_path now next source g).1
                  (subst (IsAccepted parse_url parse_path) same a) in
              none-some x (sym fine ∙ failed))

      split :
          (o : Option GatewayConfig)
          → mutator g.config ≡ o
          → let (g', reply) = mutate_config sort parse_url parse_path now source mutator g in
            IsMutated now source mutator g g' reply
      split none m =
          rw (mutate_config, m) (rejected (same_gateway g) (λ next n a. none-some next (sym m ∙ n)))
      split (some next) m =
          rw (mutate_config, m)
            (tried next (apply_config sort parse_url parse_path now next source g) m refl)

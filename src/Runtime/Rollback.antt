-- ===== src/Runtime/Rollback.antt =====
-- A version that is rolled back to runs again.
use yuelaiengine_gateway.Common.{
  ℕ, ◌+◌, ◌<◌, ◌≤◌, Option, none, List, [], ◌∷◌, ◌++◌, ◌≡◌, inl, inr, refl, ap, ◌∙◌, arith, Bytes,
  lit, length, u64, Option-cases,
}
use yuelaiengine_gateway.Config.{GatewayConfig}
use yuelaiengine_gateway.LoadBalancer.ConsistentHash.{HashRingEntry}
use yuelaiengine_gateway.History.{History, version_name, bound_of, find_version}
use yuelaiengine_gateway.History.Log.{Entry, record_all, find_version-record_all}
use yuelaiengine_gateway.Runtime.{Gateway, named_source, apply_config, rollback_to_version}
use yuelaiengine_gateway.Runtime.Apply.{IsRunning}
use yuelaiengine_gateway.Runtime.Outcome.{
  IsAccepted, apply_config-IsAccepted_iff, apply_config-IsRunning, apply_config-IsKept,
}

module _ (sort : List HashRingEntry → List HashRingEntry)
    (parse_url : Bytes → Option (Bytes × Bytes)) (parse_path : Bytes → Option Bytes) where
  -- One attempt after the other, whether they take effect or not.
  abbrev pub apply_all : List Entry → Gateway → Gateway
  apply_all [] g = g
  apply_all ((now, cfg, source) ∷ es) g =
      apply_all es (apply_config sort parse_url parse_path now cfg source g).0

  -- Each attempt records at most one configuration.
  history-apply_all :
      (es : List Entry) (g : Gateway)
      → (rs : List Entry) × ((apply_all es g).history ≡ record_all rs g.history)
        × (length rs ≤ length es)
  history-apply_all [] g = ([], refl, omega arith)
  history-apply_all ((now, cfg, source) ∷ es) g =
      let next = (apply_config sort parse_url parse_path now cfg source g).0 in
      let (rs, e, few) = history-apply_all es next in
      elim (Option-cases (apply_config sort parse_url parse_path now cfg source g).1) [
        | inl q ↦
            let ran = apply_config-IsRunning sort parse_url parse_path now cfg source g q in
            (
              (now, cfg, named_source source) ∷ rs,
              e ∙ ap (record_all rs) ran.history,
              omega (arith, few),
            )
        | inr (x, q) ↦
            let (k, _) = apply_config-IsKept sort parse_url parse_path now cfg source g x q in
            (rs, e ∙ ap (record_all rs) k.history, omega (arith, few))
      ]

  -- A configuration that took effect can be rolled back to, and runs again: whatever was applied since,
  -- with or without effect, as long as it is fewer attempts than the history keeps.
  pub rollback_to_version-IsRunning :
      (now later : ℕ) (cfg : GatewayConfig) (source : Bytes) (es : List Entry) (g : Gateway)
      → IsAccepted parse_url parse_path cfg
      → length g.history.config_history ≤ bound_of g.history.max_history
      → length es < bound_of g.history.max_history
      → g.history.version_counter + 1 + length es < u64
      → let v = version_name (g.history.version_counter + 1) in
        let now_on = apply_all ((now, cfg, source) ∷ es) g in
        let (g', e) = rollback_to_version sort parse_url parse_path later v now_on in
        (e ≡ none) × IsRunning later cfg (lit "rollback:" ++ v) now_on g'
  unfolding rollback_to_version
  rollback_to_version-IsRunning now later cfg source es g a fits few small =
      let v = version_name (g.history.version_counter + 1) in
      let now_on = apply_all ((now, cfg, source) ∷ es) g in
      let first = apply_config sort parse_url parse_path now cfg source g in
      let ran =
        apply_config-IsRunning sort parse_url parse_path now cfg source g
          ((apply_config-IsAccepted_iff sort parse_url parse_path now cfg source g).1 a) in
      let (rs, e, fewer) = history-apply_all es first.0 in
      let found =
        ap (λ (h : History). find_version v h.config_history) (e ∙ ap (record_all rs) ran.history)
        ∙ find_version-record_all now cfg (named_source source) rs g.history fits
            (omega (arith, few, fewer)) (omega (arith, small, fewer)) in
      let again =
        (apply_config-IsAccepted_iff sort parse_url parse_path later cfg (lit "rollback:" ++ v)
            now_on).1
          a in
      rw (rollback_to_version, found)
        (
          again,
          apply_config-IsRunning sort parse_url parse_path later cfg (lit "rollback:" ++ v) now_on
              again,
        )

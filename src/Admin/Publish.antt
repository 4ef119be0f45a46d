-- ===== src/Admin/Publish.antt =====
-- internal/core/admin.go (handleAdminConfigApply): a configuration that is checked only, or applied and
-- perhaps written to a file.
use mathlib.Core.Path.{subst}
use yuelaiengine_gateway.Common.{
  ℕ, Bool, true, false, Option, none, some, List, ◌≡◌, ◌↔◌, ◌⊎◌, inl, inr, refl, ap, sym, ◌∙◌,
  arith, Bytes, lit, is_empty, trim_space, All, each-All_iff, if◌then◌else◌, Bool-cases,
}
use yuelaiengine_gateway.Config.{GatewayConfig}
use yuelaiengine_gateway.LoadBalancer.ConsistentHash.{HashRingEntry}
use yuelaiengine_gateway.Validation
use yuelaiengine_gateway.Validation.{
  validate_gateway_config, validate_route_transcoding_configs, validate_transcoding,
}
use yuelaiengine_gateway.Validation.WellFormed.{IsWellFormed}
use yuelaiengine_gateway.Validation.Accepts.{validate_gateway_config-IsWellFormed_iff}
use yuelaiengine_gateway.Runtime.{Error, bad_validate_url, Gateway, apply_config}
use yuelaiengine_gateway.Runtime.Outcome.{
  IsConverted, validate_transcoding-IsConverted_iff, IsAccepted, apply_config-IsAccepted_iff,
  apply_config-IsRunning, apply_config-IsKept,
}
use yuelaiengine_gateway.Runtime.Apply.{IsRunning, IsKept}
use yuelaiengine_gateway.Runtime.Balanced.{HasServices, apply_config-HasServices}
use yuelaiengine_gateway.Admin.{Reply, done, refused, bad_request}

pub record ConfigApplyRequest : Type 0 where
  pub config : GatewayConfig
  pub dry_run : Bool
  pub source : Bytes
  pub persist : Bool
  pub persist_path : Bytes

abbrev pub apply_source : Bytes → Bytes
apply_source source = if is_empty source then lit "admin:config:apply" else source

-- The two validations of a dry run.
unfoldable pub dry_run_of : (Bytes → Option (Bytes × Bytes)) → GatewayConfig → Reply
dry_run_of parse_url cfg = elim (validate_gateway_config parse_url cfg) [
  | some _ ↦ refused 400 (lit "CONFIG_VALIDATE_FAILED")
  | none ↦ elim (validate_route_transcoding_configs cfg.routes) [
    | some _ ↦ refused 400 (lit "CONFIG_VALIDATE_FAILED")
    | none ↦ done
  ]
]

-- The path to write to: the request's, or else the one that the gateway was loaded from.
abbrev pub target_path : Bytes → Gateway → Bytes
target_path persist_path g =
    if is_empty (trim_space persist_path) then trim_space g.reload_path else trim_space persist_path

module _ (sort : List HashRingEntry → List HashRingEntry)
    (parse_url : Bytes → Option (Bytes × Bytes)) (parse_path : Bytes → Option Bytes)
    (save : Bytes → GatewayConfig → Bool) where
  -- The end of the handler for a configuration that could not be applied or written.
  unfoldable pub take_back : ℕ → Bool → GatewayConfig → Gateway → Gateway × Reply
  take_back now persist before g =
      if persist
      then (
        (apply_config sort parse_url parse_path now before (lit "rollback:persist-failed") g).0,
        refused 400 (lit "CONFIG_APPLY_FAILED"),
      )
      else (g, refused 400 (lit "CONFIG_APPLY_FAILED"))

  -- What follows an application that succeeded.
  unfoldable pub after_applied : ℕ → ConfigApplyRequest → GatewayConfig → Gateway → Gateway × Reply
  after_applied now req before g =
      if req.persist
      then (let path = target_path req.persist_path g in
          if is_empty path
          then take_back now true before g
          else (if save path g.config
              then (record g { reload_path = path }, done)
              else take_back now true before g))
      else (g, done)

  unfoldable pub after_attempt :
      ℕ → ConfigApplyRequest → GatewayConfig → Gateway × Option Error → Gateway × Reply
  after_attempt now req before (g, some e) = take_back now req.persist before g
  after_attempt now req before (g, none) = after_applied now req before g

  unfoldable pub handle_config_apply : ℕ → Option ConfigApplyRequest → Gateway → Gateway × Reply
  handle_config_apply now none g = (g, bad_request)
  handle_config_apply now (some req) g =
      if req.dry_run
      then (g, dry_run_of parse_url req.config)
      else after_attempt now req g.config
          (apply_config sort parse_url parse_path now req.config (apply_source req.source) g)

-- A dry run is passed exactly by the configurations that are well formed and convert protocols in the
-- known ways. That is less than it takes to be applied.
pub dry_run_of-done_iff :
    (parse_url : Bytes → Option (Bytes × Bytes)) (cfg : GatewayConfig)
    → (dry_run_of parse_url cfg ≡ done) ↔ (IsWellFormed parse_url cfg × All IsConverted cfg.routes)
unfolding dry_run_of validate_route_transcoding_configs
dry_run_of-done_iff parse_url cfg =
    let v = validate_gateway_config-IsWellFormed_iff parse_url cfg in
    let t =
      each-All_iff validate_transcoding IsConverted validate_transcoding-IsConverted_iff
        cfg.routes in
    (
      (λ h.
          passed (validate_gateway_config parse_url cfg) refl
            (validate_route_transcoding_configs cfg.routes) refl h),
      (λ (w, c). rw (dry_run_of, v.1 w, validate_route_transcoding_configs, t.1 c) refl),
    )
  where
    passed :
        (a : Option Validation.Error)
        → validate_gateway_config parse_url cfg ≡ a
        → (b : Option Validation.Error) → validate_route_transcoding_configs cfg.routes ≡ b
        → dry_run_of parse_url cfg ≡ done
        → IsWellFormed parse_url cfg × All IsConverted cfg.routes
    passed (some e) p b q h =
        let bad : refused 400 (lit "CONFIG_VALIDATE_FAILED") ≡ done = rw (dry_run_of, p) at h in
        absurd (ground arith)
    passed none p (some e) q h =
        let bad : refused 400 (lit "CONFIG_VALIDATE_FAILED") ≡ done = rw (dry_run_of, p, q) at h in
        absurd (ground arith)
    passed none p none q h = (
      (validate_gateway_config-IsWellFormed_iff parse_url cfg).0 p,
      (each-All_iff validate_transcoding IsConverted validate_transcoding-IsConverted_iff
            cfg.routes).0
          q,
    )

module _ (sort : List HashRingEntry → List HashRingEntry)
    (parse_url : Bytes → Option (Bytes × Bytes)) (parse_path : Bytes → Option Bytes)
    (save : Bytes → GatewayConfig → Bool) where
  -- What an application of the requested configuration gives.
  abbrev pub attempt : ℕ → ConfigApplyRequest → Gateway → Gateway × Option Error
  attempt now req g =
      apply_config sort parse_url parse_path now req.config (apply_source req.source) g

  -- The state runs the configuration, with its services, after the state before.
  abbrev pub Runs : ℕ → GatewayConfig → Bytes → Gateway → Gateway → Type 0
  Runs now cfg source g g' =
      IsRunning now cfg source g g' × HasServices sort parse_url parse_path cfg g g'

  -- Why a request that asks for a file to be written is refused.
  pub data Fails (now : ℕ) (req : ConfigApplyRequest) (g : Gateway) : Type 0 where
    not_accepted : ¬ IsAccepted parse_url parse_path req.config → Fails now req g
    no_path : is_empty (target_path req.persist_path (attempt now req g).0) ≡ true → Fails now req g
    not_saved :
        save (target_path req.persist_path (attempt now req g).0) req.config ≡ false
        → Fails now req g

  -- What becomes of a request to apply a configuration: it runs, and was written if that was asked for;
  -- or it is not accepted, and nothing was to be written; or something was to be written, and the
  -- configuration of before was applied again, to what the attempt left.
  pub data IsPublished (now : ℕ) (req : ConfigApplyRequest) (g : Gateway)
      : Gateway × Reply → Type 0 where
    published :
        {g' : Gateway}
        → IsAccepted parse_url parse_path req.config
        → Runs now req.config (apply_source req.source) g g'
        → (req.persist ≡ false)
          ⊎ ((is_empty g'.reload_path ≡ false) × (save g'.reload_path req.config ≡ true))
        → IsPublished now req g (g', done)
    not_applied :
        {g' : Gateway}
        → req.persist ≡ false
        → ¬ IsAccepted parse_url parse_path req.config
        → IsKept g g'
        → (((attempt now req g).1 ≡ some bad_validate_url)
            × HasServices sort parse_url parse_path req.config g g')
          ⊎ (g' ≡ g)
        → IsPublished now req g (g', refused 400 (lit "CONFIG_APPLY_FAILED"))
    taken_back :
        {g' : Gateway}
        → req.persist ≡ true
        → Fails now req g
        → Runs now g.config (lit "rollback:persist-failed") (attempt now req g).0 g'
        → IsPublished now req g (g', refused 400 (lit "CONFIG_APPLY_FAILED"))

  -- The path that the gateway then loads from is no part of what runs.
  Runs-reload_path :
      (now : ℕ) (cfg : GatewayConfig) (source path : Bytes) (g g' : Gateway)
      → Runs now cfg source g g'
      → Runs now cfg source g (record g' { reload_path = path })
  Runs-reload_path now cfg source path g g' (r, s) = (
    record {
      config = r.config;
      router = r.router;
      limits = r.limits;
      breakers = r.breakers;
      history = r.history;
    },
    s,
  )

  attempt-not-IsAccepted :
      (now : ℕ) (req : ConfigApplyRequest) (g : Gateway) (e : Error)
      → (attempt now req g).1 ≡ some e
      → ¬ IsAccepted parse_url parse_path req.config
  attempt-not-IsAccepted now req g e h a =
      let fine =
        (apply_config-IsAccepted_iff sort parse_url parse_path now req.config
            (apply_source req.source) g).1
          a in
      let bad : some e ≡ none = sym h ∙ fine in absurd (ground arith)

  take_back-IsPublished :
      (now : ℕ) (req : ConfigApplyRequest) (g : Gateway)
      → IsAccepted parse_url parse_path g.config
      → req.persist ≡ true
      → Fails now req g
      → IsPublished now req g
          (take_back sort parse_url parse_path save now true g.config (attempt now req g).0)
  unfolding take_back
  take_back-IsPublished now req g a p why =
      let source = lit "rollback:persist-failed" in
      let fine =
        (apply_config-IsAccepted_iff sort parse_url parse_path now g.config source
            (attempt now req g).0).1
          a in
      taken_back p why (
        apply_config-IsRunning sort parse_url parse_path now g.config source (attempt now req g).0
            fine,
        apply_config-HasServices sort parse_url parse_path now g.config source (attempt now req g).0
            (inl fine),
      )

  after_applied-IsPublished :
      (now : ℕ) (req : ConfigApplyRequest) (g : Gateway)
      → IsAccepted parse_url parse_path g.config
      → IsAccepted parse_url parse_path req.config
      → Runs now req.config (apply_source req.source) g (attempt now req g).0
      → IsPublished now req g
          (after_applied sort parse_url parse_path save now req g.config (attempt now req g).0)
  unfolding after_applied
  after_applied-IsPublished now req g a ok runs =
      let g' = (attempt now req g).0 in
      let path = target_path req.persist_path g' in
      let c = runs.0.config in
      elim (Bool-cases req.persist) [
        | inr p ↦ simp (after_applied, p) (published ok runs (inl p))
        | inl p ↦ elim (Bool-cases (is_empty path)) [
          | inl e ↦ simp (after_applied, p, e) (take_back-IsPublished now req g a p (no_path e))
          | inr e ↦ elim (Bool-cases (save path g'.config)) [
            | inl w ↦
                simp (after_applied, p, e, w)
                  (published ok
                    (Runs-reload_path now req.config (apply_source req.source) path g g' runs)
                    (inr (e, (ap (save path) (sym c) ∙ w))))
            | inr w ↦
                simp (after_applied, p, e, w)
                  (take_back-IsPublished now req g a p (not_saved (ap (save path) (sym c) ∙ w)))
          ]
        ]
      ]

  -- A request that is no dry run ends in one of three ways. Either the requested configuration runs
  -- (its routes, limiters, circuit breakers, and its services by a synchronisation from those of
  -- before), is the newest of the history, and was written to the file that the gateway then loads
  -- from if that was asked for. Or the configuration is not accepted and no file was asked for: it is
  -- refused, and the configuration, the routes, the limiters, the circuit breakers and the history are
  -- those of before; so is all the rest, unless it is only the path of the validation URL that cannot
  -- be read, where the services are already synchronised to those of the refused configuration. Or a file
  -- was asked for and the configuration is not accepted, there is no path to write to or the file
  -- cannot be written: it is refused, and the configuration of before, which is one that is accepted,
  -- was applied to what the attempt had left, so that its routes, limiters, circuit breakers and
  -- services run again, the limiters and circuit breakers made anew.
  pub handle_config_apply-IsPublished :
      (now : ℕ) (req : ConfigApplyRequest) (g : Gateway)
      → IsAccepted parse_url parse_path g.config
      → req.dry_run ≡ false
      → IsPublished now req g (handle_config_apply sort parse_url parse_path save now (some req) g)
  unfolding handle_config_apply after_attempt take_back
  handle_config_apply-IsPublished now req g a d =
      simp (handle_config_apply, d) (tried (attempt now req g) refl)
    where
      tried :
          (t : Gateway × Option Error)
          → attempt now req g ≡ t
          → IsPublished now req g (after_attempt sort parse_url parse_path save now req g.config t)
      tried (g', none) e =
          let fine = ap (λ (t : Gateway × Option Error). t.1) e in
          let source = apply_source req.source in
          subst
            (λ s.
              IsPublished now req g
                (after_applied sort parse_url parse_path save now req g.config s))
            (ap (λ (t : Gateway × Option Error). t.0) e)
            (after_applied-IsPublished now req g a
              ((apply_config-IsAccepted_iff sort parse_url parse_path now req.config source g).0
                fine)
              (
                apply_config-IsRunning sort parse_url parse_path now req.config source g fine,
                apply_config-HasServices sort parse_url parse_path now req.config source g
                    (inl fine),
              ))
      tried (g', some x) e =
          let fails = ap (λ (t : Gateway × Option Error). t.1) e in
          let state = ap (λ (t : Gateway × Option Error). t.0) e in
          let why = attempt-not-IsAccepted now req g x fails in
          elim (Bool-cases req.persist) [
            | inl p ↦
                subst
                  (λ s.
                    IsPublished now req g
                      (take_back sort parse_url parse_path save now req.persist g.config s))
                  state
                  (subst
                    (λ b. IsPublished now req g (
                      take_back sort parse_url parse_path save now b g.config
                        (attempt now req g).0))
                    (sym p) (take_back-IsPublished now req g a p (not_accepted why)))
            | inr p ↦
                let (k, left) =
                  apply_config-IsKept sort parse_url parse_path now req.config
                    (apply_source req.source) g x fails in
                simp (take_back, p)
                  (not_applied p why (subst (IsKept g) state k) (elim left [
                    | inl u ↦ inl (
                      fails ∙ ap some u,
                      subst (HasServices sort parse_url parse_path req.config g) state (
                          apply_config-HasServices sort parse_url parse_path now req.config
                            (apply_source req.source) g (inr (fails ∙ ap some u))),
                    )
                    | inr s ↦ inr (sym state ∙ s)
                  ]))
          ]

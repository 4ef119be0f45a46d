-- ===== src/Health/Rounds.antt =====
-- What a round of checks leaves behind in each info.
use mathlib.Core.Path.{subst}
use yuelaiengine_gateway.Common.{
  ℕ, ◌==◌, ◌&&◌, Bool, true, ◌||◌, Option, none, some, List, [], ◌∷◌, ◌++◌, ◌≡◌, inl, inr, refl, ap,
  sym, ◌∙◌, arith, Bytes, text_eq, text_eq_iff, Map, get, get_elem?, any, if◌then◌else◌, Bool-cases,
  Option-cases,
}
use yuelaiengine_gateway.Health.{
  ServiceCheckInfo, HealthChecker, load, update_service_status, answers, check_instances,
  check_service, check_services, run_all_health_checks, is_healthy_in, is_instance_healthy,
}
use yuelaiengine_gateway.Health.Updates.{
  IsUpdated, PointsTo, update_service_status-IsUpdated, update_service_status-other,
  update_service_status-services, then-IsUpdated, same-IsUpdated, is_named,
}

load-pointer :
    (name : Bytes) (hc : HealthChecker) (info : ServiceCheckInfo)
    → load name hc ≡ some info
    → (p : ℕ) × (get name hc.services ≡ some p) × PointsTo p info hc
unfolding load
load-pointer name hc info e = elim (Option-cases (get name hc.services)) [
  | inl g ↦ let bad : none ≡ some info = rw (g, load) at e in absurd (ground arith)
  | inr (p, g) ↦ (p, g, rw (g, load) at e)
]

is_instance_healthy-at :
    (name url : Bytes) (p : ℕ) (hc : HealthChecker) (info : ServiceCheckInfo)
    → get name hc.services ≡ some p
    → PointsTo p info hc
    → is_instance_healthy name url hc ≡ is_healthy_in url info
unfolding is_instance_healthy load
is_instance_healthy-at name url p hc info g at = rw (g, at, load, is_instance_healthy) refl

get-pointer :
    (name : Bytes) (p : ℕ) (services : Map ℕ)
    → get name services ≡ some p
    → any (λ (e : Bytes × ℕ). e.1 == p) services ≡ true
unfolding get
get-pointer name p [] e = absurd (ground arith)
get-pointer name p ((other, q) ∷ services) e = elim (Bool-cases (text_eq other name)) [
  | inl s ↦ let here : some q ≡ some p = rw s at e in ground arith
  | inr s ↦ let later = get-pointer name p services (rw s at e) in ground arith
]

module _ (client : Bytes → Option ℕ) where
  abbrev answer_at : Bytes → Bytes → Bool
  answer_at health_path url = answers client (url ++ health_path)

  check_instances-IsUpdated :
      (name : Bytes) (p : ℕ) (health_path : Bytes) (urls : List Bytes) (hc : HealthChecker)
      (info : ServiceCheckInfo)
      → PointsTo p info hc
      → (after : ServiceCheckInfo) × PointsTo p after
          (check_instances client name p health_path urls hc).0
        × IsUpdated (is_named urls) (answer_at health_path) info after
  unfolding check_instances
  check_instances-IsUpdated name p health_path [] hc info at =
      (info, at, record { instances = refl; health_path = refl; status = λ _. refl })
  check_instances-IsUpdated name p health_path (url ∷ urls) hc info at =
      let step = update_service_status name p url (answer_at health_path url) hc in
      let (mid, at_mid, f) =
        update_service_status-IsUpdated name p url (answer_at health_path url) hc info at in
      let (after, at_after, g) =
        check_instances-IsUpdated name p health_path urls step.0 mid at_mid in
      (
        after,
        at_after,
        then-IsUpdated (text_eq url) (is_named urls) (λ _. answer_at health_path url)
            (answer_at health_path) info mid after
            (λ u e. ap (answer_at health_path) ((text_eq_iff url u).0 e)) f g,
      )

  check_instances-other :
      (name : Bytes) (p q : ℕ) (health_path : Bytes) (urls : List Bytes) (hc : HealthChecker)
      → (p ≡ q → ⊥)
      → get_elem? (check_instances client name p health_path urls hc).0.infos q
        ≡ get_elem? hc.infos q
  unfolding check_instances
  check_instances-other name p q health_path [] hc ne = refl
  check_instances-other name p q health_path (url ∷ urls) hc ne =
      let step = update_service_status name p url (answer_at health_path url) hc in
      check_instances-other name p q health_path urls step.0 ne
      ∙ update_service_status-other name p q url (answer_at health_path url) hc ne

  check_instances-services :
      (name : Bytes) (p : ℕ) (health_path : Bytes) (urls : List Bytes) (hc : HealthChecker)
      → (check_instances client name p health_path urls hc).0.services ≡ hc.services
  unfolding check_instances
  check_instances-services name p health_path [] hc = refl
  check_instances-services name p health_path (url ∷ urls) hc =
      let step = update_service_status name p url (answer_at health_path url) hc in
      check_instances-services name p health_path urls step.0
      ∙ update_service_status-services name p url (answer_at health_path url) hc

  -- A check of a service gives each of its instances the answer of its health path.
  check_service-IsUpdated :
      (name : Bytes) (p : ℕ) (hc : HealthChecker) (info : ServiceCheckInfo)
      → PointsTo p info hc
      → (after : ServiceCheckInfo) × PointsTo p after (check_service client name p hc).0
        × IsUpdated (is_named info.instances) (answer_at info.health_path) info after
  unfolding check_service
  check_service-IsUpdated name p hc info at =
      rw (at, check_service)
        (check_instances-IsUpdated name p info.health_path info.instances hc info at)

  check_service-other :
      (name : Bytes) (p q : ℕ) (hc : HealthChecker)
      → (p ≡ q → ⊥)
      → get_elem? (check_service client name p hc).0.infos q ≡ get_elem? hc.infos q
  unfolding check_service
  check_service-other name p q hc ne = elim (Option-cases (get_elem? hc.infos p)) [
    | inl e ↦ rw (e, check_service) refl
    | inr (info, e) ↦
        rw (e, check_service) (check_instances-other name p q info.health_path info.instances hc ne)
  ]

  check_service-services :
      (name : Bytes) (p : ℕ) (hc : HealthChecker)
      → (check_service client name p hc).0.services ≡ hc.services
  unfolding check_service
  check_service-services name p hc = elim (Option-cases (get_elem? hc.infos p)) [
    | inl e ↦ rw (e, check_service) refl
    | inr (info, e) ↦
        rw (e, check_service) (check_instances-services name p info.health_path info.instances hc)
  ]

  check_services-services :
      (rest : Map ℕ) (hc : HealthChecker) → (check_services client rest hc).0.services ≡ hc.services
  unfolding check_services
  check_services-services [] hc = refl
  check_services-services ((name, p) ∷ rest) hc =
      check_services-services rest (check_service client name p hc).0
      ∙ check_service-services name p hc

  -- Whatever services are checked, an info is left as it is or gets the answers of its own instances.
  check_services-at :
      (rest : Map ℕ) (q : ℕ) (hc : HealthChecker) (info : ServiceCheckInfo)
      → PointsTo q info hc
      → (after : ServiceCheckInfo) × PointsTo q after (check_services client rest hc).0
        × IsUpdated
            (λ url. any (λ (e : Bytes × ℕ). e.1 == q) rest && is_named info.instances url)
            (answer_at info.health_path)
            info
            after
  unfolding check_services
  check_services-at [] q hc info at =
      (info, at, record { instances = refl; health_path = refl; status = λ _. refl })
  check_services-at ((name, p) ∷ rest) q hc info at = elim (Bool-cases (p == q)) [
    | inl e ↦
        let same : q ≡ p = ground arith in
        let (mid, at_mid, f) =
          check_service-IsUpdated name p hc info (subst (λ r. PointsTo r info hc) same at) in
        let checked = (check_service client name p hc).0 in
        let (after, at_after, g) =
          check_services-at rest q checked mid
            (subst (λ r. PointsTo r mid checked) (sym same) at_mid) in
        let answers_same : (u : Bytes)
            → answer_at mid.health_path u ≡ answer_at info.health_path u =
          λ u. ap (λ path. answer_at path u) f.health_path in
        (
          after,
          at_after,
          rw e (
              same-IsUpdated _ (is_named info.instances) (answer_at mid.health_path) _ info after
                (λ u.
                  absorbed (is_named info.instances u) (any (λ (e : Bytes × ℕ). e.1 == q) rest) _
                    (ap (λ urls. is_named urls u) f.instances))
                answers_same
                (then-IsUpdated (is_named info.instances) _ (answer_at info.health_path)
                  (answer_at mid.health_path) info mid after (λ u _. sym (answers_same u)) f g)),
        )
    | inr e ↦
        let (after, at_after, f) =
          check_services-at rest q (check_service client name p hc).0 info
            (check_service-other name p q hc (λ s. ground arith) ∙ at) in
        (after, at_after, rw e f)
  ]
    where
      absorbed : (a b c : Bool) → c ≡ a → (a || (b && c)) ≡ a
      absorbed a b c h = ground arith

  -- A round of checks gives each instance of a registered service the answer of its health path, and
  -- leaves what is known of any other URL as it was.
  pub run_all_health_checks-is_instance_healthy :
      (name url : Bytes) (hc : HealthChecker) (info : ServiceCheckInfo)
      → load name hc ≡ some info
      → is_instance_healthy name url (run_all_health_checks client hc).0 ≡ (
          if is_named info.instances url
          then answers client (url ++ info.health_path)
          else is_instance_healthy name url hc)
  unfolding run_all_health_checks
  run_all_health_checks-is_instance_healthy name url hc info e =
      let (p, g, at) = load-pointer name hc info e in
      let (after, at_after, f) = check_services-at hc.services p hc info at in
      let kept = check_services-services hc.services hc in
      is_instance_healthy-at name url p (check_services client hc.services hc).0 after
        (ap (get name) kept ∙ g) at_after
      ∙ now after (get-pointer name p hc.services g) (f.status url)
      ∙ ap
          (λ (old : Bool).
            if is_named info.instances url then answers client (url ++ info.health_path) else old)
          (sym (is_instance_healthy-at name url p hc info g at))
    where
      now :
          {registered : Bool} (after : ServiceCheckInfo)
          → registered ≡ true
          → get url after.status ≡ (
              if registered && is_named info.instances url
              then some (answers client (url ++ info.health_path))
              else get url info.status)
          → is_healthy_in url after ≡ (
              if is_named info.instances url
              then answers client (url ++ info.health_path)
              else is_healthy_in url info)
      now after r s = elim (Bool-cases (is_named info.instances url)) [
        | inl n ↦
            let got : get url after.status ≡ some (answers client (url ++ info.health_path)) =
              rw (r, n) at s in
            rw (n, is_healthy_in, got) refl
        | inr n ↦
            let got : get url after.status ≡ get url info.status = rw (r, n) at s in
            rw (n, is_healthy_in, got) refl
      ]

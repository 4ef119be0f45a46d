-- ===== src/Runtime/Unanswered.antt =====
-- The start of an instance that never answers: the balancer holds it for alive from the beginning, and
-- the checker, which starts from unhealthy, sees no change to tell of.
use yuelaiengine_gateway.Common.{
  ℕ, zero, suc, true, false, Option, none, some, List, [], ◌∷◌, ◌≡◌, inl, inr, refl, ap, ◌∙◌, arith,
  Bytes, text_eq, text_eq_refl, get, get-put_self, get_elem?-append_last, length, map, Bool-cases,
}
use yuelaiengine_gateway.Config.{InstanceConfig, ServiceConfig}
use yuelaiengine_gateway.LoadBalancer.ConsistentHash.{HashRingEntry, find_url}
use yuelaiengine_gateway.LoadBalancer.Factory.{LoadBalancerFactory}
use yuelaiengine_gateway.LoadBalancer.Factory.Services.{replace_service_instances-get}
use yuelaiengine_gateway.LoadBalancer.Factory.Alive.{alive_in, alive_of}
use yuelaiengine_gateway.Health.{
  ServiceCheckInfo, HealthChecker, load, new_info, initial_status, previous_status,
  register_service, is_unchanged, update_service_status, is_healthy_in, is_instance_healthy,
}
use yuelaiengine_gateway.Health.Status.{get-fill_status}
use yuelaiengine_gateway.Health.Updates.{is_named, PointsTo}
use yuelaiengine_gateway.Health.Mirror.{notify, probe}
use yuelaiengine_gateway.Runtime.{new_instance, url_of, sync_service}

-- A number of checks of the instance that all fail.
abbrev pub failures :
    (List HashRingEntry → List HashRingEntry)
    → Bytes
    → ℕ
    → Bytes
    → ℕ
    → HealthChecker × LoadBalancerFactory
    → HealthChecker × LoadBalancerFactory
failures sort name p url zero s = s
failures sort name p url (suc n) s = failures sort name p url n (probe sort name p url false s)

failures-unchanged :
    (sort : List HashRingEntry → List HashRingEntry) (name : Bytes) (p : ℕ) (url : Bytes) (n : ℕ)
    (hc : HealthChecker) (f : LoadBalancerFactory) (info : ServiceCheckInfo)
    → PointsTo p info hc
    → get url info.status ≡ some false
    → failures sort name p url n (hc, f) ≡ (hc, f)
unfolding probe notify update_service_status
failures-unchanged sort name p url zero hc f info at e = refl
failures-unchanged sort name p url (suc n) hc f info at e =
    let once : probe sort name p url false (hc, f) ≡ (hc, f) =
      rw (probe, update_service_status, at, is_unchanged, e) refl in
    ap (failures sort name p url n) once ∙ failures-unchanged sort name p url n hc f info at e

alive_in-new_instance :
    (insts : List InstanceConfig) (url : Bytes)
    → is_named (map url_of insts) url ≡ true
    → alive_in url (map new_instance insts) ≡ some true
unfolding find_url
alive_in-new_instance [] url h = absurd (ground arith)
alive_in-new_instance (i ∷ insts) url h = elim (Bool-cases (text_eq i.url url)) [
  | inl e ↦ rw (e, alive_in, find_url) refl
  | inr e ↦ rw (e, alive_in, find_url) (alive_in-new_instance insts url (rw e at h))
]

new_info-status :
    (name url health_path : Bytes) (urls : List Bytes) (hc : HealthChecker)
    → is_named urls url ≡ true
    → is_instance_healthy name url hc ≡ false
    → get url (new_info name urls health_path hc).status ≡ some false
unfolding new_info is_instance_healthy get
new_info-status name url health_path urls hc named sick =
    get-fill_status (previous_status (load name hc)) urls [] url
    ∙ rw named (ap some (before (load name hc) refl ∙ sick))
  where
    before :
        (o : Option ServiceCheckInfo)
        → load name hc ≡ o
        → initial_status (previous_status (load name hc)) url ≡ is_instance_healthy name url hc
    before none e = rw (e, is_instance_healthy) refl
    before (some info) e = rw (e, is_instance_healthy) refl

-- An instance that a synchronisation brings in and that the checker does not know as healthy is held for
-- alive by the balancer, and stays so however often its checks fail, while the checker has it as
-- unhealthy all along.
pub failures-alive :
    (sort : List HashRingEntry → List HashRingEntry) (svc : ServiceConfig) (url : Bytes) (n : ℕ)
    (hc : HealthChecker) (f : LoadBalancerFactory)
    → is_named (map url_of svc.instances) url ≡ true
    → is_instance_healthy svc.name url hc ≡ false
    → let s = failures sort svc.name (length hc.infos) url n (sync_service sort svc (hc, f)) in
      (alive_of svc.name url s.1 ≡ some true) × (is_instance_healthy svc.name url s.0 ≡ false)
unfolding sync_service register_service is_instance_healthy load
failures-alive sort svc url n hc f named sick =
    let urls = map url_of svc.instances in
    let info = new_info svc.name urls svc.health_check_path hc in
    let (hc', f') = sync_service sort svc (hc, f) in
    let at : PointsTo (length hc.infos) info hc' = get_elem?-append_last hc.infos info in
    let status = new_info-status svc.name url svc.health_check_path urls hc named sick in
    let still = failures-unchanged sort svc.name (length hc.infos) url n hc' f' info at status in
    let (lb, i, g) =
      replace_service_instances-get sort svc.name svc.name svc.load_balancer
        (map new_instance svc.instances) f in
    let here : get svc.name f' ≡ some lb = g ∙ rw (text_eq_refl svc.name) refl in
    (
      ap (λ s. alive_of svc.name url s.1) still
          ∙ rw (alive_of, here, i) (alive_in-new_instance svc.instances url named),
      ap (λ s. is_instance_healthy svc.name url s.0) still
          ∙ rw (is_instance_healthy, load, get-put_self, at, is_healthy_in, status) refl,
    )

-- ===== src/Health.antt =====
-- internal/core/health/checker.go: what the checker knows of each instance, and whom it tells. The
-- program shares `ServiceCheckInfo` by pointer: a round of checks holds the one that it found, while
-- a registration stores a new one under the service's name. A pointer is a place in `infos`, which
-- only grows. The answer of the HTTP client is the parameter `client`: `none` for an error, and else
-- the status code. Calls of the hook are the list of changes that an operation gives.
pub mod Status
pub mod Updates
pub mod Rounds
pub mod Mirror
pub mod Agreement
use Prim.Native.String.{String}
use yuelaiengine_gateway.Common.{
  same_bool, ℕ, Bool, true, false, not, ◌&&◌, ◌||◌, Option, none, some, List, [], ◌∷◌, ◌++◌, map,
  Bytes, lit, Map, get, put, delete, map_values, length, get_elem?, modify, if◌then◌else◌, ◌==◌,
}

pub record ServiceCheckInfo : Type 0 where
  pub instances : List Bytes
  pub health_path : Bytes
  pub status : Map Bool

pub record HealthChecker : Type 0 where
  pub infos : List ServiceCheckInfo
  pub services : Map ℕ

-- A call of the status hook: service, instance and whether it is healthy.
abbrev pub Change : Type 0
Change = Bytes × Bytes × Bool

abbrev pub new_health_checker : HealthChecker
new_health_checker = record { infos = []; services = [] }

-- `hc.services.Load(name)`
unfoldable pub load : Bytes → HealthChecker → Option ServiceCheckInfo
load name hc = elim (get name hc.services) [ none ↦ none | some p ↦ get_elem? hc.infos p ]

-- The status that a registration starts an instance with.
abbrev pub initial_status : Map Bool → Bytes → Bool
initial_status previous url = elim (get url previous) [ none ↦ false | some healthy ↦ healthy ]

-- The loop over the instances to register.
unfoldable pub fill_status : Map Bool → List Bytes → Map Bool → Map Bool
fill_status previous [] status = status
fill_status previous (url ∷ urls) status =
    fill_status previous urls (put url (initial_status previous url) status)

abbrev pub previous_status : Option ServiceCheckInfo → Map Bool
previous_status none = []
previous_status (some info) = info.status

-- `serviceInfo` of a registration, which knows the status that the instances had.
unfoldable pub new_info : Bytes → List Bytes → Bytes → HealthChecker → ServiceCheckInfo
new_info name instances health_path hc = record {
  instances = instances;
  health_path = health_path;
  status = fill_status (previous_status (load name hc)) instances [];
}

unfoldable pub register_service : Bytes → List Bytes → Bytes → HealthChecker → HealthChecker
register_service name instances health_path hc = record {
  infos = hc.infos ++ new_info name instances health_path hc ∷ [];
  services = put name (length hc.infos) hc.services;
}

unfoldable pub remove_service : Bytes → HealthChecker → HealthChecker
remove_service name hc = record hc { services = delete name hc.services }

unfoldable pub list_services : HealthChecker → List Bytes
list_services hc = map (λ (e : Bytes × ℕ). e.0) hc.services

abbrev pub with_status : Bytes → Bool → ServiceCheckInfo → ServiceCheckInfo
with_status url is_healthy info = record info { status = put url is_healthy info.status }

-- `exists && wasHealthy == isHealthy`
abbrev pub is_unchanged : Bytes → Bool → ServiceCheckInfo → Bool
is_unchanged url is_healthy info = elim (get url info.status) [
  | none ↦ false
  | some was_healthy ↦ same_bool was_healthy is_healthy
]

-- The status of the info behind a pointer, whether or not the service is still registered with it.
unfoldable pub update_service_status :
    Bytes → ℕ → Bytes → Bool → HealthChecker → HealthChecker × List Change
update_service_status name p url is_healthy hc = elim (get_elem? hc.infos p) [
  | none ↦ (hc, [])
  | some info ↦ if is_unchanged url is_healthy info then (hc, []) else (
    record hc { infos = modify hc.infos p (with_status url is_healthy) },
    (name, url, is_healthy) ∷ [],
  )
]

module _ (client : Bytes → Option ℕ) where
  -- `err == nil && resp.StatusCode == http.StatusOK`
  abbrev pub answers : Bytes → Bool
  answers check_url = elim (client check_url) [ none ↦ false | some code ↦ code == 200 ]

  -- The loop over the instances of an info.
  unfoldable pub check_instances :
      Bytes → ℕ → Bytes → List Bytes → HealthChecker → HealthChecker × List Change
  check_instances name p health_path [] hc = (hc, [])
  check_instances name p health_path (url ∷ urls) hc =
      let (checked, changes) = update_service_status name p url (answers (url ++ health_path)) hc in
      let (done, later) = check_instances name p health_path urls checked in
      (done, changes ++ later)

  unfoldable pub check_service : Bytes → ℕ → HealthChecker → HealthChecker × List Change
  check_service name p hc = elim (get_elem? hc.infos p) [
    | none ↦ (hc, [])
    | some info ↦ check_instances name p info.health_path info.instances hc
  ]

  -- The checks of the services that `Range` gives, one after the other.
  unfoldable pub check_services : Map ℕ → HealthChecker → HealthChecker × List Change
  check_services [] hc = (hc, [])
  check_services ((name, p) ∷ rest) hc =
      let (checked, changes) = check_service name p hc in
      let (done, later) = check_services rest checked in (done, changes ++ later)

  unfoldable pub run_all_health_checks : HealthChecker → HealthChecker × List Change
  run_all_health_checks hc = check_services hc.services hc

-- `isHealthy, exists := info.Status[url]; exists && isHealthy`
abbrev pub is_healthy_in : Bytes → ServiceCheckInfo → Bool
is_healthy_in url info = elim (get url info.status) [ none ↦ false | some is_healthy ↦ is_healthy ]

unfoldable pub is_instance_healthy : Bytes → Bytes → HealthChecker → Bool
is_instance_healthy name url hc = elim (load name hc) [
  | none ↦ false
  | some info ↦ is_healthy_in url info
]

-- The copies that the report reads; a pointer of a registered service is always valid.
unfoldable pub get_all_statuses : HealthChecker → Map (Map Bool)
get_all_statuses hc =
    map_values
      (λ (name : Bytes) (p : ℕ). elim (get_elem? hc.infos p) [
        | none ↦ []
        | some info ↦ info.status
      ])
      hc.services

unfoldable pub get_service_status : Bytes → HealthChecker → Option (Map Bool)
get_service_status name hc = elim (load name hc) [ none ↦ none | some info ↦ some info.status ]

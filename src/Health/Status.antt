-- ===== src/Health/Status.antt =====
-- What the checker says of an instance after a registration and after a round of checks.
use mathlib.Core.Path.{subst}
use yuelaiengine_gateway.Common.{
  ℕ, ◌<◌, Bool, true, false, ◌&&◌, Option, none, some, List, [], ◌∷◌, ◌++◌, ◌≡◌, inl, inr, refl, ap,
  ◌∙◌, arith, Bytes, text_eq, text_eq_iff, Map, get, put, get-put, length, get_elem?, any,
  AllValues, AllValues-get, if◌then◌else◌, Bool-cases, get_elem?-append_left, get_elem?-append_last,
}
use yuelaiengine_gateway.Health.{
  ServiceCheckInfo, HealthChecker, load, initial_status, fill_status, previous_status,
  register_service, new_info, is_healthy_in, is_instance_healthy,
}

-- The loop of a registration gives each of its instances the status it had, and knows no other.
pub get-fill_status :
    (previous : Map Bool) (urls : List Bytes) (status : Map Bool) (url : Bytes)
    → get url (fill_status previous urls status) ≡ (
        if any (λ (u : Bytes). text_eq u url) urls
        then some (initial_status previous url)
        else get url status)
unfolding fill_status
get-fill_status previous [] status url = refl
get-fill_status previous (u ∷ urls) status url =
    get-fill_status previous urls (put u (initial_status previous u) status) url
    ∙ elim (Bool-cases (text_eq u url)) [
      | inl e ↦
          let same : u ≡ url = (text_eq_iff u url).0 e in
          rw (get-put u url (initial_status previous u) status, e, same) (ground arith)
      | inr e ↦ rw (get-put u url (initial_status previous u) status, e) refl
    ]

-- Every name stands for an info that is there.
abbrev pub IsValid : HealthChecker → Type 0
IsValid hc = AllValues (λ (p : ℕ). p < length hc.infos) hc.services

load-register_service :
    (name other : Bytes) (urls : List Bytes) (health_path : Bytes) (hc : HealthChecker)
    → IsValid hc
    → load other (register_service name urls health_path hc)
      ≡ (if text_eq name other then some (new_info name urls health_path hc) else load other hc)
unfolding load register_service new_info
load-register_service name other urls health_path hc valid =
    elim (Bool-cases (text_eq name other)) [
      | inl e ↦
          rw (load, register_service, get-put name other (length hc.infos) hc.services, e)
            (get_elem?-append_last hc.infos _)
      | inr e ↦
          rw (load, register_service, get-put name other (length hc.infos) hc.services, e)
            (older (get other hc.services) refl)
    ]
  where
    older :
        (found : Option ℕ)
        → get other hc.services ≡ found
        → (elim found [
          | none ↦ none
          | some p ↦ get_elem? (hc.infos ++ new_info name urls health_path hc ∷ []) p
        ])
          ≡ (elim found [ none ↦ none | some p ↦ get_elem? hc.infos p ])
    older none q = refl
    older (some p) q =
        get_elem?-append_left hc.infos _ p (AllValues-get _ other hc.services valid q)

is_healthy_in-new_info :
    (name url : Bytes) (urls : List Bytes) (health_path : Bytes) (hc : HealthChecker)
    → is_healthy_in url (new_info name urls health_path hc)
      ≡ (any (λ (u : Bytes). text_eq u url) urls && is_instance_healthy name url hc)
unfolding is_instance_healthy get new_info
is_healthy_in-new_info name url urls health_path hc =
    ap (λ (o : Option Bool). elim o [ none ↦ false | some h ↦ h ])
      (get-fill_status (previous_status (load name hc)) urls [] url)
    ∙ kept (any (λ (u : Bytes). text_eq u url) urls) (load name hc)
  where
    kept :
        (named : Bool) (found : Option ServiceCheckInfo)
        → (elim (if named then some (initial_status (previous_status found) url) else none) [
          | none ↦ false
          | some h ↦ h
        ])
          ≡ (named && (elim found [ none ↦ false | some info ↦ is_healthy_in url info ]))
    kept true none = refl
    kept true (some info) = refl
    kept false found = refl

-- A registration keeps the status of the instances that it names again, knows every other instance of
-- the service as unhealthy, and leaves all other services as they are.
pub is_instance_healthy-register_service :
    (name other url : Bytes) (urls : List Bytes) (health_path : Bytes) (hc : HealthChecker)
    → IsValid hc
    → is_instance_healthy other url (register_service name urls health_path hc) ≡ (
        if text_eq name other
        then any (λ (u : Bytes). text_eq u url) urls && is_instance_healthy other url hc
        else is_instance_healthy other url hc)
unfolding is_instance_healthy get new_info
is_instance_healthy-register_service name other url urls health_path hc valid =
    elim (Bool-cases (text_eq name other)) [
      | inr e ↦
          rw (load-register_service name other urls health_path hc valid, e, is_instance_healthy)
            refl
      | inl e ↦
          rw (load-register_service name other urls health_path hc valid, e, is_instance_healthy)
            (subst
              (λ o.
                is_healthy_in url (new_info name urls health_path hc)
                ≡ (any (λ (u : Bytes). text_eq u url) urls && is_instance_healthy o url hc))
              ((text_eq_iff name other).0 e) (is_healthy_in-new_info name url urls health_path hc))
    ]

-- ===== src/Health/Updates.antt =====
-- What one result of a check changes in the info behind a pointer.
use mathlib.Core.Path.{subst}
use yuelaiengine_gateway.Common.{
  ℕ, Bool, true, false, ◌||◌, some, List, ◌≡◌, inl, inr, refl, ap, ap₂, ◌∙◌, arith, Bytes, text_eq,
  text_eq_iff, get, get-put, get_elem?, any, if◌then◌else◌, Bool-cases, Option-cases, same_bool,
  get_elem?-modify_ne, get_elem?-modify_self,
}
use yuelaiengine_gateway.Health.{
  ServiceCheckInfo, HealthChecker, with_status, is_unchanged, update_service_status,
}

-- The info `after` is `before` with the status of the instances that pass `test` given by `answer`.
pub record IsUpdated (test : Bytes → Bool) (answer : Bytes → Bool) (before after : ServiceCheckInfo)
    : Type 0 where
  pub instances : after.instances ≡ before.instances
  pub health_path : after.health_path ≡ before.health_path
  pub status :
      (url : Bytes)
      → get url after.status ≡ (if test url then some (answer url) else get url before.status)

-- Behind pointer `p` stands `info`.
abbrev pub PointsTo : ℕ → ServiceCheckInfo → HealthChecker → Type 0
PointsTo p info hc = get_elem? hc.infos p ≡ some info

same_bool_iff : (a b : Bool) → same_bool a b ≡ true → a ≡ b
same_bool_iff a b h = ground arith

is_unchanged-get :
    (url : Bytes) (h : Bool) (info : ServiceCheckInfo)
    → is_unchanged url h info ≡ true
    → get url info.status ≡ some h
is_unchanged-get url h info e = elim (Option-cases (get url info.status)) [
  | inl q ↦ let bad : false ≡ true = rw (q, is_unchanged) at e in absurd (ground arith)
  | inr (was, q) ↦
      let same : same_bool was h ≡ true = rw (q, is_unchanged) at e in
      q ∙ ap some (same_bool_iff was h same)
]

pub update_service_status-IsUpdated :
    (name : Bytes) (p : ℕ) (url : Bytes) (h : Bool) (hc : HealthChecker) (info : ServiceCheckInfo)
    → PointsTo p info hc
    → (after : ServiceCheckInfo) × PointsTo p after (update_service_status name p url h hc).0
      × IsUpdated (text_eq url) (λ _. h) info after
unfolding update_service_status
update_service_status-IsUpdated name p url h hc info at =
    elim (Bool-cases (is_unchanged url h info)) [
      | inl e ↦ (
        info,
        rw (at, e, update_service_status) at,
        record { instances = refl; health_path = refl; status = known e },
      )
      | inr e ↦ (
        with_status url h info,
        rw (at, e, update_service_status)
            (get_elem?-modify_self hc.infos p (with_status url h) info at),
        record { instances = refl; health_path = refl; status = λ u. get-put url u h info.status },
      )
    ]
  where
    known :
        is_unchanged url h info ≡ true
        → (u : Bytes) → get u info.status ≡ (if text_eq url u then some h else get u info.status)
    known e u = elim (Bool-cases (text_eq url u)) [
      | inl q ↦ rw q (
          subst (λ v. get v info.status ≡ some h) ((text_eq_iff url u).0 q)
            (is_unchanged-get url h info e))
      | inr q ↦ rw q
    ]

pub update_service_status-other :
    (name : Bytes) (p q : ℕ) (url : Bytes) (h : Bool) (hc : HealthChecker)
    → (p ≡ q → ⊥)
    → get_elem? (update_service_status name p url h hc).0.infos q ≡ get_elem? hc.infos q
unfolding update_service_status
update_service_status-other name p q url h hc ne = elim (Option-cases (get_elem? hc.infos p)) [
  | inl e ↦ rw (e, update_service_status) refl
  | inr (info, e) ↦ elim (Bool-cases (is_unchanged url h info)) [
    | inl u ↦ rw (e, u, update_service_status) refl
    | inr u ↦
        rw (e, u, update_service_status) (get_elem?-modify_ne hc.infos p q (with_status url h) ne)
  ]
]

pub update_service_status-services :
    (name : Bytes) (p : ℕ) (url : Bytes) (h : Bool) (hc : HealthChecker)
    → (update_service_status name p url h hc).0.services ≡ hc.services
unfolding update_service_status
update_service_status-services name p url h hc = elim (Option-cases (get_elem? hc.infos p)) [
  | inl e ↦ rw (e, update_service_status) refl
  | inr (info, e) ↦ elim (Bool-cases (is_unchanged url h info)) [
    | inl u ↦ rw (e, u, update_service_status) refl
    | inr u ↦ rw (e, u, update_service_status) refl
  ]
]

-- An update after another, where both give an instance the same answer.
pub then-IsUpdated :
    (test test' answer answer' : Bytes → Bool) (a b c : ServiceCheckInfo)
    → ((u : Bytes) → test u ≡ true → answer u ≡ answer' u)
    → IsUpdated test answer a b
    → IsUpdated test' answer' b c
    → IsUpdated (λ u. test u || test' u) answer' a c
then-IsUpdated test test' answer answer' a b c same f g = record {
  instances = g.instances ∙ f.instances;
  health_path = g.health_path ∙ f.health_path;
  status = λ u. g.status u ∙ both u (f.status u);
}
  where
    both :
        (u : Bytes)
        → get u b.status ≡ (if test u then some (answer u) else get u a.status)
        → (if test' u then some (answer' u) else get u b.status)
          ≡ (if test u || test' u then some (answer' u) else get u a.status)
    both u e = elim (Bool-cases (test' u)) [
      | inl t ↦ elim (Bool-cases (test u)) [ inl s ↦ rw (t, s) refl | inr s ↦ rw (t, s) refl ]
      | inr t ↦ elim (Bool-cases (test u)) [
        | inl s ↦
            let here : get u b.status ≡ some (answer u) = rw s at e in
            rw (t, s) (here ∙ ap some (same u s))
        | inr s ↦ let here : get u b.status ≡ get u a.status = rw s at e in rw (t, s) here
      ]
    ]

-- The same update, said of another test and other answers that agree.
pub same-IsUpdated :
    (test test' answer answer' : Bytes → Bool) (a b : ServiceCheckInfo)
    → ((u : Bytes) → test u ≡ test' u)
    → ((u : Bytes) → answer u ≡ answer' u)
    → IsUpdated test answer a b
    → IsUpdated test' answer' a b
same-IsUpdated test test' answer answer' a b t s f = record {
  instances = f.instances;
  health_path = f.health_path;
  status = λ u. f.status u ∙ ap₂ (λ (c d : Bool). if c then some d else get u a.status) (t u) (s u);
}

abbrev pub is_named : List Bytes → Bytes → Bool
is_named urls url = any (λ (u : Bytes). text_eq u url) urls

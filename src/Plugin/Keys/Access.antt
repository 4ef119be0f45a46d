-- ===== src/Plugin/Keys/Access.antt =====
-- Whom the key and role plugins let on.
use mathlib.Core.Bool.{false≢true}
use yuelaiengine_gateway.Common.{
  true, Option, none, some, List, [], ◌∷◌, ◌≡◌, ◌≢◌, inl, inr, arith, Bytes, sym, lit, is_empty,
  is_empty_iff, if◌then◌else◌, get, null, any, text_eq, text_eq_iff, trim_space, to_lower, In,
  In-here, In-there, Bool-cases, Option-cases,
}
use yuelaiengine_gateway.Config.{PluginSpec}
use yuelaiengine_gateway.Plugin.{Exchange, text_of}
use yuelaiengine_gateway.Plugin.Keys.{
  cleaned, listed, parse_config, is_member, api_key_plugin, rbac_plugin, clean_role,
}

-- An entry of the configured list that comes to `s` when it is cleaned.
abbrev pub IsListed : (Bytes → Bytes) → List Bytes → Bytes → Type 0
IsListed clean ss s = (k : Bytes) × In k ss × (clean k ≡ s)

IsListed-there :
    (clean : Bytes → Bytes) (k s : Bytes) (ss : List Bytes)
    → IsListed clean ss s
    → IsListed clean (k ∷ ss) s
IsListed-there clean k s ss (j, i, e) = (j, In-there j k ss i, e)

IsListed-member :
    (clean : Bytes → Bytes) (ss : List Bytes) (s : Bytes)
    → is_member (cleaned clean ss) s ≡ true
    → IsListed clean ss s
unfolding cleaned
IsListed-member clean [] s h = absurd (ground arith)
IsListed-member clean (k ∷ ss) s h = elim (Bool-cases (is_empty (clean k))) [
  | inl e ↦ IsListed-there clean k s ss (IsListed-member clean ss s (rw (e, cleaned) at h))
  | inr e ↦ elim (Bool-cases (text_eq s (clean k))) [
    | inl q ↦ (k, In-here k ss, sym ((text_eq_iff s (clean k)).0 q))
    | inr q ↦
        IsListed-there clean k s ss (IsListed-member clean ss s (rw (e, q, cleaned, any) at h))
  ]
]

-- The name of the header that is read.
abbrev pub header_of : Bytes → PluginSpec → Bytes
header_of default_header spec =
    let header = trim_space (text_of (lit "header") spec) in
    if is_empty header then default_header else header

parse_config-listed :
    (key default_header header : Bytes) (clean : Bytes → Bytes) (spec : PluginSpec)
    (set : List Bytes)
    → parse_config key clean default_header spec ≡ some (header, set)
    → (ss : List Bytes) × (listed (get key spec) ≡ some ss)
      × (header ≡ header_of default_header spec)
      × (set ≡ cleaned clean ss)
unfolding parse_config
parse_config-listed key default_header header clean spec set h =
    elim (Option-cases (listed (get key spec))) [
      | inl e ↦ absurd (never (rw (e, parse_config) at h))
      | inr (ss, e) ↦ elim (Bool-cases (null (cleaned clean ss))) [
        | inl n ↦ absurd (never (rw (e, n, parse_config) at h))
        | inr n ↦
            let same : some (header_of default_header spec, cleaned clean ss) ≡ some (header, set) =
              rw (e, n, parse_config) at h in
            (ss, e, ground arith, ground arith)
      ]
    ]
  where
    never : ◌≡◌ {A = Option (Bytes × List Bytes)} none (some (header, set)) → ⊥
    never h = ground arith

-- What both plugins do when they let a request on: the header holds a text that is not empty and is
-- one of the configured ones.
abbrev pub IsAllowed :
    Bytes → Bytes → (Bytes → Bytes) → (Bytes → Bytes) → PluginSpec → Exchange → Type 0
IsAllowed key default_header clean as_entry spec x =
    let value = trim_space (x.request.header (header_of default_header spec)) in
    (value ≢ [])
    × ((ss : List Bytes) × (listed (get key spec) ≡ some ss) × IsListed clean ss (as_entry value))

-- The API key plugin lets a request on only if the header that it reads holds, between spaces, a key
-- that is not empty and is a configured one, up to spaces around it.
pub api_key_plugin-IsAllowed :
    (spec : PluginSpec) (x : Exchange)
    → (api_key_plugin spec x).1 ≡ true
    → IsAllowed (lit "keys") (lit "X-API-Key") trim_space (λ s. s) spec x
unfolding api_key_plugin
api_key_plugin-IsAllowed spec x h =
    elim (Option-cases (parse_config (lit "keys") trim_space (lit "X-API-Key") spec)) [
      | inl e ↦ absurd (false≢true (rw (e, api_key_plugin) at h))
      | inr ((header, keys), e) ↦
          elim (Bool-cases (is_empty (trim_space (x.request.header header)))) [
            | inl n ↦ absurd (false≢true (rw (e, n, api_key_plugin) at h))
            | inr n ↦ elim (Bool-cases (is_member keys (trim_space (x.request.header header)))) [
              | inl m ↦
                  let (ss, l, same, set) =
                    parse_config-listed (lit "keys") (lit "X-API-Key") header trim_space spec keys
                      e in
                  rw (← same) (
                    ground (arith, is_empty_iff (trim_space (x.request.header header))),
                    (ss, l, IsListed-member trim_space ss _ (rw (set) at m)),
                  )
              | inr m ↦ absurd (false≢true (rw (e, n, m, api_key_plugin) at h))
            ]
          ]
    ]

-- The role plugin lets a request on only if the header that it reads holds, between spaces, a role
-- that is not empty and is a configured one, up to case and to spaces around it.
pub rbac_plugin-IsAllowed :
    (spec : PluginSpec) (x : Exchange)
    → (rbac_plugin spec x).1 ≡ true
    → IsAllowed (lit "roles") (lit "X-User-Role") clean_role to_lower spec x
unfolding rbac_plugin
rbac_plugin-IsAllowed spec x h =
    elim (Option-cases (parse_config (lit "roles") clean_role (lit "X-User-Role") spec)) [
      | inl e ↦ absurd (false≢true (rw (e, rbac_plugin) at h))
      | inr ((header, roles), e) ↦
          elim (Bool-cases (is_empty (trim_space (x.request.header header)))) [
            | inl n ↦ absurd (false≢true (rw (e, n, rbac_plugin) at h))
            | inr n ↦
                elim (Bool-cases
                  (is_member roles (to_lower (trim_space (x.request.header header))))) [
                    | inl m ↦
                        let (ss, l, same, set) =
                          parse_config-listed (lit "roles") (lit "X-User-Role") header clean_role
                            spec roles e in
                        rw (← same) (
                          ground (arith, is_empty_iff (trim_space (x.request.header header))),
                          (ss, l, IsListed-member clean_role ss _ (rw (set) at m)),
                        )
                    | inr m ↦ absurd (false≢true (rw (e, n, m, rbac_plugin) at h))
                  ]
          ]
    ]

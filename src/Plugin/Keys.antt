-- ===== src/Plugin/Keys.antt =====
-- internal/plugin/apikey/plugin.go and internal/plugin/rbac/plugin.go: plugins that compare a header
-- with a configured set of texts.
pub mod Access
use Prim.Native.String.{String}
use yuelaiengine_gateway.Common.{
  ℕ, Bool, true, false, Option, none, some, List, [], ◌∷◌, ◌≡◌, ◌≢◌, refl, inl, inr, arith, Bytes,
  lit, is_empty, is_empty_iff, not, ◌||◌, ◌&&◌, if◌then◌else◌, get, map, null, any, text_eq,
  text_eq_iff, trim_space, to_lower, In, In-here, In-there, Bool-cases, Option-cases,
}
use yuelaiengine_gateway.Config.{PluginSpec, Value, text, texts, items, other}
use yuelaiengine_gateway.Plugin.{Exchange, Verdict, Plugin, write, text_of, Error, plugin_config}
use yuelaiengine_gateway.Plugin.Services.{refuse}

-- The set of the texts that are left when each is cleaned and the empty ones are dropped.
unfoldable pub cleaned : (Bytes → Bytes) → List Bytes → List Bytes
cleaned clean [] = []
cleaned clean (k ∷ ks) =
    let rest = cleaned clean ks in if is_empty (clean k) then rest else clean k ∷ rest

-- The items of a list that are texts.
unfoldable pub only_texts : List (Option Bytes) → List Bytes
only_texts [] = []
only_texts (none ∷ vs) = only_texts vs
only_texts (some s ∷ vs) = s ∷ only_texts vs

-- The `switch` over the type of a configured list; `none` where it has another type.
unfoldable pub listed : Option Value → Option (List Bytes)
listed none = none
listed (some (text _)) = none
listed (some (texts ss)) = some ss
listed (some (items vs)) = some (only_texts vs)
listed (some other) = none

-- `parseConfig` of both plugins: the header's name and the set of texts.
unfoldable pub parse_config :
    Bytes → (Bytes → Bytes) → Bytes → PluginSpec → Option (Bytes × List Bytes)
parse_config key clean default_header spec = elim (listed (get key spec)) [
  | none ↦ none
  | some ss ↦
      let header = trim_space (text_of (lit "header") spec) in
      if null (cleaned clean ss)
      then none
      else some (if is_empty header then default_header else header, cleaned clean ss)
]

-- `_, ok := set[s]`
abbrev pub is_member : List Bytes → Bytes → Bool
is_member set s = any (text_eq s) set

unfoldable pub api_key_plugin : Plugin
api_key_plugin spec x = elim (parse_config (lit "keys") trim_space (lit "X-API-Key") spec) [
  | none ↦ refuse 500 (lit "PLUGIN_CONFIG_INVALID") (some plugin_config) x
  | some (header, keys) ↦
      let key = trim_space (x.request.header header) in
      if is_empty key
      then refuse 401 (lit "API_KEY_MISSING") none x
      else (if is_member keys key
          then (x, true, none)
          else refuse 401 (lit "API_KEY_INVALID") none x)
]

abbrev pub clean_role : Bytes → Bytes
clean_role role = to_lower (trim_space role)

unfoldable pub rbac_plugin : Plugin
rbac_plugin spec x = elim (parse_config (lit "roles") clean_role (lit "X-User-Role") spec) [
  | none ↦ refuse 500 (lit "PLUGIN_CONFIG_INVALID") (some plugin_config) x
  | some (header, roles) ↦
      let role = trim_space (x.request.header header) in
      if is_empty role
      then refuse 403 (lit "RBAC_ROLE_MISSING") none x
      else (if is_member roles (to_lower role)
          then (x, true, none)
          else refuse 403 (lit "RBAC_FORBIDDEN") none x)
]

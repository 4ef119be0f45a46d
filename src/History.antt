-- ===== src/History.antt =====
-- internal/core/config_versioning.go, and `nextVersionID` of internal/core/gateway.go: the bounded
-- history of the configurations that were applied. A time is a number that the caller reads off the
-- clock. `Clone` of internal/config/config.go copies; here values are never shared.
pub mod Keeping
pub mod Log
use Prim.Native.String.{String}
use yuelaiengine_gateway.Common.{
  ℕ, ◌+◌, ◌-◌, ◌%◌, Bool, Option, none, some, List, [], ◌∷◌, ◌++◌, map, Bytes, lit, text_eq, itoa,
  length, drop, ltb, ℤ, pos_part, u64, if◌then◌else◌, ◌==◌,
}
use yuelaiengine_gateway.Config.{GatewayConfig}

pub record ConfigSnapshot : Type 0 where
  pub version : Bytes
  pub source : Bytes
  pub created_at : ℕ
  pub config : Option GatewayConfig

pub record ConfigVersionMeta : Type 0 where
  pub version : Bytes
  pub source : Bytes
  pub created_at : ℕ

-- The fields of the gateway that the history takes, the oldest snapshot first.
pub record History : Type 0 where
  pub config_history : List ConfigSnapshot
  pub version_counter : ℕ
  pub max_history : ℤ

abbrev pub version_name : ℕ → Bytes
version_name n = lit "v" ++ itoa n

-- `nextVersionID`
unfoldable pub next_version_id : History → History × Bytes
next_version_id h =
    let n = (h.version_counter + 1) % u64 in (record h { version_counter = n }, version_name n)

-- The bound that is kept to, which is 20 where none is set.
abbrev pub bound_of : ℤ → ℕ
bound_of max = if pos_part max == 0 then 20 else pos_part max

-- The last `n` elements of a list that has more.
abbrev pub keep_last {ℓ} : {A : Type ℓ} → ℕ → List A → List A
keep_last n xs = if ltb n (length xs) then drop (length xs - n) xs else xs

abbrev pub with_default : ℤ → ℤ
with_default max = if pos_part max == 0 then ℤ.pos 20 else max

unfoldable pub record_config_snapshot : ℕ → Option GatewayConfig → Bytes → History → History
record_config_snapshot now none source h = h
record_config_snapshot now (some cfg) source h =
    let (counted, id) = next_version_id h in
    let snapshot : ConfigSnapshot = record {
      version = id;
      source = source;
      created_at = now;
      config = some cfg;
    } in
    record counted {
      config_history = keep_last (bound_of h.max_history) (h.config_history ++ snapshot ∷ []);
      max_history = with_default h.max_history;
    }

abbrev pub meta_of : ConfigSnapshot → ConfigVersionMeta
meta_of s = record { version = s.version; source = s.source; created_at = s.created_at }

abbrev pub last_of {ℓ} : {A : Type ℓ} → List A → Option A
last_of [] = none
last_of (x ∷ []) = some x
last_of (x ∷ y ∷ xs) = last_of (y ∷ xs)

unfoldable pub current_config_version : History → Option ConfigVersionMeta
current_config_version h = elim (last_of h.config_history) [
  | none ↦ none
  | some s ↦ some (meta_of s)
]

unfoldable pub config_version_list : History → List ConfigVersionMeta
config_version_list h = map meta_of h.config_history

-- The loop of `rollbackToVersionLocked` over the snapshots, from the newest to the oldest.
unfoldable pub find_version : Bytes → List ConfigSnapshot → Option ConfigSnapshot
find_version version [] = none
find_version version (s ∷ history) = elim (find_version version history) [
  | some later ↦ some later
  | none ↦ if text_eq s.version version then some s else none
]

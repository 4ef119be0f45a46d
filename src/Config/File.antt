-- ===== src/Config/File.antt =====
-- internal/config/config.go (Load and Save): the configuration as a file. `Os` is what `os` does with
-- files; a state `S` is all that the operations may change. A temporary file is known by its name. An
-- error is `none` or `false`.
pub mod Laws
pub mod Atomic
pub mod Loading
use Prim.Native.String.{String}
use yuelaiengine_gateway.Common.{
  ℕ, Bool, true, false, ◌||◌, Option, none, some, List, [], ◌∷◌, ◌++◌, Bytes, lit, is_empty,
  text_eq, trim_space, ◌==◌, if◌then◌else◌,
}
use yuelaiengine_gateway.Config.{GatewayConfig}

-- `os.Stat`: the permissions of a file, a file that is not there, or another error.
pub data Stat : Type 0 where
  found : ℕ → Stat
  missing failed : Stat

pub record Os (S : Type 0) : Type 0 where
  pub read_file : Bytes → S → Option Bytes
  pub stat : Bytes → S → Stat
  pub create_temp : Bytes → S → S × Option Bytes
  pub chmod : Bytes → ℕ → S → S × Bool
  pub write_bytes : Bytes → Bytes → S → S × Bool
  pub sync : Bytes → S → S × Bool
  pub close : Bytes → S → S × Bool
  pub rename : Bytes → Bytes → S → S × Bool
  pub remove : Bytes → S → S × Bool

abbrev pub ends_line : Bytes → Bool
ends_line [] = false
ends_line (c ∷ []) = c == 10
ends_line (c ∷ d ∷ text) = ends_line (d ∷ text)

abbrev pub with_newline : Bytes → Bytes
with_newline text = if ends_line text then text else text ++ 10 ∷ []

-- `0o644` for a new file.
abbrev pub file_mode : Stat → Option ℕ
file_mode (found mode) = some mode
file_mode missing = some 420
file_mode failed = none

abbrev pub temp_dir : Bytes → Bytes
temp_dir dir = if is_empty dir || text_eq dir (lit ".") then lit "." else dir

module _ {S : Type 0} (os : Os S) where
  -- `unmarshal` is `yaml.Unmarshal`.
  unfoldable pub load : (Bytes → Option GatewayConfig) → Bytes → S → Option GatewayConfig
  load unmarshal path s = elim (os.read_file path s) [ none ↦ none | some text ↦ unmarshal text ]

  -- A step on the temporary file, which is closed if the step fails.
  abbrev pub or_close : Bytes → S × Bool → (S → S × Bool) → S × Bool
  or_close name (s, true) next = next s
  or_close name (s, false) next = ((os.close name s).0, false)

  unfoldable pub fill_temp : Bytes → ℕ → Bytes → S → S × Bool
  fill_temp name mode text s = or_close name (os.chmod name mode s) λ s1.
      or_close name (os.write_bytes name text s1)
        λ s2. or_close name (os.sync name s2) λ s3. os.close name s3

  -- The deferred removal.
  abbrev pub or_remove : Bytes → S × Bool → S × Bool
  or_remove name (s, true) = (s, true)
  or_remove name (s, false) = ((os.remove name s).0, false)

  abbrev pub rename_filled : Bytes → Bytes → S × Bool → S × Bool
  rename_filled path name (s, true) = os.rename name path s
  rename_filled path name (s, false) = (s, false)

  unfoldable pub replace_file : Bytes → ℕ → Bytes → S × Option Bytes → S × Bool
  replace_file path mode text (s, none) = (s, false)
  replace_file path mode text (s, some name) =
      or_remove name (rename_filled path name (fill_temp name mode text s))

  -- `yaml.Marshal` and `filepath.Dir`.
  module _ (marshal : GatewayConfig → Option Bytes) (dir_of : Bytes → Bytes) where
    unfoldable pub save_text : Bytes → Bytes → S → S × Bool
    save_text path text s = elim (file_mode (os.stat path s)) [
      | none ↦ (s, false)
      | some mode ↦ replace_file path mode text (os.create_temp (temp_dir (dir_of path)) s)
    ]

    unfoldable pub save : Bytes → Option GatewayConfig → S → S × Bool
    save path none s = (s, false)
    save path (some cfg) s =
        if is_empty (trim_space path) then (s, false) else (elim (marshal cfg) [
          | none ↦ (s, false)
          | some text ↦ save_text (trim_space path) (with_newline text) s
        ])

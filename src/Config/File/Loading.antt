-- ===== src/Config/File/Loading.antt =====
-- A configuration that is saved can be loaded again.
use yuelaiengine_gateway.Common.{
  ℕ, Bool, true, false, Option, none, some, [], ◌∷◌, ◌++◌, ◌≡◌, Bytes, inl, inr, refl, ◌∙◌, sym, ap,
  arith, is_empty, trim_space, Bool-cases, some_injective,
}
use yuelaiengine_gateway.Config.{GatewayConfig}
use yuelaiengine_gateway.Config.File.Laws.{IsOs, fill_temp-written}
use yuelaiengine_gateway.Config.File.Atomic.{IsSaved, save-IsSaved}
use yuelaiengine_gateway.Config.File.{
  Os, ends_line, with_newline, file_mode, temp_dir, load, or_close, fill_temp, or_remove,
  rename_filled, replace_file, save_text, save,
}

module _ {S : Type 0} (content : Bytes → S → Option Bytes) (os : Os S)
    (laws : IsOs content os) where
  -- No operation on a file that is there fails.
  pub record IsWorking : Type 0 where
    pub chmods : (name : Bytes) (mode : ℕ) (s : S) → (os.chmod name mode s).1 ≡ true
    pub writes : (name text : Bytes) (s : S) → (os.write_bytes name text s).1 ≡ true
    pub syncs : (name : Bytes) (s : S) → (os.sync name s).1 ≡ true
    pub closes : (name : Bytes) (s : S) → (os.close name s).1 ≡ true
    pub renames :
        (old new text : Bytes) (s : S) → content old s ≡ some text → (os.rename old new s).1 ≡ true
    pub readable : (q text : Bytes) (s : S) → content q s ≡ some text → os.read_file q s ≡ some text

  or_close-done :
      (name : Bytes) (r : S × Bool) (next : S → S × Bool)
      → r.1 ≡ true
      → (next r.0).1 ≡ true
      → (or_close os name r next).1 ≡ true
  or_close-done name (t, true) next h k = k
  or_close-done name (t, false) next h k = absurd (ground arith)

  or_remove-done : (name : Bytes) (r : S × Bool) → r.1 ≡ true → (or_remove os name r).1 ≡ true
  or_remove-done name (t, true) h = refl
  or_remove-done name (t, false) h = absurd (ground arith)

  rename_filled-done :
      (path name : Bytes) (r : S × Bool)
      → r.1 ≡ true
      → (os.rename name path r.0).1 ≡ true
      → (rename_filled os path name r).1 ≡ true
  rename_filled-done path name (t, true) h k = k
  rename_filled-done path name (t, false) h k = absurd (ground arith)

  module _ (works : IsWorking) where
    fill_temp-done :
        (name : Bytes) (mode : ℕ) (text : Bytes) (s : S) → (fill_temp os name mode text s).1 ≡ true
    unfolding fill_temp
    fill_temp-done name mode text s =
        let s1 = (os.chmod name mode s).0 in
        let s2 = (os.write_bytes name text s1).0 in
        or_close-done name (os.chmod name mode s) _ (works.chmods name mode s) (
          or_close-done name (os.write_bytes name text s1) _ (works.writes name text s1) (
            or_close-done name (os.sync name s2) _ (works.syncs name s2)
              (works.closes name (os.sync name s2).0)))

    replace_file-done :
        (dir path name : Bytes) (mode : ℕ) (text : Bytes) (s : S) (r : S × Option Bytes)
        → os.create_temp dir s ≡ r
        → r.1 ≡ some name
        → (replace_file os path mode text r).1 ≡ true
    unfolding replace_file
    replace_file-done dir path name mode text s (t, none) e h = absurd (ground arith)
    replace_file-done dir path name mode text s (t, some other) e h =
        let (_, empty, _) = laws.created dir other s (ap (λ (p : S × Option Bytes). p.1) e) in
        let filled = fill_temp os other mode text t in
        let done = fill_temp-done other mode text t in
        let full =
          fill_temp-written content os laws other mode text t
            (ap (λ (p : S × Option Bytes). content other p.0) (sym e) ∙ empty) done in
        or_remove-done other (rename_filled os path other filled)
          (rename_filled-done path other filled done (works.renames other path text filled.0 full))

    module _ (marshal : GatewayConfig → Option Bytes) (dir_of : Bytes → Bytes) where
      save_text-done :
          (path text name : Bytes) (mode : ℕ) (s : S)
          → file_mode (os.stat path s) ≡ some mode
          → (os.create_temp (temp_dir (dir_of path)) s).1 ≡ some name
          → (save_text os marshal dir_of path text s).1 ≡ true
      unfolding save_text
      save_text-done path text name mode s e h =
          let dir = temp_dir (dir_of path) in
          rw (e, save_text)
            (replace_file-done dir path name mode text s (os.create_temp dir s) refl h)

      save-done :
          (path text name : Bytes) (cfg : GatewayConfig) (mode : ℕ) (s : S)
          → is_empty (trim_space path) ≡ false
          → marshal cfg ≡ some text
          → file_mode (os.stat (trim_space path) s) ≡ some mode
          → (os.create_temp (temp_dir (dir_of (trim_space path))) s).1 ≡ some name
          → (save os marshal dir_of path (some cfg) s).1 ≡ true
      unfolding save
      save-done path text name cfg mode s named m e h =
          rw (named, save, m) (save_text-done (trim_space path) (with_newline text) name mode s e h)

      -- YAML reads back what it makes of the configuration, with or without a newline more.
      abbrev pub ReadsBack : (Bytes → Option GatewayConfig) → GatewayConfig → Type 0
      ReadsBack unmarshal cfg =
          (text : Bytes)
          → marshal cfg ≡ some text
          → (unmarshal text ≡ some cfg) × (unmarshal (text ++ 10 ∷ []) ≡ some cfg)

      with_newline-read :
          (unmarshal : Bytes → Option GatewayConfig) (cfg : GatewayConfig) (text : Bytes)
          → (unmarshal text ≡ some cfg) × (unmarshal (text ++ 10 ∷ []) ≡ some cfg)
          → unmarshal (with_newline text) ≡ some cfg
      with_newline-read unmarshal cfg text (a, b) = elim (Bool-cases (ends_line text)) [
        | inl e ↦ simp e a
        | inr e ↦ simp e b
      ]

      saved_text :
          (path : Bytes) (cfg : GatewayConfig) (s : S) (r : S × Bool)
          → IsSaved content os laws marshal dir_of path (some cfg) s r
          → r.1 ≡ true
          → (text : Bytes) × (marshal cfg ≡ some text)
            × (content (trim_space path) r.0 ≡ some (with_newline text))
      saved_text path cfg s (t, true) (c, text, e, m, full, only) h =
          (text, ap marshal (some_injective cfg c e) ∙ m, full)
      saved_text path cfg s (t, false) kept h = absurd (ground arith)

      -- Where YAML can print a configuration and reads back what it printed, the permissions of the
      -- file at the path can be asked for, a temporary file can be created beside it, and the operations
      -- on the files that are there work: saving the configuration to the path succeeds, and what is
      -- loaded from there afterwards is this configuration.
      pub load-save :
          (unmarshal : Bytes → Option GatewayConfig) (path text name : Bytes) (cfg : GatewayConfig)
          (mode : ℕ) (s : S)
          → is_empty (trim_space path) ≡ false
          → marshal cfg ≡ some text
          → ReadsBack unmarshal cfg
          → file_mode (os.stat (trim_space path) s) ≡ some mode
          → (os.create_temp (temp_dir (dir_of (trim_space path))) s).1 ≡ some name
          → let (after, done) = save os marshal dir_of path (some cfg) s in
            (done ≡ true) × (load os unmarshal (trim_space path) after ≡ some cfg)
      unfolding load
      load-save unmarshal path text name cfg mode s named m yaml e h =
          let after = save os marshal dir_of path (some cfg) s in
          let done = save-done path text name cfg mode s named m e h in
          let (printed, m', full) =
            saved_text path cfg s after
              (save-IsSaved content os laws marshal dir_of path (some cfg) s) done in
          let read = works.readable (trim_space path) (with_newline printed) after.0 full in
          (done, rw (read, load) (with_newline-read unmarshal cfg printed (yaml printed m')))

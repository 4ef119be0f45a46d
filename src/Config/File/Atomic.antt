-- ===== src/Config/File/Atomic.antt =====
-- What writing the configuration does to the files, whether it succeeds or not.
use mathlib.Core.Path.{subst}
use yuelaiengine_gateway.Common.{
  ℕ, Bool, true, false, Option, none, some, ◌≡◌, ◌≢◌, Bytes, inl, inr, refl, ◌∙◌, sym, ap, arith,
  is_empty, trim_space, text_eq, text_eq_iff, Bool-cases, Option-cases, none-some,
}
use yuelaiengine_gateway.Config.{GatewayConfig}
use yuelaiengine_gateway.Config.File.Laws.{
  OnlyAt, Keeps, IsRenamed, IsOs, fill_temp-OnlyAt, fill_temp-written,
}
use yuelaiengine_gateway.Config.File.{
  Os, with_newline, file_mode, temp_dir, fill_temp, or_remove, rename_filled, replace_file,
  save_text, save,
}

module _ {S : Type 0} (content : Bytes → S → Option Bytes) (os : Os S)
    (laws : IsOs content os) where
  -- What a run that is to leave a text in a file gives.
  abbrev pub IsReplaced : Bytes → Bytes → S → S × Bool → Type 0
  IsReplaced path text s (t, true) = (content path t ≡ some text) × OnlyAt content path s t
  IsReplaced path text s (t, false) = Keeps content s t

  OnlyAt-Keeps :
      (name : Bytes) (s t : S) → content name s ≡ none → OnlyAt content name s t → Keeps content s t
  OnlyAt-Keeps name s t new only q text e =
      only q (λ n. none-some text (sym new ∙ ap (λ k. content k s) n ∙ e)) ∙ e

  IsRenamed-OnlyAt :
      (name path : Bytes) (s t u : S)
      → content name s ≡ none
      → OnlyAt content name s t
      → IsRenamed content name path t u
      → OnlyAt content path s u
  IsRenamed-OnlyAt name path s t u new only r q n = elim (Bool-cases (text_eq name q)) [
    | inl e ↦
        let same = (text_eq_iff name q).0 e in
        ap (λ k. content k u) (sym same)
        ∙ r.gone (λ p. n (sym p ∙ same))
        ∙ sym (ap (λ k. content k s) (sym same) ∙ new)
    | inr e ↦
        let other : name ≢ q = λ p. ground (arith, (text_eq_iff name q).1 p) in
        r.others q other n ∙ only q other
  ]

  renamed-IsReplaced :
      (path name text : Bytes) (s t : S) (r : S × Bool)
      → os.rename name path t ≡ r
      → content name s ≡ none
      → OnlyAt content name s t
      → content name t ≡ some text
      → IsReplaced path text s (or_remove os name r)
  renamed-IsReplaced path name text s t (u, true) e new only full =
      let r = laws.renamed name path t (ap (λ (p : S × Bool). p.1) e) in
      let r' = subst (IsRenamed content name path t) (ap (λ (p : S × Bool). p.0) e) r in
      (r'.moved ∙ full, IsRenamed-OnlyAt name path s t u new only r')
  renamed-IsReplaced path name text s t (u, false) e new only full =
      let same = laws.not_renamed name path t (ap (λ (p : S × Bool). p.1) e) in
      OnlyAt-Keeps name s (os.remove name u).0 new λ q n.
        laws.remove name u q n ∙ ap (λ (p : S × Bool). content q p.0) (sym e) ∙ same q ∙ only q n

  filled-IsReplaced :
      (path name text : Bytes) (s : S) (r : S × Bool)
      → content name s ≡ none
      → OnlyAt content name s r.0
      → (r.1 ≡ true → content name r.0 ≡ some text)
      → IsReplaced path text s (or_remove os name (rename_filled os path name r))
  filled-IsReplaced path name text s (t, true) new only full =
      renamed-IsReplaced path name text s t (os.rename name path t) refl new only (full refl)
  filled-IsReplaced path name text s (t, false) new only full =
      OnlyAt-Keeps name s (os.remove name t).0 new λ q n. laws.remove name t q n ∙ only q n

  replace_file-IsReplaced :
      (dir path : Bytes) (mode : ℕ) (text : Bytes) (s : S) (r : S × Option Bytes)
      → os.create_temp dir s ≡ r
      → IsReplaced path text s (replace_file os path mode text r)
  unfolding replace_file
  replace_file-IsReplaced dir path mode text s (t, none) e = λ q old h.
      ap (λ (p : S × Option Bytes). content q p.0) (sym e)
      ∙ laws.not_created dir s (ap (λ (p : S × Option Bytes). p.1) e) q
      ∙ h
  replace_file-IsReplaced dir path mode text s (t, some name) e =
      let (new, empty, only) = laws.created dir name s (ap (λ (p : S × Option Bytes). p.1) e) in
      let at = ap (λ (p : S × Option Bytes). p.0) e in
      filled-IsReplaced path name text s (fill_temp os name mode text t) new
        (λ q n.
          fill_temp-OnlyAt content os laws name mode text t q n
          ∙ ap (content q) (sym at)
          ∙ only q n)
        (fill_temp-written content os laws name mode text t (ap (content name) (sym at) ∙ empty))

  save_text-IsReplaced :
      (marshal : GatewayConfig → Option Bytes) (dir_of : Bytes → Bytes) (path text : Bytes) (s : S)
      → IsReplaced path text s (save_text os marshal dir_of path text s)
  unfolding save_text
  save_text-IsReplaced marshal dir_of path text s =
      elim (Option-cases (file_mode (os.stat path s))) [
        | inl e ↦ rw (e, save_text) (λ q old h. h)
        | inr (mode, e) ↦
            rw (e, save_text)
              (replace_file-IsReplaced (temp_dir (dir_of path)) path mode text s
                (os.create_temp (temp_dir (dir_of path)) s) refl)
      ]

  module _ (marshal : GatewayConfig → Option Bytes) (dir_of : Bytes → Bytes) where
    -- What a run that is to save a configuration gives.
    abbrev pub IsSaved : Bytes → Option GatewayConfig → S → S × Bool → Type 0
    IsSaved path cfg s (t, true) =
        (c : GatewayConfig) × (text : Bytes) × (cfg ≡ some c)
        × (marshal c ≡ some text)
        × (content (trim_space path) t ≡ some (with_newline text))
        × OnlyAt content (trim_space path) s t
    IsSaved path cfg s (t, false) = Keeps content s t

    replaced-IsSaved :
        (path text : Bytes) (c : GatewayConfig) (s : S) (r : S × Bool)
        → marshal c ≡ some text
        → IsReplaced (trim_space path) (with_newline text) s r
        → IsSaved path (some c) s r
    replaced-IsSaved path text c s (t, true) e (full, only) = (c, text, refl, e, full, only)
    replaced-IsSaved path text c s (t, false) e h = h

    -- Saving either fails and loses nothing: every file that was there has the content that it had,
    -- wherever it failed, be it on the removal of the temporary file too. Or it succeeds, the file at
    -- the path, without the blanks around it, holds the whole text of the configuration, ended by a
    -- newline, and no other file has changed, none is left over. The operations on files do what IsOs
    -- says of them, and any of them may fail.
    pub save-IsSaved :
        (path : Bytes) (cfg : Option GatewayConfig) (s : S)
        → IsSaved path cfg s (save os marshal dir_of path cfg s)
    unfolding save
    save-IsSaved path none s = λ q old h. h
    save-IsSaved path (some c) s = elim (Bool-cases (is_empty (trim_space path))) [
      | inl e ↦ rw (e, save) (λ q old h. h)
      | inr e ↦ elim (Option-cases (marshal c)) [
        | inl m ↦ rw (e, save, m) (λ q old h. h)
        | inr (text, m) ↦
            rw (e, save, m)
              (replaced-IsSaved path text c s
                (save_text os marshal dir_of (trim_space path) (with_newline text) s) m
                (save_text-IsReplaced marshal dir_of (trim_space path) (with_newline text) s))
      ]
    ]

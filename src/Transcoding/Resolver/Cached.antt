-- ===== src/Transcoding/Resolver/Cached.antt =====
-- The cache of the descriptor files against reading each file anew.
use mathlib.Core.Path.{subst}
use yuelaiengine_gateway.Common.{
  true, Option, none, some, List, [], ◌∷◌, ◌≡◌, inl, inr, refl, ap, ap₂, ◌∙◌, sym, arith, Bytes,
  map, trim_space, is_empty, text_eq, text_eq_iff, get, put, get-put, if◌then◌else◌, Bool-cases,
  Option-cases, some_injective, none-some,
}
use yuelaiengine_gateway.Transcoding.{◌>>=◌}
use yuelaiengine_gateway.Transcoding.Resolver.{
  Version, is_version, Disk, DescriptorCacheEntry, Registry, Cache, load_content, load_version,
  load_path, load_files,
}

is_version-eq : (v w : Version) → is_version v w ≡ true → v ≡ w
is_version-eq (size, time) (size', time') h = ground arith

-- A file's size and time tell its content: all disks agree on this with `contents`.
abbrev pub Tells : (Bytes → Version → Option Bytes) → Disk → Type 0
Tells contents disk =
    (path : Bytes) (v : Version) → disk.stat path ≡ some v → disk.read path ≡ contents path v

module _ {D F : Type 0} (libs : Registry D F) where
  -- What a call is for: the file's content, read anew.
  abbrev pub read_anew : Disk → Bytes → Option F
  read_anew disk path = disk.stat path >>= λ _. disk.read path >>= libs.new_files

  -- Calls on one cache, each with the disk as it is then.
  abbrev pub load_all : List (Disk × Bytes) → Cache libs → List (Option F)
  load_all [] cache = []
  load_all ((disk, path) ∷ calls) cache =
      let (cache', answer) = load_files libs disk path cache in answer ∷ load_all calls cache'

  abbrev pub anew_of : Disk × Bytes → Option F
  anew_of (disk, path) =
      if is_empty (trim_space path) then none else read_anew disk (trim_space path)

module _ {D F : Type 0} (libs : Registry D F) (contents : Bytes → Version → Option Bytes) where
  -- An entry holds what its version of the file holds.
  pub record IsCopy (path : Bytes) (e : DescriptorCacheEntry F) : Type 0 where
    pub content : Bytes
    pub told : contents path e.version ≡ some content
    pub made : libs.new_files content ≡ some e.files

  abbrev pub AreCopies : Cache libs → Type 0
  AreCopies cache =
      (path : Bytes) (e : DescriptorCacheEntry F) → get path cache ≡ some e → IsCopy path e

  AreCopies-put :
      (path : Bytes) (e : DescriptorCacheEntry F) (cache : Cache libs)
      → IsCopy path e
      → AreCopies cache
      → AreCopies (put path e cache)
  AreCopies-put path e cache copy all p x found = elim (Bool-cases (text_eq path p)) [
    | inl same ↦
        let here : some e ≡ some x = rw same at (sym (get-put path p e cache) ∙ found) in
        subst (λ q. IsCopy q x) ((text_eq_iff path p).0 same)
          (subst (IsCopy path) (some_injective e x here) copy)
    | inr other ↦ all p x (rw other at (sym (get-put path p e cache) ∙ found))
  ]

  record IsRight (disk : Disk) (path : Bytes) (r : Cache libs × Option F) : Type 0 where
    copies : AreCopies r.0
    answered : r.1 ≡ read_anew libs disk path

  module _ (disk : Disk) (path : Bytes) (v : Version) (at : disk.stat path ≡ some v) where
    anew : read_anew libs disk path ≡ (disk.read path >>= libs.new_files)
    anew = simp at

    load_content-IsRight :
        (cache : Cache libs)
        → Tells contents disk
        → AreCopies cache
        → IsRight disk path (load_content libs disk path v cache)
    unfolding load_content
    load_content-IsRight cache tells all = elim (Option-cases (disk.read path)) [
      | inl read ↦
          let done : load_content libs disk path v cache ≡ (cache, none) =
            rw (read, load_content) refl in
          subst (IsRight disk path) (sym done)
            (record { copies = all; answered = sym (anew ∙ simp read) })
      | inr (content, read) ↦ elim (Option-cases (libs.new_files content)) [
        | inl made ↦
            let done : load_content libs disk path v cache ≡ (cache, none) =
              rw (read, made, load_content) refl in
            subst (IsRight disk path) (sym done)
              (record { copies = all; answered = sym (anew ∙ simp (read, made)) })
        | inr (files, made) ↦
            let entry : DescriptorCacheEntry F = record { files = files; version = v } in
            let done : load_content libs disk path v cache ≡ (put path entry cache, some files) =
              rw (read, made, load_content) refl in
            let copy : IsCopy path entry = record {
              content = content;
              told = sym (tells path v at) ∙ read;
              made = made;
            } in
            subst (IsRight disk path) (sym done) (record {
              copies = AreCopies-put path entry cache copy all;
              answered = sym (anew ∙ simp (read, made));
            })
      ]
    ]

    load_version-IsRight :
        (cache : Cache libs) (e : Option (DescriptorCacheEntry F))
        → get path cache ≡ e
        → Tells contents disk
        → AreCopies cache
        → IsRight disk path (load_version libs disk path v e cache)
    unfolding load_version
    load_version-IsRight cache none found tells all = load_content-IsRight cache tells all
    load_version-IsRight cache (some e) found tells all =
        elim (Bool-cases (is_version e.version v)) [
          | inr old ↦ simp old (load_content-IsRight cache tells all)
          | inl current ↦
              let copy = all path e found in
              let read : disk.read path ≡ some copy.content =
                tells path v at
                ∙ ap (contents path) (sym (is_version-eq e.version v current))
                ∙ copy.told in
              simp current (record { copies = all; answered = sym (anew ∙ simp (read, copy.made)) })
        ]

  load_path-IsRight :
      (disk : Disk) (path : Bytes) (cache : Cache libs)
      → Tells contents disk
      → AreCopies cache
      → IsRight disk path (load_path libs disk path cache)
  load_path-IsRight disk path cache tells all = elim (Option-cases (disk.stat path)) [
    | inl at ↦ rw (at, load_path) (record { copies = all; answered = sym (rw at refl) })
    | inr (v, at) ↦
        rw (at, load_path)
          (load_version-IsRight disk path v at cache (get path cache) refl tells all)
  ]

  abbrev pub AllTell : List (Disk × Bytes) → Type 0
  AllTell [] = Unit
  AllTell ((disk, _) ∷ calls) = Tells contents disk × AllTell calls

  load_all-copies :
      (calls : List (Disk × Bytes)) (cache : Cache libs)
      → AllTell calls
      → AreCopies cache
      → load_all libs calls cache ≡ map (anew_of libs) calls
  unfolding load_files
  load_all-copies [] cache tell all = refl
  load_all-copies ((disk, path) ∷ calls) cache (tells, tell) all =
      elim (Bool-cases (is_empty (trim_space path))) [
        | inl e ↦ simp e (ap (λ rest. none ∷ rest) (load_all-copies calls cache tell all))
        | inr e ↦
            let right = load_path-IsRight disk (trim_space path) cache tells all in
            simp e (
              ap₂ (λ x rest. x ∷ rest) right.answered
                (load_all-copies calls (load_path libs disk (trim_space path) cache).0 tell
                  right.copies))
      ]

  -- From an empty cache, every call in a sequence answers as if the file were read and parsed anew,
  -- while the files change in between, where the size and the time of the last change tell a file's
  -- content.
  pub load_all-anew :
      (calls : List (Disk × Bytes))
      → AllTell calls
      → load_all libs calls [] ≡ map (anew_of libs) calls
  unfolding get
  load_all-anew calls tell = load_all-copies calls [] tell (λ p e h. absurd (none-some e h))

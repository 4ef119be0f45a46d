-- ===== src/Config/File/Laws.antt =====
-- What is relied on of the operations on files, and what filling a temporary file does.
use yuelaiengine_gateway.Common.{
  ℕ, Bool, true, false, Option, none, some, [], ◌≡◌, ◌≢◌, Bytes, refl, ◌∙◌, sym, ap, arith,
}
use yuelaiengine_gateway.Config.File.{Os, or_close, fill_temp}

module _ {S : Type 0} (content : Bytes → S → Option Bytes) where
  -- No file but the one of the name has changed.
  abbrev pub OnlyAt : Bytes → S → S → Type 0
  OnlyAt name s s' = (q : Bytes) → name ≢ q → content q s' ≡ content q s

  abbrev pub Same : S → S → Type 0
  Same s s' = (q : Bytes) → content q s' ≡ content q s

  -- Nothing that was there is lost or changed.
  abbrev pub Keeps : S → S → Type 0
  Keeps s s' = (q text : Bytes) → content q s ≡ some text → content q s' ≡ some text

  -- What a rename that succeeds does.
  pub record IsRenamed (old new : Bytes) (s s' : S) : Type 0 where
    pub moved : content new s' ≡ content old s
    pub gone : old ≢ new → content old s' ≡ none
    pub others : (q : Bytes) → old ≢ q → new ≢ q → content q s' ≡ content q s

  -- What the operations do, where `content` is what stands in a file. A temporary file is a new one.
  pub record IsOs (os : Os S) : Type 0 where
    pub reads : (q text : Bytes) (s : S) → os.read_file q s ≡ some text → content q s ≡ some text
    pub not_created :
        (dir : Bytes) (s : S) → (os.create_temp dir s).1 ≡ none → Same s (os.create_temp dir s).0
    pub created :
        (dir name : Bytes) (s : S)
        → (os.create_temp dir s).1 ≡ some name
        → (content name s ≡ none)
          × (content name (os.create_temp dir s).0 ≡ some [])
          × OnlyAt name s (os.create_temp dir s).0
    pub chmod : (name : Bytes) (mode : ℕ) (s : S) → Same s (os.chmod name mode s).0
    pub writes : (name text : Bytes) (s : S) → OnlyAt name s (os.write_bytes name text s).0
    pub written :
        (name text : Bytes) (s : S)
        → (os.write_bytes name text s).1 ≡ true
        → content name s ≡ some []
        → content name (os.write_bytes name text s).0 ≡ some text
    pub sync : (name : Bytes) (s : S) → Same s (os.sync name s).0
    pub close : (name : Bytes) (s : S) → Same s (os.close name s).0
    pub not_renamed :
        (old new : Bytes) (s : S) → (os.rename old new s).1 ≡ false → Same s (os.rename old new s).0
    pub renamed :
        (old new : Bytes) (s : S)
        → (os.rename old new s).1 ≡ true
        → IsRenamed old new s (os.rename old new s).0
    pub remove : (name : Bytes) (s : S) → OnlyAt name s (os.remove name s).0

  OnlyAt-trans : (name : Bytes) (s t u : S) → OnlyAt name s t → OnlyAt name t u → OnlyAt name s u
  OnlyAt-trans name s t u a b q n = b q n ∙ a q n

  module _ (os : Os S) (laws : IsOs os) where
    or_close-OnlyAt :
        (name : Bytes) (s : S) (r : S × Bool) (next : S → S × Bool)
        → OnlyAt name s r.0
        → ((t : S) → OnlyAt name t (next t).0)
        → OnlyAt name s (or_close os name r next).0
    or_close-OnlyAt name s (t, true) next a b q n = b t q n ∙ a q n
    or_close-OnlyAt name s (t, false) next a b q n = laws.close name t q ∙ a q n

    or_close-true :
        (name : Bytes) (r : S × Bool) (next : S → S × Bool)
        → (or_close os name r next).1 ≡ true
        → (r.1 ≡ true) × ((or_close os name r next) ≡ next r.0)
    or_close-true name (t, true) next h = (refl, refl)
    or_close-true name (t, false) next h = absurd (ground arith)

    pub fill_temp-OnlyAt :
        (name : Bytes) (mode : ℕ) (text : Bytes) (s : S)
        → OnlyAt name s (fill_temp os name mode text s).0
    unfolding fill_temp
    fill_temp-OnlyAt name mode text s =
        or_close-OnlyAt name s (os.chmod name mode s) _ (λ q _. laws.chmod name mode s q)
          λ s1.
            or_close-OnlyAt name s1 (os.write_bytes name text s1) _ (laws.writes name text s1) λ s2.
              or_close-OnlyAt name s2 (os.sync name s2) _ (λ q _. laws.sync name s2 q)
                λ s3 q _. laws.close name s3 q

    pub fill_temp-written :
        (name : Bytes) (mode : ℕ) (text : Bytes) (s : S)
        → content name s ≡ some []
        → (fill_temp os name mode text s).1 ≡ true
        → content name (fill_temp os name mode text s).0 ≡ some text
    unfolding fill_temp
    fill_temp-written name mode text s e h =
        let synced = λ (t : S). or_close os name (os.sync name t) (λ u. os.close name u) in
        let put = λ (t : S). or_close os name (os.write_bytes name text t) synced in
        let (_, e1) = or_close-true name (os.chmod name mode s) put h in
        let s1 = (os.chmod name mode s).0 in
        let (wrote, e2) =
          or_close-true name (os.write_bytes name text s1) synced
            (ap (λ (r : S × Bool). r.1) (sym e1) ∙ h) in
        let s2 = (os.write_bytes name text s1).0 in
        let (_, e3) =
          or_close-true name (os.sync name s2) (λ u. os.close name u)
            (ap (λ (r : S × Bool). r.1) (sym e2) ∙ ap (λ (r : S × Bool). r.1) (sym e1) ∙ h) in
        ap (λ (r : S × Bool). content name r.0) (e1 ∙ e2 ∙ e3)
        ∙ laws.close name (os.sync name s2).0 name
        ∙ laws.sync name s2 name
        ∙ laws.written name text s1 wrote (laws.chmod name mode s name ∙ e)

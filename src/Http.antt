-- ===== src/Http.antt =====
-- Requests as the program reads them, and the functions of Go's `net` and `strings` that take a
-- host and port or a list apart. `header`, `query` and `cookie` are what `r.Header.Get`,
-- `r.URL.Query().Get` and `r.Cookie` answer; the body is `none` where reading it fails.
use yuelaiengine_gateway.Common.{
  ℕ, suc, ◌+◌, ◌-◌, Bool, true, false, Option, none, some, [], ◌∷◌, ◌++◌, ◌≡◌, inl, inr, refl, ap,
  arith, Bytes, lit, equal_fold, trim_space, Bool-cases, none-some, take, drop, head_is, ◌==◌,
  ==_iff, if◌then◌else◌, any,
}

pub record Request : Type 0 where
  pub method : Bytes
  pub path : Bytes
  pub host : Bytes
  pub remote_addr : Bytes
  pub header : Bytes → Bytes
  pub query : Bytes → Bytes
  pub cookie : Bytes → Option Bytes
  pub body : Option Bytes

-- `strings.Split(s, c)[0]`: the text before the first `c`.
unfoldable pub before : ℕ → Bytes → Bytes
before c [] = []
before c (d ∷ s) = if d == c then [] else d ∷ before c s

abbrev shift : Option ℕ → Option ℕ
shift none = none
shift (some i) = some (suc i)

-- `strings.IndexByte(s, c)`, where `none` is -1.
unfoldable pub index_byte : ℕ → Bytes → Option ℕ
index_byte c [] = none
index_byte c (d ∷ s) = let rest = index_byte c s in if d == c then some 0 else shift rest

-- `strings.LastIndexByte(s, c)`, where `none` is -1.
unfoldable pub last_index_byte : ℕ → Bytes → Option ℕ
last_index_byte c [] = none
last_index_byte c (d ∷ s) = elim (last_index_byte c s) [
  | some i ↦ some (suc i)
  | none ↦ if d == c then some 0 else none
]

abbrev contains : ℕ → Bytes → Bool
contains c s = any (λ d. d == c) s

-- The checks that `net.SplitHostPort` makes last, over the parts that may hold no bracket.
host_port : Bytes → ℕ → Bytes → ℕ → ℕ → Option (Bytes × Bytes)
host_port s i host j k =
    if contains b'[' (drop j s)
    then none
    else (if contains b']' (drop k s) then none else some (host, drop (i + 1) s))

-- `net.SplitHostPort`, where `none` is an error.
unfoldable pub split_host_port : Bytes → Option (Bytes × Bytes)
unfolding index_byte last_index_byte host_port
split_host_port s = elim (last_index_byte b':' s) [
  | none ↦ none
  | some i ↦
      if head_is b'[' s
      then (elim (index_byte b']' s) [
        | none ↦ none
        | some end ↦
            if (end + 1) == i then host_port s i (take (end - 1) (drop 1 s)) 1 (end + 1) else none
      ])
      else (if contains b':' (take i s) then none else host_port s i (take i s) 0 0)
]

-- `strings.SplitN(s, " ", 2)`, where `none` is a text without a space.
unfoldable pub cut_space : Bytes → Option (Bytes × Bytes)
cut_space [] = none
cut_space (c ∷ s) =
    let rest = cut_space s in
    if c == 32 then some ([], s) else (elim rest [ none ↦ none | some (t, u) ↦ some (c ∷ t, u) ])

-- The token of an `Authorization` header of the scheme `Bearer`.
unfoldable pub bearer_token : Bytes → Option Bytes
bearer_token authz = elim (cut_space authz) [
  | none ↦ none
  | some (scheme, token) ↦
      if equal_fold scheme (lit "Bearer") then some (trim_space token) else none
]

pub cut_space-append : (s t u : Bytes) → cut_space s ≡ some (t, u) → s ≡ t ++ 32 ∷ u
unfolding cut_space
cut_space-append [] t u e = absurd (ground arith)
cut_space-append (c ∷ s) t u e = elim (Bool-cases (c == 32)) [
  | inl q ↦
      let here : some ([], s) ≡ some (t, u) = rw q at e in
      let space : c ≡ 32 = (==_iff c 32).0 q in
      let first : [] ≡ t = ap (λ o. (or_pair o).0) here in
      let last : s ≡ u = ap (λ o. (or_pair o).1) here in rw (space, ← first, last) refl
  | inr q ↦ later q (cut_space s) refl (λ t' u' r. cut_space-append s t' u' r)
]
  where
    or_pair : Option (Bytes × Bytes) → Bytes × Bytes
    or_pair none = ([], [])
    or_pair (some p) = p

    later :
        (c == 32) ≡ false
        → (o : Option (Bytes × Bytes)) → cut_space s ≡ o
        → ((t' u' : Bytes) → cut_space s ≡ some (t', u') → s ≡ t' ++ 32 ∷ u')
        → c ∷ s ≡ t ++ 32 ∷ u
    later q none r ih = absurd (none-some (t, u) (rw (q, r) at e))
    later q (some (t', u')) r ih =
        let here : some (c ∷ t', u') ≡ some (t, u) = rw (q, r) at e in
        let first : c ∷ t' ≡ t = ap (λ o. (or_pair o).0) here in
        let last : u' ≡ u = ap (λ o. (or_pair o).1) here in
        rw (← first, ← last) (ap (◌∷◌ c) (ih t' u' r))

-- A token is what stands behind the scheme and a space.
pub bearer_token-some :
    (authz token : Bytes)
    → bearer_token authz ≡ some token
    → (scheme rest : Bytes) × (authz ≡ scheme ++ 32 ∷ rest)
      × (equal_fold scheme (lit "Bearer") ≡ true)
      × (token ≡ trim_space rest)
unfolding bearer_token
bearer_token-some authz token e = split (cut_space authz) refl
  where
    split :
        (o : Option (Bytes × Bytes))
        → cut_space authz ≡ o
        → (scheme rest : Bytes) × (authz ≡ scheme ++ 32 ∷ rest)
          × (equal_fold scheme (lit "Bearer") ≡ true)
          × (token ≡ trim_space rest)
    split none q = let bad : none ≡ some token = rw (bearer_token, q) at e in absurd (ground arith)
    split (some (scheme, rest)) q = elim (Bool-cases (equal_fold scheme (lit "Bearer"))) [
      | inl f ↦
          let here : some (trim_space rest) ≡ some token = rw (bearer_token, q, f) at e in
          (scheme, rest, cut_space-append authz scheme rest q, f, ground arith)
      | inr f ↦ let bad : none ≡ some token = rw (bearer_token, q, f) at e in absurd (ground arith)
    ]

-- ===== src/Transcoding/Escape.antt =====
-- `url.QueryEscape`, `url.QueryUnescape` and `strconv.Atoi`, with which an error is carried in headers.
use yuelaiengine_gateway.Common.{
  ℕ, zero, suc, ◌+◌, ◌-◌, ◌*◌, ◌/◌, ◌%◌, ◌^◌, ◌<◌, Bool, false, ◌&&◌, ◌||◌, Option, none, some, [],
  ◌∷◌, ◌++◌, ◌≡◌, inl, inr, refl, ap, ◌∙◌, arith, Bytes, leb, ltb, ◌==◌, Bool-cases, if◌then◌else◌,
  All, All-append, is_empty, ℤ,
}

abbrev is_digit : ℕ → Bool
is_digit c = leb b'0' c && leb c b'9'

-- The bytes that stand for themselves.
abbrev is_plain : ℕ → Bool
is_plain c =
    is_digit c
    || (leb b'a' c && leb c b'z')
    || (leb b'A' c && leb c b'Z')
    || (c == b'-')
    || (c == b'_')
    || (c == b'.')
    || (c == b'~')

abbrev hex_digit : ℕ → ℕ
hex_digit n = if ltb n 10 then 48 + n else 55 + n

abbrev escaped : ℕ → Bytes
escaped c =
    if is_plain c
    then c ∷ []
    else (if c == 32 then b'+' ∷ [] else b'%' ∷ hex_digit (c / 16) ∷ hex_digit (c % 16) ∷ [])

unfoldable pub query_escape : Bytes → Bytes
query_escape [] = []
query_escape (c ∷ s) = escaped c ++ query_escape s

unhex : ℕ → Option ℕ
unhex c =
    if is_digit c
    then some (c - 48)
    else (if leb b'a' c && leb c b'f'
        then some (c - 87)
        else (if leb b'A' c && leb c b'F' then some (c - 55) else none))

abbrev after : ℕ → Option Bytes → Option Bytes
after c none = none
after c (some s) = some (c ∷ s)

abbrev after_hex : Option ℕ → Option ℕ → Option Bytes → Option Bytes
after_hex (some h) (some l) s = after (h * 16 + l) s
after_hex (some h) none s = none
after_hex none l s = none

abbrev space_of : ℕ → ℕ
space_of c = if c == b'+' then 32 else c

-- `none` is an error.
unfoldable pub query_unescape : Bytes → Option Bytes
unfolding unhex
query_unescape [] = some []
query_unescape (c ∷ []) = if c == b'%' then none else some (space_of c ∷ [])
query_unescape (c ∷ d ∷ []) =
    let rest = query_unescape (d ∷ []) in if c == b'%' then none else after (space_of c) rest
query_unescape (c ∷ d ∷ e ∷ s) =
    let rest = query_unescape (d ∷ e ∷ s) in
    let decoded = query_unescape s in
    if c == b'%' then after_hex (unhex d) (unhex e) decoded else after (space_of c) rest

-- The number that digits stand for, after those read so far.
digits_value : ℕ → Bytes → Option ℕ
digits_value n [] = some n
digits_value n (c ∷ s) =
    let rest = digits_value (10 * n + (c - 48)) s in if is_digit c then rest else none

abbrev some_digits : Bytes → Option ℕ
some_digits s = if is_empty s then none else digits_value 0 s

abbrev positive : Option ℕ → Option ℤ
positive none = none
positive (some n) = if ltb n (2 ^ 63) then some (ℤ.pos n) else none

abbrev negative : Option ℕ → Option ℤ
negative none = none
negative (some zero) = some (ℤ.pos 0)
negative (some (suc n)) = if ltb n (2 ^ 63) then some (ℤ.negsuc n) else none

unfoldable pub atoi : Bytes → Option ℤ
unfolding digits_value
atoi [] = none
atoi (c ∷ s) =
    if c == b'-'
    then negative (some_digits s)
    else (if c == b'+' then positive (some_digits s) else positive (some_digits (c ∷ s)))

-- A byte that is not the percent sign is read by itself.
unescape_plain :
    (c : ℕ) (s : Bytes)
    → (c == b'%') ≡ false
    → query_unescape (c ∷ s) ≡ after (space_of c) (query_unescape s)
unfolding query_unescape
unescape_plain c [] e = rw e refl
unescape_plain c (d ∷ []) e = rw e refl
unescape_plain c (d ∷ x ∷ s) e = rw e refl

unhex-hex_digit : (n : ℕ) → n < 16 → unhex (hex_digit n) ≡ some n
unfolding unhex
unhex-hex_digit n h = ground arith

unescape_hex :
    (h l : ℕ) (s : Bytes)
    → h < 16
    → l < 16
    → query_unescape (b'%' ∷ hex_digit h ∷ hex_digit l ∷ s) ≡ after (h * 16 + l) (query_unescape s)
unfolding query_unescape
unescape_hex h l s p q = rw (unhex-hex_digit h p, unhex-hex_digit l q) refl

unescape_step :
    (c : ℕ) (s : Bytes) → c < 256 → query_unescape (escaped c ++ s) ≡ after c (query_unescape s)
unescape_step c s b = elim (Bool-cases (is_plain c)) [
  | inl p ↦
      let no_percent : (c == b'%') ≡ false = ground arith in
      let same : space_of c ≡ c = ground arith in
      rw p (unescape_plain c s no_percent ∙ ap (λ x. after x (query_unescape s)) same)
  | inr p ↦ elim (Bool-cases (c == 32)) [
    | inl e ↦
        let space : 32 ≡ c = ground arith in
        rw (p, e) (unescape_plain b'+' s refl ∙ ap (λ x. after x (query_unescape s)) space)
    | inr e ↦
        let whole : c / 16 * 16 + c % 16 ≡ c = omega arith in
        rw (p, e)
          (unescape_hex (c / 16) (c % 16) s (omega arith) (omega arith)
            ∙ ap (λ x. after x (query_unescape s)) whole)
  ]
]

-- Reading gives back what was escaped.
pub query_unescape-query_escape :
    (s : Bytes) → All (λ c. c < 256) s → query_unescape (query_escape s) ≡ some s
unfolding query_escape
query_unescape-query_escape [] h = unfold query_unescape in refl
query_unescape-query_escape (c ∷ s) (h, hs) =
    unescape_step c (query_escape s) h ∙ ap (after c) (query_unescape-query_escape s hs)

escaped_visible : (c : ℕ) → c < 256 → All (λ d. 32 < d) (escaped c)
escaped_visible c h = ground arith

-- What is escaped has no white space.
pub query_escape_visible : (s : Bytes) → All (λ c. c < 256) s → All (λ d. 32 < d) (query_escape s)
unfolding query_escape
query_escape_visible [] h = tt
query_escape_visible (c ∷ s) (h, hs) =
    All-append (λ d. 32 < d) (escaped c) (query_escape s) (escaped_visible c h)
      (query_escape_visible s hs)

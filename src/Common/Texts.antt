-- ===== src/Common/Texts.antt =====
-- Texts as byte strings, and the operations of Go's `strings`, `strconv` and `hash/fnv` that the
-- program calls. The case and space functions are those of Go on ASCII texts.
use Prim.Native.Nat.{ℕ, zero, suc, ◌-◌, ◌<◌, ◌^◌, ◌+◌, ◌*◌, ◌/◌, ◌%◌, bit_xor}
use Prim.Native.Char.{code}
use Prim.Native.String.{String}
use mathlib.Core.Path.{◌≡◌, refl, sym, ap, ◌∙◌}
use mathlib.Core.Logic.{◌↔◌, inl, inr}
use mathlib.Core.Bool.{Bool, true, false, ◌&&◌, ◌||◌}
use mathlib.Core.List.{List, [], ◌∷◌, ◌++◌, map, reverse, reverse-append, reverse-reverse}
use native.Mathlib.Omega.{arith}
use yuelaiengine_gateway.Common.Lists.{All, All-append}
use yuelaiengine_gateway.Common.Tests.{leb, ◌==◌, if◌then◌else◌, Bool-cases, ==_iff}

abbrev pub Bytes : Type 0
Bytes = List ℕ

-- The bytes of an ASCII literal.
abbrev pub lit : String → Bytes
lit String.[] = []
lit (String.◌∷◌ c s) = code c ∷ lit s

unfoldable pub text_eq : Bytes → Bytes → Bool
text_eq [] [] = true
text_eq [] (_ ∷ _) = false
text_eq (_ ∷ _) [] = false
text_eq (a ∷ s) (b ∷ t) = a == b && text_eq s t

pub text_eq_iff : (s t : Bytes) → (text_eq s t ≡ true) ↔ (s ≡ t)
unfolding text_eq
text_eq_iff [] [] = ground arith
text_eq_iff [] (_ ∷ _) = ground arith
text_eq_iff (_ ∷ _) [] = ground arith
text_eq_iff (a ∷ s) (b ∷ t) = ground (arith, text_eq_iff s t)

pub text_eq_refl : (s : Bytes) → text_eq s s ≡ true
text_eq_refl s = (text_eq_iff s s).1 refl

-- `s == ""`
abbrev pub is_empty : Bytes → Bool
is_empty [] = true
is_empty (_ ∷ _) = false

pub is_empty_iff : (s : Bytes) → (is_empty s ≡ true) ↔ (s ≡ [])
is_empty_iff s = ground arith

-- `strings.HasPrefix(s, p)`
unfoldable pub has_prefix : Bytes → Bytes → Bool
has_prefix s [] = true
has_prefix [] (_ ∷ _) = false
has_prefix (a ∷ s) (b ∷ p) = a == b && has_prefix s p

pub has_prefix_iff : (s p : Bytes) → (has_prefix s p ≡ true) ↔ ((r : Bytes) × (s ≡ p ++ r))
unfolding has_prefix
has_prefix_iff s [] = ((λ _. (s, refl)), (λ _. refl))
has_prefix_iff [] (b ∷ p) = ((λ e. absurd (ground arith)), (λ (r, e). ground arith))
has_prefix_iff (a ∷ s) (b ∷ p) = (
  λ e. let (r, q) = (has_prefix_iff s p).0 (ground arith) in (r, ground arith),
  λ (r, e). ground (arith, (has_prefix_iff s p).1 (r, ground arith)),
)

-- `strings.HasSuffix(s, p)`
unfoldable pub has_suffix : Bytes → Bytes → Bool
unfolding has_prefix
has_suffix s p = has_prefix (reverse s) (reverse p)

-- The last byte is '/', as `s[len(s)-1] == '/'` asks of a text that is not empty.
unfoldable pub ends_slash : Bytes → Bool
ends_slash [] = false
ends_slash (c ∷ []) = c == b'/'
ends_slash (c ∷ d ∷ s) = ends_slash (d ∷ s)

abbrev pub head_is : ℕ → Bytes → Bool
head_is c [] = false
head_is c (d ∷ _) = d == c

abbrev is_space : ℕ → Bool
is_space c = c == 32 || (leb 9 c && leb c 13)

trim_left : Bytes → Bytes
trim_left [] = []
trim_left (c ∷ s) = let rest = trim_left s in if is_space c then rest else c ∷ s

-- `strings.TrimSpace`
unfoldable pub trim_space : Bytes → Bytes
unfolding trim_left
trim_space s = reverse (trim_left (reverse (trim_left s)))

trim_left_visible : (s : Bytes) → All (λ c. 32 < c) s → trim_left s ≡ s
unfolding trim_left
trim_left_visible [] h = refl
trim_left_visible (c ∷ s) (h, _) = ground arith

All-reverse : (s : Bytes) → All (λ c. 32 < c) s → All (λ c. 32 < c) (reverse s)
All-reverse [] h = tt
All-reverse (c ∷ s) (h, hs) =
    rw (reverse-append (c ∷ []) s)
      (All-append (λ d. 32 < d) (reverse s) (c ∷ []) (All-reverse s hs) (h, tt))

-- A text without white space stays.
pub trim_space_visible : (s : Bytes) → All (λ c. 32 < c) s → trim_space s ≡ s
unfolding trim_space
trim_space_visible s h =
    rw (trim_left_visible s h, trim_left_visible (reverse s) (All-reverse s h)) (reverse-reverse s)

abbrev lower : ℕ → ℕ
lower c = if leb b'A' c && leb c b'Z' then c + 32 else c

-- `strings.ToLower`
unfoldable pub to_lower : Bytes → Bytes
to_lower = map lower

-- `strings.EqualFold`
unfoldable pub equal_fold : Bytes → Bytes → Bool
unfolding to_lower text_eq
equal_fold s t = text_eq (to_lower s) (to_lower t)

-- The decimal digits of `n`, least significant first; `n < 2 ^ k` digits are found with fuel `k`.
digits_from : ℕ → ℕ → Bytes
digits_from zero n = []
digits_from (suc k) n =
    let rest = digits_from k (n / 10) in
    if n / 10 == 0 then (48 + n % 10) ∷ [] else (48 + n % 10) ∷ rest

-- `strconv.Itoa` and `strconv.FormatUint(_, 10)` of a number of at most 64 bits, which has at most
-- 20 digits.
unfoldable pub itoa : ℕ → Bytes
unfolding digits_from
itoa n = reverse (digits_from 20 n)

-- The number that digits stand for, least significant first.
value_of : Bytes → ℕ
value_of [] = 0
value_of (d ∷ ds) = (d - 48) + 10 * value_of ds

value_of-digits_from : (k n : ℕ) → n < 10 ^ k → value_of (digits_from k n) ≡ n
unfolding value_of digits_from
value_of-digits_from zero n h = omega (arith, h)
value_of-digits_from (suc k) n h =
    let below : n / 10 < 10 ^ k = omega (arith, h) in
    let later = value_of-digits_from k (n / 10) below in
    elim (Bool-cases (n / 10 == 0)) [
      | inl e ↦ rw e (let low : n / 10 ≡ 0 = (==_iff (n / 10) 0).0 e in omega (arith, low))
      | inr e ↦ rw e (omega (arith, later))
    ]

-- Different numbers are written differently.
pub itoa_injective : (m n : ℕ) → m < 10 ^ 20 → n < 10 ^ 20 → itoa m ≡ itoa n → m ≡ n
unfolding itoa
itoa_injective m n h k e =
    sym (value_of-digits_from 20 m h)
    ∙ ap value_of (
        sym (reverse-reverse (digits_from 20 m))
        ∙ ap reverse e
        ∙ reverse-reverse (digits_from 20 n))
    ∙ value_of-digits_from 20 n k

abbrev pub u32 : ℕ
u32 = 4294967296

abbrev pub u64 : ℕ
u64 = 18446744073709551616

fnv_from : ℕ → Bytes → ℕ
fnv_from h [] = h
fnv_from h (c ∷ s) = fnv_from ((bit_xor h c * 16777619) % u32) s

-- `fnv.New32a()`, `Write([]byte(s))`, `Sum32()`
unfoldable pub fnv32a : Bytes → ℕ
unfolding fnv_from
fnv32a s = fnv_from 2166136261 s

itoa_test : itoa 1203 ≡ lit "1203"
unfolding itoa
itoa_test = refl

fnv_test : fnv32a (lit "a") ≡ 0xe40c292c
unfolding fnv32a
fnv_test = refl

trim_test : trim_space (lit "  a b ") ≡ lit "a b"
unfolding trim_space
trim_test = refl

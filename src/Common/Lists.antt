-- ===== src/Common/Lists.antt =====
-- Lists measured and indexed by native numbers, and predicates on all their elements.
use Prim.Native.Nat.{ℕ, zero, suc, ◌+◌, ◌-◌, ◌<◌, ◌≤◌}
use mathlib.Core.Path.{◌≡◌, refl, ap}
use mathlib.Core.Logic.{◌⊎◌, inl, inr}
use mathlib.Core.Bool.{Bool, true, false, ◌||◌}
use mathlib.Core.List.{List, [], ◌∷◌, ◌++◌}
use mathlib.Core.Option.{Option, none, some}
use native.Mathlib.Omega.{arith}
use yuelaiengine_gateway.Common.Tests.{if◌then◌else◌, Bool-cases}

module _ {ℓ} {A : Type ℓ} where
  abbrev pub length : List A → ℕ
  length [] = 0
  length (x ∷ xs) = suc (length xs)

  abbrev pub get_elem? : List A → ℕ → Option A
  get_elem? [] i = none
  get_elem? (x ∷ xs) zero = some x
  get_elem? (x ∷ xs) (suc i) = get_elem? xs i

  -- A change out of bounds changes nothing.
  abbrev pub modify : List A → ℕ → (A → A) → List A
  modify [] i f = []
  modify (x ∷ xs) zero f = f x ∷ xs
  modify (x ∷ xs) (suc i) f = x ∷ modify xs i f

  abbrev pub take : ℕ → List A → List A
  take zero xs = []
  take (suc n) [] = []
  take (suc n) (x ∷ xs) = x ∷ take n xs

  abbrev pub drop : ℕ → List A → List A
  drop zero xs = xs
  drop (suc n) [] = []
  drop (suc n) (x ∷ xs) = drop n xs

  abbrev pub replicate : ℕ → A → List A
  replicate zero a = []
  replicate (suc n) a = a ∷ replicate n a

  abbrev pub filter_by : (A → Bool) → List A → List A
  filter_by p [] = []
  filter_by p (x ∷ xs) = let rest = filter_by p xs in if p x then x ∷ rest else rest

  abbrev pub any : (A → Bool) → List A → Bool
  any p [] = false
  any p (x ∷ xs) = p x || any p xs

  abbrev pub null : List A → Bool
  null [] = true
  null (_ ∷ _) = false

module _ {ℓ} {A : Type ℓ} where
  pub length-append : (xs ys : List A) → length (xs ++ ys) ≡ length xs + length ys
  length-append [] ys = omega arith
  length-append (x ∷ xs) ys = omega (arith, length-append xs ys)

  pub length-replicate : (n : ℕ) (a : A) → length (replicate n a) ≡ n
  length-replicate zero a = refl
  length-replicate (suc n) a = ap suc (length-replicate n a)

  pub length-modify : (xs : List A) (i : ℕ) (f : A → A) → length (modify xs i f) ≡ length xs
  length-modify [] i f = refl
  length-modify (x ∷ xs) zero f = refl
  length-modify (x ∷ xs) (suc i) f = ap suc (length-modify xs i f)

  pub take-drop : (n : ℕ) (xs : List A) → xs ≡ take n xs ++ drop n xs
  take-drop zero xs = refl
  take-drop (suc n) [] = refl
  take-drop (suc n) (x ∷ xs) = ap (λ l. x ∷ l) (take-drop n xs)

  pub length-drop : (n : ℕ) (xs : List A) → length (drop n xs) ≡ length xs - n
  length-drop zero xs = omega arith
  length-drop (suc n) [] = omega arith
  length-drop (suc n) (x ∷ xs) = omega (arith, length-drop n xs)

  pub get_elem?_total : (xs : List A) (i : ℕ) → i < length xs → (a : A) × (get_elem? xs i ≡ some a)
  get_elem?_total [] i h = absurd (omega arith)
  get_elem?_total (x ∷ xs) zero h = (x, refl)
  get_elem?_total (x ∷ xs) (suc i) h = get_elem?_total xs i (omega arith)

  pub length-filter_by-le : (p : A → Bool) (xs : List A) → length (filter_by p xs) ≤ length xs
  length-filter_by-le p [] = omega arith
  length-filter_by-le p (x ∷ xs) = ground (arith, length-filter_by-le p xs)

-- `P` holds of every element.
module _ {ℓ κ} {A : Type ℓ} (P : A → Type κ) where
  abbrev pub All : List A → Type κ
  All [] = Unit
  All (x ∷ xs) = P x × All xs

  pub All-append : (xs ys : List A) → All xs → All ys → All (xs ++ ys)
  All-append [] ys h k = k
  All-append (x ∷ xs) ys (p, h) k = (p, All-append xs ys h k)

  pub All-get_elem? : (xs : List A) (i : ℕ) {a : A} → All xs → get_elem? xs i ≡ some a → P a
  All-get_elem? [] i h e = ground arith
  All-get_elem? (x ∷ xs) zero (p, h) e = ground arith
  All-get_elem? (x ∷ xs) (suc i) (p, h) e = All-get_elem? xs i h e

-- Membership as a sum, with the place kept.
module _ {ℓ} {A : Type ℓ} where
  abbrev pub In : A → List A → Type ℓ
  In a xs = (i : ℕ) × (get_elem? xs i ≡ some a)

  pub In-here : (a : A) (xs : List A) → In a (a ∷ xs)
  In-here a xs = (0, refl)

  pub In-there : (a x : A) (xs : List A) → In a xs → In a (x ∷ xs)
  In-there a x xs (i, e) = (suc i, e)

  pub length-cases : (xs : List A) → (0 < length xs) ⊎ (xs ≡ [])
  length-cases [] = inr refl
  length-cases (x ∷ xs) = inl (omega arith)

  -- What a filter keeps was there and passes the test.
  pub get_elem?-filter_by :
      (p : A → Bool) (xs : List A) (i : ℕ) (x : A)
      → get_elem? (filter_by p xs) i ≡ some x
      → In x xs × (p x ≡ true)
  get_elem?-filter_by p [] i x e = absurd (ground arith)
  get_elem?-filter_by p (y ∷ xs) zero x e = elim (Bool-cases (p y)) [
    | inl a ↦
        let here : some y ≡ some x = rw a at e in
        ((0, here), (let same : y ≡ x = ground arith in rw (← same) a))
    | inr a ↦ let (k, l) = get_elem?-filter_by p xs zero x (rw a at e) in (In-there x y xs k, l)
  ]
  get_elem?-filter_by p (y ∷ xs) (suc i) x e = elim (Bool-cases (p y)) [
    | inl a ↦ let (k, l) = get_elem?-filter_by p xs i x (rw a at e) in (In-there x y xs k, l)
    | inr a ↦ let (k, l) = get_elem?-filter_by p xs (suc i) x (rw a at e) in (In-there x y xs k, l)
  ]

  -- An element that passes the test is kept.
  pub In-filter_by :
      (p : A → Bool) (xs : List A) (x : A) → In x xs → p x ≡ true → In x (filter_by p xs)
  In-filter_by p [] x (i, e) h = absurd (ground arith)
  In-filter_by p (y ∷ xs) x (zero, e) h = let same : y ≡ x = ground arith in rw (same, h) (0, refl)
  In-filter_by p (y ∷ xs) x (suc i, e) h =
      let later = In-filter_by p xs x (i, e) h in
      elim (Bool-cases (p y)) [
        | inl a ↦ rw a (In-there x y (filter_by p xs) later)
        | inr a ↦ rw a later
      ]

  pub get_elem?-modify_self :
      (xs : List A) (i : ℕ) (f : A → A) (x : A)
      → get_elem? xs i ≡ some x
      → get_elem? (modify xs i f) i ≡ some (f x)
  get_elem?-modify_self [] i f x e = absurd (ground arith)
  get_elem?-modify_self (y ∷ xs) zero f x e = let same : y ≡ x = ground arith in rw same
  get_elem?-modify_self (y ∷ xs) (suc i) f x e = get_elem?-modify_self xs i f x e

  -- A second change in the same place that takes the first back.
  pub modify_undo :
      (xs : List A) (i : ℕ) (f g : A → A) (x : A)
      → get_elem? xs i ≡ some x
      → g (f x) ≡ x
      → modify (modify xs i f) i g ≡ xs
  modify_undo [] i f g x e h = refl
  modify_undo (y ∷ xs) zero f g x e h = let same : y ≡ x = ground arith in rw (same, h)
  modify_undo (y ∷ xs) (suc i) f g x e h = ap (◌∷◌ y) (modify_undo xs i f g x e h)

-- What holds of every element that passes, wherever it stands, holds of the filtered list.
pub All-filter_by {ℓ ℓ'} :
    {A : Type ℓ} (P : A → Type ℓ') (p : A → Bool) (xs : List A)
    → ((k : ℕ) (z : A) → get_elem? xs k ≡ some z → p z ≡ true → P z)
    → All P (filter_by p xs)
All-filter_by P p [] h = tt
All-filter_by P p (x ∷ xs) h =
    let later = All-filter_by P p xs (λ k z. h (suc k) z) in
    elim (Bool-cases (p x)) [
      | inl a ↦ rw (a, filter_by) (h zero x refl a, later)
      | inr a ↦ rw (a, filter_by) later
    ]

pub filter_by_none {ℓ} :
    {A : Type ℓ} (p : A → Bool) (xs : List A)
    → ((k : ℕ) (z : A) → get_elem? xs k ≡ some z → p z ≡ false)
    → filter_by p xs ≡ []
filter_by_none p [] h = refl
filter_by_none p (x ∷ xs) h =
    rw (h zero x refl, filter_by) (filter_by_none p xs (λ k z. h (suc k) z))

module _ {ℓ} {A : Type ℓ} where
  pub get_elem?-append_left :
      (xs ys : List A) (i : ℕ) → i < length xs → get_elem? (xs ++ ys) i ≡ get_elem? xs i
  get_elem?-append_left [] ys i h = absurd (omega arith)
  get_elem?-append_left (x ∷ xs) ys zero h = refl
  get_elem?-append_left (x ∷ xs) ys (suc i) h = get_elem?-append_left xs ys i (omega arith)

  pub get_elem?-append_last : (xs : List A) (y : A) → get_elem? (xs ++ y ∷ []) (length xs) ≡ some y
  get_elem?-append_last [] y = refl
  get_elem?-append_last (x ∷ xs) y = get_elem?-append_last xs y

  pub get_elem?-modify_ne :
      (xs : List A) (i j : ℕ) (f : A → A)
      → (i ≡ j → ⊥)
      → get_elem? (modify xs i f) j ≡ get_elem? xs j
  get_elem?-modify_ne [] i j f h = refl
  get_elem?-modify_ne (x ∷ xs) zero zero f h = absurd (h refl)
  get_elem?-modify_ne (x ∷ xs) zero (suc j) f h = refl
  get_elem?-modify_ne (x ∷ xs) (suc i) zero f h = refl
  get_elem?-modify_ne (x ∷ xs) (suc i) (suc j) f h =
      get_elem?-modify_ne xs i j f (λ e. h (ap suc e))

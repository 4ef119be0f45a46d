-- ===== src/LoadBalancer/Cycle.antt =====
-- A cursor that goes round a list.
use yuelaiengine_gateway.Common.{
  ℕ, zero, suc, ◌+◌, ◌-◌, ◌%◌, ◌≤◌, ◌<◌, List, [], ◌∷◌, ◌++◌, ◌≡◌, refl, ap, ap₂, sym, ◌∙◌, arith,
  map, length, take, drop, length-drop,
}
use native.Mathlib.Nat.{mod-lt, suc-add}
use mathlib.Core.List.{map-append}
use yuelaiengine_gateway.LoadBalancer.Instance.{Result, ok, elem_at}

mod_next : (i k : ℕ) → i % k + 1 < k → (i + 1) % k ≡ i % k + 1
mod_next i k h = grind arith

mod_back : (i k : ℕ) → 0 < k → (i + (k - i % k)) % k ≡ 0
mod_back i k h = grind arith

module _ {ℓ} {A : Type ℓ} where
  -- The elements under a cursor on its next `n` places.
  unfoldable pub walk : List A → ℕ → ℕ → List (Result A)
  walk xs zero i = []
  walk xs (suc n) i = elem_at xs (i % length xs) ∷ walk xs n (i + 1)

  -- The same without going round.
  straight : List A → ℕ → ℕ → List (Result A)
  straight xs zero i = []
  straight xs (suc n) i = elem_at xs i ∷ straight xs n (i + 1)

  straight-suc : (x : A) (xs : List A) (n i : ℕ) → straight (x ∷ xs) n (suc i) ≡ straight xs n i
  unfolding straight
  straight-suc x xs zero i = refl
  straight-suc x xs (suc n) i =
      ap (◌∷◌ (elem_at xs i)) (ap (straight (x ∷ xs) n) (omega arith) ∙ straight-suc x xs n (i + 1))

  straight-take-drop :
      (xs : List A) (n i : ℕ) → i + n ≤ length xs → straight xs n i ≡ map ok (take n (drop i xs))
  unfolding straight
  straight-take-drop xs zero i h = refl
  straight-take-drop [] (suc n) i h = absurd (omega arith)
  straight-take-drop (x ∷ xs) (suc n) zero h = ap (◌∷◌ (ok x)) (
      ap (straight (x ∷ xs) n) (omega arith)
      ∙ straight-suc x xs n 0
      ∙ straight-take-drop xs n 0 (omega arith))
  straight-take-drop (x ∷ xs) (suc n) (suc i) h =
      straight-suc x xs (suc n) i ∙ straight-take-drop xs (suc n) i (omega arith)

  walk-straight :
      (xs : List A) (n i : ℕ)
      → i % length xs + n ≤ length xs
      → walk xs n i ≡ straight xs n (i % length xs)
  unfolding walk straight
  walk-straight xs zero i h = refl
  walk-straight xs (suc zero) i h = refl
  walk-straight xs (suc (suc n)) i h =
      let next : (i + 1) % length xs ≡ i % length xs + 1 = mod_next i (length xs) (omega arith) in
      ap (◌∷◌ (elem_at xs (i % length xs)))
        (walk-straight xs (suc n) (i + 1) (omega arith) ∙ ap (straight xs (suc n)) next)

  walk-append : (xs : List A) (n m i : ℕ) → walk xs (n + m) i ≡ walk xs n i ++ walk xs m (i + n)
  unfolding walk
  walk-append xs zero m i = ap₂ (walk xs) (omega arith) (omega arith)
  walk-append xs (suc n) m i = rw suc-add (
      ap (◌∷◌ (elem_at xs (i % length xs)))
        (walk-append xs n m (i + 1) ∙ ap (λ j. walk xs n (i + 1) ++ walk xs m j) (omega arith)))

  take_all : (xs : List A) (n : ℕ) → length xs ≤ n → take n xs ≡ xs
  take_all [] zero h = refl
  take_all [] (suc n) h = refl
  take_all (x ∷ xs) zero h = absurd (omega arith)
  take_all (x ∷ xs) (suc n) h = ap (◌∷◌ x) (take_all xs n (omega arith))

  -- One round from any place meets every element once, in the order of the list from that place on.
  pub walk-round :
      (xs : List A) (i : ℕ)
      → 0 < length xs
      → walk xs (length xs) i ≡ map ok (drop (i % length xs) xs ++ take (i % length xs) xs)
  walk-round xs i h =
      let r : ℕ = i % length xs in
      let k : ℕ = length xs - r in
      let below : r < length xs = mod-lt i h in
      let back : (i + k) % length xs ≡ 0 = mod_back i (length xs) h in
      let first : walk xs k i ≡ map ok (drop r xs) =
        walk-straight xs k i (omega arith)
        ∙ straight-take-drop xs k r (omega arith)
        ∙ ap (map ok) (take_all (drop r xs) k (omega (arith, length-drop r xs))) in
      let second : walk xs r (i + k) ≡ map ok (take r xs) =
        walk-straight xs r (i + k) (omega arith)
        ∙ ap (straight xs r) back
        ∙ straight-take-drop xs r 0 (omega arith) in
      ap (λ n. walk xs n i) (omega arith)
      ∙ walk-append xs k r i
      ∙ ap₂ (◌++◌) first second
      ∙ sym (map-append ok (drop r xs) (take r xs))

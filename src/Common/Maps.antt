-- ===== src/Common/Maps.antt =====
-- Go maps with text keys, as association lists. Iteration order is that of the list, and no result
-- may depend on it.
use mathlib.Core.Path.{◌≡◌, refl}
use mathlib.Core.Logic.{◌≢◌, inl, inr}
use mathlib.Core.Bool.{Bool, true, false}
use mathlib.Core.Option
use mathlib.Core.Option.{Option, none, some}
use mathlib.Core.List.{List, [], ◌∷◌}
use native.Mathlib.Omega.{arith}
use yuelaiengine_gateway.Common.Tests.{if◌then◌else◌, Bool-cases}
use yuelaiengine_gateway.Common.Texts.{Bytes, text_eq, text_eq_iff, text_eq_refl}

abbrev pub Map {ℓ} : Type ℓ → Type ℓ
Map V = List (Bytes × V)

module _ {ℓ} {V : Type ℓ} where
  -- `v, ok := m[k]`
  unfoldable pub get : Bytes → Map V → Option V
  get k [] = none
  get k ((j, v) ∷ m) = if text_eq j k then some v else get k m

  abbrev pub has : Bytes → Map V → Bool
  has k m = elim (get k m) [ none ↦ false | some _ ↦ true ]

  -- `m[k] = v`
  unfoldable pub put : Bytes → V → Map V → Map V
  put k v [] = (k, v) ∷ []
  put k v ((j, w) ∷ m) = if text_eq j k then (j, v) ∷ m else (j, w) ∷ put k v m

  -- `delete(m, k)`
  unfoldable pub delete : Bytes → Map V → Map V
  delete k [] = []
  delete k ((j, w) ∷ m) = let rest = delete k m in if text_eq j k then rest else (j, w) ∷ rest

  pub get-put :
      (k j : Bytes) (v : V) (m : Map V)
      → get j (put k v m) ≡ (if text_eq k j then some v else get j m)
  unfolding get put
  get-put k j v [] = refl
  get-put k j v ((i, w) ∷ m) =
      ground (arith, text_eq_iff k j, text_eq_iff i k, text_eq_iff i j, get-put k j v m)

  pub get-put_self : (k : Bytes) (v : V) (m : Map V) → get k (put k v m) ≡ some v
  get-put_self k v m = simp (get-put, text_eq_refl)

  pub get-put_ne : (k j : Bytes) (v : V) (m : Map V) → k ≢ j → get j (put k v m) ≡ get j m
  get-put_ne k j v m h = ground (arith, get-put k j v m, text_eq_iff k j)

  pub get-delete :
      (k j : Bytes) (m : Map V) → get j (delete k m) ≡ (if text_eq k j then none else get j m)
  unfolding get delete
  get-delete k j [] = ground arith
  get-delete k j ((i, w) ∷ m) =
      ground (arith, text_eq_iff k j, text_eq_iff i k, text_eq_iff i j, get-delete k j m)

-- A loop over the entries that changes each value.
module _ {ℓ κ} {V : Type ℓ} {W : Type κ} where
  unfoldable pub map_values : (Bytes → V → W) → Map V → Map W
  map_values f [] = []
  map_values f ((k, v) ∷ m) = (k, f k v) ∷ map_values f m

  pub get-map_values :
      (f : Bytes → V → W) (k : Bytes) (m : Map V)
      → get k (map_values f m) ≡ Option.map (f k) (get k m)
  unfolding get map_values
  get-map_values f k [] = refl
  get-map_values f k ((j, v) ∷ m) = elim (Bool-cases (text_eq j k)) [
    | inl e ↦ rw e (rw ((text_eq_iff j k).0 e) refl)
    | inr e ↦ rw e (get-map_values f k m)
  ]

-- `P` holds of every value.
module _ {ℓ κ} {V : Type ℓ} (P : V → Type κ) where
  abbrev pub AllValues : Map V → Type κ
  AllValues [] = Unit
  AllValues ((_, v) ∷ m) = P v × AllValues m

  pub AllValues-get : (k : Bytes) (m : Map V) {v : V} → AllValues m → get k m ≡ some v → P v
  unfolding get
  AllValues-get k [] h e = ground arith
  AllValues-get k ((j, w) ∷ m) (p, h) e = elim (Bool-cases (text_eq j k)) [
    | inl q ↦ ground arith
    | inr q ↦ AllValues-get k m h (rw q at e)
  ]

  pub AllValues-put : (k : Bytes) (v : V) (m : Map V) → AllValues m → P v → AllValues (put k v m)
  unfolding put
  AllValues-put k v [] h p = (p, tt)
  AllValues-put k v ((j, w) ∷ m) (q, h) p = ground (arith, AllValues-put k v m h p)

  pub AllValues-delete : (k : Bytes) (m : Map V) → AllValues m → AllValues (delete k m)
  unfolding delete
  AllValues-delete k [] h = tt
  AllValues-delete k ((j, w) ∷ m) (q, h) = ground (arith, AllValues-delete k m h)

  pub AllValues-map_values :
      (f : Bytes → V → V) (m : Map V)
      → ((k : Bytes) (v : V) → P v → P (f k v))
      → AllValues m
      → AllValues (map_values f m)
  unfolding map_values
  AllValues-map_values f [] keep h = tt
  AllValues-map_values f ((k, v) ∷ m) keep (p, h) = (keep k v p, AllValues-map_values f m keep h)

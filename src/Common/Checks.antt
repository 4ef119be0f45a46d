-- ===== src/Common/Checks.antt =====
-- Functions that return an `error`: `none` is nil, and the first error ends the function.
use mathlib.Core.Path.{◌≡◌, refl}
use mathlib.Core.Logic.{◌↔◌}
use mathlib.Core.Bool.{Bool, true, false}
use mathlib.Core.Option.{Option, none, some}
use mathlib.Core.List.{List, [], ◌∷◌}
use native.Mathlib.Omega.{arith}
use yuelaiengine_gateway.Common.Lists.{All}

-- `if test { return e }`
abbrev pub fail_if {ℓ} : {E : Type ℓ} → Bool → E → Option E
fail_if true e = some e
fail_if false e = none

-- What comes after is only reached if nothing failed so far.
infixr 6 ◌and_then◌
abbrev pub ◌and_then◌ {ℓ} : {E : Type ℓ} → Option E → Option E → Option E
none and_then rest = rest
some e and_then rest = some e

-- A loop whose body may fail.
unfoldable pub each {ℓ κ} : {A : Type ℓ} {E : Type κ} → (A → Option E) → List A → Option E
each check [] = none
each check (x ∷ xs) = check x and_then each check xs

pub and_then-none_iff {ℓ} :
    {E : Type ℓ} (a b : Option E) → ((a and_then b) ≡ none) ↔ ((a ≡ none) × (b ≡ none))
and_then-none_iff none b = ((λ h. (refl, h)), (λ h. h.1))
and_then-none_iff (some e) b = ((λ h. absurd (ground arith)), (λ h. h.0))

pub fail_if-none_iff {ℓ} :
    {E : Type ℓ} (test : Bool) (e : E) → (fail_if test e ≡ none) ↔ (test ≡ false)
fail_if-none_iff true e = ((λ h. absurd (ground arith)), (λ h. absurd (ground arith)))
fail_if-none_iff false e = ((λ h. refl), (λ h. refl))

-- A loop passes when its body does on every element.
pub each-All_iff {ℓ κ μ} :
    {A : Type ℓ} {E : Type κ} (check : A → Option E) (P : A → Type μ)
    → ((x : A) → (check x ≡ none) ↔ P x)
    → (xs : List A) → (each check xs ≡ none) ↔ All P xs
unfolding each
each-All_iff check P h [] = ((λ _. tt), (λ _. refl))
each-All_iff check P h (x ∷ xs) = (
  (λ e.
      let (p, q) = (and_then-none_iff (check x) (each check xs)).0 e in
      ((h x).0 p, (each-All_iff check P h xs).0 q)),
  (λ a.
      (and_then-none_iff (check x) (each check xs)).1
        ((h x).1 a.0, (each-All_iff check P h xs).1 a.1)),
)

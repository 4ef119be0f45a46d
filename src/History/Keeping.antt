-- ===== src/History/Keeping.antt =====
-- Keeping the last elements of a growing list.
use mathlib.Core.List.{append_assoc, append-nil}
use yuelaiengine_gateway.Common.{
  ℕ, zero, suc, ◌+◌, ◌-◌, ◌≤◌, ◌<◌, List, [], ◌∷◌, ◌++◌, ◌≡◌, inl, inr, refl, ap, sym, ◌∙◌, arith,
  length, drop, ltb, length-append, length-drop, Bool-cases, ltb→lt,
}
use yuelaiengine_gateway.History.{keep_last}

module _ {ℓ} {A : Type ℓ} where
  pub drop-append : (n : ℕ) (xs ys : List A) → n ≤ length xs → drop n (xs ++ ys) ≡ drop n xs ++ ys
  drop-append zero xs ys h = refl
  drop-append (suc n) [] ys h = absurd (omega arith)
  drop-append (suc n) (x ∷ xs) ys h = drop-append n xs ys (omega arith)

  drop-drop : (m n k : ℕ) (xs : List A) → k ≡ n + m → drop m (drop n xs) ≡ drop k xs
  drop-drop m zero k xs e = let same : m ≡ k = omega (arith, e) in rw same refl
  drop-drop zero (suc n) zero [] e = refl
  drop-drop (suc m) (suc n) zero [] e = refl
  drop-drop zero (suc n) (suc k) [] e = refl
  drop-drop (suc m) (suc n) (suc k) [] e = refl
  drop-drop m (suc n) zero (x ∷ xs) e = absurd (omega (arith, e))
  drop-drop m (suc n) (suc k) (x ∷ xs) e = drop-drop m n k xs (omega (arith, e))

  pub keep_last_over :
      (n : ℕ) (xs : List A) → n < length xs → keep_last n xs ≡ drop (length xs - n) xs
  keep_last_over n xs h = ground arith

  pub keep_last_under : (n : ℕ) (xs : List A) → length xs ≤ n → keep_last n xs ≡ xs
  keep_last_under n xs h = ground arith

  -- Keeping the last ones after each addition is keeping them once.
  keep_last-append :
      (n : ℕ) (xs : List A) (y : A)
      → keep_last n (keep_last n xs ++ y ∷ []) ≡ keep_last n (xs ++ y ∷ [])
  keep_last-append n xs y = elim (Bool-cases (ltb n (length xs))) [
    | inr e ↦ ap (λ l. keep_last n (l ++ y ∷ [])) (keep_last_under n xs (ground arith))
    | inl e ↦
        let d = length xs - n in
        let longer = length-append xs (y ∷ []) in
        let start : keep_last n xs ++ y ∷ [] ≡ drop d (xs ++ y ∷ []) =
          ap (λ l. l ++ y ∷ []) (keep_last_over n xs (ground arith))
          ∙ sym (drop-append d xs (y ∷ []) (omega arith)) in
        let size = length-drop d (xs ++ y ∷ []) in
        let one : length (drop d (xs ++ y ∷ [])) - n ≡ 1 =
          omega (arith, size, longer, ltb→lt n (length xs) e) in
        ap (keep_last n) start
        ∙ keep_last_over n (drop d (xs ++ y ∷ [])) (omega (arith, one))
        ∙ drop-drop _ d (length (xs ++ y ∷ []) - n) (xs ++ y ∷ [])
            (omega (arith, one, longer, ltb→lt n (length xs) e))
        ∙ sym (keep_last_over n (xs ++ y ∷ []) (omega (arith, longer, ltb→lt n (length xs) e)))
  ]

  pub length-keep_last : (n : ℕ) (xs : List A) → length (keep_last n xs) ≤ n
  length-keep_last n xs = ground (arith, length-drop (length xs - n) xs)

  pub keep_last-append_all :
      (n : ℕ) (xs ys : List A) → keep_last n (keep_last n xs ++ ys) ≡ keep_last n (xs ++ ys)
  keep_last-append_all n xs [] =
      ap (keep_last n) (append-nil (keep_last n xs))
      ∙ keep_last_under n (keep_last n xs) (length-keep_last n xs)
      ∙ ap (keep_last n) (sym (append-nil xs))
  keep_last-append_all n xs (y ∷ ys) =
      ap (keep_last n) (sym (append_assoc (keep_last n xs) (y ∷ []) ys))
      ∙ sym (keep_last-append_all n (keep_last n xs ++ y ∷ []) ys)
      ∙ ap (λ l. keep_last n (l ++ ys)) (keep_last-append n xs y)
      ∙ keep_last-append_all n (xs ++ y ∷ []) ys
      ∙ ap (keep_last n) (append_assoc xs (y ∷ []) ys)

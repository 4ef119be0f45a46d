-- ===== src/Traffic/Weights.antt =====
-- What the weighted choice chooses, and that it does not depend on the order of the map.
use mathlib.Core.List.{Permᴰ}
use mathlib.Core.Bool.{false≢true}
use yuelaiengine_gateway.Common.{
  ℕ, ◌+◌, ◌%◌, ◌<◌, true, false, ◌||◌, Option, none, some, List, [], ◌∷◌, ◌≡◌, ◌⊎◌, inl, inr, refl,
  ap, ◌∙◌, sym, arith, Bytes, Map, get, ℤ, pos_part, if◌then◌else◌, ltb, ◌==◌, Bool-cases, All, In,
  In-here, In-there, null, u32, fnv32a,
}
use yuelaiengine_gateway.Traffic.{
  insert_text, sort_texts, text_lt, weighted_services, total_weight, weight_of, select_by_weight,
  first_text, select_weighted_service,
}
use yuelaiengine_gateway.Traffic.Sorted.{insert_text_comm}

abbrev sorted_services : Map ℤ → List Bytes
sorted_services weights = sort_texts (weighted_services weights)

sorted_services-cons :
    (svc : Bytes) (w : ℤ) (ws : Map ℤ)
    → sorted_services ((svc, w) ∷ ws)
      ≡ (if ltb 0 (pos_part w) then insert_text svc (sorted_services ws) else sorted_services ws)
unfolding weighted_services
sorted_services-cons svc w ws = elim (Bool-cases (ltb 0 (pos_part w))) [
  | inl e ↦ rw e (unfold sort_texts in refl)
  | inr e ↦ rw e
]

sorted_services-swap :
    (s t : Bytes) (v w : ℤ) (ws : Map ℤ)
    → sorted_services ((s, v) ∷ (t, w) ∷ ws) ≡ sorted_services ((t, w) ∷ (s, v) ∷ ws)
sorted_services-swap s t v w ws =
    rw
      (
        sorted_services-cons s v ((t, w) ∷ ws),
        sorted_services-cons t w ws,
        sorted_services-cons t w ((s, v) ∷ ws),
        sorted_services-cons s v ws,
      )
      (ground (arith, insert_text_comm s t (sorted_services ws)))

sorted_services-perm : {v w : Map ℤ} → Permᴰ v w → sorted_services v ≡ sorted_services w
sorted_services-perm Permᴰ.nil = refl
sorted_services-perm (Permᴰ.cons {a} {b} {l₁} {l₂} e p) = rw e (
    rw (sorted_services-cons b.0 b.1 l₁, sorted_services-cons b.0 b.1 l₂)
      (ap (λ l. if ltb 0 (pos_part b.1) then insert_text b.0 l else l) (sorted_services-perm p)))
sorted_services-perm (Permᴰ.swap {a} {b} {a'} {b'} {l} e q) =
    rw (e, q) (sorted_services-swap b'.0 a'.0 b'.1 a'.1 l)
sorted_services-perm (Permᴰ.trans p q) = sorted_services-perm p ∙ sorted_services-perm q

total_weight-perm : {v w : Map ℤ} → Permᴰ v w → total_weight v ≡ total_weight w
unfolding total_weight
total_weight-perm Permᴰ.nil = refl
total_weight-perm (Permᴰ.cons {a} {b} {l₁} {l₂} e p) =
    rw e (ap (λ (n : ℕ). pos_part b.1 + n) (total_weight-perm p))
total_weight-perm (Permᴰ.swap {a} {b} {a'} {b'} {l} e q) = rw (e, q) (omega arith)
total_weight-perm (Permᴰ.trans p q) = total_weight-perm p ∙ total_weight-perm q

-- Two maps with the same entries by key.
abbrev pub SameMap : Map ℤ → Map ℤ → Type 0
SameMap v w = (key : Bytes) → get key v ≡ get key w

select_by_weight-same :
    (v w : Map ℤ) (target cumulative : ℕ) (fallback : Bytes) (services : List Bytes)
    → SameMap v w
    → select_by_weight v target cumulative fallback services
      ≡ select_by_weight w target cumulative fallback services
unfolding select_by_weight
select_by_weight-same v w target cumulative fallback [] same = refl
select_by_weight-same v w target cumulative fallback (s ∷ ss) same =
    let weight : weight_of v s ≡ weight_of w s =
      ap (λ (o : Option ℤ). elim o [ none ↦ 0 | some z ↦ pos_part z ]) (same s) in
    rw weight (
      ap (λ (rest : Bytes). if ltb target (cumulative + weight_of w s) then s else rest)
        (select_by_weight-same v w target (cumulative + weight_of w s) fallback ss same))

-- The weighted choice does not depend on the order in which Go's `range` meets the entries of the
-- weight map: two lists of the same entries, which look up alike, choose the same service for every
-- key.
pub select_weighted_service-perm :
    (v w : Map ℤ) (key : Bytes)
    → Permᴰ v w
    → SameMap v w
    → select_weighted_service v key ≡ select_weighted_service w key
unfolding select_weighted_service
select_weighted_service-perm v w key p same =
    rw (sorted_services-perm p, total_weight-perm p)
      (ap
        (λ (chosen : Bytes).
          if (total_weight w == 0) || null (sorted_services w)
          then some []
          else (if (total_weight w % u32) == 0 then none else some chosen))
        (select_by_weight-same v w (fnv32a key % (total_weight w % u32)) 0
          (first_text (sorted_services w)) (sorted_services w) same))

All-insert_text :
    (P : Bytes → Type 0) (s : Bytes) (ts : List Bytes) → P s → All P ts → All P (insert_text s ts)
unfolding insert_text
All-insert_text P s [] p all = (p, tt)
All-insert_text P s (t ∷ ts) p (q, all) = elim (Bool-cases (text_lt t s)) [
  | inl e ↦ rw e (q, All-insert_text P s ts p all)
  | inr e ↦ rw e (p, (q, all))
]

All-sort_texts : (P : Bytes → Type 0) (ts : List Bytes) → All P ts → All P (sort_texts ts)
unfolding sort_texts
All-sort_texts P [] all = tt
All-sort_texts P (t ∷ ts) (p, all) = All-insert_text P t (sort_texts ts) p (All-sort_texts P ts all)

-- A service with a positive weight in the map.
abbrev pub IsWeighted : Map ℤ → Bytes → Type 0
IsWeighted weights svc = (w : ℤ) × In (svc, w) weights × (0 < pos_part w)

IsWeighted-there :
    (e : Bytes × ℤ) (ws : Map ℤ) (ss : List Bytes)
    → All (IsWeighted ws) ss
    → All (IsWeighted (e ∷ ws)) ss
IsWeighted-there e ws [] all = tt
IsWeighted-there e ws (s ∷ ss) ((w, i, p), all) =
    ((w, In-there (s, w) e ws i, p), IsWeighted-there e ws ss all)

weighted_services-All : (ws : Map ℤ) → All (IsWeighted ws) (weighted_services ws)
unfolding weighted_services
weighted_services-All [] = tt
weighted_services-All ((svc, w) ∷ ws) =
    let later = IsWeighted-there (svc, w) ws (weighted_services ws) (weighted_services-All ws) in
    elim (Bool-cases (ltb 0 (pos_part w))) [
      | inl e ↦ rw e ((w, In-here (svc, w) ws, ground arith), later)
      | inr e ↦ rw e later
    ]

select_by_weight-All :
    (P : Bytes → Type 0) (weights : Map ℤ) (target cumulative : ℕ) (fallback : Bytes)
    (services : List Bytes)
    → P fallback
    → All P services
    → P (select_by_weight weights target cumulative fallback services)
unfolding select_by_weight
select_by_weight-All P weights target cumulative fallback [] p all = p
select_by_weight-All P weights target cumulative fallback (s ∷ ss) p (q, all) =
    elim (Bool-cases (ltb target (cumulative + weight_of weights s))) [
      | inl e ↦ rw e q
      | inr e ↦ rw e (
          select_by_weight-All P weights target (cumulative + weight_of weights s) fallback ss p
            all)
    ]

from_services :
    (P : Bytes → Type 0) (weights : Map ℤ) (target : ℕ) (services : List Bytes)
    → null services ≡ false
    → All P services
    → P (select_by_weight weights target 0 (first_text services) services)
from_services P weights target [] n all = absurd (ground arith)
from_services P weights target (s ∷ ss) n all =
    select_by_weight-All P weights target 0 s (s ∷ ss) all.0 all

-- The weighted choice is a service to which the map gives a positive weight, or none at all (the
-- empty name) where the map gives no such weight; it panics only on a total weight that is a multiple
-- of 2 ^ 32 and not 0.
pub select_weighted_service-IsWeighted :
    (weights : Map ℤ) (key : Bytes)
    → ((svc : Bytes) × (select_weighted_service weights key ≡ some svc) × IsWeighted weights svc)
      ⊎ ((select_weighted_service weights key ≡ some [])
          × ((total_weight weights ≡ 0) ⊎ (weighted_services weights ≡ [])))
      ⊎ ((select_weighted_service weights key ≡ none)
          × (total_weight weights % u32 ≡ 0)
          × (0 < total_weight weights))
unfolding select_weighted_service
select_weighted_service-IsWeighted weights key = elim (Bool-cases (total_weight weights == 0)) [
  | inl e ↦ inr (inl (rw e, inl (ground arith)))
  | inr e ↦ elim (Bool-cases (null (sorted_services weights))) [
    | inl n ↦ inr (inl (rw (e, n), inr (sorted_none (weighted_services weights) n)))
    | inr n ↦ elim (Bool-cases ((total_weight weights % u32) == 0)) [
      | inl z ↦ inr (inr (rw (e, n, z), ground arith, ground arith))
      | inr z ↦ inl (
        _,
        rw (e, n, z),
        from_services (IsWeighted weights) weights (fnv32a key % (total_weight weights % u32))
            (sorted_services weights) n
            (All-sort_texts (IsWeighted weights) _ (weighted_services-All weights)),
      )
    ]
  ]
]
  where
    inserted : (s : Bytes) (ts : List Bytes) → null (insert_text s ts) ≡ false
    inserted s [] = unfold insert_text in refl
    inserted s (t ∷ ts) = unfold insert_text in (ground arith)

    sorted_none : (ss : List Bytes) → null (sort_texts ss) ≡ true → ss ≡ []
    sorted_none [] n = refl
    sorted_none (s ∷ ss) n =
        let n' : null (insert_text s (sort_texts ss)) ≡ true = unfold sort_texts in n in
        absurd (false≢true (sym (inserted s (sort_texts ss)) ∙ n'))

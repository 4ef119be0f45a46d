-- ===== src/Traffic/Sorted.antt =====
-- The sort forgets the order in which it meets the texts.
use yuelaiengine_gateway.Common.{true, false, List, [], ◌∷◌, ◌≡◌, refl, arith, Bytes}
use yuelaiengine_gateway.Traffic.{text_lt, insert_text}

text_lt_trans : (s t u : Bytes) → text_lt s t ≡ true → text_lt t u ≡ true → text_lt s u ≡ true
unfolding text_lt
text_lt_trans s [] u h k = absurd (ground arith)
text_lt_trans s (b ∷ t) [] h k = absurd (ground arith)
text_lt_trans [] (b ∷ t) (c ∷ u) h k = refl
text_lt_trans (a ∷ s) (b ∷ t) (c ∷ u) h k = ground (arith, text_lt_trans s t u)

text_lt_asym : (s t : Bytes) → text_lt s t ≡ true → text_lt t s ≡ false
unfolding text_lt
text_lt_asym s [] h = absurd (ground arith)
text_lt_asym [] (b ∷ t) h = refl
text_lt_asym (a ∷ s) (b ∷ t) h = ground (arith, text_lt_asym s t)

text_lt_total : (s t : Bytes) → text_lt s t ≡ false → text_lt t s ≡ false → s ≡ t
unfolding text_lt
text_lt_total [] [] h k = refl
text_lt_total [] (b ∷ t) h k = absurd (ground arith)
text_lt_total (a ∷ s) [] h k = absurd (ground arith)
text_lt_total (a ∷ s) (b ∷ t) h k = ground (arith, text_lt_total s t)

pub insert_text_comm :
    (s t : Bytes) (us : List Bytes)
    → insert_text s (insert_text t us) ≡ insert_text t (insert_text s us)
unfolding insert_text
insert_text_comm s t [] = ground (arith, text_lt_asym s t, text_lt_asym t s, text_lt_total s t)
insert_text_comm s t (u ∷ us) = ground (
  arith,
  text_lt_asym s t,
  text_lt_asym t s,
  text_lt_total s t,
  text_lt_trans u s t,
  text_lt_trans u t s,
  insert_text_comm s t us,
)

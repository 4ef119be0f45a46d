-- ===== src/Router/Prefix.antt =====
-- A prefix matches whole segments of a path.
use yuelaiengine_gateway.Common.{
  true, false, ◌||◌, [], ◌∷◌, ◌++◌, ◌≡◌, ◌≢◌, ◌↔◌, ◌⊎◌, inl, inr, refl, arith, Bytes, is_empty,
  is_empty_iff, has_prefix, has_prefix_iff, ends_slash, head_is, drop, length, length-append,
  if◌then◌else◌, ◌==◌, Bool-cases,
}
use yuelaiengine_gateway.Router.{prefix_match}

drop-append : (p r : Bytes) → drop (length p) (p ++ r) ≡ r
drop-append [] r = refl
drop-append (c ∷ p) r = drop-append p r

nil_of_length : (r : Bytes) → length r ≡ 0 → r ≡ []
nil_of_length [] h = refl
nil_of_length (c ∷ r) h = absurd (omega arith)

-- What is left of the path behind the prefix starts a new segment.
abbrev pub IsBreak : Bytes → Bytes → Type 0
IsBreak prefix rest = (rest ≡ []) ⊎ (ends_slash prefix ≡ true) ⊎ (head_is b'/' rest ≡ true)

IsBreak-of :
    (p r : Bytes)
    → (if (length (p ++ r) == length p) || ends_slash p
        then true
        else head_is b'/' (drop (length p) (p ++ r)))
      ≡ true
    → IsBreak p r
IsBreak-of p r h = elim (Bool-cases (length (p ++ r) == length p)) [
  | inl e ↦ inl (nil_of_length r (ground (arith, length-append p r)))
  | inr e ↦ elim (Bool-cases (ends_slash p)) [
    | inl s ↦ inr (inl s)
    | inr s ↦ inr (inr (rw (e, s, drop-append p r) at h))
  ]
]

of_break :
    (p r : Bytes)
    → IsBreak p r
    → (if (length (p ++ r) == length p) || ends_slash p
        then true
        else head_is b'/' (drop (length p) (p ++ r)))
      ≡ true
of_break p r (inl e) =
    let same : (length (p ++ r) == length p) ≡ true = rw e (ground (arith, length-append p [])) in
    rw same
of_break p r (inr (inl s)) = rw s (ground arith)
of_break p r (inr (inr h)) = rw (drop-append p r, h) (ground arith)

-- A prefix matches a path exactly when it is not empty and the path goes on behind it with nothing
-- or with a new segment: the prefix ends with a slash, or what follows starts with one.
pub prefix_match_iff :
    (path prefix : Bytes)
    → (prefix_match path prefix ≡ true)
      ↔ ((prefix ≢ []) × ((rest : Bytes) × (path ≡ prefix ++ rest) × IsBreak prefix rest))
unfolding prefix_match
prefix_match_iff path prefix = (to, from)
  where
    to :
        prefix_match path prefix ≡ true
        → (prefix ≢ []) × ((rest : Bytes) × (path ≡ prefix ++ rest) × IsBreak prefix rest)
    to h =
        let guard : (is_empty prefix ≡ false) × (has_prefix path prefix ≡ true) = ground arith in
        let (rest, e) = (has_prefix_iff path prefix).0 guard.1 in
        (
          λ q. ground (arith, is_empty_iff prefix),
          (rest, e, IsBreak-of prefix rest (rw (guard.0, guard.1, e) at h)),
        )

    from :
        (prefix ≢ []) × ((rest : Bytes) × (path ≡ prefix ++ rest) × IsBreak prefix rest)
        → prefix_match path prefix ≡ true
    from (ne, (rest, e, b)) =
        let filled : is_empty prefix ≡ false = ground (arith, is_empty_iff prefix) in
        let starts : has_prefix path prefix ≡ true = (has_prefix_iff path prefix).1 (rest, e) in
        rw (filled, starts) (rw e (of_break prefix rest b))

-- ===== src/LoadBalancer/ConsistentHash/Search.antt =====
-- The binary search finds what a scan of the ring finds.
use mathlib.Core.Option
use mathlib.Core.Bool.{false≢true}
use yuelaiengine_gateway.Common.{
  ℕ, zero, suc, ◌+◌, ◌-◌, ◌/◌, ◌≤◌, ◌<◌, Bool, true, false, Option, none, some, List, [], ◌∷◌, ◌≡◌,
  refl, sym, ◌∙◌, arith, Bytes, length, get_elem?, get_elem?_total, if◌then◌else◌, ltb, leb, All,
  Bool-cases, inl, inr,
}
use yuelaiengine_gateway.LoadBalancer.ConsistentHash.{
  HashRingEntry, search, is_at_least, pick_from_ring, hash_string,
}

-- In ascending order of the hashes.
abbrev pub IsSorted : List HashRingEntry → Type 0
IsSorted [] = Unit
IsSorted (e ∷ es) = All (λ (d : HashRingEntry). e.hash ≤ d.hash) es × IsSorted es

-- A test that stays true once it is true.
abbrev IsUpward : (ℕ → Bool) → ℕ → Type 0
IsUpward f n = (i j : ℕ) → i ≤ j → j < n → f i ≡ true → f j ≡ true

-- `r` is where the test becomes true.
abbrev IsBoundary : (ℕ → Bool) → ℕ → ℕ → Type 0
IsBoundary f n r = (r ≤ n) × ((i : ℕ) → i < r → f i ≡ false) × (r < n → f r ≡ true)

search_lem :
    (f : ℕ → Bool) (n : ℕ)
    → IsUpward f n
    → (fuel i j : ℕ) → j - i ≤ fuel
    → i ≤ j
    → j ≤ n
    → ((k : ℕ) → k < i → f k ≡ false)
    → (j < n → f j ≡ true)
    → IsBoundary f n (search fuel f i j)
unfolding search
search_lem f n up zero i j m l b below above =
    (omega arith, below, λ h. (let same : i ≡ j = omega arith in rw same (above (omega arith))))
search_lem f n up (suc fuel) i j m l b below above = elim (Bool-cases (ltb i j)) [
  | inr e ↦
      let same : i ≡ j = ground arith in
      rw e (omega arith, below, λ h. rw same (above (omega arith)))
  | inl e ↦
      let lt : i < j = ground arith in
      let h : ℕ = (i + j) / 2 in
      let inside : h < n = omega arith in
      elim (Bool-cases (f h)) [
        | inl t ↦
            rw (e, t)
              (search_lem f n up fuel i h (omega arith) (omega arith) (omega arith) below (λ _. t))
        | inr t ↦
            rw (e, t)
              (search_lem f n up fuel (h + 1) j (omega arith) (omega arith) b (under h inside t)
                above)
      ]
]
  where
    under : (h : ℕ) → h < n → f h ≡ false → (k : ℕ) → k < h + 1 → f k ≡ false
    under h inside t k q = elim (Bool-cases (f k)) [
      | inl g ↦ absurd (false≢true (sym t ∙ up k h (omega arith) inside g))
      | inr g ↦ g
    ]

-- The first entry in the order of the ring whose hash is not below the target.
abbrev pub first_from : ℕ → List HashRingEntry → Option HashRingEntry
first_from target [] = none
first_from target (e ∷ es) = if leb target e.hash then some e else first_from target es

abbrev pub head? {ℓ} : {A : Type ℓ} → List A → Option A
head? [] = none
head? (x ∷ _) = some x

-- That entry, or the first one of the ring where there is none.
abbrev pub successor : ℕ → List HashRingEntry → Option HashRingEntry
successor target ring = elim (first_from target ring) [ none ↦ head? ring | some e ↦ some e ]

boundary-first_from :
    (target : ℕ) (ring : List HashRingEntry) (r : ℕ)
    → IsBoundary (is_at_least ring target) (length ring) r
    → first_from target ring ≡ get_elem? ring r
boundary-first_from target [] r h = refl
boundary-first_from target (e ∷ es) zero (l, below, at) =
    let here : leb target e.hash ≡ true = at (omega arith) in rw here
boundary-first_from target (e ∷ es) (suc r) (l, below, at) =
    let here : leb target e.hash ≡ false = below 0 (omega arith) in
    rw here (
      boundary-first_from target es r
        (omega arith, λ i h. below (suc i) (omega arith), λ h. at (omega arith)))

is_at_least-below :
    (ring : List HashRingEntry) (target h j : ℕ)
    → target ≤ h
    → All (λ (d : HashRingEntry). h ≤ d.hash) ring
    → j < length ring
    → is_at_least ring target j ≡ true
is_at_least-below [] target h j l all q = absurd (omega arith)
is_at_least-below (e ∷ es) target h zero l (b, all) q = ground arith
is_at_least-below (e ∷ es) target h (suc j) l (b, all) q =
    is_at_least-below es target h j l all (omega arith)

-- On a sorted ring the test of the search is upward.
is_at_least-IsUpward :
    (ring : List HashRingEntry) (target : ℕ)
    → IsSorted ring
    → IsUpward (is_at_least ring target) (length ring)
is_at_least-IsUpward [] target s i j l q t = absurd (omega arith)
is_at_least-IsUpward (e ∷ es) target (h, s) zero zero l q t = t
is_at_least-IsUpward (e ∷ es) target (h, s) zero (suc j) l q t =
    is_at_least-below es target e.hash j (ground arith) h (omega arith)
is_at_least-IsUpward (e ∷ es) target (h, s) (suc i) zero l q t = absurd (omega arith)
is_at_least-IsUpward (e ∷ es) target (h, s) (suc i) (suc j) l q t =
    is_at_least-IsUpward es target s i j (omega arith) (omega arith) t

pub successor-none :
    (target : ℕ) (ring : List HashRingEntry)
    → first_from target ring ≡ none
    → successor target ring ≡ head? ring
successor-none target ring e = rw (e, successor)

pub successor-some :
    (target : ℕ) (ring : List HashRingEntry) (d : HashRingEntry)
    → first_from target ring ≡ some d
    → successor target ring ≡ some d
successor-some target ring d e = rw (e, successor)

get_elem?_past : (ring : List HashRingEntry) (i : ℕ) → length ring ≤ i → get_elem? ring i ≡ none
get_elem?_past [] i h = refl
get_elem?_past (e ∷ es) zero h = absurd (omega arith)
get_elem?_past (e ∷ es) (suc i) h = get_elem?_past es i (omega arith)

-- On a sorted ring, the binary search for a key finds the first entry whose hash is not below the
-- key's, and the first entry of the ring where all hashes are below: the next one clockwise.
pub pick_from_ring-successor :
    (ring : List HashRingEntry) (key : Bytes)
    → IsSorted ring
    → pick_from_ring ring key
      ≡ Option.map (λ (e : HashRingEntry). e.place) (successor (hash_string key) ring)
unfolding pick_from_ring
pick_from_ring-successor [] key s = refl
pick_from_ring-successor (d ∷ ds) key s =
    let ring : List HashRingEntry = d ∷ ds in
    let target : ℕ = hash_string key in
    let idx : ℕ = search (length ring) (is_at_least ring target) 0 (length ring) in
    let boundary : IsBoundary (is_at_least ring target) (length ring) idx =
      search_lem (is_at_least ring target) (length ring) (is_at_least-IsUpward ring target s)
        (length ring) 0 (length ring) (omega arith) (omega arith) (omega arith)
        (λ k h. absurd (omega arith)) (λ h. absurd (omega arith)) in
    let first = boundary-first_from target ring idx boundary in
    elim (Bool-cases (leb (length ring) idx)) [
      | inl past ↦
          let nothing : first_from target ring ≡ none =
            first ∙ get_elem?_past ring idx (ground arith) in
          rw (past, successor-none target ring nothing)
      | inr inside ↦
          let (e, found) = get_elem?_total ring idx (ground arith) in
          rw (inside, successor-some target ring e (first ∙ found), found)
    ]

-- ===== src/Examples/Sorting.antt =====
-- A sort of the entries of a hash ring that does what `sort.Slice` is relied on for.
use yuelaiengine_gateway.Common.{
  ℕ, suc, ◌≤◌, List, [], ◌∷◌, ◌≡◌, refl, ap, ◌∙◌, inl, inr, arith, if◌then◌else◌, length, leb, All,
  Bool-cases,
}
use yuelaiengine_gateway.LoadBalancer.ConsistentHash.{HashRingEntry}
use yuelaiengine_gateway.LoadBalancer.ConsistentHash.Search.{IsSorted}
use yuelaiengine_gateway.LoadBalancer.ConsistentHash.Ring.{IsSort}

abbrev insert_entry : HashRingEntry → List HashRingEntry → List HashRingEntry
insert_entry e [] = e ∷ []
insert_entry e (d ∷ ds) = if leb e.hash d.hash then e ∷ d ∷ ds else d ∷ insert_entry e ds

abbrev pub insertion_sort : List HashRingEntry → List HashRingEntry
insertion_sort [] = []
insertion_sort (e ∷ es) = insert_entry e (insertion_sort es)

insert_entry-All :
    (P : HashRingEntry → Type 0) (e : HashRingEntry) (es : List HashRingEntry)
    → P e
    → All P es
    → All P (insert_entry e es)
insert_entry-All P e [] p all = (p, tt)
insert_entry-All P e (d ∷ ds) p (q, all) = elim (Bool-cases (leb e.hash d.hash)) [
  | inl h ↦ rw (h, insert_entry) (p, (q, all))
  | inr h ↦ rw (h, insert_entry) (q, insert_entry-All P e ds p all)
]

insertion_sort-All :
    (P : HashRingEntry → Type 0) (es : List HashRingEntry) → All P es → All P (insertion_sort es)
insertion_sort-All P [] all = tt
insertion_sort-All P (e ∷ es) (p, all) =
    insert_entry-All P e (insertion_sort es) p (insertion_sort-All P es all)

below_All :
    (m n : ℕ) (es : List HashRingEntry)
    → m ≤ n
    → All (λ (d : HashRingEntry). n ≤ d.hash) es
    → All (λ (d : HashRingEntry). m ≤ d.hash) es
below_All m n [] l all = tt
below_All m n (e ∷ es) l (p, all) = (omega arith, below_All m n es l all)

insert_entry-IsSorted :
    (e : HashRingEntry) (es : List HashRingEntry) → IsSorted es → IsSorted (insert_entry e es)
insert_entry-IsSorted e [] s = (tt, tt)
insert_entry-IsSorted e (d ∷ ds) (b, s) = elim (Bool-cases (leb e.hash d.hash)) [
  | inl h ↦
      let l : e.hash ≤ d.hash = ground arith in
      rw (h, insert_entry) ((l, below_All e.hash d.hash ds l b), (b, s))
  | inr h ↦
      let l : d.hash ≤ e.hash = ground arith in
      rw (h, insert_entry)
        (
          insert_entry-All (λ (x : HashRingEntry). d.hash ≤ x.hash) e ds l b,
          insert_entry-IsSorted e ds s,
        )
]

insertion_sort-IsSorted : (es : List HashRingEntry) → IsSorted (insertion_sort es)
insertion_sort-IsSorted [] = tt
insertion_sort-IsSorted (e ∷ es) =
    insert_entry-IsSorted e (insertion_sort es) (insertion_sort-IsSorted es)

length-insert_entry :
    (e : HashRingEntry) (es : List HashRingEntry) → length (insert_entry e es) ≡ suc (length es)
length-insert_entry e [] = refl
length-insert_entry e (d ∷ ds) = elim (Bool-cases (leb e.hash d.hash)) [
  | inl h ↦ rw (h, insert_entry)
  | inr h ↦ rw (h, insert_entry) (ap suc (length-insert_entry e ds))
]

length-insertion_sort : (es : List HashRingEntry) → length (insertion_sort es) ≡ length es
length-insertion_sort [] = refl
length-insertion_sort (e ∷ es) =
    length-insert_entry e (insertion_sort es) ∙ ap suc (length-insertion_sort es)

pub insertion_sort-IsSort : IsSort insertion_sort
insertion_sort-IsSort = record {
  sorted = insertion_sort-IsSorted;
  kept = insertion_sort-All;
  same_length = length-insertion_sort;
}

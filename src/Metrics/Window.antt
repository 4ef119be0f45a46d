-- ===== src/Metrics/Window.antt =====
-- The rate over a window counts exactly the requests of its seconds.
use mathlib.Core.Path.{subst}
use yuelaiengine_gateway.Common.{
  ℕ, zero, suc, ◌+◌, ◌%◌, ◌<◌, ◌≤◌, false, some, List, [], ◌∷◌, ◌≡◌, ◌⊎◌, inl, inr, refl, ap, sym,
  ◌∙◌, arith, length, replicate, length-replicate, modify, length-modify, get_elem?,
  get_elem?_total, get_elem?-modify_ne, ltb, ◌==◌, ==_iff, if◌then◌else◌, ℤ, u64, Bool-cases,
  some_injective,
}
use yuelaiengine_gateway.Metrics.{
  Second, empty_second, MetricsCollector, sec_bucket_size, new_metrics_collector, count_second,
  observe, in_window, window_total, window_qps,
}

-- What is observed of a request: status, duration and second.
abbrev pub Observation : Type 0
Observation = ℕ × ℤ × ℕ

abbrev pub observe_all : List Observation → MetricsCollector → MetricsCollector
observe_all [] m = m
observe_all ((status, duration, now) ∷ os) m = observe_all os (observe status duration now m)

-- The number of the observations of one second.
abbrev pub count_at : ℕ → List Observation → ℕ
count_at t [] = 0
count_at t ((_, _, s) ∷ os) = (if s == t then 1 else 0) + count_at t os

-- The number of the observations of the last `w` seconds: those of `now`, of the second before, and so
-- on, as far as there are seconds.
abbrev pub count_in : ℕ → ℕ → List Observation → ℕ
count_in now zero os = 0
count_in zero (suc w) os = count_at 0 os
count_in (suc now) (suc w) os = count_at (suc now) os + count_in now w os

-- One observation more.
count_in-cons :
    (now w t : ℕ) (status : ℕ) (duration : ℤ) (os : List Observation)
    → count_in now w ((status, duration, t) ∷ os)
      ≡ (if in_window now w t then 1 else 0) + count_in now w os
count_in-cons now zero t status duration os = ground arith
count_in-cons zero (suc w) t status duration os = ground arith
count_in-cons (suc now) (suc w) t status duration os =
    ground (arith, count_in-cons now w t status duration os)

count_in-nil : (now w : ℕ) → count_in now w [] ≡ 0
count_in-nil now zero = refl
count_in-nil zero (suc w) = refl
count_in-nil (suc now) (suc w) = omega (arith, count_in-nil now w)

-- The observations are in the order of their times, from `t` on up to `now`.
abbrev pub IsOrdered : ℕ → ℕ → List Observation → Type 0
IsOrdered t now [] = t ≤ now
IsOrdered t now ((_, _, s) ∷ os) = (t ≤ s) × IsOrdered s now os

-- A second that is kept: it stands where it belongs unless nothing was counted, is not later than `t`,
-- and counted at most `n`.
abbrev IsSecond : ℕ → ℕ → ℕ → Second → Type 0
IsSecond t n i s = ((s.epoch % sec_bucket_size ≡ i) ⊎ (s.count ≡ 0)) × (s.epoch ≤ t) × (s.count ≤ n)

abbrev AreSeconds : ℕ → ℕ → List Second → Type 0
AreSeconds t n ss = (i : ℕ) (s : Second) → get_elem? ss i ≡ some s → IsSecond t n i s

abbrev weight : ℕ → ℕ → Second → ℕ
weight now w s = if in_window now w s.epoch then s.count else 0

window_total-modify :
    (now w : ℕ) (ss : List Second) (i : ℕ) (f : Second → Second) (s : Second)
    → get_elem? ss i ≡ some s
    → window_total now w (modify ss i f) + weight now w s
      ≡ window_total now w ss + weight now w (f s)
unfolding window_total
window_total-modify now w [] i f s e = absurd (ground arith)
window_total-modify now w (x ∷ ss) zero f s e =
    let same : x ≡ s = some_injective x s e in rw same (omega arith)
window_total-modify now w (x ∷ ss) (suc i) f s e =
    omega (arith, window_total-modify now w ss i f s e)

-- One more request of second `t` adds one to a window that `t` is in.
weight-count_second :
    (now w t n : ℕ) (s : Second)
    → w ≤ sec_bucket_size
    → t ≤ now
    → n + 1 < u64
    → IsSecond t n (t % sec_bucket_size) s
    → weight now w (count_second t s) ≡ weight now w s + (if in_window now w t then 1 else 0)
weight-count_second now w t n s small late fits (place, before, few) =
    let step : (s.count + 1) % u64 ≡ s.count + 1 = omega (arith, few, fits) in
    let one : (0 + 1) % u64 ≡ 1 = refl in
    elim place [
      | inl p ↦
          let old : (s.epoch ≡ t) ⊎ (s.epoch + 60 ≤ t) = omega (arith, p, before) in
          ground (arith, step, one, old, late, small, before)
      | inr z ↦ ground (arith, step, one, z, late, small, before)
    ]

get_elem?-modify-some :
    (ss : List Second) (i : ℕ) (f : Second → Second) (x : Second)
    → get_elem? (modify ss i f) i ≡ some x
    → (y : Second) × (get_elem? ss i ≡ some y) × (f y ≡ x)
get_elem?-modify-some [] i f x e = absurd (ground arith)
get_elem?-modify-some (y ∷ ss) zero f x e = (y, refl, some_injective (f y) x e)
get_elem?-modify-some (y ∷ ss) (suc i) f x e = get_elem?-modify-some ss i f x e

-- The seconds after one more request.
AreSeconds-observe :
    (t s n : ℕ) (ss : List Second)
    → t ≤ s
    → n + 1 < u64
    → AreSeconds t n ss
    → AreSeconds s (n + 1) (modify ss (s % sec_bucket_size) (count_second s))
AreSeconds-observe t s n ss order fits all i x e = elim (Bool-cases (s % sec_bucket_size == i)) [
  | inr d ↦
      let old =
        get_elem?-modify_ne ss (s % sec_bucket_size) i (count_second s) (λ q. ground arith) in
      let (place, before, few) = all i x (sym old ∙ e) in
      (place, omega (arith, before, order), omega (arith, few))
  | inl d ↦
      let here : s % sec_bucket_size ≡ i = (==_iff (s % sec_bucket_size) i).0 d in
      let (y, at, made) =
        get_elem?-modify-some ss i (count_second s) x
          (subst (λ k. get_elem? (modify ss k (count_second s)) i ≡ some x) here e) in
      let (place, before, few) = all i y at in
      subst (IsSecond s (n + 1) i) made (inl here, omega arith, ground (arith, few, fits))
]

IsOrdered-late : (t now : ℕ) (os : List Observation) → IsOrdered t now os → t ≤ now
IsOrdered-late t now [] h = h
IsOrdered-late t now ((_, _, s) ∷ os) (h, o) = omega (arith, h, IsOrdered-late s now os o)

-- The window's total, where the seconds are those of requests up to `t`, gains what is observed in it.
window_total-observe_all :
    (now w t n : ℕ) (os : List Observation) (m : MetricsCollector)
    → w ≤ sec_bucket_size
    → n + length os < u64
    → IsOrdered t now os
    → length m.seconds ≡ sec_bucket_size
    → AreSeconds t n m.seconds
    → window_total now w (observe_all os m).seconds
      ≡ window_total now w m.seconds + count_in now w os
unfolding observe
window_total-observe_all now w t n [] m small fits order size all =
    omega (arith, count_in-nil now w)
window_total-observe_all now w t n ((status, duration, s) ∷ os) m small fits (le, order) size all =
    let i = s % sec_bucket_size in
    let inside : i < sec_bucket_size = omega arith in
    let (x, at) = get_elem?_total m.seconds i (omega (arith, inside, size)) in
    let (place, before, few) = all i x at in
    let changed = window_total-modify now w m.seconds i (count_second s) x at in
    let gained =
      weight-count_second now w s n x small (IsOrdered-late s now os order) (omega (arith, fits))
        (place, omega (arith, before, le), few) in
    let later =
      window_total-observe_all now w s (n + 1) os (observe status duration s m) small
        (omega (arith, fits)) order (length-modify m.seconds i (count_second s) ∙ size)
        (AreSeconds-observe t s n m.seconds le (omega (arith, fits)) all) in
    omega (arith, changed, gained, later, count_in-cons now w s status duration os)

AreSeconds-replicate : (k : ℕ) → AreSeconds 0 0 (replicate k empty_second)
AreSeconds-replicate zero i s e = absurd (ground arith)
AreSeconds-replicate (suc k) zero s e =
    subst (IsSecond 0 0 0) (some_injective _ s e) (inr refl, omega arith, omega arith)
AreSeconds-replicate (suc k) (suc i) s e =
    let (place, before, few) = AreSeconds-replicate k i s e in
    (inr (omega (arith, few)), before, few)

window_total-replicate : (now w k : ℕ) → window_total now w (replicate k empty_second) ≡ 0
unfolding window_total
window_total-replicate now w zero = refl
window_total-replicate now w (suc k) = ground (arith, window_total-replicate now w k)

count_in-length : (now w : ℕ) (os : List Observation) → count_in now w os ≤ length os
count_in-length now w [] = omega (arith, count_in-nil now w)
count_in-length now w ((status, duration, t) ∷ os) =
    ground (arith, count_in-length now w os, count_in-cons now w t status duration os)

-- The rate over the last seconds, of which there are at least one and at most 60, is the number of the
-- requests observed in exactly these seconds, from now backwards, each second by itself, over the number
-- of the seconds. The requests are observed in the order of their times, none later than
-- now, and are fewer than 2^64.
pub window_qps-observe_all :
    (now w : ℕ) (os : List Observation)
    → 0 < w
    → w ≤ sec_bucket_size
    → length os < u64
    → IsOrdered 0 now os
    → window_qps now (ℤ.pos w) (observe_all os new_metrics_collector) ≡ (count_in now w os, w)
unfolding window_qps new_metrics_collector
window_qps-observe_all now w os some_second small fits order =
    let total =
      window_total-observe_all now w 0 0 os new_metrics_collector small (omega (arith, fits)) order
        (length-replicate sec_bucket_size empty_second) (AreSeconds-replicate sec_bucket_size) in
    let start = window_total-replicate now w sec_bucket_size in
    let few = count_in-length now w os in
    let exact : window_total now w (observe_all os new_metrics_collector).seconds % u64
        ≡ count_in now w os =
      omega (arith, total, start, few, fits) in
    let some_width : (w == 0) ≡ false = ground arith in
    let not_wide : ltb sec_bucket_size w ≡ false = ground arith in
    rw (window_qps, some_width, not_wide) (ap (λ k. (k, w)) exact)

-- ===== src/Metrics/Counts.antt =====
-- What the counters and the histogram count.
use yuelaiengine_gateway.Common.{
  ℕ, zero, suc, ◌+◌, ◌<◌, ◌≤◌, Bool, true, false, Option, some, List, [], ◌∷◌, ◌≡◌, ap, sym, ◌∙◌,
  arith, map, length, get_elem?, ◌==◌, if◌then◌else◌, ℤ, pos_part, u64, some_injective,
}
use yuelaiengine_gateway.Metrics.{
  LatencyBucket, MetricsCollector, bounds, new_bucket, new_buckets, new_metrics_collector, count_if,
  is_4xx, is_5xx, fits, count_latency, observe,
}
use yuelaiengine_gateway.Metrics.Window.{Observation, observe_all}

-- The number of observations that pass a test.
abbrev pub count_of : (Observation → Bool) → List Observation → ℕ
count_of test [] = 0
count_of test (o ∷ os) = (if test o then 1 else 0) + count_of test os

abbrev pub status_of : Observation → ℕ
status_of (status, _, _) = status

abbrev pub latency_of : Observation → ℕ
latency_of (_, duration, _) = pos_part duration

-- All counters after some requests, when they started from `m`.
pub record IsCounted (os : List Observation) (m m' : MetricsCollector) : Type 0 where
  pub total : m'.total_requests ≡ m.total_requests + length os
  pub total_4xx : m'.total_4xx ≡ m.total_4xx + count_of (λ o. is_4xx (status_of o)) os
  pub total_5xx : m'.total_5xx ≡ m.total_5xx + count_of (λ o. is_5xx (status_of o)) os
  pub total_429 : m'.total_429 ≡ m.total_429 + count_of (λ o. status_of o == 429) os
  pub latency_count : m'.latency_count ≡ m.latency_count + length os

count_if_small : (test : Bool) (n : ℕ) → n + 1 < u64 → count_if test n ≡ n + (if test then 1 else 0)
count_if_small true n h = omega (arith, h)
count_if_small false n h = omega arith

-- No counter is above the number of requests.
pub record IsBelow (n : ℕ) (m : MetricsCollector) : Type 0 where
  pub total : m.total_requests ≤ n
  pub total_4xx : m.total_4xx ≤ n
  pub total_5xx : m.total_5xx ≤ n
  pub total_429 : m.total_429 ≤ n
  pub latency_count : m.latency_count ≤ n

count_if-le : (test : Bool) (n k : ℕ) → n ≤ k → k + 1 < u64 → count_if test n ≤ k + 1
count_if-le test n k h b = ground (arith, h, b)

IsBelow-observe :
    (n status : ℕ) (duration : ℤ) (now : ℕ) (m : MetricsCollector)
    → n + 1 < u64
    → IsBelow n m
    → IsBelow (n + 1) (observe status duration now m)
unfolding observe
IsBelow-observe n status duration now m b h = record {
  total = count_if-le true m.total_requests n h.total b;
  total_4xx = count_if-le (is_4xx status) m.total_4xx n h.total_4xx b;
  total_5xx = count_if-le (is_5xx status) m.total_5xx n h.total_5xx b;
  total_429 = count_if-le (status == 429) m.total_429 n h.total_429 b;
  latency_count = count_if-le true m.latency_count n h.latency_count b;
}

observe_all-IsCounted :
    (n : ℕ) (os : List Observation) (m : MetricsCollector)
    → n + length os < u64
    → IsBelow n m
    → IsCounted os m (observe_all os m)
unfolding observe
observe_all-IsCounted n [] m b h = record {
  total = omega arith;
  total_4xx = omega arith;
  total_5xx = omega arith;
  total_429 = omega arith;
  latency_count = omega arith;
}
observe_all-IsCounted n ((status, duration, now) ∷ os) m b h =
    let later =
      observe_all-IsCounted (n + 1) os (observe status duration now m) (omega (arith, b))
        (IsBelow-observe n status duration now m (omega (arith, b)) h) in
    let one = count_if_small true m.total_requests (omega (arith, b, h.total)) in
    let two = count_if_small (is_4xx status) m.total_4xx (omega (arith, b, h.total_4xx)) in
    let three = count_if_small (is_5xx status) m.total_5xx (omega (arith, b, h.total_5xx)) in
    let four = count_if_small (status == 429) m.total_429 (omega (arith, b, h.total_429)) in
    let five = count_if_small true m.latency_count (omega (arith, b, h.latency_count)) in
    record {
      total = omega (arith, later.total, one);
      total_4xx = omega (arith, later.total_4xx, two);
      total_5xx = omega (arith, later.total_5xx, three);
      total_429 = omega (arith, later.total_429, four);
      latency_count = omega (arith, later.latency_count, five);
    }

get_elem?-map :
    (f : LatencyBucket → LatencyBucket) (bs : List LatencyBucket) (i : ℕ) (b : LatencyBucket)
    → get_elem? bs i ≡ some b
    → get_elem? (map f bs) i ≡ some (f b)
get_elem?-map f [] i b e = absurd (ground arith)
get_elem?-map f (c ∷ bs) zero b e = ap some (ap f (some_injective c b e))
get_elem?-map f (c ∷ bs) (suc i) b e = get_elem?-map f bs i b e

-- The requests whose latency is within a bound.
abbrev pub count_within : Option ℕ → List Observation → ℕ
count_within le os = count_of (λ o. fits (latency_of o) le) os

bucket-observe_all :
    (n : ℕ) (os : List Observation) (m : MetricsCollector) (i : ℕ) (b : LatencyBucket)
    → n + length os < u64
    → b.count ≤ n
    → get_elem? m.latency_buckets i ≡ some b
    → get_elem? (observe_all os m).latency_buckets i
      ≡ some (record b { count = b.count + count_within b.le os })
unfolding observe
bucket-observe_all n [] m i b h k e = e ∙ ap some (ap (λ c. record b { count = c }) (omega arith))
bucket-observe_all n ((status, duration, now) ∷ os) m i b h k e =
    let test = fits (pos_part duration) b.le in
    let one = count_if_small test b.count (omega (arith, h, k)) in
    bucket-observe_all (n + 1) os (observe status duration now m) i
      (count_latency (pos_part duration) b) (omega (arith, h))
      (count_if-le test b.count n k (omega (arith, h)))
      (get_elem?-map (count_latency (pos_part duration)) m.latency_buckets i b e)
    ∙ ap some (ap (λ c. record b { count = c }) (omega (arith, one)))

-- The collector counts right: each counter is the number of the requests that it is for, and each bucket
-- of the histogram that of the requests whose latency is within its bound.
pub record IsMeasured (os : List Observation) (m : MetricsCollector) : Type 0 where
  pub total : m.total_requests ≡ length os
  pub total_4xx : m.total_4xx ≡ count_of (λ o. is_4xx (status_of o)) os
  pub total_5xx : m.total_5xx ≡ count_of (λ o. is_5xx (status_of o)) os
  pub total_429 : m.total_429 ≡ count_of (λ o. status_of o == 429) os
  pub latency_count : m.latency_count ≡ length os
  pub buckets :
      (i : ℕ) (b : LatencyBucket)
      → get_elem? (new_buckets bounds) i ≡ some b
      → get_elem? m.latency_buckets i ≡ some (record b { count = count_within b.le os })

empty_buckets :
    (bs : List ℕ) (i : ℕ) (b : LatencyBucket) → get_elem? (new_buckets bs) i ≡ some b → b.count ≡ 0
empty_buckets [] zero b e = sym (ap (λ (c : LatencyBucket). c.count) (some_injective _ b e))
empty_buckets [] (suc i) b e = absurd (ground arith)
empty_buckets (x ∷ bs) zero b e =
    sym (ap (λ (c : LatencyBucket). c.count) (some_injective (new_bucket x) b e))
empty_buckets (x ∷ bs) (suc i) b e = empty_buckets bs i b e

-- After requests that are fewer than 2^64, each counter is the number of those requests that it is for:
-- all of them, those of status 400 to 499, of 500 and above, and of 429; and each bucket of the histogram
-- has the number of those whose latency is within its bound, and the last one that of all.
pub observe_all-IsMeasured :
    (os : List Observation) → length os < u64 → IsMeasured os (observe_all os new_metrics_collector)
unfolding new_metrics_collector
observe_all-IsMeasured os h =
    let c = observe_all-IsCounted 0 os new_metrics_collector (omega (arith, h)) (record {
      total = omega arith;
      total_4xx = omega arith;
      total_5xx = omega arith;
      total_429 = omega arith;
      latency_count = omega arith;
    }) in
    record {
      total = omega (arith, c.total);
      total_4xx = omega (arith, c.total_4xx);
      total_5xx = omega (arith, c.total_5xx);
      total_429 = omega (arith, c.total_429);
      latency_count = omega (arith, c.latency_count);
      buckets = λ i b e.
          let empty = empty_buckets bounds i b e in
          bucket-observe_all 0 os new_metrics_collector i b (omega (arith, h))
            (omega (arith, empty)) e
          ∙ ap some (ap (λ n. record b { count = n }) (omega (arith, empty)));
    }

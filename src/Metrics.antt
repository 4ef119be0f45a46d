-- ===== src/Metrics.antt =====
-- internal/core/metrics.go: the counters of the requests, the latency histogram and the rate over a
-- window of seconds. Latencies are whole milliseconds, which float64 holds exactly below 2^53, as it
-- does their sum. A rate is given by its two terms, the number of requests and the seconds. `reaches`
-- is the comparison of a bucket's count with 0.99 times the number of requests, in floating point.
pub mod Counts
pub mod Window
use Prim.Native.String.{String}
use yuelaiengine_gateway.Common.{
  ℕ, ◌+◌, ◌-◌, ◌%◌, Bool, true, false, ◌&&◌, Option, none, some, List, [], ◌∷◌, map, Bytes, lit,
  itoa, replicate, modify, get_elem?, ltb, leb, ◌==◌, if◌then◌else◌, ℤ, pos_part, u64,
}

-- `le` is `none` for the last bucket, whose bound the source writes -1.
pub record LatencyBucket : Type 0 where
  pub le : Option ℕ
  pub count : ℕ

-- What is kept of one second.
pub record Second : Type 0 where
  pub epoch : ℕ
  pub count : ℕ

pub record MetricsCollector : Type 0 where
  pub total_requests : ℕ
  pub total_4xx : ℕ
  pub total_5xx : ℕ
  pub total_429 : ℕ
  pub latency_buckets : List LatencyBucket
  pub latency_count : ℕ
  pub latency_sum : ℕ
  pub seconds : List Second

abbrev pub sec_bucket_size : ℕ
sec_bucket_size = 60

abbrev pub bounds : List ℕ
bounds = 1 ∷ 5 ∷ 10 ∷ 25 ∷ 50 ∷ 100 ∷ 250 ∷ 500 ∷ 1000 ∷ 2000 ∷ 5000 ∷ []

abbrev pub new_bucket : ℕ → LatencyBucket
new_bucket le = record { le = some le; count = 0 }

-- The loop that makes the buckets, and the last one.
abbrev pub new_buckets : List ℕ → List LatencyBucket
new_buckets [] = record { le = none; count = 0 } ∷ []
new_buckets (b ∷ bs) = new_bucket b ∷ new_buckets bs

abbrev pub empty_second : Second
empty_second = record { epoch = 0; count = 0 }

unfoldable pub new_metrics_collector : MetricsCollector
new_metrics_collector = record {
  total_requests = 0;
  total_4xx = 0;
  total_5xx = 0;
  total_429 = 0;
  latency_buckets = new_buckets bounds;
  latency_count = 0;
  latency_sum = 0;
  seconds = replicate sec_bucket_size empty_second;
}

-- `n++` on a counter of 64 bits, if the test passes.
abbrev pub count_if : Bool → ℕ → ℕ
count_if test n = if test then (n + 1) % u64 else n

abbrev pub is_4xx : ℕ → Bool
is_4xx status_code = leb 400 status_code && ltb status_code 500

abbrev pub is_5xx : ℕ → Bool
is_5xx status_code = leb 500 status_code

-- The latency is not above the bucket's bound.
abbrev pub fits : ℕ → Option ℕ → Bool
fits latency_ms none = true
fits latency_ms (some le) = leb latency_ms le

abbrev pub count_latency : ℕ → LatencyBucket → LatencyBucket
count_latency latency_ms b = record b { count = count_if (fits latency_ms b.le) b.count }

abbrev pub count_second : ℕ → Second → Second
count_second now_sec s = record {
  epoch = now_sec;
  count = ((if s.epoch == now_sec then s.count else 0) + 1) % u64;
}

unfoldable pub observe : ℕ → ℤ → ℕ → MetricsCollector → MetricsCollector
observe status_code duration_ms now_sec m = record {
  total_requests = count_if true m.total_requests;
  total_4xx = count_if (is_4xx status_code) m.total_4xx;
  total_5xx = count_if (is_5xx status_code) m.total_5xx;
  total_429 = count_if (status_code == 429) m.total_429;
  latency_buckets = map (count_latency (pos_part duration_ms)) m.latency_buckets;
  latency_count = count_if true m.latency_count;
  latency_sum = m.latency_sum + pos_part duration_ms;
  seconds = modify m.seconds (now_sec % sec_bucket_size) (count_second now_sec);
}

-- `epoch >= nowSec - windowSec + 1 && epoch <= nowSec`
abbrev pub in_window : ℕ → ℕ → ℕ → Bool
in_window now_sec window_sec epoch = ltb now_sec (epoch + window_sec) && leb epoch now_sec

-- The loop of `windowQPS`.
unfoldable pub window_total : ℕ → ℕ → List Second → ℕ
window_total now_sec window_sec [] = 0
window_total now_sec window_sec (s ∷ ss) =
    (if in_window now_sec window_sec s.epoch then s.count else 0)
    + window_total now_sec window_sec ss

abbrev pub clamped : ℕ → ℕ
clamped window_sec = if ltb sec_bucket_size window_sec then sec_bucket_size else window_sec

unfoldable pub window_qps : ℕ → ℤ → MetricsCollector → ℕ × ℕ
window_qps now_sec window_sec m = if pos_part window_sec == 0 then (0, 1) else (
  window_total now_sec (clamped (pos_part window_sec)) m.seconds % u64,
  clamped (pos_part window_sec),
)

unfoldable pub one_minute_qps : ℕ → MetricsCollector → ℕ × ℕ
one_minute_qps now_sec m = window_qps now_sec (ℤ.pos 60) m

unfoldable pub ten_second_qps : ℕ → MetricsCollector → ℕ × ℕ
ten_second_qps now_sec m = window_qps now_sec (ℤ.pos 10) m

-- The loop of `p99LatencyMs`.
unfoldable pub first_reaching : (ℕ → ℕ → Bool) → ℕ → List LatencyBucket → ℕ
first_reaching reaches total [] = 0
first_reaching reaches total (b ∷ bs) =
    let rest = first_reaching reaches total bs in
    if reaches b.count total then (elim b.le [ none ↦ 5000 | some le ↦ le ]) else rest

unfoldable pub p99_latency_ms : (ℕ → ℕ → Bool) → MetricsCollector → ℕ
p99_latency_ms reaches m =
    if m.latency_count == 0 then 0 else first_reaching reaches m.latency_count m.latency_buckets

pub record MetricsSummary : Type 0 where
  pub total_requests : ℕ
  pub total_4xx : ℕ
  pub total_5xx : ℕ
  pub total_429 : ℕ
  pub qps_10s : ℕ × ℕ
  pub qps_1m : ℕ × ℕ
  pub latency_p99_ms : ℕ
  pub latency_count : ℕ
  pub latency_sum_ms : ℕ
  pub latency_histogram : List (Bytes × ℕ)
  pub circuit_open_total : ℕ

-- `out[i].le < out[j].le`, with the last bucket above all.
abbrev pub is_below : LatencyBucket → LatencyBucket → Bool
is_below a b = elim a.le [ none ↦ false | some x ↦ elim b.le [ none ↦ true | some y ↦ ltb x y ] ]

-- `trimFloat` of a whole number is the number in decimal.
abbrev pub metric_of : LatencyBucket → Bytes × ℕ
metric_of b = (elim b.le [ none ↦ lit "+Inf" | some le ↦ itoa le ], b.count)

-- `snapshotLocked` at a second of the clock; `sort` is `sort.SliceStable` by `is_below`.
unfoldable pub snapshot :
    (List LatencyBucket → List LatencyBucket)
    → (ℕ → ℕ → Bool)
    → ℕ
    → ℕ
    → MetricsCollector
    → MetricsSummary
snapshot sort reaches now_sec circuit_open_count m = record {
  total_requests = m.total_requests;
  total_4xx = m.total_4xx;
  total_5xx = m.total_5xx;
  total_429 = m.total_429;
  qps_10s = ten_second_qps now_sec m;
  qps_1m = one_minute_qps now_sec m;
  latency_p99_ms = p99_latency_ms reaches m;
  latency_count = m.latency_count;
  latency_sum_ms = m.latency_sum;
  latency_histogram = map metric_of (sort m.latency_buckets);
  circuit_open_total = circuit_open_count;
}

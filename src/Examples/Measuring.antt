-- ===== src/Examples/Measuring.antt =====
-- internal/core/metrics.go at concrete requests.
use yuelaiengine_gateway.Common.{List, [], ◌∷◌, ◌≡◌, refl, ℤ, arith}
use yuelaiengine_gateway.Metrics.{new_metrics_collector, window_qps}
use yuelaiengine_gateway.Metrics.Window.{Observation, observe_all, count_in, window_qps-observe_all}

abbrev requests : List Observation
requests = (200, ℤ.pos 3, 1) ∷ (429, ℤ.pos 700, 55) ∷ (503, ℤ.pos 9000, 61) ∷ []

window_qps-observe_all_example :
    window_qps 61 (ℤ.pos 10) (observe_all requests new_metrics_collector)
    ≡ (count_in 61 10 requests, 10)
window_qps-observe_all_example =
    window_qps-observe_all 61 10 requests (omega arith) (omega arith) (omega arith)
      (omega arith, (omega arith, (omega arith, omega arith)))

two_in_window : count_in 61 10 requests ≡ 2
two_in_window = refl

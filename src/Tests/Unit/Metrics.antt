-- ===== src/Tests/Unit/Metrics.antt =====
-- src/observability.rs, its unit test of the counters. The one that connects to a closed port is left out.
use docker_socket_proxy.Common.{[], ◌∷◌, Bool, true, codes, ◌≡◌, refl}
use docker_socket_proxy.Observability.{
  zeroed, record_allowed, record_denied, render, decimal, decimal_digits,
}
use docker_socket_proxy.Tests.Unit.{asserts, has_text}
use docker_socket_proxy.Tests.Layer.{layer_code}

abbrev renders_both_outcomes_in_openmetrics_form : Bool
renders_both_outcomes_in_openmetrics_form =
    let rendered = render (record_denied (record_allowed (record_allowed zeroed))) in
    asserts (
      has_text rendered (codes "docker_socket_proxy_requests_total{outcome=\"allowed\"} 2")
      ∷ has_text rendered (codes "docker_socket_proxy_requests_total{outcome=\"denied\"} 1")
      ∷ has_text rendered (codes "# TYPE docker_socket_proxy_requests_total counter")
      ∷ [])

code : Unit {0}
unfolding layer_code decimal decimal_digits record_allowed record_denied render
code = tt

metrics_pass : renders_both_outcomes_in_openmetrics_form ≡ true
unfolding code
metrics_pass = refl

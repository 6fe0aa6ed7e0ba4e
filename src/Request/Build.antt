-- ===== src/Request/Build.antt =====
-- The protocol entries of a request: `rn_build_zone_resource`, `rn_zone_rate_for_request`,
-- `rn_build_guard_entries`, `rn_build_tracker_values` and `rn_build_latency_report`.
use rl_nginx.Base.{ℕ, not, ◌&&◌, some, ltb, length, Result, ok, guard, or_error}
use rl_nginx.Base.Results.{◌>>=◌, ◌>>◌}
use rl_nginx.Numeric.{parse_rate}
use rl_nginx.Duration.{parse_duration_ms}
use rl_nginx.Conf.{
  Zone, Tracker, Guard, MainConf, find_tracker, is_empty, max_bucket_len, max_service_len,
}
use rl_nginx.Request.{Code, failed, Resource, TrackerValues, LatencyGuard, LatencyReport, Env}

module _ (env : Env) where
  unfoldable pub zone_rate : Zone → Result Code (ℕ × ℕ)
  zone_rate zone = do
    rate ← or_error failed (env.render zone.rate)
    or_error failed (parse_rate (some rate))

  unfoldable pub build_zone_resource : Zone → Result Code Resource
  unfolding zone_rate
  build_zone_resource zone = do
    bucket ← or_error failed (env.render zone.bucket)
    guard failed (not (is_empty bucket) && not (ltb max_bucket_len (length bucket)))
    (rate_limit, window_ms) ← zone_rate zone
    id ← or_error failed (env.derive_bucket_id bucket window_ms rate_limit)
    ok (record {
      bucket_id = id;
      window_size_ms = window_ms;
      rate_limit = rate_limit;
      tokens_requested = 1;
    })

  unfoldable pub build_tracker_values : Tracker → Result Code TrackerValues
  build_tracker_values tracker = do
    service ← or_error failed (env.render tracker.service)
    guard failed (not (is_empty service) && not (ltb max_service_len (length service)))
    id ← or_error failed (
        env.derive_tracker_id service tracker.ttl_ms tracker.max_samples
          tracker.min_sample_threshold)
    ok (record {
      id = id;
      ttl_ms = tracker.ttl_ms;
      max_samples = tracker.max_samples;
      min_sample_threshold = tracker.min_sample_threshold;
    })

  unfoldable pub build_guard_entries : MainConf → Guard → Result Code LatencyGuard
  unfolding build_tracker_values
  build_guard_entries mcf g = do
    tracker ← or_error failed (find_tracker mcf g.tracker_name)
    threshold ← or_error failed (env.render g.threshold)
    threshold_ms ← or_error failed (parse_duration_ms env.parse_time threshold)
    values ← build_tracker_values tracker
    ok (record { threshold_ms = threshold_ms; tracker = values })

  unfoldable pub build_latency_report : Tracker → Result Code LatencyReport
  unfolding build_tracker_values
  build_latency_report tracker = do
    values ← build_tracker_values tracker
    ok (record { tracker = values; observed_latency = 0 })

-- ===== src/Conf/TrackerDirective.antt =====
-- `ngx_http_rn_tracker`: the directive `ratelimitly_tracker <name> service= ...`.
use rl_nginx.Base.{
  ℕ, Bool, true, false, not, ◌&&◌, ◌||◌, none, some, List, [], ◌∷◌, ◌++◌, Bytes, codes, ltb, ◌==◌,
  strip_prefix, same_bytes, is_some, length, Result, ok, err, guard, or_error,
}
use rl_nginx.Base.Results.{◌>>=◌, ◌>>◌}
use rl_nginx.Numeric.{parse_u32}
use rl_nginx.Duration.{parse_duration_ms}
use rl_nginx.Conf.{
  Tracker, MainConf, Ngx, DirectiveError, conf_error, missing_name, reserved_name, invalid_argument,
  duplicate_argument, missing_argument, literal_quotes, invalid_value, duplicate_name,
  no_longer_supported, max_service_len, is_empty, is_name, find_tracker, has_literal_value_quotes,
}

-- The values under construction and the flags of the arguments seen.
pub record TrackerArgs : Type 0 where
  pub service : Bytes
  pub ttl_ms : ℕ
  pub max_samples : ℕ
  pub min_sample_threshold : ℕ
  pub service_set : Bool
  pub ttl_set : Bool
  pub max_samples_set : Bool
  pub min_sample_threshold_set : Bool

abbrev pub default_args : TrackerArgs
default_args = record {
  service = [];
  ttl_ms = 30000;
  max_samples = 128;
  min_sample_threshold = 8;
  service_set = false;
  ttl_set = false;
  max_samples_set = false;
  min_sample_threshold_set = false;
}

pub data TrackerArgument : Type 0 where
  service ttl max_samples min_sample_threshold : Bytes → TrackerArgument
  buffer_size other : TrackerArgument

unfoldable pub tracker_argument : Bytes → TrackerArgument
tracker_argument arg = elim (strip_prefix (codes "service=") arg) [
  | some v ↦ service v
  | none ↦ elim (strip_prefix (codes "ttl=") arg) [
    | some v ↦ ttl v
    | none ↦ elim (strip_prefix (codes "max_samples=") arg) [
      | some v ↦ max_samples v
      | none ↦ elim (strip_prefix (codes "buffer_size=") arg) [
        | some v ↦ buffer_size
        | none ↦ elim (strip_prefix (codes "min_sample_threshold=") arg) [
          | some v ↦ min_sample_threshold v
          | none ↦ other
        ]
      ]
    ]
  ]
]

module _ (ngx : Ngx) where
  unfoldable pub apply_tracker : TrackerArgument → TrackerArgs → Result DirectiveError TrackerArgs
  apply_tracker (service v) a = do
    guard duplicate_argument (not a.service_set)
    ok (record a { service = v; service_set = true })
  apply_tracker (ttl v) a = do
    guard duplicate_argument (not a.ttl_set)
    ms ← or_error invalid_value (parse_duration_ms ngx.parse_time v)
    ok (record a { ttl_ms = ms; ttl_set = true })
  apply_tracker (max_samples v) a = do
    guard duplicate_argument (not a.max_samples_set)
    n ← or_error invalid_value (parse_u32 (some v))
    guard invalid_value (not (n == 0))
    ok (record a { max_samples = n; max_samples_set = true })
  apply_tracker buffer_size a = err no_longer_supported
  apply_tracker (min_sample_threshold v) a = do
    guard duplicate_argument (not a.min_sample_threshold_set)
    n ← or_error invalid_value (parse_u32 (some v))
    ok (record a { min_sample_threshold = n; min_sample_threshold_set = true })
  apply_tracker other a = err invalid_argument

  unfoldable pub tracker_arguments : List Bytes → TrackerArgs → Result DirectiveError TrackerArgs
  tracker_arguments [] a = ok a
  tracker_arguments (arg ∷ args) a = do
    b ← apply_tracker (tracker_argument arg) a
    tracker_arguments args b

  unfoldable pub push_tracker : MainConf → Bytes → TrackerArgs → Result DirectiveError MainConf
  push_tracker mcf name a = do
    guard missing_argument (not (is_empty a.service))
    guard literal_quotes (not (has_literal_value_quotes a.service))
    guard conf_error
        (not (ngx.variables_count a.service == 0 && ltb max_service_len (length a.service)))
    guard conf_error (not (is_empty mcf.trackers) || ngx.alloc 0)
    guard duplicate_name (not (is_some (find_tracker mcf name)))
    guard conf_error (ngx.alloc 1 && ngx.compiles a.service)
    let entry : Tracker = record {
      name = name;
      service = a.service;
      ttl_ms = a.ttl_ms;
      max_samples = a.max_samples;
      min_sample_threshold = a.min_sample_threshold;
    }
    ok (record mcf { trackers = mcf.trackers ++ entry ∷ [] })

  unfoldable pub tracker : MainConf → Bytes → List Bytes → Result DirectiveError MainConf
  unfolding push_tracker
  tracker mcf name args = do
    guard missing_argument (not (is_empty args))
    guard missing_name (is_name name)
    guard reserved_name (not (same_bytes name (codes "off")))
    a ← tracker_arguments args default_args
    push_tracker mcf name a

-- ===== src/Conf/ZoneDirective.antt =====
-- `ngx_http_rn_zone`: the directive `ratelimitly_zone <name> bucket= rate=`.
use rl_nginx.Base.{
  not, ◌&&◌, ◌||◌, none, some, List, [], ◌∷◌, ◌++◌, Bytes, codes, ltb, ◌==◌, strip_prefix, is_some,
  length, Result, ok, err, guard,
}
use rl_nginx.Base.Results.{◌>>=◌, ◌>>◌}
use rl_nginx.Numeric.{parse_rate}
use rl_nginx.Conf.{
  Zone, MainConf, Ngx, DirectiveError, conf_error, missing_name, invalid_argument, missing_argument,
  literal_quotes, invalid_value, duplicate_name, max_bucket_len, is_empty, is_name, find_zone,
  has_literal_value_quotes,
}

-- The loop over the named arguments: `bucket` and `rate`, the last of each.
unfoldable pub zone_arguments : List Bytes → Bytes → Bytes → Result DirectiveError (Bytes × Bytes)
zone_arguments [] bucket rate = ok (bucket, rate)
zone_arguments (arg ∷ args) bucket rate = elim (strip_prefix (codes "bucket=") arg) [
  | some v ↦ zone_arguments args v rate
  | none ↦ elim (strip_prefix (codes "rate=") arg) [
    | some v ↦ zone_arguments args bucket v
    | none ↦ err invalid_argument
  ]
]

module _ (ngx : Ngx) where
  -- The checks on the two values.
  unfoldable pub check_zone : Bytes → Bytes → Result DirectiveError (Unit {0})
  check_zone bucket rate = do
    guard missing_argument (not (is_empty bucket) && not (is_empty rate))
    guard literal_quotes (not (has_literal_value_quotes bucket))
    guard conf_error (not (ngx.variables_count bucket == 0 && ltb max_bucket_len (length bucket)))
    guard invalid_value
        (not (ngx.variables_count rate == 0 && not (is_some (parse_rate (some rate)))))

  -- The creation of the array, the lookup, the push and the two compilations.
  unfoldable pub push_zone : MainConf → Bytes → Bytes → Bytes → Result DirectiveError MainConf
  push_zone mcf name bucket rate = do
    guard conf_error (not (is_empty mcf.zones) || ngx.alloc 0)
    guard duplicate_name (not (is_some (find_zone mcf name)))
    guard conf_error (ngx.alloc 1 && ngx.compiles bucket && ngx.compiles rate)
    let zone : Zone = record { name = name; bucket = bucket; rate = rate }
    ok (record mcf { zones = mcf.zones ++ zone ∷ [] })

  unfoldable pub zone : MainConf → Bytes → List Bytes → Result DirectiveError MainConf
  unfolding check_zone push_zone
  zone mcf name args = do
    guard missing_name (is_name name)
    (bucket, rate) ← zone_arguments args [] []
    check_zone bucket rate
    push_zone mcf name bucket rate

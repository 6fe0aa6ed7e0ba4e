-- ===== src/Conf/GuardDirective.antt =====
-- `ngx_http_rn_guard`: the directive `ratelimitly_guard <name> tracker= threshold=`.
use rl_nginx.Base.{
  not, ◌&&◌, ◌||◌, Option, none, some, List, [], ◌∷◌, ◌++◌, Bytes, codes, ◌==◌, strip_prefix,
  is_some, Result, ok, err, guard,
}
use rl_nginx.Base.Results.{◌>>=◌, ◌>>◌}
use rl_nginx.Duration.{parse_duration_ms}
use rl_nginx.Conf.{
  Guard, MainConf, Ngx, DirectiveError, conf_error, missing_name, invalid_argument,
  duplicate_argument, missing_argument, invalid_value, duplicate_name, unknown_tracker, is_empty,
  is_name, find_tracker, find_guard,
}

-- The loop over the named arguments; `none` is a flag that is not set.
unfoldable pub guard_arguments :
    List Bytes → Option Bytes → Option Bytes → Result DirectiveError (Option Bytes × Option Bytes)
guard_arguments [] tracker_name threshold = ok (tracker_name, threshold)
guard_arguments (arg ∷ args) tracker_name threshold = elim (strip_prefix (codes "tracker=") arg) [
  | some v ↦ do
    guard duplicate_argument (not (is_some tracker_name))
    guard_arguments args (some v) threshold
  | none ↦ elim (strip_prefix (codes "threshold=") arg) [
    | some v ↦ do
      guard duplicate_argument (not (is_some threshold))
      guard_arguments args tracker_name (some v)
    | none ↦ err invalid_argument
  ]
]

-- A value that was not given is the null string.
abbrev pub given : Option Bytes → Bytes
given none = []
given (some v) = v

module _ (ngx : Ngx) where
  unfoldable pub push_guard : MainConf → Bytes → Bytes → Bytes → Result DirectiveError MainConf
  push_guard mcf name tracker_name threshold = do
    guard missing_argument (not (is_empty tracker_name) && not (is_empty threshold))
    guard unknown_tracker (is_some (find_tracker mcf tracker_name))
    guard invalid_value (
        not (
          ngx.variables_count threshold == 0
          && not (is_some (parse_duration_ms ngx.parse_time threshold))))
    guard conf_error (not (is_empty mcf.guards) || ngx.alloc 0)
    guard duplicate_name (not (is_some (find_guard mcf name)))
    guard conf_error (ngx.alloc 1 && ngx.compiles threshold)
    let entry : Guard = record { name = name; tracker_name = tracker_name; threshold = threshold }
    ok (record mcf { guards = mcf.guards ++ entry ∷ [] })

  unfoldable pub latency_guard : MainConf → Bytes → List Bytes → Result DirectiveError MainConf
  unfolding push_guard
  latency_guard mcf name args = do
    guard missing_name (is_name name)
    (tracker_name, threshold) ← guard_arguments args none none
    push_guard mcf name (given tracker_name) (given threshold)

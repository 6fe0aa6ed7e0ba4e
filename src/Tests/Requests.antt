-- ===== src/Tests/Requests.antt =====
-- Runs of a request: the handler, its completion, its cleanup and its report.
use rl_nginx.Base.{
  Bytes, inr, min, ◌*◌, ◌+◌, ◌-◌, ◌*◌, ◌≤◌, ◌≡◌, ◌⊎◌, ◌↔◌, refl, true, false, none, some, List, [],
  ◌∷◌, codes, same_bytes, length, min, max, ok, u32_max, arith,
}
use rl_nginx.Policy.{RequestPolicy, fixed}
use rl_nginx.Conf.{
  MainConf, LocConf, Rule, zone_rule, group_rule, create_main_conf, create_loc_conf, find_zone,
  find_guard, find_group, find_tracker,
}
use rl_nginx.Worker.{Worker, new_worker, rebind_handler, worker_ensure, init_failed, retry_later}
use rl_nginx.Worker.Rebind.{armed, Rebind, rebind_handler_safe}
use rl_nginx.Worker.Backoff.{failed_at, wait_ms, worker_ensure_backoff}
use rl_nginx.Request.{
  allowed, valid_allow, valid_verdict, ReqCtx, State, Env, Resource, LatencyGuard,
}
use rl_nginx.Numeric.{parse_rate, u32_from_u64}
use rl_nginx.Duration.{parse_duration_ms}
use rl_nginx.Request.Build.{build_zone_resource, build_guard_entries}
use rl_nginx.Request.Expand.{
  already_added, Entries, build_zone, build_guard, count_rules, add_rules,
}
use rl_nginx.Request.Order.{all_ok, rules_zones, rules_guards}
use rl_nginx.Request.Order.Distinct.{FirstUses, add_rules_entries}
use mathlib.Core.List.{Nodup}
use rl_nginx.Request.Capacity.{add_rules_capacity}
use rl_nginx.Request.Admit.{new_ctx, started, handler}
use rl_nginx.Request.Release.{request_cleanup}
use rl_nginx.Request.Release.Balance.{
  inflight_of, worker_armed, waits, Sound, AllCoherent, request_cleanup_releases,
}
use rl_nginx.Request.Settled.{Settled}
use rl_nginx.Request.Handled.{Bypassed, handler_settles}
use rl_nginx.Request.Progress.{Progress}
use rl_nginx.Request.Progress.Fired.{timeout_handler-Progress}
use rl_nginx.Request.Complete.{
  Expiry, timeout_handler, client_ok, client_timeout, RateLimitResult, judge, rate_cb,
}
use rl_nginx.Request.Answered.{Finished, rate_cb-Finished}
use rl_nginx.Request.Verdict.{IsAllow, judge-IsAllow_iff, judge_closed_iff}
use rl_nginx.Request.Report.{End, observed_latency_ms, log_handler}
use rl_nginx.Request.Sample.{log_handler-once, observed_latency_ms-clamped}
use rl_nginx.Request.Sample.Sent.{Samples, log_handler-Samples}

abbrev pub default_policy : RequestPolicy
default_policy = record {
  unit_ms = 250;
  replay_count = 1;
  replay_gap = record { kind = fixed; initial_units = 1; max_units = 1; growth = 0 };
  final_receive_units = 1;
  completion_delivery = true;
}

-- One zone, one tracker with a guard, and a group that names the zone twice.
abbrev pub main_conf : MainConf
main_conf = record (create_main_conf default_policy) {
  zones = record { name = codes "z"; bucket = codes "b"; rate = codes "10r/s" } ∷ [];
  trackers =
      record {
        name = codes "t";
        service = codes "s";
        ttl_ms = 30000;
        max_samples = 128;
        min_sample_threshold = 8;
      }
      ∷ [];
  guards = record { name = codes "g"; tracker_name = codes "t"; threshold = codes "500ms" } ∷ [];
  groups = record { name = codes "zz"; zones = codes "z" ∷ codes "z" ∷ [] } ∷ [];
  fail_open = false;
  enabled = true;
}

abbrev rules : List Rule
rules =
    record { kind = zone_rule; name = codes "z"; guards = codes "g" ∷ [] }
    ∷ record { kind = group_rule; name = codes "zz"; guards = codes "g" ∷ [] }
    ∷ []

abbrev pub loc_conf : LocConf
loc_conf = record create_loc_conf { enabled = some true; rules = some rules }

-- Templates are constant, times are half a second, identifiers are the text, the client starts request 7.
abbrev pub env : Env
env = record {
  is_main = true;
  alloc_ctx = true;
  alloc_cleanup = true;
  alloc_resources = true;
  alloc_guards = true;
  alloc_guard_defs = true;
  render = λ template. some template;
  parse_time = λ text. some 500;
  derive_bucket_id = λ bucket window rate. some bucket;
  derive_tracker_id = λ service ttl samples threshold. some service;
  start_request = λ resources guards label. some 7;
  deadline = λ req. some 900;
  current_msec = 400;
  init = some 3;
  read_ready = false;
  read_event_ok = true;
}

abbrev resource : Resource
resource = record {
  bucket_id = codes "b";
  window_size_ms = 1000;
  rate_limit = 10;
  tokens_requested = 1;
}

abbrev latency_guard : LatencyGuard
latency_guard = record {
  threshold_ms = 500;
  tracker = record { id = codes "s"; ttl_ms = 30000; max_samples = 128; min_sample_threshold = 8 };
}

abbrev entries : Entries
entries = record {
  guard_defs = codes "g" ∷ [];
  guards = latency_guard ∷ [];
  resources = resource ∷ resource ∷ resource ∷ [];
}

add_rules_entries_example :
    (all_ok (build_zone env main_conf) (rules_zones main_conf rules) ≡ ok entries.resources)
    × ((names : List Bytes) × FirstUses [] (rules_guards rules) names
        × Nodup names
        × (all_ok (build_guard env main_conf) names ≡ ok entries.guards))
unfolding add_rules find_zone find_guard find_group find_tracker same_bytes create_main_conf
    build_zone_resource build_guard_entries parse_duration_ms u32_from_u64 parse_rate length
    already_added
add_rules_entries_example = add_rules_entries env main_conf rules entries refl

add_rules_capacity_example : (length entries.resources ≡ 3) × (length entries.guards ≤ 2)
unfolding add_rules count_rules find_zone find_guard find_group find_tracker same_bytes
    create_main_conf build_zone_resource build_guard_entries parse_duration_ms u32_from_u64
    parse_rate length already_added
add_rules_capacity_example = add_rules_capacity env main_conf rules entries 3 2 refl refl

-- A request before the handler, on a worker that counts two others.
abbrev arrived : State
arrived = record {
  main = main_conf;
  worker = some (record (new_worker 3) { inflight = 2 });
  ctx = none;
  ctx_set = false;
  cleanup_added = false;
  count = 1;
  completed = false;
  calls = [];
}

arrived-Sound : Sound 2 1 arrived
unfolding inflight_of waits AllCoherent worker_armed armed new_worker
arrived-Sound = record {
  inflight = refl;
  count = refl;
  coherent = tt;
  rebind = refl;
  reached = λ w. ground arith;
}

handler_settles_example :
    Settled 2 1 (handler env loc_conf arrived)
    ⊎ Bypassed 2 1 env loc_conf arrived (handler env loc_conf arrived)
handler_settles_example = handler_settles env loc_conf 2 1 arrived arrived-Sound refl refl

-- A request that waits for the answer to its call.
abbrev waiting_ctx : ReqCtx
waiting_ctx = record (started env loc_conf 7 (new_ctx env loc_conf main_conf)) {
  has_worker = true;
  expected_guard_count = 1;
  expected_resource_count = 1;
}

abbrev in_flight : State
in_flight = record arrived {
  worker = some (record (new_worker 3) { inflight = 3; rebind_pending = true });
  ctx = some waiting_ctx;
  ctx_set = true;
  cleanup_added = true;
  count = 2;
}

in_flight-Sound : Sound 2 1 in_flight
unfolding inflight_of waits AllCoherent worker_armed armed new_worker started new_ctx
in_flight-Sound = record {
  inflight = refl;
  count = refl;
  coherent = record {
    counted = refl;
    nginx = refl;
    owned = refl;
    attached = λ w. (refl, refl);
    undone = λ w. refl;
  };
  rebind = refl;
  reached = λ w. refl;
}

request_cleanup_releases_example :
    (inflight_of (request_cleanup in_flight).worker ≡ 2)
    × ((request_cleanup in_flight).count ≡ 1)
    × (worker_armed (request_cleanup in_flight).worker ≡ true)
request_cleanup_releases_example = request_cleanup_releases 2 1 in_flight in_flight-Sound refl

abbrev pub allowing : RateLimitResult
allowing = record { success = true; guards = true ∷ []; resources = 0 ∷ [] }

judge-IsAllow_iff_example :
    (judge main_conf waiting_ctx client_ok (some allowing) ≡ (allowed, valid_allow, valid_verdict))
    ↔ IsAllow waiting_ctx client_ok (some allowing)
judge-IsAllow_iff_example = judge-IsAllow_iff main_conf waiting_ctx client_ok (some allowing)

judge_closed_iff_example :
    ((judge main_conf waiting_ctx client_timeout none).0 ≡ allowed)
    ↔ IsAllow waiting_ctx client_timeout none
judge_closed_iff_example = judge_closed_iff main_conf waiting_ctx client_timeout none refl

rate_cb-Finished_example :
    Finished 2 1 waiting_ctx client_ok
      (some allowing)
      in_flight
      (rate_cb (some 7) client_ok (some allowing) in_flight)
unfolding started
rate_cb-Finished_example =
    rate_cb-Finished 2 1 waiting_ctx (some 7) client_ok (some allowing) in_flight in_flight-Sound
      refl refl refl

-- The deadline has passed, and the client asks for another round.
abbrev next_round : Expiry
next_round = record {
  deadline_before = some 900;
  now = 950;
  calls_back = none;
  status = client_ok;
  deadline_after = some 1200;
}

timeout_handler-Progress_example : Progress (timeout_handler next_round in_flight)
unfolding started new_worker
timeout_handler-Progress_example =
    timeout_handler-Progress 2 1 waiting_ctx 7 next_round in_flight in_flight-Sound refl refl refl
      refl

abbrev ended : End
ended = record {
  is_main = true;
  connection_lost = false;
  start = (100, 250);
  timeofday = some (101, 300);
}

-- A request that was allowed and is to be reported.
abbrev reported : State
reported = record in_flight {
  ctx = some (record waiting_ctx {
    admission_outcome = valid_allow;
    lat_report = some (record { tracker = latency_guard.tracker; observed_latency = 0 });
    lat_report_enabled = true;
  });
}

log_handler-Samples_example : Samples ended reported (log_handler ended reported)
log_handler-Samples_example = log_handler-Samples ended reported

log_handler-once_example :
    log_handler ended (log_handler ended reported) ≡ log_handler ended reported
log_handler-once_example = log_handler-once ended ended reported refl refl

observed_latency_ms-clamped_example :
    observed_latency_ms (100, 250) (101, 300)
    ≡ min u32_max (max 1 ((101 * 1000 + 300) - (100 * 1000 + 250)))
observed_latency_ms-clamped_example =
    observed_latency_ms-clamped 100 250 101 300 (omega arith) (omega arith)

abbrev due : Worker
due = record (new_worker 3) { rebind_pending = true; rebind_scheduled = true }

rebind_handler_safe_example : Rebind (some 9) due (rebind_handler (some 9) due)
rebind_handler_safe_example = rebind_handler_safe (some 9) due

-- After a first failure at 50: the next attempt was due at 1050.
abbrev again : MainConf
again = record main_conf { init_retry_at = 1050; init_retry_delay = 2000 }

worker_ensure_backoff_example :
    (worker_ensure 1100 none again none ≡ (init_failed, failed_at 1100 again, none))
    × (worker_ensure (1100 + 1999) (some 3) (failed_at 1100 again) none
        ≡ (retry_later, failed_at 1100 again, none))
    × (wait_ms (failed_at 1100 again) ≡ min 5000 (2 * wait_ms again))
unfolding wait_ms failed_at create_main_conf
worker_ensure_backoff_example =
    worker_ensure_backoff again 1100 1999 (some 3) (inr (omega arith)) (omega arith) (omega arith)
      (omega arith)

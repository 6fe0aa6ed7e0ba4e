-- ===== src/Request.antt =====
-- A request of src/ngx_http_ratelimitly_module.c: its context (`rn_req_ctx_t`), what the module asks of
-- its environment, and the state that the handlers and callbacks of a request work on. The module
-- reaches one context from a request, by the module's slot or by the cleanup list; the state
-- holds it once and records which of the two leads to it.
pub mod Build
pub mod Expand
pub mod Order
pub mod Capacity
pub mod Release
pub mod Admit
pub mod Settled
pub mod Handled
pub mod Complete
pub mod Verdict
pub mod Report
pub mod Answered
pub mod Kept
pub mod Progress
pub mod Sample
use rl_nginx.Base.{ℕ, Bool, true, false, ◌&&◌, Option, none, some, List, [], Bytes, if◌then◌else◌}
use rl_nginx.Conf.{MainConf, LocConf}
use rl_nginx.Worker.{Worker}

-- The nginx codes that the module returns; `allowed` is NGX_OK.
pub data Code : Type 0 where
  allowed declined again failed too_many_requests internal_server_error : Code

pub data AdmissionOutcome : Type 0 where
  no_outcome waiting_outcome valid_allow valid_deny fail_open fail_close : AdmissionOutcome
  internal_error aborted : AdmissionOutcome

pub data CompletionCause : Type 0 where
  no_cause valid_verdict start_failure dependency_error timeout : CompletionCause
  cardinality_mismatch nginx_error client_abort : CompletionCause

pub record Resource : Type 0 where
  pub bucket_id : Bytes
  pub window_size_ms : ℕ
  pub rate_limit : ℕ
  pub tokens_requested : ℕ

pub record TrackerValues : Type 0 where
  pub id : Bytes
  pub ttl_ms : ℕ
  pub max_samples : ℕ
  pub min_sample_threshold : ℕ

pub record LatencyGuard : Type 0 where
  pub threshold_ms : ℕ
  pub tracker : TrackerValues

pub record LatencyReport : Type 0 where
  pub tracker : TrackerValues
  pub observed_latency : ℕ

-- `live` says that `ctx->r` is set, `has_worker` that `ctx->worker` is, `observed` that
-- `ctx->timeout_completed` is.
pub record ReqCtx : Type 0 where
  pub live : Bool
  pub has_worker : Bool
  pub req : Option ℕ
  pub lat_report : Option LatencyReport
  pub expected_guard_count : ℕ
  pub expected_resource_count : ℕ
  pub timer_set : Bool
  pub observed : Bool
  pub decision : Code
  pub admission_outcome : AdmissionOutcome
  pub completion_cause : CompletionCause
  pub waiting : Bool
  pub done : Bool
  pub nginx_counted : Bool
  pub inflight_counted : Bool
  pub lat_report_enabled : Bool
  pub lat_report_sent : Bool

-- The calls of the client library and of the phase engine, in order.
pub data Call : Type 0 where
  start : List Resource → List LatencyGuard → Bytes → Call
  cancel on_timeout : ℕ → Call
  send_report : LatencyReport → Call
  run_phases : Call

-- `count` is `r->main->count`, `completed` the flag that the timeout handler keeps on its stack.
pub record State : Type 0 where
  pub main : MainConf
  pub worker : Option Worker
  pub ctx : Option ReqCtx
  pub ctx_set : Bool
  pub cleanup_added : Bool
  pub count : ℕ
  pub completed : Bool
  pub calls : List Call

-- What a run of the handler gets from nginx and the client: the outcome of each allocation, the
-- rendering of a template for the request, `ngx_parse_time`, the identifiers, the start of a
-- request (its number, or nothing on an error), its deadline, the clock, and the read event.
pub record Env : Type 0 where
  pub is_main : Bool
  pub alloc_ctx : Bool
  pub alloc_cleanup : Bool
  pub alloc_resources : Bool
  pub alloc_guards : Bool
  pub alloc_guard_defs : Bool
  pub render : Bytes → Option Bytes
  pub parse_time : Bytes → Option ℕ
  pub derive_bucket_id : Bytes → ℕ → ℕ → Option Bytes
  pub derive_tracker_id : Bytes → ℕ → ℕ → ℕ → Option Bytes
  pub start_request : List Resource → List LatencyGuard → Bytes → Option ℕ
  pub deadline : ℕ → Option ℕ
  pub current_msec : ℕ
  pub init : Option ℕ
  pub read_ready : Bool
  pub read_event_ok : Bool

-- The policy for a failure.
abbrev pub fail_decision : MainConf → Code
fail_decision mcf = if mcf.fail_open then allowed else too_many_requests

abbrev pub fail_outcome : MainConf → AdmissionOutcome
fail_outcome mcf = if mcf.fail_open then fail_open else fail_close

-- The reference of the context that the module's slot gives.
abbrev pub slot : State → Option ReqCtx
slot st = if st.ctx_set then st.ctx else none

-- The entries of the cleanup list that are this module's: the context, while it is live.
unfoldable pub recover : State → Option ReqCtx → Option ReqCtx × State
recover st none = (none, st)
recover st (some c) =
    if st.cleanup_added && c.live then (some c, record st { ctx_set = true }) else (none, st)

unfoldable pub look_up : State → Option ReqCtx → Option ReqCtx × State
unfolding recover
look_up st (some c) = (some c, st)
look_up st none = recover st st.ctx

-- `rn_get_request_ctx`.
unfoldable pub get_request_ctx : State → Option ReqCtx × State
unfolding look_up
get_request_ctx st = look_up st (slot st)

-- `ngx_http_internal_redirect` clears the slots of the modules.
unfoldable pub internal_redirect : State → State
internal_redirect st = record st { ctx_set = false }

-- `rn_finish_preflight_failure` and `rn_finish_internal_error`, on a context.
unfoldable pub finish_preflight_failure : MainConf → CompletionCause → ReqCtx → ReqCtx
finish_preflight_failure mcf cause c = record c {
  decision = fail_decision mcf;
  admission_outcome = fail_outcome mcf;
  completion_cause = cause;
  done = true;
}

unfoldable pub finish_internal_error : ReqCtx → ReqCtx
finish_internal_error c = record c {
  decision = internal_server_error;
  admission_outcome = internal_error;
  completion_cause = nginx_error;
  done = true;
}

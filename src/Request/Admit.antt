-- ===== src/Request/Admit.antt =====
-- `ngx_http_rn_handler`, the handler of the pre-content phase, in the stages that its returns divide it
-- into. The configurations exist, which nginx sees to. A library call that starts a request does
-- not call back before it returns. Fault injection is off.
use rl_nginx.Base.{
  ℕ, ◌+◌, Bool, true, false, not, ◌&&◌, ◌||◌, Option, none, some, List, [], ◌∷◌, ◌++◌, Bytes, ltb,
  ◌==◌, if◌then◌else◌, is_some, length, Result, ok, err,
}
use rl_nginx.Conf.{MainConf, LocConf, Tracker, Rule, find_tracker, max_label_len}
use rl_nginx.Worker.{Worker, EnsureCode, ready, retry_later, init_failed, worker_ensure}
use rl_nginx.Request.{
  Code, declined, again, internal_server_error, no_outcome, waiting_outcome, internal_error,
  no_cause, dependency_error, nginx_error, start_failure, LatencyReport, ReqCtx, start, State, Env,
  fail_decision, fail_outcome, get_request_ctx, finish_preflight_failure, finish_internal_error,
}
use rl_nginx.Request.Build.{build_latency_report}
use rl_nginx.Request.Expand.{
  Failure, internal, preflight, Entries, no_entries, count_rules, add_rules,
}
use rl_nginx.Request.Release.{teardown, released}

-- A return of the handler with the context as it is then.
abbrev pub leave : Code → ReqCtx → State → Code × State
leave code c st = (code, record st { ctx = some c })

abbrev pub is_on : Option Bool → Bool
is_on none = false
is_on (some b) = b

module _ (env : Env) (lcf : LocConf) where
  abbrev pub admission_enabled : Bool
  admission_enabled = is_on lcf.enabled

  unfoldable pub new_ctx : MainConf → ReqCtx
  new_ctx mcf = record {
    live = true;
    has_worker = false;
    req = none;
    lat_report = none;
    expected_guard_count = 0;
    expected_resource_count = 0;
    timer_set = false;
    observed = false;
    decision = declined;
    admission_outcome = if admission_enabled then fail_outcome mcf else no_outcome;
    completion_cause = no_cause;
    waiting = false;
    done = false;
    nginx_counted = false;
    inflight_counted = false;
    lat_report_enabled = false;
    lat_report_sent = false;
  }

  -- The wait for the answer: the read event that detects an abort of the client.
  unfoldable pub watch_client : ReqCtx → State → Code × State
  unfolding teardown released finish_internal_error
  watch_client c st =
      if env.read_ready || env.read_event_ok
      then leave again c st
      else leave internal_server_error (finish_internal_error (released c))
          (teardown c none true st)

  -- What a request that was started holds.
  unfoldable pub started : ℕ → ReqCtx → ReqCtx
  started req c = record c {
    req = some req;
    inflight_counted = true;
    timer_set = is_some (env.deadline req);
    waiting = true;
    admission_outcome = waiting_outcome;
    nginx_counted = true;
  }

  unfoldable pub after_start : Option ℕ → ReqCtx → Worker → State → Code × State
  unfolding watch_client started
  after_start none c w st =
      leave (fail_decision st.main) (finish_preflight_failure st.main start_failure c) st
  after_start (some req) c w st =
      watch_client (started req c)
        (record st { worker = some (record w { inflight = w.inflight + 1 }); count = st.count + 1 })

  -- The call that starts the request, and the cardinality that its answer must have.
  unfoldable pub asked : Entries → Bytes → State → State
  asked e label st = record st { calls = st.calls ++ start e.resources e.guards label ∷ [] }

  unfoldable pub expecting : Entries → ReqCtx → ReqCtx
  expecting e c = record c {
    expected_guard_count = length e.guards;
    expected_resource_count = length e.resources;
  }

  unfoldable pub start_async : Entries → Bytes → ReqCtx → Worker → State → Code × State
  unfolding after_start asked expecting
  start_async e label c w st =
      after_start (env.start_request e.resources e.guards label) (expecting e c) w
        (asked e label st)

  -- The two ways out of the preparation.
  unfoldable pub fail_with : Failure → ReqCtx → State → Code × State
  unfolding finish_preflight_failure finish_internal_error
  fail_with internal c st = leave internal_server_error (finish_internal_error c) st
  fail_with preflight c st =
      leave (fail_decision st.main) (finish_preflight_failure st.main dependency_error c) st

  -- The label: rendered where one is set, and bounded; an empty one is no label.
  unfoldable pub render_label : Result Failure Bytes
  render_label = if not lcf.label_set then ok [] else elim (env.render lcf.label) [
    | none ↦ err preflight
    | some label ↦ if ltb max_label_len (length label) then err preflight else ok label
  ]

  unfoldable pub with_label :
      Entries → Result Failure Bytes → ReqCtx → Worker → State → Code × State
  unfolding start_async fail_with
  with_label e (err failure) c w st = fail_with failure c st
  with_label e (ok label) c w st = start_async e label c w st

  unfoldable pub with_entries : Result Failure Entries → ReqCtx → Worker → State → Code × State
  unfolding with_label fail_with
  with_entries (err failure) c w st = fail_with failure c st
  with_entries (ok e) c w st = with_label e render_label c w st

  -- The location asks for nothing.
  unfoldable pub bypass : ReqCtx → State → Code × State
  bypass c st =
      leave declined (record c { admission_outcome = no_outcome; decision = declined; done = true })
        st

  unfoldable pub arrays_allocated : ℕ → ℕ → Bool
  arrays_allocated total refs =
      (total == 0 || env.alloc_resources) && (refs == 0 || env.alloc_guards && env.alloc_guard_defs)

  unfoldable pub with_counts :
      Result Failure (ℕ × ℕ) → List Rule → ReqCtx → Worker → State → Code × State
  unfolding with_entries bypass
  with_counts (err failure) rules c w st = fail_with failure c st
  with_counts (ok (total, refs)) rules c w st =
      if total == 0 && refs == 0
      then bypass c st
      else if arrays_allocated total refs
      then with_entries (add_rules env st.main rules no_entries) c w st
      else fail_with internal c st

  unfoldable pub with_rules : Option (List Rule) → ReqCtx → Worker → State → Code × State
  unfolding with_counts bypass
  with_rules none c w st = bypass c st
  with_rules (some []) c w st = bypass c st
  with_rules (some (rule ∷ rules)) c w st =
      with_counts (count_rules st.main (rule ∷ rules) 0 0) (rule ∷ rules) c w st

  unfoldable pub keep_report : Result Code LatencyReport → ReqCtx → ReqCtx
  keep_report (err code) c = c
  keep_report (ok rep) c = record c { lat_report = some rep; lat_report_enabled = true }

  unfoldable pub set_report : Option Tracker → ReqCtx → ReqCtx
  unfolding keep_report
  set_report none c = c
  set_report (some tracker) c = keep_report (build_latency_report env tracker) c

  unfoldable pub with_report : MainConf → ReqCtx → ReqCtx
  unfolding set_report
  with_report mcf c =
      if lcf.report_enabled then set_report (find_tracker mcf lcf.report_tracker_name) c else c

  unfoldable pub admit : ReqCtx → Worker → State → Code × State
  unfolding with_rules
  admit c w st =
      if admission_enabled
      then with_rules lcf.rules c w st
      else leave declined (record c { done = true }) st

  -- No worker, or one without a client.
  unfoldable pub no_client : ReqCtx → State → Code × State
  no_client c st =
      let code = if admission_enabled then fail_decision st.main else declined in
      leave code (record c { done = true; completion_cause = dependency_error; decision = code }) st

  unfoldable pub with_worker : Option Worker → ReqCtx → State → Code × State
  unfolding admit no_client with_report
  with_worker none c st = no_client c st
  with_worker (some w) c st =
      if w.client
      then admit (with_report st.main (record c { has_worker = true })) w st
      else no_client c st

  unfoldable pub ensured : EnsureCode × MainConf × Option Worker → ReqCtx → State → Code × State
  unfolding with_worker no_client
  ensured (ready, mcf, w) c st = with_worker w c (record st { main = mcf; worker = w })
  ensured (retry_later, mcf, w) c st = no_client c (record st { main = mcf; worker = w })
  ensured (init_failed, mcf, w) c st = no_client c (record st { main = mcf; worker = w })

  unfoldable pub with_cleanup : ReqCtx → State → Code × State
  unfolding ensured
  with_cleanup c st =
      if env.alloc_cleanup
      then ensured (worker_ensure env.current_msec env.init st.main st.worker) c
          (record st { cleanup_added = true })
      else leave internal_server_error
          (record c {
            admission_outcome = internal_error;
            completion_cause = nginx_error;
            done = true;
          })
          st

  unfoldable pub new_request : State → Code × State
  unfolding with_cleanup
  new_request st =
      if env.alloc_ctx
      then with_cleanup (new_ctx st.main) (record st { ctx_set = true; cleanup_added = false })
      else (internal_server_error, st)

  -- A context that is already there.
  unfoldable pub resume : Option ReqCtx → State → Code × State
  unfolding new_request
  resume none st = new_request st
  resume (some c) st =
      if c.done then (c.decision, st) else if c.waiting then (again, st) else new_request st

  unfoldable pub handle_main : Option ReqCtx × State → Code × State
  unfolding resume
  handle_main (c, st) =
      if not admission_enabled && not lcf.report_enabled
      then (declined, st)
      else if not st.main.enabled
      then (declined, st)
      else resume c st

  unfoldable pub handler : State → Code × State
  unfolding handle_main
  handler st = if env.is_main then handle_main (get_request_ctx st) else (declined, st)

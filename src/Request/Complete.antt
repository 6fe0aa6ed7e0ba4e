-- ===== src/Request/Complete.antt =====
-- The completion of a request: `rn_rate_cb`, `rn_request_timeout_handler` and the variable
-- `$ratelimitly_verdict` (`ngx_http_rn_verdict_variable`). The connection of a request exists.
use rl_nginx.Base.{
  ℕ, Bool, true, false, not, ◌&&◌, ◌||◌, Option, none, some, List, [], ◌∷◌, ◌++◌, Bytes, codes, ltb,
  ◌==◌, if◌then◌else◌, length,
}
use rl_nginx.Conf.{MainConf}
use rl_nginx.Worker.{Worker}
use rl_nginx.Request.{
  Code, allowed, too_many_requests, AdmissionOutcome, valid_allow, valid_deny, CompletionCause,
  valid_verdict, cardinality_mismatch, dependency_error, timeout, ReqCtx, State, cancel, on_timeout,
  run_phases, fail_decision, fail_outcome, slot, get_request_ctx,
}
use rl_nginx.Request.Release.{same_req, teardown}

-- The status of a completion; `client_failed` is every other error of the client.
pub data Status : Type 0 where
  client_ok client_timeout client_failed : Status

-- `r_rate_limit_result_t`: the server's flag, the guards' `passed`, the resources' `tokens_deficit`.
pub record RateLimitResult : Type 0 where
  pub success : Bool
  pub guards : List Bool
  pub resources : List ℕ

unfoldable pub all_passed : List Bool → Bool
all_passed [] = true
all_passed (passed ∷ rest) = if passed then all_passed rest else false

unfoldable pub no_deficit : List ℕ → Bool
no_deficit [] = true
no_deficit (deficit ∷ rest) = if deficit == 0 then no_deficit rest else false

unfoldable pub allows : RateLimitResult → Bool
unfolding all_passed no_deficit
allows res =
    let allow = if res.success then all_passed res.guards else false in
    if allow then no_deficit res.resources else false

unfoldable pub cardinality_ok : ReqCtx → RateLimitResult → Bool
cardinality_ok c res =
    length res.guards == c.expected_guard_count && length res.resources == c.expected_resource_count

-- The code, the outcome and the cause of a completion.
unfoldable pub fail_cause : Status → CompletionCause
fail_cause client_ok = dependency_error
fail_cause client_timeout = timeout
fail_cause client_failed = dependency_error

unfoldable pub judge_result :
    MainConf → ReqCtx → RateLimitResult → Code × AdmissionOutcome × CompletionCause
unfolding allows cardinality_ok
judge_result mcf c res =
    if not (cardinality_ok c res)
    then (fail_decision mcf, fail_outcome mcf, cardinality_mismatch)
    else if allows res
    then (allowed, valid_allow, valid_verdict)
    else (too_many_requests, valid_deny, valid_verdict)

unfoldable pub judge :
    MainConf → ReqCtx → Status → Option RateLimitResult → Code × AdmissionOutcome × CompletionCause
unfolding judge_result fail_cause
judge mcf c client_ok (some res) = judge_result mcf c res
judge mcf c client_ok none = (fail_decision mcf, fail_outcome mcf, fail_cause client_ok)
judge mcf c client_timeout res = (fail_decision mcf, fail_outcome mcf, fail_cause client_timeout)
judge mcf c client_failed res = (fail_decision mcf, fail_outcome mcf, fail_cause client_failed)

-- What the callback writes after the release; then it resumes the phases.
unfoldable pub judged : Code × AdmissionOutcome × CompletionCause → Option ReqCtx → State → State
judged verdict none st = st
judged (code, outcome, cause) (some c) st = record st {
  ctx = some (record c {
    admission_outcome = outcome;
    completion_cause = cause;
    decision = code;
    done = true;
    waiting = false;
  });
  calls = st.calls ++ run_phases ∷ [];
}

unfoldable pub complete : Status → Option RateLimitResult → ReqCtx → Option ℕ → State → State
unfolding judge judged teardown
complete status result c req st =
    let st₁ =
      teardown (record c { observed = false }) req false
        (record st { completed = st.completed || c.observed }) in
    judged (judge st.main c status result) st₁.ctx st₁

unfoldable pub rate_cb_on :
    Option ReqCtx → Option ℕ → Status → Option RateLimitResult → State → State
unfolding complete
rate_cb_on none req status result st = st
rate_cb_on (some c) req status result st =
    if not c.has_worker
    then st
    else if not (same_req c.req req)
    then st
    else complete status result c req st

unfoldable pub rate_cb : Option ℕ → Status → Option RateLimitResult → State → State
unfolding rate_cb_on
rate_cb req status result st = rate_cb_on (slot st) req status result st

-- The variable: `none` is `not_found`.
unfoldable pub verdict_of : AdmissionOutcome → Option Bytes
verdict_of valid_allow = some (codes "allow")
verdict_of valid_deny = some (codes "deny")
verdict_of _ = none

unfoldable pub verdict_on : Option ReqCtx × State → Option Bytes × State
unfolding verdict_of
verdict_on (none, st) = (none, st)
verdict_on (some c, st) = (verdict_of c.admission_outcome, st)

unfoldable pub verdict_variable : State → Option Bytes × State
unfolding verdict_on
verdict_variable st = verdict_on (get_request_ctx st)

-- What the timeout handler gets from the client: the deadline before, the completion that
-- `r_client_on_timeout` calls back with, if it does, whether it returned RCLIENT_OK, the deadline
-- after, and the clock before.
pub record Expiry : Type 0 where
  pub deadline_before : Option ℕ
  pub now : ℕ
  pub calls_back : Option (Status × Option RateLimitResult)
  pub status : Status
  pub deadline_after : Option ℕ

abbrev pub is_ahead : Option ℕ → ℕ → Bool
is_ahead none now = false
is_ahead (some deadline) now = ltb now deadline

-- `r_client_on_timeout`: it may call back.
unfoldable pub client_on_timeout : Option (Status × Option RateLimitResult) → ℕ → State → State
unfolding rate_cb
client_on_timeout none req st = st
client_on_timeout (some (status, result)) req st = rate_cb (some req) status result st

abbrev pub with_ctx : (ReqCtx → ReqCtx) → State → State
with_ctx f st = elim st.ctx [ none ↦ st | some c ↦ record st { ctx = some (f c) } ]

unfoldable pub give_up : ℕ → Status → State → State
unfolding rate_cb
give_up req status st =
    rate_cb (some req) status none (record st { calls = st.calls ++ cancel req ∷ [] })

-- After a call that did not complete the request.
unfoldable pub after_timeout : Status → Option ℕ → ℕ → State → State
unfolding give_up
after_timeout client_timeout deadline req st = give_up req client_timeout st
after_timeout client_failed deadline req st = give_up req client_failed st
after_timeout client_ok none req st = give_up req client_failed st
after_timeout client_ok (some deadline) req st = with_ctx (λ c. record c { timer_set = true }) st

-- The observer is taken back when the call did not complete the request.
unfoldable pub unless_completed : Expiry → ℕ → State → State
unfolding after_timeout
unless_completed x req st =
    if st.completed
    then st
    else after_timeout x.status x.deadline_after req
        (with_ctx (λ c. record c { observed = false }) st)

-- The terminal timeout or the next round: the observer is on the stack of the call.
unfoldable pub expire : Expiry → ℕ → ReqCtx → State → State
unfolding client_on_timeout unless_completed
expire x req c st = unless_completed x req (
    client_on_timeout x.calls_back req (record st {
      ctx = some (record c { observed = true });
      completed = false;
      calls = st.calls ++ on_timeout req ∷ [];
    }))

unfoldable pub on_expiry : Expiry → Option ℕ → ReqCtx → State → State
unfolding expire
on_expiry x none c st = st
on_expiry x (some req) c st =
    if is_ahead x.deadline_before x.now
    then record st { ctx = some (record c { timer_set = true }) }
    else expire x req c st

abbrev pub has_client : ReqCtx → Option Worker → Bool
has_client c none = false
has_client c (some w) = c.has_worker && w.client

unfoldable pub fire : Expiry → ReqCtx → State → State
unfolding on_expiry
fire x c st =
    if has_client c st.worker
    then on_expiry x c.req c (record st { ctx = some c })
    else record st { ctx = some c }

-- The timer fires, so it is not set while its handler runs.
unfoldable pub timeout_handler : Expiry → State → State
unfolding fire
timeout_handler x st = elim st.ctx [
  | none ↦ st
  | some c ↦ fire x (record c { timer_set = false }) st
]

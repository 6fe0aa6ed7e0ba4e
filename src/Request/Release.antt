-- ===== src/Request/Release.antt =====
-- `rn_request_teardown` and `rn_request_cleanup`: the release of what a request owns.
pub mod Balance
use rl_nginx.Base.{
  ℕ, ◌+◌, ◌-◌, Bool, true, false, not, ◌&&◌, ◌||◌, Option, none, some, List, [], ◌∷◌, ◌++◌, ◌==◌,
  ltb, if◌then◌else◌,
}
use rl_nginx.Conf.{MainConf}
use rl_nginx.Worker.{Worker, schedule_rebind}
use rl_nginx.Request.{
  ReqCtx, State, Call, cancel, AdmissionOutcome, waiting_outcome, aborted, client_abort,
}

-- The equality of two request pointers.
abbrev pub same_req : Option ℕ → Option ℕ → Bool
same_req none none = true
same_req none (some b) = false
same_req (some a) none = false
same_req (some a) (some b) = a == b

-- `ctx->worker`.
abbrev pub worker_of : ReqCtx → State → Option Worker
worker_of c st = if c.has_worker then st.worker else none

abbrev pub pred : ℕ → ℕ
pred n = if ltb 0 n then n - 1 else n

-- The call of `r_client_cancel_request`, where there is one.
unfoldable pub cancelled : Bool → Option ℕ → Option Worker → List Call
cancelled true (some req) (some w) = if w.client then cancel req ∷ [] else []
cancelled true (some req) none = []
cancelled true none w = []
cancelled false req w = []

-- The worker when the request leaves it.
unfoldable pub uncounted : ReqCtx → Worker → Worker
uncounted c w = if c.inflight_counted then record w { inflight = pred w.inflight } else w

-- What the context and the counts are afterwards; the worker, if there is one, may then rebind.
unfoldable pub released : ReqCtx → ReqCtx
released c = record c {
  timer_set = false;
  req = none;
  inflight_counted = false;
  nginx_counted = false;
  waiting = false;
}

unfoldable pub leave_worker : ReqCtx → Option Worker → Option Worker
unfolding uncounted
leave_worker c none = none
leave_worker c (some w) = if c.has_worker then some (schedule_rebind (uncounted c w)) else some w

unfoldable pub release : ReqCtx → Bool → State → State
unfolding cancelled released leave_worker
release c cancel? st = record st {
  ctx = some (released c);
  calls = st.calls ++ cancelled cancel? c.req (worker_of c st);
  worker = leave_worker c st.worker;
  count = if c.nginx_counted && c.live then pred st.count else st.count;
}

unfoldable pub teardown : ReqCtx → Option ℕ → Bool → State → State
unfolding release
teardown c completed_req cancel? st =
    if not cancel? && not (same_req c.req completed_req)
    then record st { ctx = some c }
    else release c cancel? st

-- The outcome of a request that is cleaned up.
abbrev pub is_waiting : AdmissionOutcome → Bool
is_waiting waiting_outcome = true
is_waiting _ = false

unfoldable pub aborted_if_waiting : ReqCtx → ReqCtx
aborted_if_waiting c =
    if is_waiting c.admission_outcome
    then record c { admission_outcome = aborted; completion_cause = client_abort }
    else c

unfoldable pub kill : State → Option ReqCtx → State
kill st none = st
kill st (some c) = record st { ctx = some (record c { live = false }) }

unfoldable pub clean : State → Option ReqCtx → State
unfolding teardown aborted_if_waiting kill
clean st none = st
clean st (some c) = let st' = teardown (aborted_if_waiting c) none true st in kill st' st'.ctx

-- The handler runs for the entries that were added to the cleanup list.
unfoldable pub request_cleanup : State → State
unfolding clean
request_cleanup st = if st.cleanup_added then clean st st.ctx else st

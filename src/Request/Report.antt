-- ===== src/Request/Report.antt =====
-- `ngx_http_rn_log_handler`: the latency report of a request that is logged.
use rl_nginx.Base.{
  ℕ, ◌+◌, ◌-◌, ◌*◌, ◌%◌, ◌^◌, Bool, true, false, not, ◌||◌, Option, none, some, [], ◌∷◌, ◌++◌, ltb,
  ◌==◌, if◌then◌else◌, u32_max,
}
use rl_nginx.Request.{
  AdmissionOutcome, no_outcome, valid_allow, fail_open, aborted, CompletionCause, LatencyReport,
  ReqCtx, send_report, State, slot,
}
use rl_nginx.Request.Complete.{has_client}

-- The end of a request: whether it is a main request, its connection, its start and the clock, in
-- seconds and milliseconds; no time is a null `ngx_timeofday()`.
pub record End : Type 0 where
  pub is_main : Bool
  pub connection_lost : Bool
  pub start : ℕ × ℕ
  pub timeofday : Option (ℕ × ℕ)

-- `uint64_t` arithmetic of the two clock values.
abbrev pub clock_ms : ℕ × ℕ → ℕ
clock_ms (sec, msec) = (sec * 1000 + msec) % 2 ^ 64

unfoldable pub clamp_observed : ℕ → ℕ
clamp_observed observed =
    let observed₁ = if observed == 0 then 1 else observed in
    if ltb u32_max observed₁ then u32_max else observed₁

unfoldable pub elapsed_ms : ℕ × ℕ → ℕ × ℕ → ℕ
elapsed_ms start now =
    if ltb (clock_ms start) (clock_ms now) then clock_ms now - clock_ms start else 0

unfoldable pub observed_latency_ms : ℕ × ℕ → ℕ × ℕ → ℕ
unfolding clamp_observed elapsed_ms
observed_latency_ms start now = clamp_observed (elapsed_ms start now)

-- The outcomes whose latency is a sample of the service.
unfoldable pub is_sampled : AdmissionOutcome → Bool
is_sampled no_outcome = true
is_sampled valid_allow = true
is_sampled fail_open = true
is_sampled _ = false

-- The report is settled, with or without a call.
unfoldable pub settle : ReqCtx → State → State
settle c st = record st { ctx = some (record c { lat_report_sent = true }) }

unfoldable pub send : ℕ → Option LatencyReport → ReqCtx → State → State
unfolding settle
send observed none c st = settle c st
send observed (some rep) c st =
    let rep₁ : LatencyReport = record rep { observed_latency = observed } in
    settle (record c { lat_report = some rep₁ })
      (record st { calls = st.calls ++ send_report rep₁ ∷ [] })

unfoldable pub measure : End → Option (ℕ × ℕ) → ReqCtx → State → State
unfolding send
measure end none c st = settle c st
measure end (some now) c st = send (observed_latency_ms end.start now) c.lat_report c st

unfoldable pub client_lost : ReqCtx → ReqCtx
client_lost c = record c {
  admission_outcome = aborted;
  completion_cause = CompletionCause.client_abort;
}

unfoldable pub log_ctx : End → ReqCtx → State → State
unfolding measure settle client_lost
log_ctx end c st =
    if not c.lat_report_enabled || c.lat_report_sent
    then st
    else if end.connection_lost
    then settle (client_lost c) st
    else if not (is_sampled c.admission_outcome)
    then settle c st
    else if not (has_client c st.worker)
    then settle c st
    else measure end end.timeofday c st

unfoldable pub log_slot : End → Option ReqCtx → State → State
unfolding log_ctx
log_slot end none st = st
log_slot end (some c) st = log_ctx end c st

unfoldable pub log_handler : End → State → State
unfolding log_slot
log_handler end st = if end.is_main then log_slot end (slot st) st else st

-- ===== src/Request/Kept/Logged.antt =====
-- `ngx_http_rn_log_handler` keeps the balance.
use rl_nginx.Base.{ℕ, not, ◌||◌, Option, none, some, ◌≡◌, refl, if_cases}
use rl_nginx.Request.{LatencyReport, ReqCtx, State, slot}
use rl_nginx.Request.Release.Balance.{Sound}
use rl_nginx.Request.Complete.{has_client}
use rl_nginx.Request.Report.{
  End, settle, send, measure, client_lost, log_ctx, log_slot, log_handler, is_sampled,
  observed_latency_ms,
}
use rl_nginx.Request.Answered.{slot_ctx}
use rl_nginx.Request.Kept.{kept-Sound}

send-Sound :
    (k n : ℕ) (observed : ℕ) (rep : Option LatencyReport) (c : ReqCtx) (st : State)
    → Sound k n st
    → st.ctx ≡ some c
    → Sound k n (send observed rep c st)
unfolding send settle
send-Sound k n observed none c st s at = kept-Sound k n c _ st _ s at refl refl refl
send-Sound k n observed (some rep) c st s at = kept-Sound k n c _ st _ s at refl refl refl

measure-Sound :
    (k n : ℕ) (end : End) (now : Option (ℕ × ℕ)) (c : ReqCtx) (st : State)
    → Sound k n st
    → st.ctx ≡ some c
    → Sound k n (measure end now c st)
unfolding measure settle
measure-Sound k n end none c st s at = kept-Sound k n c _ st _ s at refl refl refl
measure-Sound k n end (some now) c st s at =
    send-Sound k n (observed_latency_ms end.start now) c.lat_report c st s at

log_ctx-Sound :
    (k n : ℕ) (end : End) (c : ReqCtx) (st : State)
    → Sound k n st
    → st.ctx ≡ some c
    → Sound k n (log_ctx end c st)
unfolding log_ctx settle client_lost
log_ctx-Sound k n end c st s at =
    if_cases (Sound k n) (not c.lat_report_enabled || c.lat_report_sent) (λ _. s)
      (λ _.
        if_cases (Sound k n) end.connection_lost (λ _. kept-Sound k n c _ st _ s at refl refl refl)
          (λ _.
            if_cases (Sound k n) (not (is_sampled c.admission_outcome))
              (λ _. kept-Sound k n c _ st _ s at refl refl refl)
              (λ _.
                if_cases (Sound k n) (not (has_client c st.worker))
                  (λ _. kept-Sound k n c _ st _ s at refl refl refl)
                  (λ _. measure-Sound k n end end.timeofday c st s at))))

log_slot-Sound :
    (k n : ℕ) (end : End) (o : Option ReqCtx) (st : State)
    → Sound k n st
    → slot st ≡ o
    → Sound k n (log_slot end o st)
unfolding log_slot
log_slot-Sound k n end none st s at = s
log_slot-Sound k n end (some c) st s at = log_ctx-Sound k n end c st s (slot_ctx st c at)

pub log_handler-Sound :
    (k n : ℕ) (end : End) (st : State) → Sound k n st → Sound k n (log_handler end st)
unfolding log_handler
log_handler-Sound k n end st s =
    if_cases (Sound k n) end.is_main (λ _. log_slot-Sound k n end (slot st) st s refl) (λ _. s)

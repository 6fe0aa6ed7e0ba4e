-- ===== src/Request/Sample.antt =====
-- The latency samples: `ngx_http_rn_log_handler`.
pub mod Sent
use rl_nginx.Base.{
  Bool-cases, ℕ, ◌+◌, ◌-◌, ◌*◌, ◌%◌, ◌^◌, ◌≤◌, ◌<◌, true, false, not, ◌||◌, Option, none, some, [],
  ◌∷◌, ◌++◌, ◌≡◌, ◌⊎◌, inl, inr, refl, ap, ◌∙◌, ltb, if◌then◌else◌, if_cases, min, max, u32_max,
  arith,
}
use rl_nginx.Worker.{Worker}
use rl_nginx.Request.{
  AdmissionOutcome, no_outcome, waiting_outcome, valid_allow, valid_deny, fail_open, fail_close,
  internal_error, aborted, LatencyReport, ReqCtx, send_report, State, slot,
}
use rl_nginx.Request.Complete.{has_client}
use rl_nginx.Request.Report.{
  End, clamp_observed, elapsed_ms, observed_latency_ms, client_lost, is_sampled, settle, send,
  measure, log_ctx, log_slot, log_handler,
}

clamp_observed-max : (n : ℕ) → clamp_observed n ≡ min u32_max (max 1 n)
unfolding clamp_observed
clamp_observed-max n = ground arith

difference :
    (a b : ℕ)
    → a < 2 ^ 64
    → b < 2 ^ 64
    → (if ltb (a % 2 ^ 64) (b % 2 ^ 64) then b % 2 ^ 64 - a % 2 ^ 64 else 0) ≡ b - a
difference a b h h' = ground arith

-- The sample of a request is its duration in milliseconds, brought into the range 1 .. 2 ^ 32 - 1 of the
-- protocol; a clock that was set back gives 1. The two times are within 2 ^ 64 milliseconds.
pub observed_latency_ms-clamped :
    (sec msec sec' msec' : ℕ)
    → sec * 1000 + msec < 2 ^ 64
    → sec' * 1000 + msec' < 2 ^ 64
    → observed_latency_ms (sec, msec) (sec', msec')
      ≡ min u32_max (max 1 ((sec' * 1000 + msec') - (sec * 1000 + msec)))
unfolding observed_latency_ms elapsed_ms
observed_latency_ms-clamped sec msec sec' msec' h h' =
    ap clamp_observed (difference (sec * 1000 + msec) (sec' * 1000 + msec') h h')
    ∙ clamp_observed-max ((sec' * 1000 + msec') - (sec * 1000 + msec))

skipped :
    (end : End) (c : ReqCtx) (st : State)
    → slot st ≡ some c
    → (not c.lat_report_enabled || c.lat_report_sent) ≡ true
    → log_slot end (slot st) st ≡ st
unfolding log_slot log_ctx
skipped end c st at h = rw (at, h) refl

settled_slot :
    (c : ReqCtx) (st : State)
    → st.ctx_set ≡ true
    → slot (settle c st) ≡ some (record c { lat_report_sent = true })
unfolding settle
settled_slot c st h =
    if_cases (λ o. o ≡ some (record c { lat_report_sent = true })) st.ctx_set (λ _. refl) (λ f. cc)

sent_now : (c : ReqCtx) → (not c.lat_report_enabled || true) ≡ true
sent_now c = ground arith

-- A context whose report is settled is left alone.
settle-quiet :
    (end : End) (c : ReqCtx) (st : State)
    → st.ctx_set ≡ true
    → log_slot end (slot (settle c st)) (settle c st) ≡ settle c st
unfolding settle
settle-quiet end c st h =
    skipped end (record c { lat_report_sent = true }) (settle c st) (settled_slot c st h)
      (sent_now c)

slot_set : (st : State) (c : ReqCtx) → slot st ≡ some c → st.ctx_set ≡ true
slot_set st c h = ground arith

send-quiet :
    (end : End) (observed : ℕ) (rep : Option LatencyReport) (c : ReqCtx) (st : State)
    → st.ctx_set ≡ true
    → log_slot end (slot (send observed rep c st)) (send observed rep c st) ≡ send observed rep c st
unfolding send
send-quiet end observed none c st h = settle-quiet end c st h
send-quiet end observed (some rep) c st h =
    settle-quiet end (record c { lat_report = some (record rep { observed_latency = observed }) })
      (record st {
        calls = st.calls ++ send_report (record rep { observed_latency = observed }) ∷ [];
      })
      h

measure-quiet :
    (end first : End) (time : Option (ℕ × ℕ)) (c : ReqCtx) (st : State)
    → st.ctx_set ≡ true
    → log_slot end (slot (measure first time c st)) (measure first time c st)
      ≡ measure first time c st
unfolding measure
measure-quiet end first none c st h = settle-quiet end c st h
measure-quiet end first (some now) c st h =
    send-quiet end (observed_latency_ms first.start now) c.lat_report c st h

log_ctx-quiet :
    (end first : End) (c : ReqCtx) (st : State)
    → slot st ≡ some c
    → log_slot end (slot (log_ctx first c st)) (log_ctx first c st) ≡ log_ctx first c st
unfolding log_ctx
log_ctx-quiet end first c st at =
    let q : State → Type 0 = λ x. log_slot end (slot x) x ≡ x in
    let set = slot_set st c at in
    if_cases q (not c.lat_report_enabled || c.lat_report_sent) (λ h. skipped end c st at h)
      (λ _.
        if_cases q first.connection_lost (λ _. settle-quiet end (client_lost c) st set)
          (λ _.
            if_cases q (not (is_sampled c.admission_outcome)) (λ _. settle-quiet end c st set)
              (λ _.
                if_cases q (not (has_client c st.worker)) (λ _. settle-quiet end c st set)
                  (λ _. measure-quiet end first first.timeofday c st set))))

log_slot-quiet :
    (end first : End) (c : Option ReqCtx) (st : State)
    → slot st ≡ c
    → log_slot end (slot (log_slot first c st)) (log_slot first c st) ≡ log_slot first c st
unfolding log_slot
log_slot-quiet end first none st at = rw at refl
log_slot-quiet end first (some c) st at = log_ctx-quiet end first c st at

main_run :
    (end : End) (st : State) → end.is_main ≡ true → log_handler end st ≡ log_slot end (slot st) st
unfolding log_handler
main_run end st h = if_cases (λ x. x ≡ log_slot end (slot st) st) end.is_main (λ _. refl) (λ f. cc)

-- The log handler settles the report of a main request at its first run: a further run, whatever the
-- connection and the clock are then, changes nothing and sends nothing.
pub log_handler-once :
    (first end : End) (st : State)
    → first.is_main ≡ true
    → end.is_main ≡ true
    → log_handler end (log_handler first st) ≡ log_handler first st
log_handler-once first end st h h' =
    rw (main_run first st h)
      (main_run end (log_slot first (slot st) st) h' ∙ log_slot-quiet end first (slot st) st refl)

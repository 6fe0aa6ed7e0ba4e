-- ===== src/Request/Sample/Sent.antt =====
-- What one run of `ngx_http_rn_log_handler` sends, and why it may send nothing.
use rl_nginx.Base.{
  Bool-cases, ℕ, ◌≤◌, true, false, not, ◌||◌, Option, none, some, [], ◌∷◌, ◌++◌, ◌≡◌, ◌⊎◌, inl, inr,
  refl, if_cases, u32_max, arith,
}
use rl_nginx.Worker.{Worker}
use rl_nginx.Request.{
  AdmissionOutcome, no_outcome, waiting_outcome, valid_allow, valid_deny, fail_open, fail_close,
  internal_error, aborted, LatencyReport, ReqCtx, send_report, State, slot,
}
use rl_nginx.Request.Complete.{has_client}
use rl_nginx.Request.Report.{
  End, clamp_observed, elapsed_ms, observed_latency_ms, client_lost, is_sampled, settle, send,
  measure, log_ctx, log_slot, log_handler,
}

-- The outcomes that let a request go on: nothing to ask for, an allowing answer, or a failure that the
-- policy lets pass. A denied or aborted request is none of them.
abbrev pub LetsPass : AdmissionOutcome → Type 0
LetsPass o = (o ≡ no_outcome) ⊎ (o ≡ valid_allow) ⊎ (o ≡ fail_open)

is_sampled-LetsPass : (o : AdmissionOutcome) → is_sampled o ≡ true → LetsPass o
unfolding is_sampled
is_sampled-LetsPass no_outcome h = inl refl
is_sampled-LetsPass waiting_outcome h = cc
is_sampled-LetsPass valid_allow h = inr (inl refl)
is_sampled-LetsPass valid_deny h = cc
is_sampled-LetsPass fail_open h = inr (inr refl)
is_sampled-LetsPass fail_close h = cc
is_sampled-LetsPass internal_error h = cc
is_sampled-LetsPass aborted h = cc

LetsPass-is_sampled : (o : AdmissionOutcome) → is_sampled o ≡ false → ¬ LetsPass o
unfolding is_sampled
LetsPass-is_sampled o h (inl e) = cc (rw (e, is_sampled) at h)
LetsPass-is_sampled o h (inr (inl e)) = cc (rw (e, is_sampled) at h)
LetsPass-is_sampled o h (inr (inr e)) = cc (rw (e, is_sampled) at h)

-- A run that sends: the context's own report with the latency of the request, which is enabled and
-- unsent, for a request that was let pass and whose connection is intact.
pub record Sampled (end : End) (st st' : State) : Type 0 where
  pub ctx : ReqCtx
  pub own : LatencyReport
  pub now : ℕ × ℕ
  pub is_main : end.is_main ≡ true
  pub is_ctx : slot st ≡ some ctx
  pub is_own : ctx.lat_report ≡ some own
  pub is_now : end.timeofday ≡ some now
  pub enabled : (ctx.lat_report_enabled ≡ true) × (ctx.lat_report_sent ≡ false)
  pub intact : end.connection_lost ≡ false
  pub passed : LetsPass ctx.admission_outcome
  pub sent :
      st'.calls
      ≡ st.calls
        ++ send_report (record own { observed_latency = observed_latency_ms end.start now }) ∷ []
  pub in_range :
      (1 ≤ observed_latency_ms end.start now) × (observed_latency_ms end.start now ≤ u32_max)

-- Why a context's report is not sent.
abbrev pub HeldBack : End → ReqCtx → Option Worker → Type 0
HeldBack end c worker =
    (c.lat_report_enabled ≡ false)
    ⊎ (c.lat_report_sent ≡ true)
    ⊎ (end.connection_lost ≡ true)
    ⊎ (¬ LetsPass c.admission_outcome)
    ⊎ (has_client c worker ≡ false)
    ⊎ (end.timeofday ≡ none)
    ⊎ (c.lat_report ≡ none)

-- A run that sends nothing has a reason.
pub record Unsampled (end : End) (st st' : State) : Type 0 where
  pub unchanged : st'.calls ≡ st.calls
  pub reason :
      (end.is_main ≡ false)
      ⊎ (slot st ≡ none)
      ⊎ ((c : ReqCtx) × (slot st ≡ some c) × HeldBack end c st.worker)

unfoldable pub Samples : End → State → State → Type 0
Samples end st st' = Unsampled end st st' ⊎ Sampled end st st'

clamp_observed-range : (n : ℕ) → (1 ≤ clamp_observed n) × (clamp_observed n ≤ u32_max)
unfolding clamp_observed
clamp_observed-range n = ground arith

observed_range :
    (start now : ℕ × ℕ)
    → (1 ≤ observed_latency_ms start now) × (observed_latency_ms start now ≤ u32_max)
unfolding observed_latency_ms elapsed_ms
observed_range start now = clamp_observed-range (elapsed_ms start now)

module _ (end : End) (c : ReqCtx) (st : State) (at : slot st ≡ some c) where
  held_back : (st' : State) → st'.calls ≡ st.calls → HeldBack end c st.worker → Samples end st st'
  unfolding Samples
  held_back st' same why = inl (record { unchanged = same; reason = inr (inr (c, at, why)) })

  module _ (main : end.is_main ≡ true) (e : (not c.lat_report_enabled || c.lat_report_sent) ≡ false)
      (lost : end.connection_lost ≡ false) (passed : LetsPass c.admission_outcome) where
    send-Samples :
        (now : ℕ × ℕ) (rep : Option LatencyReport)
        → end.timeofday ≡ some now
        → c.lat_report ≡ rep
        → Samples end st (send (observed_latency_ms end.start now) rep c st)
    unfolding send settle Samples
    send-Samples now none clock none_kept =
        held_back _ refl (inr (inr (inr (inr (inr (inr none_kept))))))
    send-Samples now (some rep) clock kept = inr (record {
      ctx = c;
      own = rep;
      now = now;
      is_main = main;
      is_ctx = at;
      is_own = kept;
      is_now = clock;
      enabled = ground (arith, e);
      intact = lost;
      passed = passed;
      sent = refl;
      in_range = observed_range end.start now;
    })

    measure-Samples :
        (time : Option (ℕ × ℕ)) → end.timeofday ≡ time → Samples end st (measure end time c st)
    unfolding measure settle
    measure-Samples none stopped = held_back _ refl (inr (inr (inr (inr (inr (inl stopped))))))
    measure-Samples (some now) clock = send-Samples now c.lat_report clock refl

  log_ctx-Samples : end.is_main ≡ true → Samples end st (log_ctx end c st)
  unfolding log_ctx settle client_lost
  log_ctx-Samples main =
      if_cases (Samples end st) (not c.lat_report_enabled || c.lat_report_sent)
        (λ off. held_back st refl (elim (Bool-cases c.lat_report_sent) [
          | inl sent ↦ inr (inl sent)
          | inr unsent ↦ inl (ground (arith, off, unsent))
        ]))
        (λ e.
          if_cases (Samples end st) end.connection_lost
            (λ lost. held_back _ refl (inr (inr (inl lost))))
            (λ lost.
              if_cases (Samples end st) (not (is_sampled c.admission_outcome))
                (λ refused. held_back _ refl (
                  inr (
                    inr (
                      inr (
                        inl (LetsPass-is_sampled c.admission_outcome (ground (arith, refused))))))))
                (λ sampled.
                  if_cases (Samples end st) (not (has_client c st.worker))
                    (λ gone. held_back _ refl (inr (inr (inr (inr (inl (ground (arith, gone))))))))
                    (λ _.
                      measure-Samples main e lost
                        (is_sampled-LetsPass c.admission_outcome (ground (arith, sampled)))
                        end.timeofday refl))))

log_slot-Samples :
    (end : End) (c : Option ReqCtx) (st : State)
    → slot st ≡ c
    → end.is_main ≡ true
    → Samples end st (log_slot end c st)
unfolding log_slot Samples
log_slot-Samples end none st at main = inl (record { unchanged = refl; reason = inr (inl at) })
log_slot-Samples end (some c) st at main = log_ctx-Samples end c st at main

-- A run of the log handler for a main request whose context has an enabled, unsent report, whose
-- connection is intact and whose outcome let it pass (nothing to ask for, an allowing answer, or
-- fail_open) sends that report with the latency of the request, from 1 to 2 ^ 32 - 1 milliseconds; it
-- calls nothing else, and a run that calls nothing has one of these conditions unmet, or has no
-- client, no time of day or no report.
pub log_handler-Samples : (end : End) (st : State) → Samples end st (log_handler end st)
unfolding log_handler Samples
log_handler-Samples end st =
    if_cases (Samples end st) end.is_main (λ main. log_slot-Samples end (slot st) st refl main)
      (λ sub. inl (record { unchanged = refl; reason = inl sub }))

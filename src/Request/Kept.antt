-- ===== src/Request/Kept.antt =====
-- The events of a request keep what it owns in balance: `rn_rate_cb`, `rn_request_timeout_handler`,
-- `ngx_http_rn_log_handler`, an internal redirect and `ngx_http_rn_handler` on every branch.
pub mod Timeout
pub mod Logged
pub mod Handler
use rl_nginx.Base.{
  ℕ, ◌+◌, Bool, true, false, not, ◌&&◌, ◌||◌, Option, none, some, [], ◌∷◌, ◌++◌, ◌≡◌, ◌⊎◌, inl, inr,
  refl, sym, ap, ◌∙◌, ◌==◌, if_cases, if◌then◌else◌, is_some, some_inj, arith,
}
use rl_nginx.Conf.{MainConf, LocConf}
use rl_nginx.Worker.{Worker}
use rl_nginx.Request.{
  Code, AdmissionOutcome, CompletionCause, LatencyReport, ReqCtx, State, Env, cancel, on_timeout,
  run_phases, slot, internal_redirect,
}
use rl_nginx.Request.Release.{same_req, teardown, release, released}
use rl_nginx.Request.Release.Balance.{
  inflight_of, worker_armed, waits, Coherent, AllCoherent, Sound, release-Sound,
}
use rl_nginx.Request.Complete.{
  Status, client_ok, client_timeout, client_failed, RateLimitResult, judge, judged, complete,
  rate_cb_on, rate_cb, Expiry, is_ahead, client_on_timeout, with_ctx, give_up, after_timeout,
  unless_completed, expire, on_expiry, has_client, fire, timeout_handler,
}
use rl_nginx.Request.Report.{
  End, settle, send, measure, client_lost, log_ctx, log_slot, log_handler, is_sampled,
  observed_latency_ms,
}
use rl_nginx.Request.Answered.{teardown-release, attached-Coherent, slot_ctx, Coherent-of}

-- The part of a context that its balance depends on, and that of a state.
abbrev pub holds : ReqCtx → Bool × Bool × Bool × Option ℕ × Bool × Bool × Bool
holds c = (c.waiting, c.inflight_counted, c.nginx_counted, c.req, c.has_worker, c.live, c.done)

abbrev pub counts : State → Option Worker × ℕ × Bool
counts st = (st.worker, st.count, st.cleanup_added)

kept-Coherent : (c c' : ReqCtx) → Coherent c → holds c' ≡ holds c → Coherent c'
kept-Coherent c c' h e =
    let w : c'.waiting ≡ c.waiting = ap (λ x. x.0) e in
    record {
      counted = ap (λ x. x.1) e ∙ h.counted ∙ sym w;
      nginx = ap (λ x. x.2) e ∙ h.nginx ∙ sym w;
      owned = ap (λ x. is_some x.3) e ∙ h.owned ∙ sym w;
      attached =
          λ t. let a = h.attached (sym w ∙ t) in (ap (λ x. x.4) e ∙ a.0, ap (λ x. x.5) e ∙ a.1);
      undone = λ t. ap (λ x. x.6) e ∙ h.undone (sym w ∙ t);
    }

kept_waits : (c c' : ReqCtx) → holds c' ≡ holds c → waits (some c') ≡ waits (some c)
unfolding waits
kept_waits c c' e = ap (λ x. if x.0 then 1 else 0) e

-- A change of a context that leaves alone what it owns.
pub kept-Sound :
    (k n : ℕ) (c c' : ReqCtx) (st st' : State)
    → Sound k n st
    → st.ctx ≡ some c
    → st'.ctx ≡ some c'
    → holds c' ≡ holds c
    → counts st' ≡ counts st
    → Sound k n st'
unfolding AllCoherent
kept-Sound k n c c' st st' s at at' e f =
    let same : waits st'.ctx ≡ waits st.ctx =
      ap waits at' ∙ kept_waits c c' e ∙ sym (ap waits at) in
    record {
      inflight = ap (λ x. inflight_of x.0) f ∙ s.inflight ∙ ap (λ x. k + x) (sym same);
      count = ap (λ x. x.1) f ∙ s.count ∙ ap (λ x. n + x) (sym same);
      coherent = rw at' (kept-Coherent c c' (Coherent-of st.ctx c s.coherent at) e);
      rebind = ap (λ x. worker_armed x.0) f ∙ s.rebind;
      reached = λ w. ap (λ x. x.2) f ∙ s.reached (sym same ∙ w);
    }

-- The calls and the flag of the timeout handler are not counted.
pub noted-Sound :
    (k n : ℕ) (st st' : State)
    → Sound k n st
    → st'.ctx ≡ st.ctx
    → counts st' ≡ counts st
    → Sound k n st'
noted-Sound k n st st' s e f = record {
  inflight = ap (λ x. inflight_of x.0) f ∙ s.inflight ∙ ap (λ o. k + waits o) (sym e);
  count = ap (λ x. x.1) f ∙ s.count ∙ ap (λ o. n + waits o) (sym e);
  coherent = rw e s.coherent;
  rebind = ap (λ x. worker_armed x.0) f ∙ s.rebind;
  reached = λ w. ap (λ x. x.2) f ∙ s.reached (sym (ap waits e) ∙ w);
}

pub redirect-Sound : (k n : ℕ) (st : State) → Sound k n st → Sound k n (internal_redirect st)
unfolding internal_redirect
redirect-Sound k n st s = noted-Sound k n st (record st { ctx_set = false }) s refl refl

same_req_eq : (a b : Option ℕ) → same_req a b ≡ true → a ≡ b
same_req_eq none none h = refl
same_req_eq none (some b) h = cc
same_req_eq (some a) none h = cc
same_req_eq (some a) (some b) h = ap some (ground (arith, h))

judged-Sound :
    (k n : ℕ) (c : ReqCtx) (v : Code × AdmissionOutcome × CompletionCause) (st : State)
    → Coherent c
    → inflight_of st.worker ≡ k + waits (some c)
    → st.count ≡ n + waits (some c)
    → worker_armed st.worker ≡ true
    → Sound k n (judged v (release c false st).ctx (release c false st))
unfolding judged release released AllCoherent waits
judged-Sound k n c v st h e₁ e₂ a =
    let s = release-Sound k n c false st h e₁ e₂ a in
    record {
      inflight = omega (arith, s.inflight);
      count = omega (arith, s.count);
      coherent = record {
        counted = refl;
        nginx = refl;
        owned = refl;
        attached = λ t. cc;
        undone = λ t. cc;
      };
      rebind = s.rebind;
      reached = λ w. ground arith;
    }

complete-Sound :
    (k n : ℕ) (c : ReqCtx) (req : Option ℕ) (status : Status) (result : Option RateLimitResult)
    (st : State)
    → Sound k n st
    → st.ctx ≡ some c
    → c.req ≡ req
    → Sound k n (complete status result c req st)
unfolding complete waits
complete-Sound k n c req status result st s at e =
    rw
      (teardown-release (record c { observed = false }) req
        (record st { completed = st.completed || c.observed }) e)
      (judged-Sound k n (record c { observed = false }) (judge st.main c status result)
        (record st { completed = st.completed || c.observed })
        (attached-Coherent c (Coherent-of st.ctx c s.coherent at))
        (s.inflight ∙ ap (λ o. k + waits o) at) (s.count ∙ ap (λ o. n + waits o) at) s.rebind)

rate_cb_on-Sound :
    (k n : ℕ) (c : Option ReqCtx) (req : Option ℕ) (status : Status)
    (result : Option RateLimitResult) (st : State)
    → Sound k n st
    → slot st ≡ c
    → Sound k n (rate_cb_on c req status result st)
unfolding rate_cb_on
rate_cb_on-Sound k n none req status result st s at = s
rate_cb_on-Sound k n (some c) req status result st s at =
    if_cases (Sound k n) (not c.has_worker) (λ _. s)
      (λ _.
        if_cases (Sound k n) (not (same_req c.req req)) (λ _. s)
          (λ f.
            complete-Sound k n c req status result st s (slot_ctx st c at)
              (same_req_eq c.req req (ground (arith, f)))))

-- A callback keeps the balance, be it for the request that waits, for another or for none.
pub rate_cb-Sound :
    (k n : ℕ) (req : Option ℕ) (status : Status) (result : Option RateLimitResult) (st : State)
    → Sound k n st
    → Sound k n (rate_cb req status result st)
unfolding rate_cb
rate_cb-Sound k n req status result st s =
    rate_cb_on-Sound k n (slot st) req status result st s refl

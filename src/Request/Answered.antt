-- ===== src/Request/Answered.antt =====
-- The completion of a waiting request: `rn_rate_cb` with the release that it does.
use rl_nginx.Base.{
  ℕ, ◌+◌, true, false, not, ◌||◌, Option, none, some, [], ◌∷◌, ◌++◌, ◌≡◌, refl, ap, ◌∙◌, append-nil,
  ==_self, if_cases, some_inj, arith,
}
use rl_nginx.Request.{ReqCtx, State, run_phases, slot}
use rl_nginx.Request.Release.{same_req, release, released, teardown, cancelled}
use rl_nginx.Request.Release.Balance.{
  inflight_of, worker_armed, waits, Coherent, AllCoherent, Sound, release-Sound,
}
use rl_nginx.Request.Complete.{
  Status, RateLimitResult, judge, judged, complete, rate_cb_on, rate_cb,
}

-- A request that is settled with the verdict of its answer, and gone from the counts.
pub record Finished (k n : ℕ) (c : ReqCtx) (status : Status) (result : Option RateLimitResult)
    (st st' : State) : Type 0 where
  pub ctx : ReqCtx
  pub is_ctx : st'.ctx ≡ some ctx
  pub settled :
      (ctx.done ≡ true) × (ctx.waiting ≡ false) × (ctx.req ≡ none) × (ctx.timer_set ≡ false)
  pub verdict :
      judge st.main c status result ≡ (ctx.decision, ctx.admission_outcome, ctx.completion_cause)
  pub inflight : inflight_of st'.worker ≡ k
  pub count : st'.count ≡ n
  pub rebind : worker_armed st'.worker ≡ true
  pub resumed : st'.calls ≡ st.calls ++ run_phases ∷ []

same_req_self : (req : Option ℕ) → same_req req req ≡ true
same_req_self none = refl
same_req_self (some r) = ==_self r

pub teardown-release :
    (c : ReqCtx) (req : Option ℕ) (st : State)
    → c.req ≡ req
    → teardown c req false st ≡ release c false st
unfolding teardown
teardown-release c req st e = rw (← e, same_req_self c.req) refl

pub slot_ctx : (st : State) (c : ReqCtx) → slot st ≡ some c → st.ctx ≡ some c
slot_ctx st c h = ground arith

pub attached-Coherent : (c : ReqCtx) → Coherent c → Coherent (record c { observed = false })
attached-Coherent c h = record {
  counted = h.counted;
  nginx = h.nginx;
  owned = h.owned;
  attached = h.attached;
  undone = h.undone;
}

pub Coherent-of : (o : Option ReqCtx) (c : ReqCtx) → AllCoherent o → o ≡ some c → Coherent c
unfolding AllCoherent
Coherent-of none c h e = cc
Coherent-of (some d) c h e = rw (← some_inj e) h

-- The state in which the release starts.
abbrev completing : ReqCtx → State → State
completing c st = record st { completed = st.completed || c.observed }

released-Finished :
    (k n : ℕ) (c : ReqCtx) (status : Status) (result : Option RateLimitResult) (st : State)
    → Coherent c
    → inflight_of st.worker ≡ k + waits (some c)
    → st.count ≡ n + waits (some c)
    → worker_armed st.worker ≡ true
    → Finished k n c status result st (
        judged
          (judge st.main c status result)
          (release (record c { observed = false }) false (completing c st)).ctx
          (release (record c { observed = false }) false (completing c st)))
unfolding judged release released cancelled waits
released-Finished k n c status result st h e₁ e₂ a =
    let s =
      release-Sound k n (record c { observed = false }) false (completing c st)
        (attached-Coherent c h) e₁ e₂ a in
    record {
      ctx = record (released (record c { observed = false })) {
        decision = (judge st.main c status result).0;
        admission_outcome = (judge st.main c status result).1;
        completion_cause = (judge st.main c status result).2;
        done = true;
      };
      is_ctx = refl;
      settled = (refl, refl, refl, refl);
      verdict = refl;
      inflight = omega (arith, s.inflight);
      count = omega (arith, s.count);
      rebind = s.rebind;
      resumed = ap (λ calls. calls ++ run_phases ∷ []) (append-nil st.calls);
    }

complete-Finished :
    (k n : ℕ) (c : ReqCtx) (req : Option ℕ) (status : Status) (result : Option RateLimitResult)
    (st : State)
    → Coherent c
    → c.req ≡ req
    → inflight_of st.worker ≡ k + waits (some c)
    → st.count ≡ n + waits (some c)
    → worker_armed st.worker ≡ true
    → Finished k n c status result st (complete status result c req st)
unfolding complete judged waits
complete-Finished k n c req status result st h e e₁ e₂ a =
    rw
      (teardown-release (record c { observed = false }) req
        (record st { completed = st.completed || c.observed }) e)
      (released-Finished k n c status result st h e₁ e₂ a)

pub not_owned :
    {A : Type 0} (c : ReqCtx) (req : Option ℕ) → not (same_req c.req req) ≡ true → c.req ≡ req → A
not_owned c req f e = cc (rw (← e, same_req_self c.req) at f)

owned-Finished :
    (k n : ℕ) (c : ReqCtx) (req : Option ℕ) (status : Status) (result : Option RateLimitResult)
    (st : State)
    → Sound k n st
    → st.ctx ≡ some c
    → c.waiting ≡ true
    → c.req ≡ req
    → Finished k n c status result st (rate_cb_on (some c) req status result st)
unfolding rate_cb_on
owned-Finished k n c req status result st s at w e =
    let h = Coherent-of st.ctx c s.coherent at in
    if_cases (Finished k n c status result st) (not c.has_worker)
      (λ f. ground (arith, f, (h.attached w).0))
      (λ _.
        if_cases (Finished k n c status result st) (not (same_req c.req req))
          (λ f. not_owned c req f e)
          (λ _.
            complete-Finished k n c req status result st h e (s.inflight ∙ ap (λ o. k + waits o) at)
              (s.count ∙ ap (λ o. n + waits o) at) s.rebind))

-- The callback of a waiting request's own completion settles it with the verdict of the answer: its
-- timer and its hold on the client's request are gone, the worker and nginx no longer count it, a
-- pending replacement of the endpoint is scheduled if it was the last, and the phases
-- resume once.
pub rate_cb-Finished :
    (k n : ℕ) (c : ReqCtx) (req : Option ℕ) (status : Status) (result : Option RateLimitResult)
    (st : State)
    → Sound k n st
    → slot st ≡ some c
    → c.waiting ≡ true
    → c.req ≡ req
    → Finished k n c status result st (rate_cb req status result st)
unfolding rate_cb
rate_cb-Finished k n c req status result st s at w e =
    rw at (owned-Finished k n c req status result st s (slot_ctx st c at) w e)

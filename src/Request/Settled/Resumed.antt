-- ===== src/Request/Settled/Resumed.antt =====
-- The stages of the handler around the rules: the lookup of the context, its allocation, the worker and
-- the report.
use rl_nginx.Base.{
  ℕ, true, false, Option, none, some, ◌≡◌, ◌⊎◌, inl, inr, refl, ap, ◌∙◌, if_cases, Result, ok, err,
  arith,
}
use rl_nginx.Conf.{MainConf, LocConf, Tracker, find_tracker}
use rl_nginx.Worker.{Worker, EnsureCode, ready, retry_later, init_failed, worker_ensure}
use rl_nginx.Worker.Backoff.{worker_ensure-kept}
use rl_nginx.Request.{Code, again, declined, LatencyReport, ReqCtx, State, Env}
use rl_nginx.Request.Build.{build_latency_report}
use rl_nginx.Request.Release.Balance.{
  inflight_of, worker_armed, waits, Coherent, AllCoherent, Sound,
}
use rl_nginx.Request.Admit.{
  admission_enabled, new_ctx, keep_report, set_report, with_report, admit, with_worker, ensured,
  with_cleanup, new_request, resume,
}
use rl_nginx.Request.Settled.{
  Idle, Others, Answered, Settled, leave-Settled, Coherent-at, ensured_worker,
}
use rl_nginx.Request.Settled.Started.{no_client-Settled, with_rules-Settled}

module _ (env : Env) (lcf : LocConf) where
  -- The report that a location asks for leaves the rest of the context alone.
  keep_report-Idle :
      (rep : Result Code LatencyReport) (c : ReqCtx)
      → Idle c
      → (Idle (keep_report env lcf rep c)) × ((keep_report env lcf rep c).has_worker ≡ c.has_worker)
  unfolding keep_report
  keep_report-Idle (err code) c i = (i, refl)
  keep_report-Idle (ok rep) c i = (
    record {
      not_waiting = i.not_waiting;
      not_counted = i.not_counted;
      not_nginx = i.not_nginx;
      no_req = i.no_req;
      is_live = i.is_live;
      not_done = i.not_done;
      undecided = i.undecided;
    },
    refl,
  )

  set_report-Idle :
      (t : Option Tracker) (c : ReqCtx)
      → Idle c
      → (Idle (set_report env lcf t c)) × ((set_report env lcf t c).has_worker ≡ c.has_worker)
  unfolding set_report
  set_report-Idle none c i = (i, refl)
  set_report-Idle (some t) c i = keep_report-Idle (build_latency_report env t) c i

  with_report-Idle :
      (mcf : MainConf) (c : ReqCtx)
      → Idle c
      → (Idle (with_report env lcf mcf c)) × ((with_report env lcf mcf c).has_worker ≡ c.has_worker)
  unfolding with_report
  with_report-Idle mcf c i =
      if_cases (λ (d : ReqCtx). (Idle d) × (d.has_worker ≡ c.has_worker)) lcf.report_enabled
        (λ _. set_report-Idle (find_tracker mcf lcf.report_tracker_name) c i) (λ _. (i, refl))

  admit-Settled :
      (k n : ℕ) (c : ReqCtx) (w : Worker) (st : State)
      → Others k n st
      → Idle c
      → c.has_worker ≡ true
      → st.worker ≡ some w
      → Settled k n (admit env lcf c w st)
  unfolding admit
  admit-Settled k n c w st o i b at =
      if_cases (Settled k n) (admission_enabled env lcf)
        (λ _. with_rules-Settled env lcf k n lcf.rules c w st o i b at)
        (λ _. leave-Settled k n declined c (record c { done = true }) st o i refl refl i.undecided)

  with_worker-Settled :
      (k n : ℕ) (w : Option Worker) (c : ReqCtx) (st : State)
      → Others k n st
      → Idle c
      → st.worker ≡ w
      → Settled k n (with_worker env lcf w c st)
  unfolding with_worker
  with_worker-Settled k n none c st o i at = no_client-Settled env lcf k n c st o i
  with_worker-Settled k n (some w) c st o i at =
      let (r, b) =
        with_report-Idle st.main (record c { has_worker = true })
          (record {
            not_waiting = i.not_waiting;
            not_counted = i.not_counted;
            not_nginx = i.not_nginx;
            no_req = i.no_req;
            is_live = i.is_live;
            not_done = i.not_done;
            undecided = i.undecided;
          }) in
      if_cases (Settled k n) w.client
        (λ _.
          admit-Settled k n (with_report env lcf st.main (record c { has_worker = true })) w st o r
            b at)
        (λ _. no_client-Settled env lcf k n c st o i)

  -- The creation of a worker counts no request.
  ensured-Settled :
      (k n : ℕ) (res : EnsureCode × MainConf × Option Worker) (c : ReqCtx) (st : State)
      → inflight_of res.2 ≡ k
      → worker_armed res.2 ≡ true
      → st.count ≡ n
      → st.cleanup_added ≡ true
      → Idle c
      → Settled k n (ensured env lcf res c st)
  unfolding ensured
  ensured-Settled k n (ready, mcf, w) c st e a b d i =
      with_worker-Settled k n w c (record st { main = mcf; worker = w })
        (record { inflight = e; count = b; rebind = a; added = d }) i refl
  ensured-Settled k n (retry_later, mcf, w) c st e a b d i =
      no_client-Settled env lcf k n c (record st { main = mcf; worker = w })
        (record { inflight = e; count = b; rebind = a; added = d }) i
  ensured-Settled k n (init_failed, mcf, w) c st e a b d i =
      no_client-Settled env lcf k n c (record st { main = mcf; worker = w })
        (record { inflight = e; count = b; rebind = a; added = d }) i

  with_cleanup-Settled :
      (k n : ℕ) (c : ReqCtx) (st : State)
      → inflight_of st.worker ≡ k
      → worker_armed st.worker ≡ true
      → st.count ≡ n
      → env.alloc_cleanup ≡ true
      → Idle c
      → Settled k n (with_cleanup env lcf c st)
  unfolding with_cleanup
  with_cleanup-Settled k n c st e a b alloc i =
      let w =
        ensured_worker k (worker_ensure-kept st.main env.current_msec env.init st.worker) e a in
      if_cases (Settled k n) env.alloc_cleanup
        (λ _.
          ensured-Settled k n (worker_ensure env.current_msec env.init st.main st.worker) c
            (record st { cleanup_added = true }) w.0 w.1 b refl i)
        (λ f. cc)

  pub new_request-Settled :
      (k n : ℕ) (st : State)
      → inflight_of st.worker ≡ k
      → worker_armed st.worker ≡ true
      → st.count ≡ n
      → env.alloc_ctx ≡ true
      → env.alloc_cleanup ≡ true
      → Settled k n (new_request env lcf st)
  unfolding new_request new_ctx
  new_request-Settled k n st e a b alloc alloc' =
      if_cases (Settled k n) env.alloc_ctx
        (λ _.
          with_cleanup-Settled k n (new_ctx env lcf st.main)
            (record st { ctx_set = true; cleanup_added = false }) e a b alloc'
            (record {
              not_waiting = refl;
              not_counted = refl;
              not_nginx = refl;
              no_req = refl;
              is_live = refl;
              not_done = refl;
              undecided = refl;
            }))
        (λ f. cc)

  -- A request without a context, or with one that is neither settled nor waiting.
  fresh-Settled :
      (k n : ℕ) (st : State)
      → Sound k n st
      → waits st.ctx ≡ 0
      → env.alloc_ctx ≡ true
      → env.alloc_cleanup ≡ true
      → Settled k n (new_request env lcf st)
  fresh-Settled k n st s w alloc alloc' =
      new_request-Settled k n st (omega (arith, s.inflight)) s.rebind (omega (arith, s.count)) alloc
        alloc'

  done-Settled :
      (k n : ℕ) (c : ReqCtx) (st : State)
      → Sound k n st
      → Coherent c
      → st.ctx ≡ some c
      → c.done ≡ true
      → Settled k n (c.decision, st)
  unfolding Answered
  done-Settled k n c st s h at d = record {
    ctx = c;
    is_ctx = at;
    answered = inl (d, ground (arith, h.undone), refl);
    sound = s;
  }

  again-Settled :
      (k n : ℕ) (c : ReqCtx) (st : State)
      → Sound k n st
      → st.ctx ≡ some c
      → c.done ≡ false
      → c.waiting ≡ true
      → Settled k n (again, st)
  unfolding Answered
  again-Settled k n c st s at d w = record {
    ctx = c;
    is_ctx = at;
    answered = inr (d, w, refl);
    sound = s;
  }

  -- A context that is reached again answers at once or is waited for.
  reached-Settled :
      (k n : ℕ) (c : ReqCtx) (st : State)
      → Sound k n st
      → Coherent c
      → st.ctx ≡ some c
      → env.alloc_ctx ≡ true
      → env.alloc_cleanup ≡ true
      → Settled k n (resume env lcf (some c) st)
  unfolding resume waits
  reached-Settled k n c st s h at alloc alloc' =
      if_cases (Settled k n) c.done (λ d. done-Settled k n c st s h at d)
        (λ d.
          if_cases (Settled k n) c.waiting (λ w. again-Settled k n c st s at d w)
            (λ w. fresh-Settled k n st s (ap waits at ∙ rw w refl) alloc alloc'))

  pub resume-Settled :
      (k n : ℕ) (c : Option ReqCtx) (st : State)
      → Sound k n st
      → (st.ctx ≡ c) ⊎ ((c ≡ none) × (waits st.ctx ≡ 0))
      → env.alloc_ctx ≡ true
      → env.alloc_cleanup ≡ true
      → Settled k n (resume env lcf c st)
  unfolding resume waits AllCoherent
  resume-Settled k n none st s (inl at) alloc alloc' =
      fresh-Settled k n st s (ap waits at) alloc alloc'
  resume-Settled k n none st s (inr (e, w)) alloc alloc' = fresh-Settled k n st s w alloc alloc'
  resume-Settled k n (some c) st s (inl at) alloc alloc' =
      reached-Settled k n c st s (Coherent-at st.ctx c s.coherent at) at alloc alloc'
  resume-Settled k n (some c) st s (inr (e, w)) alloc alloc' = cc

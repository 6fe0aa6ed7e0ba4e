-- ===== src/Request/Settled.antt =====
-- How the handler of the pre-content phase leaves a request: settled, or waiting with all that it owns.
pub mod Started
pub mod Resumed
use rl_nginx.Base.{
  ℕ, ◌+◌, Bool, true, false, ◌&&◌, ◌||◌, Option, none, some, List, [], ◌∷◌, Bytes, ◌≡◌, ◌⊎◌, inl,
  inr, refl, sym, ap, ◌∙◌, ◌==◌, if_cases, is_some, some_inj, Result, ok, err, arith,
}
use rl_nginx.Conf.{MainConf, LocConf, Tracker, Rule, find_tracker}
use rl_nginx.Worker.{Worker, EnsureCode, ready, retry_later, init_failed, worker_ensure, new_worker}
use rl_nginx.Worker.Backoff.{worker_ensure-kept}
use rl_nginx.Worker.Rebind.{armed}
use rl_nginx.Request.{
  Code, again, declined, LatencyReport, internal_server_error, ReqCtx, State, Env,
  finish_preflight_failure, finish_internal_error,
}
use rl_nginx.Request.Build.{build_latency_report}
use rl_nginx.Request.Expand.{
  Failure, internal, preflight, Entries, no_entries, count_rules, add_rules,
}
use rl_nginx.Request.Release.{released, release, teardown}
use rl_nginx.Request.Release.Balance.{
  inflight_of, worker_armed, waits, Coherent, AllCoherent, Sound, release-Sound,
}
use rl_nginx.Request.Admit.{
  leave, admission_enabled, new_ctx, watch_client, started, after_start, asked, expecting,
  start_async, fail_with, render_label, with_label, with_entries, bypass, arrays_allocated,
  with_counts, with_rules, keep_report, set_report, with_report, admit, no_client, with_worker,
  ensured, with_cleanup, new_request, resume,
}

-- A context of which nothing is in flight yet.
pub record Idle (c : ReqCtx) : Type 0 where
  pub not_waiting : c.waiting ≡ false
  pub not_counted : c.inflight_counted ≡ false
  pub not_nginx : c.nginx_counted ≡ false
  pub no_req : c.req ≡ none
  pub is_live : c.live ≡ true
  pub not_done : c.done ≡ false
  pub undecided : c.decision ≡ declined

-- What the other requests hold.
pub record Others (k n : ℕ) (st : State) : Type 0 where
  pub inflight : inflight_of st.worker ≡ k
  pub count : st.count ≡ n
  pub rebind : worker_armed st.worker ≡ true
  pub added : st.cleanup_added ≡ true

-- Settled with the decision that is returned, or waiting.
unfoldable pub Answered : Code → ReqCtx → Type 0
Answered code c =
    ((c.done ≡ true) × (c.waiting ≡ false) × (c.decision ≡ code))
    ⊎ ((c.done ≡ false) × (c.waiting ≡ true) × (code ≡ again))

pub record Settled (k n : ℕ) (res : Code × State) : Type 0 where
  pub ctx : ReqCtx
  pub is_ctx : res.1.ctx ≡ some ctx
  pub answered : Answered res.0 ctx
  pub sound : Sound k n res.1

-- The part of a context that tells what is in flight.
abbrev pub flags : ReqCtx → Bool × Bool × Bool × Option ℕ
flags c = (c.waiting, c.inflight_counted, c.nginx_counted, c.req)

pub settled-Coherent :
    (c c' : ReqCtx) → Idle c → flags c' ≡ flags c → (Coherent c') × (c'.waiting ≡ false)
settled-Coherent c c' i e =
    let w : c'.waiting ≡ false = ap (λ x. x.0) e ∙ i.not_waiting in
    let f : c'.inflight_counted ≡ false = ap (λ x. x.1) e ∙ i.not_counted in
    let g : c'.nginx_counted ≡ false = ap (λ x. x.2) e ∙ i.not_nginx in
    let r : c'.req ≡ none = ap (λ x. x.3) e ∙ i.no_req in
    (
      record {
        counted = f ∙ sym w;
        nginx = g ∙ sym w;
        owned = ap is_some r ∙ sym w;
        attached = λ t. cc;
        undone = λ t. cc;
      },
      w,
    )

-- A context that is settled in place.
pub leave-Settled :
    (k n : ℕ) (code : Code) (c c' : ReqCtx) (st : State)
    → Others k n st
    → Idle c
    → flags c' ≡ flags c
    → c'.done ≡ true
    → c'.decision ≡ code
    → Settled k n (leave code c' st)
unfolding AllCoherent waits Answered
leave-Settled k n code c c' st o i e d r =
    let (h, w) = settled-Coherent c c' i e in
    record {
      ctx = c';
      is_ctx = refl;
      answered = inl (d, w, r);
      sound = record {
        inflight = rw w (omega (arith, o.inflight));
        count = rw w (omega (arith, o.count));
        coherent = h;
        rebind = o.rebind;
        reached = λ _. o.added;
      };
    }

pub started_inflight :
    (k : ℕ) (w : Worker) (st : State)
    → st.worker ≡ some w
    → inflight_of st.worker ≡ k
    → inflight_of (some (record w { inflight = w.inflight + 1 })) ≡ k + 1
unfolding inflight_of
started_inflight k w st e h =
    let at : inflight_of (some w) ≡ k = ap inflight_of (sym e) ∙ h in omega (arith, at)

pub started_armed :
    (w : Worker) → worker_armed (some (record w { inflight = w.inflight + 1 })) ≡ true
unfolding worker_armed armed
started_armed w = ground arith

pub Coherent-at : (o : Option ReqCtx) (c : ReqCtx) → AllCoherent o → o ≡ some c → Coherent c
unfolding AllCoherent
Coherent-at none c h at = cc
Coherent-at (some d) c h at = rw (← some_inj at) h

pub made_worker :
    (k : ℕ) (e : ℕ) {v : Option Worker}
    → v ≡ some (new_worker e)
    → inflight_of none ≡ k
    → (inflight_of v ≡ k) × (worker_armed v ≡ true)
unfolding inflight_of worker_armed armed new_worker
made_worker k e at h = rw at (h, refl)

pub ensured_worker :
    (k : ℕ) {v w : Option Worker}
    → (v ≡ w) ⊎ ((w ≡ none) × ((e : ℕ) × (v ≡ some (new_worker e))))
    → inflight_of w ≡ k
    → worker_armed w ≡ true
    → (inflight_of v ≡ k) × (worker_armed v ≡ true)
ensured_worker k (inl at) h a = rw at (h, a)
ensured_worker k (inr (gone, (e, at))) h a = made_worker k e at (ap inflight_of (sym gone) ∙ h)

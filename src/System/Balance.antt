-- ===== src/System/Balance.antt =====
-- What the requests of a process hold together, in every run of its event loop.
use rl_nginx.Base.{
  ℕ, ◌+◌, Bool, true, false, Option, none, some, List, [], ◌∷◌, ◌++◌, ◌≡◌, refl, ◌∙◌, if_cases,
  arith,
}
use rl_nginx.Conf.{MainConf}
use rl_nginx.Worker.{Worker}
use rl_nginx.Worker.Rebind.{
  on_steering_feedback-armed, on_steering_feedback-inflight, rebind_handler_safe,
}
use rl_nginx.Request.{ReqCtx, State}
use rl_nginx.Request.Release.{request_cleanup}
use rl_nginx.Request.Release.Balance.{
  inflight_of, worker_armed, waits, AllCoherent, Sound, clean-Sound,
}
use rl_nginx.Request.Kept.{redirect-Sound, rate_cb-Sound}
use rl_nginx.Request.Kept.Timeout.{timeout_handler-Sound}
use rl_nginx.Request.Kept.Logged.{log_handler-Sound}
use rl_nginx.Request.Kept.Handler.{handler-Sound}
use rl_nginx.System.{
  Held, Process, focus, held, new_held, Event, phase, answer, expiry, logged, redirected, run,
  resumed, without, Step, arrive, happen, close, steer, read, rebind, Run, idle, turn, launched,
}

-- The requests that wait for an answer.
unfoldable pub waiting_requests : List Held → ℕ
waiting_requests [] = 0
waiting_requests (h ∷ rest) = waits h.ctx + waiting_requests rest

-- A request's own share of the balance.
pub record Owned (h : Held) : Type 0 where
  pub coherent : AllCoherent h.ctx
  pub count : h.count ≡ h.base + waits h.ctx
  pub reached : waits h.ctx ≡ 1 → h.cleanup_added ≡ true

unfoldable pub AllOwned : List Held → Type 0
AllOwned [] = Unit {0}
AllOwned (h ∷ rest) = (Owned h) × (AllOwned rest)

pub record Balanced (p : Process) : Type 0 where
  pub inflight : inflight_of p.worker ≡ waiting_requests p.requests
  pub rebind : worker_armed p.worker ≡ true
  pub owned : AllOwned p.requests

waiting_split :
    (before after : List Held) (h : Held)
    → waiting_requests (before ++ h ∷ after) ≡ waiting_requests (before ++ after) + waits h.ctx
unfolding waiting_requests
waiting_split [] after h = omega arith
waiting_split (b ∷ before) after h = omega (arith, waiting_split before after h)

Owned-at :
    (before after : List Held) (h : Held)
    → AllOwned (before ++ h ∷ after)
    → (Owned h) × (AllOwned (before ++ after))
unfolding AllOwned
Owned-at [] after h o = o
Owned-at (b ∷ before) after h (own, rest) =
    let (at, others) = Owned-at before after h rest in (at, (own, others))

Owned-with :
    (before after : List Held) (h : Held)
    → Owned h
    → AllOwned (before ++ after)
    → AllOwned (before ++ h ∷ after)
unfolding AllOwned
Owned-with [] after h at o = (at, o)
Owned-with (b ∷ before) after h at (own, rest) = (own, Owned-with before after h at rest)

-- The state that a handler starts in, seen from its request.
focus-Sound :
    (main : MainConf) (worker : Option Worker) (before after : List Held) (h : Held)
    → Balanced (record { main = main; worker = worker; requests = before ++ h ∷ after })
    → Sound (waiting_requests (before ++ after)) h.base (focus main worker h)
unfolding focus
focus-Sound main worker before after h b =
    let own = (Owned-at before after h b.owned).0 in
    record {
      inflight = omega (arith, b.inflight, waiting_split before after h);
      count = own.count;
      coherent = own.coherent;
      rebind = b.rebind;
      reached = own.reached;
    }

resumed-Balanced :
    (before after : List Held) (base : ℕ) (st : State)
    → AllOwned (before ++ after)
    → Sound (waiting_requests (before ++ after)) base st
    → Balanced (resumed before after base st)
unfolding resumed held
resumed-Balanced before after base st o s = record {
  inflight = omega (arith, s.inflight, waiting_split before after (held base st));
  rebind = s.rebind;
  owned =
      Owned-with before after (held base st)
        (record { coherent = s.coherent; count = s.count; reached = s.reached }) o;
}

-- Every handler and callback keeps a request's share.
run-Sound : (k n : ℕ) (e : Event) (st : State) → Sound k n st → Sound k n (run e st)
unfolding run
run-Sound k n (phase env lcf) st s = handler-Sound env lcf k n st s
run-Sound k n (answer req status result) st s = rate_cb-Sound k n req status result st s
run-Sound k n (expiry x) st s = timeout_handler-Sound k n x st s
run-Sound k n (logged end) st s = log_handler-Sound k n end st s
run-Sound k n redirected st s = redirect-Sound k n st s

unreached-waits :
    (o : Option ReqCtx) (added : Bool) → (waits o ≡ 1 → added ≡ true) → added ≡ false → waits o ≡ 0
unfolding waits
unreached-waits none added r off = refl
unreached-waits (some c) added r off = ground (arith, r)

-- The end of a request takes its share out of the counts.
pub closed-Sound :
    (k n : ℕ) (st : State)
    → Sound k n st
    → (inflight_of (request_cleanup st).worker ≡ k)
      × (worker_armed (request_cleanup st).worker ≡ true)
unfolding request_cleanup waits
closed-Sound k n st s =
    let r = clean-Sound k n st st.ctx s.coherent s.inflight s.count s.rebind refl in
    if_cases (λ (t : State). (inflight_of t.worker ≡ k) × (worker_armed t.worker ≡ true))
      st.cleanup_added (λ _. (omega (arith, r.0.inflight, r.1), r.0.rebind))
      (λ off. (
        omega (arith, s.inflight, unreached-waits st.ctx st.cleanup_added s.reached off),
        s.rebind,
      ))

pub Step-Balanced : {p q : Process} → Step p q → Balanced p → Balanced q
unfolding waiting_requests AllOwned inflight_of worker_armed new_held waits without AllCoherent
Step-Balanced (arrive base main worker requests) b = record {
  inflight = omega (arith, b.inflight);
  rebind = b.rebind;
  owned = (record { coherent = tt; count = omega arith; reached = λ w. ground arith }, b.owned);
}
Step-Balanced (happen e main worker before h after) b =
    resumed-Balanced before after h.base (run e (focus main worker h))
      (Owned-at before after h b.owned).1
      (run-Sound (waiting_requests (before ++ after)) h.base e (focus main worker h)
        (focus-Sound main worker before after h b))
Step-Balanced (close main worker before h after) b =
    let s =
      closed-Sound (waiting_requests (before ++ after)) h.base (focus main worker h)
        (focus-Sound main worker before after h b) in
    record { inflight = s.0; rebind = s.1; owned = (Owned-at before after h b.owned).1 }
Step-Balanced (steer keep_port main w requests) b = record {
  inflight = on_steering_feedback-inflight keep_port w ∙ b.inflight;
  rebind = on_steering_feedback-armed keep_port w b.rebind;
  owned = b.owned;
}
Step-Balanced (read active main w requests) b = record {
  inflight = b.inflight;
  rebind = b.rebind;
  owned = b.owned;
}
Step-Balanced (rebind candidate main w requests due) b =
    let r = rebind_handler_safe candidate w in
    record { inflight = r.inflight_kept ∙ b.inflight; rebind = r.still_armed; owned = b.owned }

launched-Balanced : (main : MainConf) → Balanced (launched main)
unfolding launched inflight_of waiting_requests worker_armed AllOwned
launched-Balanced main = record { inflight = refl; rebind = refl; owned = tt }

-- In every process that its event loop can bring about, with any number of requests and whatever
-- their handlers, callbacks, timers, redirects and ends are and in which order they run: the
-- worker counts exactly the requests that wait for an answer; each of them owns its request in
-- flight, the reference that nginx holds for it and the entry that cleans it up, and the others
-- own nothing; and a replacement of the endpoint that is pending is scheduled once no
-- request waits.
pub Run-Balanced : (main : MainConf) (p : Process) → Run (launched main) p → Balanced p
Run-Balanced main p idle = launched-Balanced main
Run-Balanced main p (turn r s) = Step-Balanced s (Run-Balanced main _ r)

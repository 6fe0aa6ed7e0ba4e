-- ===== src/Request/Progress.antt =====
-- A request that waits is not forgotten: what its timer leaves.
pub mod Fired
use rl_nginx.Base.{
  ℕ, ◌+◌, Bool, true, false, not, ◌&&◌, ◌||◌, Option, none, some, List, [], ◌∷◌, ◌++◌, ◌≡◌, ◌⊎◌,
  inl, inr, refl, sym, ap, ◌∙◌, if_cases, if◌then◌else◌, is_some, some_inj, arith,
}
use rl_nginx.Worker.{Worker}
use rl_nginx.Request.{
  Code, AdmissionOutcome, CompletionCause, ReqCtx, State, cancel, on_timeout, slot,
}
use rl_nginx.Request.Release.{same_req, teardown, release}
use rl_nginx.Request.Release.Balance.{waits, Coherent, AllCoherent, Sound}
use rl_nginx.Request.Complete.{
  Status, client_ok, client_timeout, client_failed, RateLimitResult, judge, judged, complete,
  rate_cb_on, rate_cb, Expiry, is_ahead, client_on_timeout, with_ctx, give_up, after_timeout,
  unless_completed, expire, on_expiry, has_client, fire, timeout_handler,
}
use rl_nginx.Request.Answered.{Finished, rate_cb-Finished, slot_ctx, Coherent-of, not_owned}
use rl_nginx.Request.Kept.{holds, counts, kept-Sound, noted-Sound}

-- The request is settled, or its timer is set again.
pub record Progress (st : State) : Type 0 where
  pub ctx : ReqCtx
  pub is_ctx : st.ctx ≡ some ctx
  pub goes_on :
      ((ctx.done ≡ true) × (ctx.waiting ≡ false) × (ctx.timer_set ≡ false)) ⊎ (ctx.timer_set ≡ true)

-- The state of a request that waits, reached by the module's slot.
pub record Waits (k n : ℕ) (c : ReqCtx) (req : ℕ) (st : State) : Type 0 where
  pub sound : Sound k n st
  pub is_ctx : st.ctx ≡ some c
  pub reached : st.ctx_set ≡ true
  pub waiting : c.waiting ≡ true
  pub owns : c.req ≡ some req

pub slot_of : (k n : ℕ) (c : ReqCtx) (req : ℕ) (st : State) → Waits k n c req st → slot st ≡ some c
slot_of k n c req st w = rw w.reached w.is_ctx

pub slot_set : (st : State) (c : ReqCtx) → slot st ≡ some c → st.ctx_set ≡ true
slot_set st c h = ground (arith, h)

pub own_answer :
    (k n : ℕ) (c : ReqCtx) (req : ℕ) (status : Status) (result : Option RateLimitResult)
    (st : State)
    → Waits k n c req st
    → Progress (rate_cb (some req) status result st)
own_answer k n c req status result st w =
    let f =
      rate_cb-Finished k n c (some req) status result st w.sound (slot_of k n c req st w) w.waiting
        w.owns in
    record { ctx = f.ctx; is_ctx = f.is_ctx; goes_on = inl (f.settled.0, f.settled.1, f.settled.3) }

judged-completed :
    (v : Code × AdmissionOutcome × CompletionCause) (o : Option ReqCtx) (st : State)
    → (judged v o st).completed ≡ st.completed
unfolding judged
judged-completed v none st = refl
judged-completed v (some c) st = refl

teardown-completed :
    (c : ReqCtx) (req : Option ℕ) (st : State) → (teardown c req false st).completed ≡ st.completed
unfolding teardown release
teardown-completed c req st =
    if_cases (λ (s : State). s.completed ≡ st.completed) (not false && not (same_req c.req req))
      (λ _. refl) (λ _. refl)

-- A completion that is observed is seen by the timeout handler.
complete-completed :
    (c : ReqCtx) (req : Option ℕ) (status : Status) (result : Option RateLimitResult) (st : State)
    → c.observed ≡ true
    → (complete status result c req st).completed ≡ true
unfolding complete
complete-completed c req status result st seen =
    judged-completed _ _ _
    ∙ teardown-completed (record c { observed = false }) req
        (record st { completed = st.completed || c.observed })
    ∙ ground (arith, seen)

pub rate_cb-completed :
    (k n : ℕ) (c : ReqCtx) (req : ℕ) (status : Status) (result : Option RateLimitResult)
    (st : State)
    → Waits k n c req st
    → c.observed ≡ true
    → (rate_cb (some req) status result st).completed ≡ true
unfolding rate_cb rate_cb_on
rate_cb-completed k n c req status result st w seen =
    let h = Coherent-of st.ctx c w.sound.coherent w.is_ctx in
    rw (slot_of k n c req st w) (
      if_cases (λ (s : State). s.completed ≡ true) (not c.has_worker)
        (λ f. ground (arith, f, (h.attached w.waiting).0))
        (λ _.
          if_cases (λ (s : State). s.completed ≡ true) (not (same_req c.req (some req)))
            (λ f. not_owned c (some req) f w.owns)
            (λ _. complete-completed c (some req) status result st seen)))

pub Waits-kept :
    (k n : ℕ) (c c' : ReqCtx) (req : ℕ) (st st' : State)
    → Waits k n c req st
    → st'.ctx ≡ some c'
    → holds c' ≡ holds c
    → counts st' ≡ counts st
    → st'.ctx_set ≡ st.ctx_set
    → Waits k n c' req st'
Waits-kept k n c c' req st st' w at e f g = record {
  sound = kept-Sound k n c c' st st' w.sound w.is_ctx at e f;
  is_ctx = at;
  reached = g ∙ w.reached;
  waiting = ap (λ x. x.0) e ∙ w.waiting;
  owns = ap (λ x. x.3) e ∙ w.owns;
}

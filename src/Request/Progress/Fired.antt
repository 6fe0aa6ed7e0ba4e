-- ===== src/Request/Progress/Fired.antt =====
-- `rn_request_timeout_handler`, from its timer to the request's end or its next timer.
use rl_nginx.Base.{
  ℕ, true, false, Option, none, some, [], ◌∷◌, ◌++◌, ◌≡◌, inr, refl, sym, ap, ◌∙◌, if_cases,
  some_inj,
}
use rl_nginx.Request.{ReqCtx, State, cancel, slot}
use rl_nginx.Request.Release.Balance.{Sound}
use rl_nginx.Request.Complete.{
  Status, client_ok, client_timeout, client_failed, RateLimitResult, rate_cb, Expiry, is_ahead,
  client_on_timeout, with_ctx, give_up, after_timeout, unless_completed, expire, on_expiry,
  has_client, fire, timeout_handler,
}
use rl_nginx.Request.Answered.{slot_ctx}
use rl_nginx.Request.Kept.{holds, kept-Sound}
use rl_nginx.Request.Progress.{Progress, Waits, own_answer, slot_set, rate_cb-completed, Waits-kept}

give_up-Progress :
    (k n : ℕ) (c : ReqCtx) (req : ℕ) (status : Status) (st : State)
    → Waits k n c req st
    → Progress (give_up req status st)
unfolding give_up
give_up-Progress k n c req status st w =
    let st' : State = record st { calls = st.calls ++ cancel req ∷ [] } in
    own_answer k n c req status none st' (Waits-kept k n c c req st st' w w.is_ctx refl refl refl)

-- A context that is there gets its timer.
armed_again :
    (o : Option ReqCtx) (c : ReqCtx) (st : State)
    → o ≡ some c
    → Progress
        (elim o [ none ↦ st | some d ↦ record st { ctx = some (record d { timer_set = true }) } ])
armed_again none c st at = cc
armed_again (some d) c st at = record {
  ctx = record d { timer_set = true };
  is_ctx = refl;
  goes_on = inr refl;
}

after_timeout-Progress :
    (k n : ℕ) (c : ReqCtx) (req : ℕ) (status : Status) (deadline : Option ℕ) (st : State)
    → Waits k n c req st
    → Progress (after_timeout status deadline req st)
unfolding after_timeout
after_timeout-Progress k n c req client_timeout deadline st w =
    give_up-Progress k n c req client_timeout st w
after_timeout-Progress k n c req client_failed deadline st w =
    give_up-Progress k n c req client_failed st w
after_timeout-Progress k n c req client_ok none st w = give_up-Progress k n c req client_failed st w
after_timeout-Progress k n c req client_ok (some d) st w = armed_again st.ctx c st w.is_ctx

unseen-Waits :
    (k n : ℕ) (o : Option ReqCtx) (c : ReqCtx) (req : ℕ) (st : State)
    → Waits k n c req st
    → st.ctx ≡ o
    → Waits k n
        (record c { observed = false })
        req
        (elim o [ none ↦ st | some d ↦ record st { ctx = some (record d { observed = false }) } ])
unseen-Waits k n none c req st w at = cc (w.is_ctx, at)
unseen-Waits k n (some d) c req st w at =
    Waits-kept k n c (record c { observed = false }) req st _ w
      (ap (λ (e : ReqCtx). some (record e { observed = false })) (some_inj (sym at ∙ w.is_ctx)))
      refl refl refl

-- The call of the client, which may complete the request.
called-Progress :
    (k n : ℕ) (c : ReqCtx) (req : ℕ) (x : Expiry) (back : Option (Status × Option RateLimitResult))
    (st : State)
    → Waits k n c req st
    → c.observed ≡ true
    → st.completed ≡ false
    → Progress (unless_completed x req (client_on_timeout back req st))
unfolding client_on_timeout unless_completed
called-Progress k n c req x none st w seen open_ =
    if_cases Progress st.completed (λ t. cc)
      (λ _.
        after_timeout-Progress k n (record c { observed = false }) req x.status x.deadline_after
          (with_ctx (λ d. record d { observed = false }) st)
          (unseen-Waits k n st.ctx c req st w refl))
called-Progress k n c req x (some (status, result)) st w seen open_ =
    let done = rate_cb-completed k n c req status result st w seen in
    if_cases Progress (rate_cb (some req) status result st).completed
      (λ _. own_answer k n c req status result st w) (λ f. cc)

on_expiry-Progress :
    (k n : ℕ) (c : ReqCtx) (req : ℕ) (o : Option ℕ) (x : Expiry) (st : State)
    → Waits k n c req st
    → o ≡ some req
    → Progress (on_expiry x o c st)
unfolding on_expiry expire
on_expiry-Progress k n c req none x st w e = cc
on_expiry-Progress k n c req (some r) x st w e =
    if_cases Progress (is_ahead x.deadline_before x.now)
      (λ _. record { ctx = record c { timer_set = true }; is_ctx = refl; goes_on = inr refl })
      (λ _.
        called-Progress k n (record c { observed = true }) r x x.calls_back _
          (record {
            sound =
                kept-Sound k n c (record c { observed = true }) st _ w.sound w.is_ctx refl refl
                  refl;
            is_ctx = refl;
            reached = w.reached;
            waiting = w.waiting;
            owns = w.owns ∙ sym e;
          })
          refl refl)

fired-Progress :
    (k n : ℕ) (o : Option ReqCtx) (c : ReqCtx) (req : ℕ) (x : Expiry) (st : State)
    → Waits k n c req st
    → has_client c st.worker ≡ true
    → st.ctx ≡ o
    → Progress (elim o [ none ↦ st | some d ↦ fire x (record d { timer_set = false }) st ])
unfolding fire
fired-Progress k n none c req x st w can at = cc (w.is_ctx, at)
fired-Progress k n (some d) c req x st w can at =
    let same : d ≡ c = some_inj (sym at ∙ w.is_ctx) in
    let fired : ReqCtx = record d { timer_set = false } in
    let client : has_client fired st.worker ≡ true =
      ap (λ (e : ReqCtx). has_client (record e { timer_set = false }) st.worker) same ∙ can in
    if_cases Progress (has_client fired st.worker)
      (λ _.
        on_expiry-Progress k n fired req fired.req x (record st { ctx = some fired })
          (Waits-kept k n c fired req st _ w refl
            (ap (λ (e : ReqCtx). holds (record e { timer_set = false })) same) refl refl)
          (ap (λ (e : ReqCtx). e.req) same ∙ w.owns))
      (λ f. cc)

-- The timer of a request that waits fires, on a worker with a client, and the context is reached by the
-- module's slot: whatever deadline the client gives, whether it completes the request in its
-- call, returns an error or asks for another round, the request is settled then and its timer is
-- not set, or its timer is set again. So no request waits without a timer after its timer fired.
pub timeout_handler-Progress :
    (k n : ℕ) (c : ReqCtx) (req : ℕ) (x : Expiry) (st : State)
    → Sound k n st
    → slot st ≡ some c
    → c.waiting ≡ true
    → c.req ≡ some req
    → has_client c st.worker ≡ true
    → Progress (timeout_handler x st)
unfolding timeout_handler
timeout_handler-Progress k n c req x st s at waiting owns can =
    fired-Progress k n st.ctx c req x st
      (record {
        sound = s;
        is_ctx = slot_ctx st c at;
        reached = slot_set st c at;
        waiting = waiting;
        owns = owns;
      })
      can refl

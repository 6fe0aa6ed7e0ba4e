-- ===== src/Request/Kept/Timeout.antt =====
-- `rn_request_timeout_handler` keeps the balance, whatever the client does in its call.
use rl_nginx.Base.{ℕ, true, false, Option, none, some, [], ◌∷◌, ◌++◌, ◌≡◌, refl, if_cases}
use rl_nginx.Request.{ReqCtx, State, cancel, on_timeout}
use rl_nginx.Request.Release.Balance.{Sound}
use rl_nginx.Request.Complete.{
  Status, client_ok, client_timeout, client_failed, RateLimitResult, Expiry, is_ahead,
  client_on_timeout, with_ctx, give_up, after_timeout, unless_completed, expire, on_expiry,
  has_client, fire, timeout_handler,
}
use rl_nginx.Request.Kept.{holds, kept-Sound, noted-Sound, rate_cb-Sound}

client_on_timeout-Sound :
    (k n : ℕ) (back : Option (Status × Option RateLimitResult)) (req : ℕ) (st : State)
    → Sound k n st
    → Sound k n (client_on_timeout back req st)
unfolding client_on_timeout
client_on_timeout-Sound k n none req st s = s
client_on_timeout-Sound k n (some (status, result)) req st s =
    rate_cb-Sound k n (some req) status result st s

with_ctx-Sound :
    (k n : ℕ) (f : ReqCtx → ReqCtx) (o : Option ReqCtx) (st : State)
    → Sound k n st
    → st.ctx ≡ o
    → ((c : ReqCtx) → holds (f c) ≡ holds c)
    → Sound k n (elim o [ none ↦ st | some c ↦ record st { ctx = some (f c) } ])
with_ctx-Sound k n f none st s at e = s
with_ctx-Sound k n f (some c) st s at e =
    kept-Sound k n c (f c) st (record st { ctx = some (f c) }) s at refl (e c) refl

give_up-Sound :
    (k n : ℕ) (req : ℕ) (status : Status) (st : State)
    → Sound k n st
    → Sound k n (give_up req status st)
unfolding give_up
give_up-Sound k n req status st s =
    rate_cb-Sound k n (some req) status none (record st { calls = st.calls ++ cancel req ∷ [] })
      (noted-Sound k n st (record st { calls = st.calls ++ cancel req ∷ [] }) s refl refl)

after_timeout-Sound :
    (k n : ℕ) (status : Status) (deadline : Option ℕ) (req : ℕ) (st : State)
    → Sound k n st
    → Sound k n (after_timeout status deadline req st)
unfolding after_timeout
after_timeout-Sound k n client_timeout deadline req st s = give_up-Sound k n req client_timeout st s
after_timeout-Sound k n client_failed deadline req st s = give_up-Sound k n req client_failed st s
after_timeout-Sound k n client_ok none req st s = give_up-Sound k n req client_failed st s
after_timeout-Sound k n client_ok (some deadline) req st s =
    with_ctx-Sound k n (λ c. record c { timer_set = true }) st.ctx st s refl (λ c. refl)

unless_completed-Sound :
    (k n : ℕ) (x : Expiry) (req : ℕ) (st : State)
    → Sound k n st
    → Sound k n (unless_completed x req st)
unfolding unless_completed
unless_completed-Sound k n x req st s =
    if_cases (Sound k n) st.completed (λ _. s)
      (λ _.
        after_timeout-Sound k n x.status x.deadline_after req
          (with_ctx (λ c. record c { observed = false }) st)
          (with_ctx-Sound k n (λ c. record c { observed = false }) st.ctx st s refl (λ c. refl)))

on_expiry-Sound :
    (k n : ℕ) (x : Expiry) (req : Option ℕ) (c : ReqCtx) (st : State)
    → Sound k n st
    → st.ctx ≡ some c
    → Sound k n (on_expiry x req c st)
unfolding on_expiry expire
on_expiry-Sound k n x none c st s at = s
on_expiry-Sound k n x (some req) c st s at =
    let again : ReqCtx = record c { timer_set = true } in
    let asked : State = record st {
      ctx = some (record c { observed = true });
      completed = false;
      calls = st.calls ++ on_timeout req ∷ [];
    } in
    if_cases (Sound k n) (is_ahead x.deadline_before x.now)
      (λ _. kept-Sound k n c again st (record st { ctx = some again }) s at refl refl refl)
      (λ _. unless_completed-Sound k n x req (client_on_timeout x.calls_back req asked) (
        client_on_timeout-Sound k n x.calls_back req asked
          (kept-Sound k n c (record c { observed = true }) st asked s at refl refl refl)))

timeout_on-Sound :
    (k n : ℕ) (x : Expiry) (o : Option ReqCtx) (st : State)
    → Sound k n st
    → st.ctx ≡ o
    → Sound k n (elim o [ none ↦ st | some c ↦ fire x (record c { timer_set = false }) st ])
unfolding fire
timeout_on-Sound k n x none st s at = s
timeout_on-Sound k n x (some c) st s at =
    let fired : ReqCtx = record c { timer_set = false } in
    let kept = kept-Sound k n c fired st (record st { ctx = some fired }) s at refl refl refl in
    if_cases (Sound k n) (has_client fired st.worker)
      (λ _. on_expiry-Sound k n x fired.req fired (record st { ctx = some fired }) kept refl)
      (λ _. kept)

-- The timeout handler keeps the balance, whatever the client does in its call.
pub timeout_handler-Sound :
    (k n : ℕ) (x : Expiry) (st : State) → Sound k n st → Sound k n (timeout_handler x st)
unfolding timeout_handler
timeout_handler-Sound k n x st s = timeout_on-Sound k n x st.ctx st s refl

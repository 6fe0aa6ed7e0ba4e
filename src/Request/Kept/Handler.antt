-- ===== src/Request/Kept/Handler.antt =====
-- `ngx_http_rn_handler` keeps the balance on every branch, those on which an allocation fails included.
use rl_nginx.Base.{
  ℕ, Bool, true, false, not, ◌&&◌, Option, none, some, ◌≡◌, ◌⊎◌, inl, inr, refl, ap, ◌∙◌, if_cases,
  arith,
}
use rl_nginx.Conf.{LocConf}
use rl_nginx.Request.{Code, ReqCtx, State, Env, get_request_ctx}
use rl_nginx.Request.Release.Balance.{waits, AllCoherent, Sound}
use rl_nginx.Request.Admit.{
  admission_enabled, new_ctx, with_cleanup, new_request, resume, handle_main, handler,
}
use rl_nginx.Request.Settled.Resumed.{new_request-Settled}
use rl_nginx.Request.Handled.{Looked, get_request_ctx-Looked}

module _ (env : Env) (lcf : LocConf) where
  -- A context for which no entry of the cleanup list could be allocated owns nothing.
  uncleaned-Sound :
      (k n : ℕ) (st : State)
      → Sound k n st
      → waits st.ctx ≡ 0
      → env.alloc_cleanup ≡ false
      → Sound k n
          (with_cleanup env lcf
            (new_ctx env lcf st.main)
            (record st { ctx_set = true; cleanup_added = false })).1
  unfolding with_cleanup new_ctx waits AllCoherent
  uncleaned-Sound k n st s w off =
      if_cases (λ (r : Code × State). Sound k n r.1) env.alloc_cleanup (λ t. cc)
        (λ _. record {
          inflight = omega (arith, s.inflight);
          count = omega (arith, s.count);
          coherent = record {
            counted = refl;
            nginx = refl;
            owned = refl;
            attached = λ t. cc;
            undone = λ t. cc;
          };
          rebind = s.rebind;
          reached = λ z. ground arith;
        })

  cleaned-Sound :
      (k n : ℕ) (st : State) (added : Bool)
      → Sound k n st
      → waits st.ctx ≡ 0
      → env.alloc_ctx ≡ true
      → env.alloc_cleanup ≡ added
      → Sound k n (new_request env lcf st).1
  unfolding new_request
  cleaned-Sound k n st true s w t t' =
      (new_request-Settled env lcf k n st (omega (arith, s.inflight, w)) s.rebind
        (omega (arith, s.count, w)) t t').sound
  cleaned-Sound k n st false s w t f =
      if_cases (λ (r : Code × State). Sound k n r.1) env.alloc_ctx
        (λ _. uncleaned-Sound k n st s w f) (λ _. s)

  new_request-Sound :
      (k n : ℕ) (st : State) (made : Bool)
      → Sound k n st
      → waits st.ctx ≡ 0
      → env.alloc_ctx ≡ made
      → Sound k n (new_request env lcf st).1
  unfolding new_request
  new_request-Sound k n st true s w t = cleaned-Sound k n st env.alloc_cleanup s w t refl
  new_request-Sound k n st false s w f =
      if_cases (λ (r : Code × State). Sound k n r.1) env.alloc_ctx (λ t. cc) (λ _. s)

  resume-Sound :
      (k n : ℕ) (c : Option ReqCtx) (st : State)
      → Sound k n st
      → (st.ctx ≡ c) ⊎ ((c ≡ none) × (waits st.ctx ≡ 0))
      → Sound k n (resume env lcf c st).1
  unfolding resume waits
  resume-Sound k n none st s (inl at) = new_request-Sound k n st env.alloc_ctx s (ap waits at) refl
  resume-Sound k n none st s (inr (e, w)) = new_request-Sound k n st env.alloc_ctx s w refl
  resume-Sound k n (some c) st s (inl at) =
      if_cases (λ (r : Code × State). Sound k n r.1) c.done (λ _. s)
        (λ _.
          if_cases (λ (r : Code × State). Sound k n r.1) c.waiting (λ _. s)
            (λ w. new_request-Sound k n st env.alloc_ctx s (ap waits at ∙ rw w refl) refl))
  resume-Sound k n (some c) st s (inr (e, w)) = cc

  handle_main-Sound :
      (k n : ℕ) (st : State) (res : Option ReqCtx × State)
      → Looked k n st res
      → Sound k n (handle_main env lcf res).1
  unfolding handle_main
  handle_main-Sound k n st (c, st') l =
      if_cases (λ (r : Code × State). Sound k n r.1)
        (not (admission_enabled env lcf) && not lcf.report_enabled) (λ _. l.sound)
        (λ _.
          if_cases (λ (r : Code × State). Sound k n r.1) (not st'.main.enabled) (λ _. l.sound)
            (λ _. resume-Sound k n c st' l.sound l.seen))

  pub handler-Sound : (k n : ℕ) (st : State) → Sound k n st → Sound k n (handler env lcf st).1
  unfolding handler
  handler-Sound k n st s =
      if_cases (λ (r : Code × State). Sound k n r.1) env.is_main
        (λ _. handle_main-Sound k n st (get_request_ctx st) (get_request_ctx-Looked k n st s))
        (λ _. s)

-- ===== src/Request/Handled.antt =====
-- The handler of the pre-content phase as a whole: it settles a request or leaves it waiting.
use rl_nginx.Base.{
  ℕ, true, false, not, ◌&&◌, ◌||◌, Option, none, some, ◌≡◌, ◌⊎◌, inl, inr, refl, sym, ap, ◌∙◌,
  if_cases, arith,
}
use rl_nginx.Conf.{MainConf, LocConf}
use rl_nginx.Request.{Code, declined, ReqCtx, State, Env, slot, recover, look_up, get_request_ctx}
use rl_nginx.Request.Release.Balance.{waits, Coherent, AllCoherent, Sound}
use rl_nginx.Request.Admit.{admission_enabled, handle_main, handler}
use rl_nginx.Request.Settled.{Settled}
use rl_nginx.Request.Settled.Resumed.{resume-Settled}

-- What the lookup of the context gives: the context there is, or none of a request that waits.
pub record Looked (k n : ℕ) (st : State) (res : Option ReqCtx × State) : Type 0 where
  pub sound : Sound k n res.1
  pub seen : (res.1.ctx ≡ res.0) ⊎ ((res.0 ≡ none) × (waits res.1.ctx ≡ 0))
  same_main : res.1.main ≡ st.main
  same_ctx : res.1.ctx ≡ st.ctx
  same_calls : res.1.calls ≡ st.calls

unreached :
    (c : ReqCtx) (st : State)
    → Coherent c
    → (waits (some c) ≡ 1 → st.cleanup_added ≡ true)
    → (st.cleanup_added && c.live) ≡ false
    → waits (some c) ≡ 0
unfolding waits
unreached c st h r f = ground (arith, r, h.attached)

recover-Looked :
    (k n : ℕ) (c : Option ReqCtx) (st : State)
    → Sound k n st
    → st.ctx ≡ c
    → AllCoherent c
    → (waits c ≡ 1 → st.cleanup_added ≡ true)
    → Looked k n st (recover st c)
unfolding recover AllCoherent
recover-Looked k n none st s at h r = record {
  sound = s;
  seen = inl at;
  same_main = refl;
  same_ctx = refl;
  same_calls = refl;
}
recover-Looked k n (some c) st s at h r =
    if_cases (Looked k n st) (st.cleanup_added && c.live)
      (λ _. record {
        sound = record {
          inflight = s.inflight;
          count = s.count;
          coherent = s.coherent;
          rebind = s.rebind;
          reached = s.reached;
        };
        seen = inl at;
        same_main = refl;
        same_ctx = refl;
        same_calls = refl;
      })
      (λ f. record {
        sound = s;
        seen = inr (refl, ap waits at ∙ unreached c st h r f);
        same_main = refl;
        same_ctx = refl;
        same_calls = refl;
      })

look_up-Looked :
    (k n : ℕ) (c : Option ReqCtx) (st : State)
    → Sound k n st
    → (st.ctx ≡ c) ⊎ (c ≡ none)
    → Looked k n st (look_up st c)
unfolding look_up
look_up-Looked k n (some c) st s (inl at) = record {
  sound = s;
  seen = inl at;
  same_main = refl;
  same_ctx = refl;
  same_calls = refl;
}
look_up-Looked k n (some c) st s (inr no_slot) = cc
look_up-Looked k n none st s at = recover-Looked k n st.ctx st s refl s.coherent s.reached

pub get_request_ctx-Looked :
    (k n : ℕ) (st : State) → Sound k n st → Looked k n st (get_request_ctx st)
unfolding get_request_ctx
get_request_ctx-Looked k n st s =
    look_up-Looked k n (slot st) st s
      (if_cases (λ o. (st.ctx ≡ o) ⊎ (o ≡ none)) st.ctx_set (λ _. inl refl) (λ _. inr refl))

-- A request that is passed on without a decision: the handler does nothing for a subrequest, for a
-- location that neither limits nor reports, and where the module is not enabled.
pub record Bypassed (k n : ℕ) (env : Env) (lcf : LocConf) (st : State) (res : Code × State)
    : Type 0 where
  pub not_asked :
      (env.is_main ≡ false)
      ⊎ ((admission_enabled env lcf || lcf.report_enabled) ≡ false)
      ⊎ (st.main.enabled ≡ false)
  pub declines : res.0 ≡ declined
  pub same_ctx : res.1.ctx ≡ st.ctx
  pub same_calls : res.1.calls ≡ st.calls
  pub sound : Sound k n res.1

module _ (env : Env) (lcf : LocConf) where
  handle_main-Handled :
      (k n : ℕ) (st : State) (res : Option ReqCtx × State)
      → Looked k n st res
      → env.alloc_ctx ≡ true
      → env.alloc_cleanup ≡ true
      → Settled k n (handle_main env lcf res) ⊎ Bypassed k n env lcf st (handle_main env lcf res)
  unfolding handle_main
  handle_main-Handled k n st (c, st') l alloc alloc' =
      if_cases (λ r. Settled k n r ⊎ Bypassed k n env lcf st r)
        (not (admission_enabled env lcf) && not lcf.report_enabled)
        (λ off. inr (record {
          not_asked = inr (inl (ground arith));
          declines = refl;
          same_ctx = l.same_ctx;
          same_calls = l.same_calls;
          sound = l.sound;
        }))
        (λ on.
          if_cases (λ r. Settled k n r ⊎ Bypassed k n env lcf st r) (not st'.main.enabled)
            (λ off. inr (record {
              not_asked =
                  inr (inr (ap (λ (m : MainConf). m.enabled) (sym l.same_main) ∙ ground arith));
              declines = refl;
              same_ctx = l.same_ctx;
              same_calls = l.same_calls;
              sound = l.sound;
            }))
            (λ on'. inl (resume-Settled env lcf k n c st' l.sound l.seen alloc alloc')))

  -- When the two allocations for the context succeed, the handler either passes the request on untouched,
  -- because it is a subrequest, or the location asks for nothing, or the module is not enabled; or
  -- it leaves it with a context that is settled with the code that is returned, or that waits, and
  -- then the code is `again`. The counts of the worker and of nginx grow by one exactly
  -- when it waits, whatever failed on the way.
  pub handler_settles :
      (k n : ℕ) (st : State)
      → Sound k n st
      → env.alloc_ctx ≡ true
      → env.alloc_cleanup ≡ true
      → Settled k n (handler env lcf st) ⊎ Bypassed k n env lcf st (handler env lcf st)
  unfolding handler
  handler_settles k n st s alloc alloc' =
      if_cases (λ r. Settled k n r ⊎ Bypassed k n env lcf st r) env.is_main
        (λ _.
          handle_main-Handled k n st (get_request_ctx st) (get_request_ctx-Looked k n st s) alloc
            alloc')
        (λ sub. inr (record {
          not_asked = inl sub;
          declines = refl;
          same_ctx = refl;
          same_calls = refl;
          sound = s;
        }))

-- ===== src/Request/Settled/Started.antt =====
-- The stages of the handler from the rules of a location to the start of its request.
use rl_nginx.Base.{
  ℕ, ◌+◌, true, ◌&&◌, ◌||◌, Option, none, some, List, [], ◌∷◌, Bytes, ◌≡◌, inl, inr, refl, ◌==◌,
  if_cases, Result, ok, err, arith,
}
use rl_nginx.Conf.{LocConf, Rule}
use rl_nginx.Worker.{Worker}
use rl_nginx.Request.{
  internal_server_error, ReqCtx, State, Env, finish_preflight_failure, finish_internal_error,
}
use rl_nginx.Request.Expand.{
  Failure, internal, preflight, Entries, no_entries, count_rules, add_rules,
}
use rl_nginx.Request.Release.{released, release, teardown}
use rl_nginx.Request.Release.Balance.{
  inflight_of, worker_armed, waits, Coherent, AllCoherent, release-Sound,
}
use rl_nginx.Request.Admit.{
  leave, watch_client, started, after_start, asked, expecting, start_async, fail_with, render_label,
  with_label, with_entries, bypass, arrays_allocated, with_counts, with_rules, no_client,
}
use rl_nginx.Request.Settled.{
  Idle, Others, Answered, Settled, leave-Settled, started_inflight, started_armed,
}

module _ (env : Env) (lcf : LocConf) where
  fail_with-Settled :
      (k n : ℕ) (f : Failure) (c : ReqCtx) (st : State)
      → Others k n st
      → Idle c
      → Settled k n (fail_with env lcf f c st)
  unfolding fail_with finish_internal_error finish_preflight_failure
  fail_with-Settled k n internal c st o i = leave-Settled k n _ c _ st o i refl refl refl
  fail_with-Settled k n preflight c st o i = leave-Settled k n _ c _ st o i refl refl refl

  bypass-Settled :
      (k n : ℕ) (c : ReqCtx) (st : State)
      → Others k n st
      → Idle c
      → Settled k n (bypass env lcf c st)
  unfolding bypass
  bypass-Settled k n c st o i = leave-Settled k n _ c _ st o i refl refl refl

  pub no_client-Settled :
      (k n : ℕ) (c : ReqCtx) (st : State)
      → Others k n st
      → Idle c
      → Settled k n (no_client env lcf c st)
  unfolding no_client
  no_client-Settled k n c st o i = leave-Settled k n _ c _ st o i refl refl refl

  torn-Settled :
      (k n : ℕ) (c : ReqCtx) (st : State)
      → Coherent c
      → c.waiting ≡ true
      → inflight_of st.worker ≡ k + 1
      → st.count ≡ n + 1
      → worker_armed st.worker ≡ true
      → Settled k n (
          leave internal_server_error
            (finish_internal_error (released c))
            (teardown c none true st))
  unfolding teardown release released finish_internal_error AllCoherent waits Answered
  torn-Settled k n c st h w e₁ e₂ a =
      let s = release-Sound k n c true st h (rw w e₁) (rw w e₂) a in
      record {
        ctx = finish_internal_error (released c);
        is_ctx = refl;
        answered = inl (refl, refl, refl);
        sound = record {
          inflight = s.inflight;
          count = s.count;
          coherent = record {
            counted = refl;
            nginx = refl;
            owned = refl;
            attached = λ t. cc;
            undone = λ t. cc;
          };
          rebind = s.rebind;
          reached = λ z. ground arith;
        };
      }

  -- The last step: the request waits, or it is torn down.
  watch_client-Settled :
      (k n : ℕ) (c : ReqCtx) (st : State)
      → Coherent c
      → c.waiting ≡ true
      → inflight_of st.worker ≡ k + 1
      → st.count ≡ n + 1
      → worker_armed st.worker ≡ true
      → st.cleanup_added ≡ true
      → Settled k n (watch_client env lcf c st)
  unfolding watch_client AllCoherent waits Answered
  watch_client-Settled k n c st h w e₁ e₂ a added =
      if_cases (Settled k n) (env.read_ready || env.read_event_ok)
        (λ _. record {
          ctx = c;
          is_ctx = refl;
          answered = inr (h.undone w, w, refl);
          sound = record {
            inflight = rw w e₁;
            count = rw w e₂;
            coherent = h;
            rebind = a;
            reached = λ _. added;
          };
        })
        (λ _. torn-Settled k n c st h w e₁ e₂ a)

  after_start-Settled :
      (k n : ℕ) (req : Option ℕ) (c : ReqCtx) (w : Worker) (st : State)
      → Others k n st
      → Idle c
      → c.has_worker ≡ true
      → st.worker ≡ some w
      → Settled k n (after_start env lcf req c w st)
  unfolding after_start started finish_preflight_failure
  after_start-Settled k n none c w st o i b e = leave-Settled k n _ c _ st o i refl refl refl
  after_start-Settled k n (some req) c w st o i b e =
      watch_client-Settled k n (started env lcf req c)
        (record st { worker = some (record w { inflight = w.inflight + 1 }); count = st.count + 1 })
        (record {
          counted = refl;
          nginx = refl;
          owned = refl;
          attached = λ _. (b, i.is_live);
          undone = λ _. i.not_done;
        })
        refl (started_inflight k w st e o.inflight) (omega (arith, o.count)) (started_armed w)
        o.added

  start_async-Settled :
      (k n : ℕ) (e : Entries) (label : Bytes) (c : ReqCtx) (w : Worker) (st : State)
      → Others k n st
      → Idle c
      → c.has_worker ≡ true
      → st.worker ≡ some w
      → Settled k n (start_async env lcf e label c w st)
  unfolding start_async asked expecting
  start_async-Settled k n e label c w st o i b at =
      after_start-Settled k n (env.start_request e.resources e.guards label) (expecting env lcf e c)
        w (asked env lcf e label st)
        (record { inflight = o.inflight; count = o.count; rebind = o.rebind; added = o.added })
        (record {
          not_waiting = i.not_waiting;
          not_counted = i.not_counted;
          not_nginx = i.not_nginx;
          no_req = i.no_req;
          is_live = i.is_live;
          not_done = i.not_done;
          undecided = i.undecided;
        })
        b at

  with_label-Settled :
      (k n : ℕ) (e : Entries) (label : Result Failure Bytes) (c : ReqCtx) (w : Worker) (st : State)
      → Others k n st
      → Idle c
      → c.has_worker ≡ true
      → st.worker ≡ some w
      → Settled k n (with_label env lcf e label c w st)
  unfolding with_label
  with_label-Settled k n e (err f) c w st o i b at = fail_with-Settled k n f c st o i
  with_label-Settled k n e (ok label) c w st o i b at =
      start_async-Settled k n e label c w st o i b at

  with_entries-Settled :
      (k n : ℕ) (e : Result Failure Entries) (c : ReqCtx) (w : Worker) (st : State)
      → Others k n st
      → Idle c
      → c.has_worker ≡ true
      → st.worker ≡ some w
      → Settled k n (with_entries env lcf e c w st)
  unfolding with_entries
  with_entries-Settled k n (err f) c w st o i b at = fail_with-Settled k n f c st o i
  with_entries-Settled k n (ok e) c w st o i b at =
      with_label-Settled k n e (render_label env lcf) c w st o i b at

  with_counts-Settled :
      (k n : ℕ) (counts : Result Failure (ℕ × ℕ)) (rules : List Rule) (c : ReqCtx) (w : Worker)
      (st : State)
      → Others k n st
      → Idle c
      → c.has_worker ≡ true
      → st.worker ≡ some w
      → Settled k n (with_counts env lcf counts rules c w st)
  unfolding with_counts
  with_counts-Settled k n (err f) rules c w st o i b at = fail_with-Settled k n f c st o i
  with_counts-Settled k n (ok (total, refs)) rules c w st o i b at =
      if_cases (Settled k n) (total == 0 && refs == 0) (λ _. bypass-Settled k n c st o i)
        (λ _.
          if_cases (Settled k n) (arrays_allocated env lcf total refs)
            (λ _. with_entries-Settled k n (add_rules env st.main rules no_entries) c w st o i b at)
            (λ _. fail_with-Settled k n internal c st o i))

  pub with_rules-Settled :
      (k n : ℕ) (rules : Option (List Rule)) (c : ReqCtx) (w : Worker) (st : State)
      → Others k n st
      → Idle c
      → c.has_worker ≡ true
      → st.worker ≡ some w
      → Settled k n (with_rules env lcf rules c w st)
  unfolding with_rules
  with_rules-Settled k n none c w st o i b at = bypass-Settled k n c st o i
  with_rules-Settled k n (some []) c w st o i b at = bypass-Settled k n c st o i
  with_rules-Settled k n (some (rule ∷ rules)) c w st o i b at =
      with_counts-Settled k n (count_rules st.main (rule ∷ rules) 0 0) (rule ∷ rules) c w st o i b
        at

-- ===== src/Request/Release/Balance.antt =====
-- The counts that `rn_request_teardown` and `rn_request_cleanup` release.
use rl_nginx.Base.{
  ℕ, ◌+◌, Bool, true, false, not, ◌&&◌, Option, none, some, ◌≡◌, refl, ◌∙◌, if◌then◌else◌, if_cases,
  is_some, arith,
}
use rl_nginx.Worker.{Worker}
use rl_nginx.Worker.Rebind.{armed, schedule_rebind-armed, schedule_rebind-inflight}
use rl_nginx.Request.{ReqCtx, State}
use rl_nginx.Request.Release.{
  same_req, pred, released, uncounted, leave_worker, release, teardown, clean, kill,
  aborted_if_waiting, is_waiting, request_cleanup,
}

-- The requests that a worker counts, and whether its pending replacement is scheduled.
unfoldable pub inflight_of : Option Worker → ℕ
inflight_of none = 0
inflight_of (some w) = w.inflight

unfoldable pub worker_armed : Option Worker → Bool
unfolding armed
worker_armed none = true
worker_armed (some w) = armed w

-- 1 for a request that waits for its answer.
unfoldable pub waits : Option ReqCtx → ℕ
waits none = 0
waits (some c) = if c.waiting then 1 else 0

-- A context owns all of a request in flight while it waits, and nothing of it otherwise.
pub record Coherent (c : ReqCtx) : Type 0 where
  pub counted : c.inflight_counted ≡ c.waiting
  pub nginx : c.nginx_counted ≡ c.waiting
  pub owned : is_some c.req ≡ c.waiting
  pub attached : c.waiting ≡ true → (c.has_worker ≡ true) × (c.live ≡ true)
  pub undone : c.waiting ≡ true → c.done ≡ false

unfoldable pub AllCoherent : Option ReqCtx → Type 0
AllCoherent none = Unit {0}
AllCoherent (some c) = Coherent c

-- A state in which the worker counts `k` requests of others and nginx holds `n` references of others.
pub record Sound (k n : ℕ) (st : State) : Type 0 where
  pub inflight : inflight_of st.worker ≡ k + waits st.ctx
  pub count : st.count ≡ n + waits st.ctx
  pub coherent : AllCoherent st.ctx
  pub rebind : worker_armed st.worker ≡ true
  pub reached : waits st.ctx ≡ 1 → st.cleanup_added ≡ true

uncounted-inflight :
    (c : ReqCtx) (w : Worker) (k : ℕ)
    → c.inflight_counted ≡ c.waiting
    → w.inflight ≡ k + waits (some c)
    → (uncounted c w).inflight ≡ k
unfolding uncounted waits
uncounted-inflight c w k h e = ground arith

idle-inflight :
    (c : ReqCtx) (w : Worker) (k : ℕ)
    → Coherent c
    → c.has_worker ≡ false
    → w.inflight ≡ k + waits (some c)
    → w.inflight ≡ k
unfolding waits
idle-inflight c w k h f e = ground (arith, h.attached)

leave_worker-inflight :
    (c : ReqCtx) (w : Option Worker) (k : ℕ)
    → Coherent c
    → inflight_of w ≡ k + waits (some c)
    → inflight_of (leave_worker c w) ≡ k
unfolding leave_worker inflight_of
leave_worker-inflight c none k h e = omega arith
leave_worker-inflight c (some w) k h e =
    if_cases (λ v. inflight_of v ≡ k) c.has_worker
      (λ _. schedule_rebind-inflight (uncounted c w) ∙ uncounted-inflight c w k h.counted e)
      (λ f. idle-inflight c w k h f e)

leave_worker-armed :
    (c : ReqCtx) (w : Option Worker)
    → worker_armed w ≡ true
    → worker_armed (leave_worker c w) ≡ true
unfolding leave_worker worker_armed
leave_worker-armed c none h = refl
leave_worker-armed c (some w) h =
    if_cases (λ v. worker_armed v ≡ true) c.has_worker (λ _. schedule_rebind-armed (uncounted c w))
      (λ _. h)

released-Coherent : (c : ReqCtx) → Coherent (released c)
unfolding released
released-Coherent c = record {
  counted = refl;
  nginx = refl;
  owned = refl;
  attached = λ h. cc;
  undone = λ h. cc;
}

count_released :
    (c : ReqCtx) (count n : ℕ)
    → Coherent c
    → count ≡ n + waits (some c)
    → (if c.nginx_counted && c.live then pred count else count) ≡ n
unfolding waits
count_released c count n h e = ground (arith, h.nginx, h.attached)

-- What is left when a context has been released.
pub release-Sound :
    (k n : ℕ) (c : ReqCtx) (cancel? : Bool) (st : State)
    → Coherent c
    → inflight_of st.worker ≡ k + waits (some c)
    → st.count ≡ n + waits (some c)
    → worker_armed st.worker ≡ true
    → Sound k n (release c cancel? st)
unfolding release released AllCoherent waits
release-Sound k n c cancel? st h e₁ e₂ a = record {
  inflight = omega (arith, leave_worker-inflight c st.worker k h e₁);
  count = omega (arith, count_released c st.count n h e₂);
  coherent = released-Coherent c;
  rebind = leave_worker-armed c st.worker a;
  reached = λ w. ground arith;
}

-- A teardown that does not cancel, for a request that the context does not own, keeps everything.
pub teardown-Sound :
    (k n : ℕ) (c : ReqCtx) (req : Option ℕ) (cancel? : Bool) (st : State)
    → Coherent c
    → inflight_of st.worker ≡ k + waits (some c)
    → st.count ≡ n + waits (some c)
    → worker_armed st.worker ≡ true
    → (waits (some c) ≡ 1 → st.cleanup_added ≡ true)
    → Sound k n (teardown c req cancel? st)
unfolding teardown AllCoherent waits
teardown-Sound k n c req cancel? st h e₁ e₂ a reach =
    if_cases (Sound k n) (not cancel? && not (same_req c.req req))
      (λ _. record { inflight = e₁; count = e₂; coherent = h; rebind = a; reached = reach })
      (λ _. release-Sound k n c cancel? st h e₁ e₂ a)

aborted-Coherent : (c : ReqCtx) → Coherent c → Coherent (aborted_if_waiting c)
unfolding aborted_if_waiting
aborted-Coherent c h =
    if_cases Coherent (is_waiting c.admission_outcome)
      (λ _. record {
        counted = h.counted;
        nginx = h.nginx;
        owned = h.owned;
        attached = h.attached;
        undone = h.undone;
      })
      (λ _. h)

aborted-waiting : (c : ReqCtx) → (aborted_if_waiting c).waiting ≡ c.waiting
unfolding aborted_if_waiting
aborted-waiting c = ground arith

killed-Sound :
    (k n : ℕ) (c : ReqCtx) (st : State)
    → Coherent c
    → inflight_of st.worker ≡ k + waits (some c)
    → st.count ≡ n + waits (some c)
    → worker_armed st.worker ≡ true
    → (Sound k n (kill (teardown c none true st) (teardown c none true st).ctx))
      × (waits (kill (teardown c none true st) (teardown c none true st).ctx).ctx ≡ 0)
unfolding kill teardown release released AllCoherent waits
killed-Sound k n c st h e₁ e₂ a = (
  record {
    inflight = omega (arith, leave_worker-inflight c st.worker k h e₁);
    count = omega (arith, count_released c st.count n h e₂);
    coherent = record {
      counted = refl;
      nginx = refl;
      owned = refl;
      attached = λ x. cc;
      undone = λ x. cc;
    };
    rebind = leave_worker-armed c st.worker a;
    reached = λ w. ground arith;
  },
  refl,
)

pub clean-Sound :
    (k n : ℕ) (st : State) (c : Option ReqCtx)
    → AllCoherent c
    → inflight_of st.worker ≡ k + waits c
    → st.count ≡ n + waits c
    → worker_armed st.worker ≡ true
    → st.ctx ≡ c
    → (Sound k n (clean st c)) × (waits (clean st c).ctx ≡ 0)
unfolding clean AllCoherent waits
clean-Sound k n st none h e₁ e₂ a at = (
  record {
    inflight = rw at e₁;
    count = rw at e₂;
    coherent = rw at tt;
    rebind = a;
    reached = rw at (λ w. ground arith);
  },
  rw at refl,
)
clean-Sound k n st (some c) h e₁ e₂ a at =
    killed-Sound k n (aborted_if_waiting c) st (aborted-Coherent c h) (rw (aborted-waiting c) e₁)
      (rw (aborted-waiting c) e₂) a

-- The cleanup of a request leaves no trace of it in the counts: the worker counts as many requests as it
-- counts for others, nginx holds as many references, and a pending replacement of the endpoint that
-- the request was holding up is scheduled.
pub request_cleanup_releases :
    (k n : ℕ) (st : State)
    → Sound k n st
    → st.cleanup_added ≡ true
    → (inflight_of (request_cleanup st).worker ≡ k)
      × ((request_cleanup st).count ≡ n)
      × (worker_armed (request_cleanup st).worker ≡ true)
unfolding request_cleanup
request_cleanup_releases k n st h added =
    let r = clean-Sound k n st st.ctx h.coherent h.inflight h.count h.rebind refl in
    if_cases
      (λ (s : State). (inflight_of s.worker ≡ k) × (s.count ≡ n) × (worker_armed s.worker ≡ true))
      st.cleanup_added
      (λ _. (omega (arith, r.0.inflight, r.1), omega (arith, r.0.count, r.1), r.0.rebind)) (λ f. cc)

pub request_cleanup-Sound : (k n : ℕ) (st : State) → Sound k n st → Sound k n (request_cleanup st)
unfolding request_cleanup
request_cleanup-Sound k n st h =
    if_cases (Sound k n) st.cleanup_added
      (λ _. (clean-Sound k n st st.ctx h.coherent h.inflight h.count h.rebind refl).0) (λ _. h)

-- ===== src/Worker/Backoff.antt =====
-- The retries of the worker's creation: `rn_worker_ensure`.
use rl_nginx.Base.{
  ℕ, ◌+◌, ◌^◌, ◌<◌, ◌≤◌, true, not, ◌&&◌, Option, none, some, ◌≡◌, refl, ◌==◌, if◌then◌else◌,
  if_cases, ◌⊎◌, inl, inr, min, ◌*◌, false, arith,
}
use rl_nginx.Conf.{MainConf}
use rl_nginx.Worker.{
  Worker, EnsureCode, retry_later, init_failed, init_attempted, new_worker, worker_ensure, is_after,
  next_delay,
}

-- The delay in force: one second, until a failure has set another.
unfoldable pub wait_ms : MainConf → ℕ
wait_ms mcf = if mcf.init_retry_delay == 0 then 1000 else mcf.init_retry_delay

-- The configuration after a failure at `now`.
unfoldable pub failed_at : ℕ → MainConf → MainConf
unfolding wait_ms
failed_at now mcf = record mcf {
  init_retry_at = now + wait_ms mcf;
  init_retry_delay = min 5000 (2 * wait_ms mcf);
}

ahead : (now delay d : ℕ) → d < delay → delay < 2 ^ 32 → is_after (now + delay) (now + d) ≡ true
ahead now delay d h b = ground arith

reached : (at now : ℕ) → at ≤ now → now < 2 ^ 63 → is_after at now ≡ false
reached at now h b = ground arith

wait_bounds :
    (mcf : MainConf) → mcf.init_retry_delay ≤ 5000 → (1 ≤ wait_ms mcf) × (wait_ms mcf ≤ 5000)
unfolding wait_ms
wait_bounds mcf h = ground arith

next_delay-min : (delay : ℕ) → next_delay delay ≡ min 5000 (2 * delay)
next_delay-min delay = ground arith

wait_ms-positive : (mcf : MainConf) → 1 ≤ mcf.init_retry_delay → wait_ms mcf ≡ mcf.init_retry_delay
unfolding wait_ms
wait_ms-positive mcf h = ground arith

attempt :
    (mcf : MainConf) (now : ℕ)
    → now + wait_ms mcf < 2 ^ 64
    → init_attempted now none mcf ≡ (init_failed, failed_at now mcf, none)
unfolding init_attempted failed_at wait_ms
attempt mcf now h = ground (arith, next_delay-min (wait_ms mcf))

-- A failure to create the worker, the first one or one whose time has come, sets the time of the next
-- attempt after the delay in force (one second at first) and doubles the delay, up to the bound of
-- five seconds. No call before that time attempts it: each reports that it is to be retried and
-- changes nothing. The clock stays below 2 ^ 63 milliseconds.
pub worker_ensure_backoff :
    (mcf : MainConf) (now d : ℕ) (init : Option ℕ)
    → (mcf.init_retry_at ≡ 0) ⊎ (mcf.init_retry_at ≤ now)
    → mcf.init_retry_delay ≤ 5000
    → now < 2 ^ 63
    → d < wait_ms mcf
    → (worker_ensure now none mcf none ≡ (init_failed, failed_at now mcf, none))
      × (worker_ensure (now + d) init (failed_at now mcf) none
          ≡ (retry_later, failed_at now mcf, none))
      × (wait_ms (failed_at now mcf) ≡ min 5000 (2 * wait_ms mcf))
unfolding worker_ensure failed_at
worker_ensure_backoff mcf now d init due small clock early =
    let b = wait_bounds mcf small in
    (
      ground (arith, due, attempt mcf now (omega (arith, b.1)), reached mcf.init_retry_at now),
      ground (arith, ahead now (wait_ms mcf) d early (omega (arith, b.1)), b.0),
      wait_ms-positive (failed_at now mcf) (omega (arith, b.0)),
    )

-- The worker after a call is the one before, or a new one.
pub worker_ensure-kept :
    (mcf : MainConf) (now : ℕ) (init : Option ℕ) (w : Option Worker)
    → ((worker_ensure now init mcf w).2 ≡ w)
      ⊎ ((w ≡ none) × ((e : ℕ) × ((worker_ensure now init mcf w).2 ≡ some (new_worker e))))
unfolding worker_ensure init_attempted
worker_ensure-kept mcf now init (some w) = inl refl
worker_ensure-kept mcf now none none =
    if_cases {A = EnsureCode × MainConf × Option Worker}
      (λ r.
        (r.2 ≡ none)
        ⊎ ((◌≡◌ {A = Option Worker} none none) × ((e : ℕ) × (r.2 ≡ some (new_worker e)))))
      (not (mcf.init_retry_at == 0) && is_after mcf.init_retry_at now) (λ _. inl refl)
      (λ _. inl refl)
worker_ensure-kept mcf now (some e) none =
    if_cases {A = EnsureCode × MainConf × Option Worker}
      (λ r.
        (r.2 ≡ none)
        ⊎ ((◌≡◌ {A = Option Worker} none none) × ((e' : ℕ) × (r.2 ≡ some (new_worker e')))))
      (not (mcf.init_retry_at == 0) && is_after mcf.init_retry_at now) (λ _. inl refl)
      (λ _. inr (refl, (e, refl)))

-- ===== src/Worker.antt =====
-- The worker's state in src/ngx_http_ratelimitly_module.c (`rn_worker_ctx_t`): the count of requests in
-- flight, the replacement of the UDP endpoint, and the creation of the worker with its retries. The
-- endpoint is known by a number; opening a candidate (`rn_open_socket_candidate`) and
-- the client that `rn_worker_init` creates on it are what the environment gives.
pub mod Backoff
pub mod Rebind
pub mod Receive
pub mod Endpoint
pub mod Send
pub mod Init
pub mod Released
pub mod Lifetime
use rl_nginx.Base.{
  ℕ, ◌+◌, ◌-◌, ◌*◌, ◌/◌, ◌%◌, ◌^◌, Bool, true, false, not, ◌&&◌, ◌||◌, Option, none, some, ltb,
  ◌==◌, if◌then◌else◌,
}
use rl_nginx.Conf.{MainConf}

-- `rebind_delay` is the delay the timer of the rebind event was armed with.
pub record Worker : Type 0 where
  pub client : Bool
  pub endpoint : ℕ
  pub inflight : ℕ
  pub rebind_pending : Bool
  pub rebind_scheduled : Bool
  pub rebind_delay : ℕ
  pub udp_read_active : Bool

abbrev pub rebind_retry_ms : ℕ
rebind_retry_ms = 1000

abbrev pub init_retry_initial_ms : ℕ
init_retry_initial_ms = 1000

abbrev pub init_retry_max_ms : ℕ
init_retry_max_ms = 5000

unfoldable pub schedule_rebind_after : Worker → ℕ → Worker
schedule_rebind_after w delay =
    if not w.rebind_pending || not (w.inflight == 0) || w.rebind_scheduled
    then w
    else record w { rebind_scheduled = true; rebind_delay = delay }

unfoldable pub schedule_rebind : Worker → Worker
unfolding schedule_rebind_after
schedule_rebind w = schedule_rebind_after w 0

unfoldable pub on_steering_feedback : Bool → Worker → Worker
unfolding schedule_rebind
on_steering_feedback keep_port w =
    if keep_port then w else schedule_rebind (record w { rebind_pending = true })

-- The new endpoint is `none` when no candidate could be opened.
unfoldable pub rebind_socket : Option ℕ → Worker → Option Worker
rebind_socket none w = none
rebind_socket (some endpoint) w = some (record w { endpoint = endpoint; rebind_pending = false })

unfoldable pub rebound : Worker → Option Worker → Worker
unfolding schedule_rebind_after
rebound w none = schedule_rebind_after w rebind_retry_ms
rebound w (some w') = w'

unfoldable pub rebind_handler : Option ℕ → Worker → Worker
unfolding schedule_rebind_after rebind_socket rebound
rebind_handler candidate w =
    let v : Worker = record w { rebind_scheduled = false } in
    if not v.rebind_pending || not (v.inflight == 0)
    then v
    else if v.udp_read_active
    then schedule_rebind_after v 1
    else rebound v (rebind_socket candidate v)

pub data EnsureCode : Type 0 where
  ready retry_later init_failed : EnsureCode

-- `(ngx_msec_int_t) (at - now) > 0` on 64-bit milliseconds.
abbrev pub is_after : ℕ → ℕ → Bool
is_after at now = let d = (at + 2 ^ 64 - now) % 2 ^ 64 in not (d == 0) && ltb d (2 ^ 63)

abbrev pub next_delay : ℕ → ℕ
next_delay delay = if ltb delay (init_retry_max_ms / 2) then delay * 2 else init_retry_max_ms

-- The worker that `rn_worker_init` makes, on the endpoint that it opened.
unfoldable pub new_worker : ℕ → Worker
new_worker endpoint = record {
  client = true;
  endpoint = endpoint;
  inflight = 0;
  rebind_pending = false;
  rebind_scheduled = false;
  rebind_delay = 0;
  udp_read_active = false;
}

-- After `rn_worker_init`: on a failure, the time of the next attempt and the delay after it.
unfoldable pub init_attempted : ℕ → Option ℕ → MainConf → EnsureCode × MainConf × Option Worker
unfolding new_worker
init_attempted now (some endpoint) mcf =
    (ready, record mcf { init_retry_at = 0; init_retry_delay = 0 }, some (new_worker endpoint))
init_attempted now none mcf =
    let delay = if mcf.init_retry_delay == 0 then init_retry_initial_ms else mcf.init_retry_delay in
    (
      init_failed,
      record mcf { init_retry_at = (now + delay) % 2 ^ 64; init_retry_delay = next_delay delay },
      none,
    )

unfoldable pub worker_ensure :
    ℕ → Option ℕ → MainConf → Option Worker → EnsureCode × MainConf × Option Worker
unfolding init_attempted
worker_ensure now init mcf (some w) = (ready, mcf, some w)
worker_ensure now init mcf none =
    if not (mcf.init_retry_at == 0) && is_after mcf.init_retry_at now
    then (retry_later, mcf, none)
    else init_attempted now init mcf

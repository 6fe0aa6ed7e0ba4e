-- ===== src/Worker/Rebind.antt =====
-- The replacement of the UDP endpoint: `rn_on_steering_feedback`, `rn_schedule_rebind_after` and
-- `rn_rebind_handler`.
use rl_nginx.Base.{
  ℕ, Bool, true, false, not, ◌||◌, Option, none, some, ◌≡◌, refl, ◌⊎◌, inl, ◌==◌, arith,
}
use rl_nginx.Worker.{
  Worker, schedule_rebind_after, schedule_rebind, on_steering_feedback, rebind_socket, rebound,
  rebind_handler,
}

-- A replacement that is due is scheduled.
unfoldable pub armed : Worker → Bool
armed w = not w.rebind_pending || not (w.inflight == 0) || w.rebind_scheduled

pub schedule_rebind_after-armed :
    (w : Worker) (delay : ℕ) → armed (schedule_rebind_after w delay) ≡ true
unfolding armed schedule_rebind_after
schedule_rebind_after-armed w delay = ground arith

pub schedule_rebind_after-inflight :
    (w : Worker) (delay : ℕ) → (schedule_rebind_after w delay).inflight ≡ w.inflight
unfolding schedule_rebind_after
schedule_rebind_after-inflight w delay = ground arith

schedule_rebind_after-endpoint :
    (w : Worker) (delay : ℕ) → (schedule_rebind_after w delay).endpoint ≡ w.endpoint
unfolding schedule_rebind_after
schedule_rebind_after-endpoint w delay = ground arith

pub schedule_rebind-armed : (w : Worker) → armed (schedule_rebind w) ≡ true
unfolding schedule_rebind
schedule_rebind-armed w = schedule_rebind_after-armed w 0

pub schedule_rebind-inflight : (w : Worker) → (schedule_rebind w).inflight ≡ w.inflight
unfolding schedule_rebind
schedule_rebind-inflight w = schedule_rebind_after-inflight w 0

pub on_steering_feedback-armed :
    (keep_port : Bool) (w : Worker)
    → armed w ≡ true
    → armed (on_steering_feedback keep_port w) ≡ true
unfolding on_steering_feedback
on_steering_feedback-armed true w h = h
on_steering_feedback-armed false w h = schedule_rebind-armed (record w { rebind_pending = true })

pub on_steering_feedback-inflight :
    (keep_port : Bool) (w : Worker) → (on_steering_feedback keep_port w).inflight ≡ w.inflight
unfolding on_steering_feedback
on_steering_feedback-inflight true w = refl
on_steering_feedback-inflight false w =
    schedule_rebind-inflight (record w { rebind_pending = true })

-- What the handler of the rebind event guarantees.
pub record Rebind (candidate : Option ℕ) (w w' : Worker) : Type 0 where
  pub still_armed : armed w' ≡ true
  pub inflight_kept : w'.inflight ≡ w.inflight
  pub endpoint_safe :
      (w'.endpoint ≡ w.endpoint)
      ⊎ ((candidate ≡ some w'.endpoint)
          × (w.inflight ≡ 0)
          × (w.udp_read_active ≡ false)
          × (w.rebind_pending ≡ true)
          × (w'.rebind_pending ≡ false))

-- After the handler of the rebind event, whatever the worker's state and whether or not a new endpoint
-- could be opened: a replacement that is due is scheduled again, so that it is never forgotten, and the
-- endpoint is the old one, unless a replacement was pending, no request was in flight and
-- no datagram was being read, and then it is the one that was opened and none is pending any more.
pub rebind_handler_safe :
    (candidate : Option ℕ) (w : Worker) → Rebind candidate w (rebind_handler candidate w)
unfolding rebind_handler rebound rebind_socket armed
rebind_handler_safe none w = record {
  still_armed = ground (
    arith,
    schedule_rebind_after-armed (record w { rebind_scheduled = false }) 1000,
    schedule_rebind_after-armed (record w { rebind_scheduled = false }) 1,
  );
  inflight_kept = ground (
    arith,
    schedule_rebind_after-inflight (record w { rebind_scheduled = false }) 1000,
    schedule_rebind_after-inflight (record w { rebind_scheduled = false }) 1,
  );
  endpoint_safe = inl (
      ground (
        arith,
        schedule_rebind_after-endpoint (record w { rebind_scheduled = false }) 1000,
        schedule_rebind_after-endpoint (record w { rebind_scheduled = false }) 1,
      ));
}
rebind_handler_safe (some e) w = record {
  still_armed =
      ground (arith, schedule_rebind_after-armed (record w { rebind_scheduled = false }) 1);
  inflight_kept =
      ground (arith, schedule_rebind_after-inflight (record w { rebind_scheduled = false }) 1);
  endpoint_safe =
      ground (arith, schedule_rebind_after-endpoint (record w { rebind_scheduled = false }) 1);
}

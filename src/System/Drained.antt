-- ===== src/System/Drained.antt =====
-- A pending replacement of the UDP endpoint is not forgotten: it can be reached from every state of a
-- process by the ends of its requests and of a read and the timer of the rebind event (`Settling`).
use rl_nginx.Base.{ℕ, true, false, Option, none, some, List, [], ◌∷◌, ◌≡◌, refl, if_cases, arith}
use rl_nginx.Conf.{MainConf}
use rl_nginx.Worker.{
  Worker, schedule_rebind_after, schedule_rebind, rebind_socket, rebound, rebind_handler,
}
use rl_nginx.Worker.Rebind.{armed}
use rl_nginx.Request.{ReqCtx, State}
use rl_nginx.Request.Release.{
  uncounted, leave_worker, release, teardown, aborted_if_waiting, kill, clean, request_cleanup,
}
use rl_nginx.Request.Release.Balance.{inflight_of, worker_armed}
use rl_nginx.System.{Step, Held, Process, focus, without, close, read, rebind, Run, launched}
use rl_nginx.System.Balance.{waiting_requests, Balanced, Step-Balanced, Run-Balanced}

-- The steps that settle a process: a request ends, a read ends, and the timer of the rebind event fires,
-- which it does only when it is set. No server asks for anything, and no request arrives or goes on.
pub data IsSettling : (q r : Process) → Step q r → Type 0 where
  ends :
      (main : MainConf) (worker : Option Worker) (before : List Held) (h : Held) (after : List Held)
      → IsSettling _ _ (close main worker before h after)
  read_ends :
      (main : MainConf) (w : Worker) (requests : List Held)
      → IsSettling _ _ (read false main w requests)
  fires :
      (candidate : Option ℕ) (main : MainConf) (w : Worker) (requests : List Held)
      (set : w.rebind_scheduled ≡ true)
      → IsSettling _ _ (rebind candidate main w requests set)

pub data Settling (p : Process) : Process → Type 0 where
  at_once : Settling p p
  then_ : {q r : Process} (s : Step q r) → IsSettling q r s → Settling p q → Settling p r

-- A worker that still has a replacement to make.
record Pending (v : Option Worker) : Type 0 where
  worker : Worker
  is_worker : v ≡ some worker
  pending : worker.rebind_pending ≡ true

leave_worker-Pending :
    (c : ReqCtx) (w : Worker) → w.rebind_pending ≡ true → Pending (leave_worker c (some w))
unfolding leave_worker uncounted schedule_rebind schedule_rebind_after
leave_worker-Pending c w p =
    if_cases Pending c.has_worker
      (λ _. record {
        worker = schedule_rebind (uncounted c w);
        is_worker = refl;
        pending = ground (arith, p);
      })
      (λ _. record { worker = w; is_worker = refl; pending = p })

clean-Pending :
    (o : Option ReqCtx) (st : State) (w : Worker)
    → st.worker ≡ some w
    → w.rebind_pending ≡ true
    → Pending (clean st o).worker
unfolding clean teardown release kill
clean-Pending none st w at p = record { worker = w; is_worker = at; pending = p }
clean-Pending (some c) st w at p = rw at (leave_worker-Pending (aborted_if_waiting c) w p)

request_cleanup-Pending :
    (st : State) (w : Worker)
    → st.worker ≡ some w
    → w.rebind_pending ≡ true
    → Pending (request_cleanup st).worker
unfolding request_cleanup
request_cleanup-Pending st w at p =
    if_cases (λ (t : State). Pending t.worker) st.cleanup_added
      (λ _. clean-Pending st.ctx st w at p)
      (λ _. record { worker = w; is_worker = at; pending = p })

-- A process without requests that still has its replacement to make.
record Drained (p : Process) : Type 0 where
  main : MainConf
  worker : Worker
  settles : Settling p (record { main = main; worker = some worker; requests = [] })
  balanced : Balanced (record { main = main; worker = some worker; requests = [] })
  pending : worker.rebind_pending ≡ true

drain :
    (p : Process) (main : MainConf) (v : Option Worker) (w : Worker) (requests : List Held)
    → v ≡ some w
    → w.rebind_pending ≡ true
    → Settling p (record { main = main; worker = v; requests = requests })
    → Balanced (record { main = main; worker = v; requests = requests })
    → Drained p
unfolding without focus
drain p main v w [] at e r b = record {
  main = main;
  worker = w;
  settles = rw (← at) r;
  balanced = rw (← at) b;
  pending = e;
}
drain p main v w (h ∷ rest) at e r b =
    let left = request_cleanup-Pending (focus main v h) w at e in
    let s = close main v [] h rest in
    drain p (request_cleanup (focus main v h)).main (request_cleanup (focus main v h)).worker
      left.worker rest left.is_worker left.pending (then_ s (ends main v [] h rest) r)
      (Step-Balanced s b)

-- The replacement has been made with this endpoint.
pub record Replaced (endpoint : ℕ) (p : Process) : Type 0 where
  pub process : Process
  pub worker : Worker
  pub settles : Settling p process
  pub is_worker : process.worker ≡ some worker
  pub replaced : worker.endpoint ≡ endpoint
  pub settled : worker.rebind_pending ≡ false

rebind_handler-replaces :
    (endpoint : ℕ) (w : Worker)
    → w.rebind_pending ≡ true
    → w.inflight ≡ 0
    → w.udp_read_active ≡ false
    → ((rebind_handler (some endpoint) w).endpoint ≡ endpoint)
      × ((rebind_handler (some endpoint) w).rebind_pending ≡ false)
unfolding rebind_handler rebound rebind_socket
rebind_handler-replaces endpoint w p i r = ground (arith, p, i, r)

due :
    (w : Worker)
    → armed w ≡ true
    → w.rebind_pending ≡ true
    → w.inflight ≡ 0
    → w.rebind_scheduled ≡ true
unfolding armed
due w a p i = ground (arith, a, p, i)

Drained-Replaced : (endpoint : ℕ) (p : Process) → Drained p → Replaced endpoint p
unfolding inflight_of waiting_requests worker_armed
Drained-Replaced endpoint p d =
    let quiet : Worker = record d.worker { udp_read_active = false } in
    let (at, done) = rebind_handler-replaces endpoint quiet d.pending d.balanced.inflight refl in
    record {
      process = record {
        main = d.main;
        worker = some (rebind_handler (some endpoint) quiet);
        requests = [];
      };
      worker = rebind_handler (some endpoint) quiet;
      settles =
          let set = due d.worker d.balanced.rebind d.pending d.balanced.inflight in
          then_ (rebind (some endpoint) d.main quiet [] set)
            (fires (some endpoint) d.main quiet [] set)
            (then_ (read false d.main d.worker []) (read_ends d.main d.worker []) d.settles);
      is_worker = refl;
      replaced = at;
      settled = done;
    }

-- A process that runs, at any moment, with a replacement of the endpoint pending, and any new endpoint
-- that the system could open: whatever the requests are doing, their ends, the end of a read and the
-- timer of the rebind event, which is set once they have ended, lead to a state in which the worker has
-- that endpoint and no replacement is pending. Nothing else happens on the way: the server does not
-- ask again.
pub replacement_reached :
    (start main : MainConf) (w : Worker) (requests : List Held) (endpoint : ℕ)
    → Run (launched start) (record { main = main; worker = some w; requests = requests })
    → w.rebind_pending ≡ true
    → Replaced endpoint (record { main = main; worker = some w; requests = requests })
replacement_reached start main w requests endpoint r e =
    let p : Process = record { main = main; worker = some w; requests = requests } in
    Drained-Replaced endpoint p
      (drain p main (some w) w requests refl e at_once (Run-Balanced start p r))

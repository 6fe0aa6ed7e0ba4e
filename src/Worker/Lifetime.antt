-- ===== src/Worker/Lifetime.antt =====
-- The life of a worker: it is made, `rn_rebind_socket` replaces its endpoint any number of times, and the
-- process ends.
use rl_nginx.Base.{ℕ, Option, none, some, List, [], ◌∷◌, arith}
use rl_nginx.Conf.{Address, MainConf}
use rl_nginx.Memory.{Allocator, Memory, Holds, Holds-free, Holds-order, Holds-after, occurrences}
use rl_nginx.Worker.{rebind_socket, rebound}
use rl_nginx.Worker.Endpoint.{
  System, Endpoint, Open, close_endpoint, close_connection, open_candidate, Candidate,
  open_candidate-Candidate,
}
use rl_nginx.Worker.Init.{
  ClientConfig, LiveWorker, Resources, worker_cleanup, worker_init, exit_process,
}
use rl_nginx.Worker.Released.{Keeps, AllOrNothing, worker_init-AllOrNothing}

-- `rn_rebind_socket`, with what its caller does on a failure: the new endpoint takes the place of the old
-- one, which is closed then.
unfoldable pub replace_endpoint :
    Option Endpoint × Open → LiveWorker → Resources → LiveWorker × Resources
unfolding rebound rebind_socket close_endpoint
replace_endpoint (none, o) w r =
    (record w { worker = rebound w.worker (rebind_socket none w.worker) }, record r { udp = o })
replace_endpoint (some e, o) w r = (
  record w { endpoint = e; worker = rebound w.worker (rebind_socket (some e.fd) w.worker) },
  record r { udp = close_endpoint (some w.endpoint) o },
)

unfoldable pub rebind_live :
    System → Option Address → LiveWorker × Resources → LiveWorker × Resources
unfolding replace_endpoint open_candidate
rebind_live system address (w, r) = replace_endpoint (open_candidate system address r.udp) w r

-- The attempts, each with what the system gives then.
unfoldable pub rebinds :
    List System → Option Address → LiveWorker × Resources → LiveWorker × Resources
unfolding rebind_live
rebinds [] address live = live
rebinds (system ∷ systems) address live = rebinds systems address (rebind_live system address live)

unfoldable pub end_process : LiveWorker × Resources → Resources
unfolding exit_process
end_process (w, r) = exit_process (some w) r

unfoldable pub lifetime : List System → Option Address → Option LiveWorker × Resources → Resources
unfolding rebinds end_process
lifetime systems address (none, r) = r
lifetime systems address (some w, r) = end_process (rebinds systems address (w, r))

-- What a worker holds while it lives.
unfoldable Holding : Resources → LiveWorker × Resources → Type 0
Holding r₀ (w, r) =
    Keeps (w.block ∷ []) (w.endpoint.fd ∷ []) (w.endpoint.conn ∷ []) (w.client ∷ []) r₀ r

swapped : {m₀ m : Memory} (old new : ℕ) → Holds (new ∷ old ∷ []) m₀ m → Holds (old ∷ new ∷ []) m₀ m
unfolding occurrences
swapped old new h = Holds-order (λ p. ground arith) h

replace_endpoint-Holding :
    (r₀ : Resources) (system : System) (got : Option Endpoint × Open) (w : LiveWorker)
    (r : Resources)
    → Holding r₀ (w, r)
    → Candidate system r.udp got
    → Holding r₀ (replace_endpoint got w r)
unfolding Holding replace_endpoint Candidate close_endpoint close_connection
replace_endpoint-Holding r₀ system (none, o) w r k c = record {
  memory = k.memory;
  sockets = Holds-after k.sockets c.sockets;
  connections = Holds-after k.connections c.connections;
  still_clients = k.still_clients;
}
replace_endpoint-Holding r₀ system (some e, o) w r k c = record {
  memory = k.memory;
  sockets = Holds-free w.endpoint.fd (swapped w.endpoint.fd e.fd (Holds-after k.sockets c.sockets));
  connections =
      Holds-free w.endpoint.conn
        (swapped w.endpoint.conn e.conn (Holds-after k.connections c.connections));
  still_clients = k.still_clients;
}

rebinds-Holding :
    (r₀ : Resources) (systems : List System) (address : Option Address)
    (live : LiveWorker × Resources)
    → Holding r₀ live
    → Holding r₀ (rebinds systems address live)
unfolding rebinds rebind_live
rebinds-Holding r₀ [] address live h = h
rebinds-Holding r₀ (system ∷ systems) address (w, r) h =
    rebinds-Holding r₀ systems address (rebind_live system address (w, r)) (
      replace_endpoint-Holding r₀ system (open_candidate system address r.udp) w r h
        (open_candidate-Candidate system address r.udp))

end_process-Keeps :
    (r₀ : Resources) (live : LiveWorker × Resources)
    → Holding r₀ live
    → Keeps [] [] [] [] r₀ (end_process live)
unfolding Holding end_process exit_process worker_cleanup close_endpoint close_connection
end_process-Keeps r₀ (w, r) h = record {
  memory = Holds-free w.block h.memory;
  sockets = Holds-free w.endpoint.fd h.sockets;
  connections = Holds-free w.endpoint.conn h.connections;
  still_clients = Holds-free w.client h.still_clients;
}

lifetime-AllOrNothing :
    (systems : List System) (address : Option Address) (r₀ : Resources)
    (res : Option LiveWorker × Resources)
    → AllOrNothing r₀ res
    → Keeps [] [] [] [] r₀ (lifetime systems address res)
unfolding lifetime AllOrNothing Holding
lifetime-AllOrNothing systems address r₀ (none, r) a = a
lifetime-AllOrNothing systems address r₀ (some w, r) a =
    end_process-Keeps r₀ (rebinds systems address (w, r))
      (rebinds-Holding r₀ systems address (w, r) a.0)

-- From the making of a worker to the end of the process, with any number of attempts to replace its
-- endpoint in between, whatever the allocator, the system at each attempt and the client library
-- do: every block, socket, connection and client that was obtained has been given back.
pub lifetime-Keeps :
    (give : Allocator) (worker_size : ℕ) (system : System) (client_create : ClientConfig → Option ℕ)
    (mcf : MainConf) (systems : List System) (r : Resources)
    → Keeps [] [] [] [] r
        (lifetime systems mcf.bind (worker_init give worker_size system client_create mcf r))
lifetime-Keeps give worker_size system client_create mcf systems r =
    lifetime-AllOrNothing systems mcf.bind r
      (worker_init give worker_size system client_create mcf r)
      (worker_init-AllOrNothing give worker_size system client_create mcf 0 r).0

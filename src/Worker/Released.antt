-- ===== src/Worker/Released.antt =====
-- `rn_worker_init` makes a worker with all that it needs, or nothing; `rn_exit_process` gives it back.
use rl_nginx.Base.{
  ℕ, ◌+◌, Option, none, some, List, [], ◌∷◌, Bytes, ◌≡◌, refl, sym, ap, length, arith,
}
use rl_nginx.Conf.{MainConf}
use rl_nginx.Memory.{
  Allocator, Memory, occurrences, Holds, Holds-none, Holds-free, free_if, with_block,
  with_block-Holds,
}
use rl_nginx.Worker.{Worker, new_worker, init_attempted}
use rl_nginx.Worker.Endpoint.{
  System, Endpoint, Open, close_endpoint, close_connection, open_candidate, Candidate,
  open_candidate-Candidate,
}
use rl_nginx.Worker.Init.{
  ClientConfig, LiveWorker, Resources, text_of, release_buffers, worker_cleanup, init_failure,
  created, with_endpoint, with_secret, with_dns_name, worker_init, exit_process,
}

-- What is held between two moments: blocks, sockets, connections and clients.
pub record Keeps (blocks fds conns clients : List ℕ) (r r' : Resources) : Type 0 where
  pub memory : Holds blocks r.memory r'.memory
  pub sockets : Holds fds r.udp.sockets r'.udp.sockets
  pub connections : Holds conns r.udp.connections r'.udp.connections
  pub still_clients : Holds clients r.clients r'.clients

abbrev pub endpoint_of : Option LiveWorker → Option ℕ
endpoint_of none = none
endpoint_of (some w) = some w.endpoint.fd

abbrev pub live_worker : Option LiveWorker → Option Worker
live_worker none = none
live_worker (some w) = some w.worker

-- The blocks of the buffers while the worker is made, the last first.
abbrev buffers : ℕ → ℕ → Option ℕ → List ℕ
buffers block dns none = dns ∷ block ∷ []
buffers block dns (some secret) = secret ∷ dns ∷ block ∷ []

unfoldable pub AllOrNothing : Resources → Option LiveWorker × Resources → Type 0
AllOrNothing r (none, r') = Keeps [] [] [] [] r r'
AllOrNothing r (some w, r') =
    (Keeps (w.block ∷ []) (w.endpoint.fd ∷ []) (w.endpoint.conn ∷ []) (w.client ∷ []) r r')
    × (Keeps [] [] [] [] r (exit_process (some w) r'))
    × (w.worker ≡ new_worker w.endpoint.fd)

buffers-Holds :
    {m₀ : Memory} (block dns : ℕ) (secret : Option ℕ) (m : Memory)
    → Holds (buffers block dns secret) m₀ m
    → Holds (block ∷ []) m₀ (release_buffers (some dns) secret m)
unfolding release_buffers free_if
buffers-Holds block dns none m h = Holds-free dns h
buffers-Holds block dns (some secret) m h = Holds-free dns (Holds-free secret h)

init_failure-AllOrNothing :
    (r₀ : Resources) (block dns : ℕ) (secret : Option ℕ) (r : Resources)
    → Keeps (buffers block dns secret) [] [] [] r₀ r
    → AllOrNothing r₀ (init_failure block (some dns) secret none r)
unfolding init_failure AllOrNothing worker_cleanup close_endpoint free_if
init_failure-AllOrNothing r₀ block dns secret r k = record {
  memory = Holds-free block (buffers-Holds block dns secret r.memory k.memory);
  sockets = k.sockets;
  connections = k.connections;
  still_clients = k.still_clients;
}

init_failure_open-AllOrNothing :
    (r₀ : Resources) (block dns : ℕ) (secret : Option ℕ) (e : Endpoint) (r : Resources)
    → Keeps (buffers block dns secret) (e.fd ∷ []) (e.conn ∷ []) [] r₀ r
    → AllOrNothing r₀ (init_failure block (some dns) secret (some e) r)
unfolding init_failure AllOrNothing worker_cleanup close_endpoint close_connection free_if
init_failure_open-AllOrNothing r₀ block dns secret e r k = record {
  memory = Holds-free block (buffers-Holds block dns secret r.memory k.memory);
  sockets = Holds-free e.fd k.sockets;
  connections = Holds-free e.conn k.connections;
  still_clients = k.still_clients;
}

-- Memory alone was obtained so far.
unopened :
    {blocks : List ℕ} (r : Resources) {m : Memory}
    → Holds blocks r.memory m
    → Keeps blocks [] [] [] r (record r { memory = m })
unopened r h = record {
  memory = h;
  sockets = Holds-none r.udp.sockets;
  connections = Holds-none r.udp.connections;
  still_clients = Holds-none r.clients;
}

nothing_made :
    (r : Resources) (m : Memory)
    → Holds [] r.memory m
    → AllOrNothing r (none, record r { memory = m })
unfolding AllOrNothing
nothing_made r m h = unopened r h

only_block :
    (r : Resources) (block : ℕ) (m : Memory)
    → Holds (block ∷ []) r.memory m
    → AllOrNothing r (init_failure block none none none (record r { memory = m }))
unfolding init_failure AllOrNothing worker_cleanup close_endpoint free_if release_buffers
only_block r block m h = unopened r (Holds-free block h)

module _ (give : Allocator) (worker_size : ℕ) (system : System)
    (client_create : ClientConfig → Option ℕ) (mcf : MainConf) where
  created-AllOrNothing :
      (r₀ : Resources) (block dns : ℕ) (secret : Option ℕ) (e : Endpoint) (client : Option ℕ)
      (r : Resources)
      → Keeps (buffers block dns secret) (e.fd ∷ []) (e.conn ∷ []) [] r₀ r
      → AllOrNothing r₀
          (created give worker_size system client_create mcf block dns secret e client r)
  unfolding created AllOrNothing exit_process worker_cleanup close_endpoint close_connection free_if
      occurrences
  created-AllOrNothing r₀ block dns secret e none r k =
      init_failure_open-AllOrNothing r₀ block dns secret e r k
  created-AllOrNothing r₀ block dns secret e (some client) r k =
      let m = buffers-Holds block dns secret r.memory k.memory in
      let c : Holds (client ∷ []) r₀.clients
          (record r.clients { attempts = r.clients.attempts + 1; made = client ∷ r.clients.made }) =
        record { balance = λ p. ground (arith, k.still_clients.balance p) } in
      (
        record { memory = m; sockets = k.sockets; connections = k.connections; still_clients = c },
        record {
          memory = Holds-free block m;
          sockets = Holds-free e.fd k.sockets;
          connections = Holds-free e.conn k.connections;
          still_clients = Holds-free client c;
        },
        refl,
      )

  -- The sockets of a candidate, on top of what is held.
  with_endpoint-AllOrNothing :
      (r₀ : Resources) (block dns : ℕ) (secret : Option ℕ) (got : Option Endpoint × Open)
      (r : Resources)
      → Keeps (buffers block dns secret) [] [] [] r₀ r
      → r.udp ≡ r₀.udp
      → Candidate system r₀.udp got
      → AllOrNothing r₀
          (with_endpoint give worker_size system client_create mcf block dns secret got r)
  unfolding with_endpoint Candidate
  with_endpoint-AllOrNothing r₀ block dns secret (none, o) r k same c =
      init_failure-AllOrNothing r₀ block dns secret (record r { udp = o })
        (record {
          memory = k.memory;
          sockets = c.sockets;
          connections = c.connections;
          still_clients = k.still_clients;
        })
  with_endpoint-AllOrNothing r₀ block dns secret (some e, o) r k same c =
      created-AllOrNothing r₀ block dns secret e _ (record r { udp = o })
        (record {
          memory = k.memory;
          sockets = c.sockets;
          connections = c.connections;
          still_clients = k.still_clients;
        })

  with_secret-AllOrNothing :
      (r₀ : Resources) (block dns : ℕ) (secret : Option ℕ) (m : Memory)
      → Holds (buffers block dns secret) r₀.memory m
      → AllOrNothing r₀ (
          with_secret give worker_size system client_create mcf block dns secret
            (record r₀ { memory = m }))
  unfolding with_secret
  with_secret-AllOrNothing r₀ block dns secret m h =
      with_endpoint-AllOrNothing r₀ block dns secret (open_candidate system mcf.bind r₀.udp)
        (record r₀ { memory = m })
        (record {
          memory = h;
          sockets = Holds-none r₀.udp.sockets;
          connections = Holds-none r₀.udp.connections;
          still_clients = Holds-none r₀.clients;
        })
        refl (open_candidate-Candidate system mcf.bind r₀.udp)

  with_key-AllOrNothing :
      (r₀ : Resources) (block dns : ℕ) (key : Bytes) (m : Memory)
      → Holds (dns ∷ block ∷ []) r₀.memory m
      → AllOrNothing r₀ (elim key [
        | [] ↦
            with_secret give worker_size system client_create mcf block dns none
              (record r₀ { memory = m })
        | c ∷ rest ↦
            with_block give
              (length (c ∷ rest) + 1)
              m
              (λ m'. init_failure block (some dns) none none (record r₀ { memory = m' }))
              (λ secret m'.
                with_secret give worker_size system client_create mcf block dns
                  (some secret)
                  (record r₀ { memory = m' }))
      ])
  with_key-AllOrNothing r₀ block dns [] m h = with_secret-AllOrNothing r₀ block dns none m h
  with_key-AllOrNothing r₀ block dns (c ∷ rest) m h =
      with_block-Holds (AllOrNothing r₀) give (length (c ∷ rest) + 1) _ _ h
        (λ m' h'.
          init_failure-AllOrNothing r₀ block dns none (record r₀ { memory = m' }) (unopened r₀ h'))
        (λ secret m' h'. with_secret-AllOrNothing r₀ block dns (some secret) m' h')

  made-AllOrNothing :
      (r : Resources) → AllOrNothing r (worker_init give worker_size system client_create mcf r)
  unfolding worker_init with_dns_name
  made-AllOrNothing r =
      with_block-Holds (AllOrNothing r) give worker_size _ _ (Holds-none r.memory)
        (λ m h. nothing_made r m h)
        (λ block m h.
          with_block-Holds (AllOrNothing r) give (length (text_of mcf.tenant_dns) + 1) _ _ h
            (λ m' h'. only_block r block m' h')
            (λ dns m' h'. with_key-AllOrNothing r block dns (text_of mcf.auth_key) m' h'))

  ensured_by :
      (now : ℕ) (r : Resources) (res : Option LiveWorker × Resources)
      → AllOrNothing r res
      → (init_attempted now (endpoint_of res.0) mcf).2 ≡ live_worker res.0
  unfolding init_attempted AllOrNothing
  ensured_by now r (none, r') a = refl
  ensured_by now r (some w, r') a = ap some (sym a.2)

  -- The making of a worker, with any allocator, system and client library: when it fails, every block,
  -- socket and connection that was obtained on the way has been given back, and no client is
  -- left; when it succeeds, exactly the worker's block, its socket and connection and its client are
  -- held, not the buffers of its configuration, and the end of the process gives all of them
  -- back. The worker that the retries of `rn_worker_ensure` take from it, by its endpoint, is the
  -- one that it made.
  pub worker_init-AllOrNothing :
      (now : ℕ) (r : Resources)
      → (AllOrNothing r (worker_init give worker_size system client_create mcf r))
        × ((init_attempted now
              (endpoint_of (worker_init give worker_size system client_create mcf r).0)
              mcf).2
            ≡ live_worker (worker_init give worker_size system client_create mcf r).0)
  worker_init-AllOrNothing now r = (
    made-AllOrNothing r,
    ensured_by now r (worker_init give worker_size system client_create mcf r)
        (made-AllOrNothing r),
  )

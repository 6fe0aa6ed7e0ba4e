-- ===== src/Tests/Processes.antt =====
-- Runs of a worker process: its requests together, its creation, its lookups and its endpoint.
use rl_nginx.Base.{
  ◌↔◌, ℕ, ◌+◌, ◌≡◌, refl, true, false, none, some, [], ◌∷◌, codes, ltb, if◌then◌else◌, arith,
}
use rl_nginx.Conf.{ipv4, LocConf, create_loc_conf, create_main_conf}
use rl_nginx.Worker.{Worker, new_worker, on_steering_feedback, worker_ensure}
use rl_nginx.Request.{State, get_request_ctx}
use rl_nginx.Request.Admit.{handler}
use rl_nginx.Request.Complete.{client_ok}
use rl_nginx.System.{
  Held, Process, focus, held, new_held, phase, answer, run, resumed, arrive, happen, steer, Run,
  idle, turn, launched,
}
use rl_nginx.System.Balance.{Balanced, Run-Balanced}
use rl_nginx.System.Drained.{Replaced, replacement_reached}
use rl_nginx.Memory.{Allocator, Memory}
use rl_nginx.SrvRecords.{SrvSource, build}
use rl_nginx.SrvRecords.Released.{Built, build-Built}
use rl_nginx.Dns.{srv_lookup, Dns, Resolved, Platform}
use rl_nginx.Dns.Start.{later, resolve}
use rl_nginx.Dns.Held.{Once}
use rl_nginx.Dns.Once.{answered, end_lookup, end_lookup-Once}
use rl_nginx.Worker.Receive.{
  Received, datagram, would_block, udp_read_handler, Returns, udp_read_handler-Returns,
}
use rl_nginx.Worker.Endpoint.{System}
use rl_nginx.Worker.Init.{Resources, worker_init}
use rl_nginx.Worker.Lifetime.{lifetime, lifetime-Keeps}
use rl_nginx.Dns.Name.{Parts, split_service_iff}
use rl_nginx.Dns.Start.{split_service}
use rl_nginx.Worker.Released.{
  Keeps, AllOrNothing, endpoint_of, live_worker, worker_init-AllOrNothing,
}
use rl_nginx.Worker.{init_attempted}
use rl_nginx.Tests.Requests.{main_conf, loc_conf, env, allowing}

-- A request arrives and its handler asks; then a second one arrives.
abbrev after_phase : State
after_phase = run (phase env loc_conf) (focus main_conf none (new_held 1))

abbrev first : Held
first = held 1 after_phase

-- The client answers the first request while the second one is there.
abbrev answered_first : State
answered_first =
    run (answer (some 7) client_ok (some allowing))
      (focus after_phase.main after_phase.worker first)

abbrev two : Process
two = resumed (new_held 1 ∷ []) [] 1 answered_first

two-Run : Run (launched main_conf) two
unfolding launched new_held resumed held
two-Run =
    turn
      (turn
        (turn (turn idle (arrive 1 main_conf none []))
          (happen (phase env loc_conf) main_conf none [] (new_held 1) []))
        (arrive 1 after_phase.main after_phase.worker (first ∷ [])))
      (happen (answer (some 7) client_ok (some allowing)) after_phase.main after_phase.worker
        (new_held 1 ∷ []) first [])

Run-Balanced_example : Balanced two
Run-Balanced_example = Run-Balanced main_conf two two-Run

-- A location without rules: the handler makes the worker and asks for nothing. Then the server asks for
-- another port.
abbrev plain : LocConf
plain = record create_loc_conf { enabled = some true }

abbrev bypassed : State
bypassed = run (phase env plain) (focus main_conf none (new_held 1))

abbrev steered : Worker
steered = on_steering_feedback false (new_worker 3)

steered-Run :
    Run
      (launched main_conf)
      (record { main = main_conf; worker = some steered; requests = held 1 bypassed ∷ [] })
unfolding launched new_held resumed held run focus handler get_request_ctx worker_ensure
    create_main_conf create_loc_conf
steered-Run =
    turn
      (turn (turn idle (arrive 1 main_conf none []))
        (happen (phase env plain) main_conf none [] (new_held 1) []))
      (steer false main_conf (new_worker 3) (held 1 bypassed ∷ []))

replacement_reached_example :
    Replaced 9 (record { main = main_conf; worker = some steered; requests = held 1 bypassed ∷ [] })
unfolding on_steering_feedback new_worker
replacement_reached_example =
    replacement_reached main_conf main_conf steered (held 1 bypassed ∷ []) 9 steered-Run refl

abbrev empty_memory : Memory
empty_memory = record { attempts = 0; made = []; freed = [] }

abbrev all_given : Allocator
all_given asked size = some (100 + asked)

abbrev srv_source : SrvSource
srv_source = record {
  target = some (codes "a.b");
  port = 53;
  priority = 1;
  weight = 1;
  ttl_ms = 1000;
}

build-Built_example :
    Built
      (srv_source ∷ srv_source ∷ [])
      empty_memory
      (build all_given 32 (some (srv_source ∷ srv_source ∷ [])) empty_memory)
build-Built_example = build-Built all_given 32 (some (srv_source ∷ srv_source ∷ [])) empty_memory

abbrev platform : Platform
platform = record {
  give = all_given;
  request_size = 96;
  srv_source_size = 32;
  srv_record_size = 32;
  addr_source_size = 16;
  addr_size = 136;
  storage_size = 128;
}

abbrev no_lookups : Dns
no_lookups = record { memory = empty_memory; contexts = empty_memory; delivered = [] }

abbrev found : Resolved
found = record { state = 0; valid = 30; now_s = 10; srvs = srv_source ∷ []; addrs = [] }

end_lookup-Once_example : Once no_lookups 5 (
    end_lookup platform
      (answered found)
      (resolve platform true (some 9) later srv_lookup 5 (some (codes "_r._udp.c")) no_lookups))
end_lookup-Once_example =
    end_lookup-Once platform true (some 9) later srv_lookup 5 (some (codes "_r._udp.c")) no_lookups
      (answered found)

-- Three datagrams are there.
abbrev three : ℕ → Received
three i = if ltb i 3 then datagram (codes "x") else would_block

udp_read_handler-Returns_example :
    Returns three (λ bytes w. w) 0 (udp_read_handler three (λ bytes w. w) 64 (new_worker 3))
unfolding new_worker
udp_read_handler-Returns_example =
    udp_read_handler-Returns three (λ bytes w. w) 64 (new_worker 3) refl (omega arith)

-- IPv6 is not supported, and the client cannot be created.
abbrev system : System
system = record {
  socket = λ family. elim family [ ipv4 ↦ some 7 | _ ↦ none ];
  nonblocking = λ fd. true;
  bind = λ fd bound. true;
  connection = λ fd. some 8;
  add_event = λ conn. true;
}

abbrev nothing_open : Resources
nothing_open = record {
  memory = empty_memory;
  udp = record { sockets = empty_memory; connections = empty_memory };
  clients = empty_memory;
}

worker_init-AllOrNothing_example :
    (AllOrNothing nothing_open
      (worker_init all_given 512 system (λ config. none) main_conf nothing_open))
    × ((init_attempted 50
          (endpoint_of (worker_init all_given 512 system (λ config. none) main_conf nothing_open).0)
          main_conf).2
        ≡ live_worker (worker_init all_given 512 system (λ config. none) main_conf nothing_open).0)
worker_init-AllOrNothing_example =
    worker_init-AllOrNothing all_given 512 system (λ config. none) main_conf 50 nothing_open

-- The client is created; the endpoint is replaced once, and a second time no socket is left.
abbrev exhausted : System
exhausted = record system { socket = λ family. none }

lifetime-Keeps_example : Keeps [] [] [] [] nothing_open (
    lifetime
      (system ∷ exhausted ∷ [])
      main_conf.bind
      (worker_init all_given 512 system (λ config. some 1) main_conf nothing_open))
lifetime-Keeps_example =
    lifetime-Keeps all_given 512 system (λ config. some 1) main_conf (system ∷ exhausted ∷ [])
      nothing_open

split_service_iff_example :
    (split_service (codes "_r._udp.c.d") ≡ some (codes "_r._udp", codes "c.d"))
    ↔ Parts (codes "_r._udp.c.d") (codes "_r._udp") (codes "c.d")
split_service_iff_example = split_service_iff (codes "_r._udp.c.d") (codes "_r._udp") (codes "c.d")

-- ===== src/Worker/Endpoint.antt =====
-- `rn_open_socket_candidate` and `rn_close_udp_endpoint`: the UDP endpoint of a worker. What the system
-- gives for a socket of a family, and whether each call on it succeeds, are parameters; sockets
-- and nginx's connections are counted like blocks, and the close of a connection closes its socket.
use rl_nginx.Base.{ℕ, ◌+◌, Bool, Option, none, some, List, [], ◌∷◌, if◌then◌else◌, if_cases, arith}
use rl_nginx.Conf.{Family, ipv4, ipv6, Address}
use rl_nginx.Memory.{Memory, free, occurrences, Holds, Holds-none, Holds-free}

-- Where the socket is bound: any address of the family, or the one that is set, at any port.
pub data Bound : Type 0 where
  any_address : Family → Bound
  set_address : Address → Bound

pub record System : Type 0 where
  pub socket : Family → Option ℕ
  pub nonblocking : ℕ → Bool
  pub bind : ℕ → Bound → Bool
  pub connection : ℕ → Option ℕ
  pub add_event : ℕ → Bool

pub record Endpoint : Type 0 where
  pub fd : ℕ
  pub family : Family
  pub conn : ℕ

-- What is open.
pub record Open : Type 0 where
  pub sockets : Memory
  pub connections : Memory

unfoldable pub close_socket : ℕ → Open → Open
unfolding free
close_socket fd o = record o { sockets = free fd o.sockets }

-- `ngx_close_connection`.
unfoldable pub close_connection : ℕ → ℕ → Open → Open
unfolding free
close_connection conn fd o = record o {
  sockets = free fd o.sockets;
  connections = free conn o.connections;
}

-- `rn_close_udp_endpoint`.
unfoldable pub close_endpoint : Option Endpoint → Open → Open
unfolding close_connection
close_endpoint none o = o
close_endpoint (some e) o = close_connection e.conn e.fd o

module _ (system : System) where
  -- The socket: without an address that is set, IPv4 is what is left when IPv6 is not supported.
  unfoldable pub first_socket : Option Address → Option ℕ × Family
  first_socket (some address) = (system.socket address.family, address.family)
  first_socket none = elim (system.socket ipv6) [
    | none ↦ (system.socket ipv4, ipv4)
    | some fd ↦ (some fd, ipv6)
  ]

  unfoldable pub bound_to : Option Address → Family → Bound
  bound_to none family = any_address family
  bound_to (some address) family = set_address address

  -- The connection of a bound socket, and its read event.
  unfoldable pub connected : ℕ → Family → Option ℕ → Open → Option Endpoint × Open
  unfolding close_socket close_connection
  connected fd family none o = (none, close_socket fd o)
  connected fd family (some conn) o =
      let o' : Open = record o {
        connections = record o.connections {
          attempts = o.connections.attempts + 1;
          made = conn ∷ o.connections.made;
        };
      } in
      if system.add_event conn
      then (some (record { fd = fd; family = family; conn = conn }), o')
      else (none, close_connection conn fd o')

  unfoldable pub configured : Option Address → Option ℕ × Family → Open → Option Endpoint × Open
  unfolding close_socket bound_to connected
  configured address (none, family) o = (none, o)
  configured address (some fd, family) o =
      let o' : Open = record o {
        sockets = record o.sockets {
          attempts = o.sockets.attempts + 1;
          made = fd ∷ o.sockets.made;
        };
      } in
      if system.nonblocking fd
      then if system.bind fd (bound_to address family)
        then connected fd family (system.connection fd) o'
        else (none, close_socket fd o')
      else (none, close_socket fd o')

  -- `rn_open_socket_candidate`.
  unfoldable pub open_candidate : Option Address → Open → Option Endpoint × Open
  unfolding first_socket configured
  open_candidate address o = configured address (first_socket address) o

  -- What is still open: nothing, or the endpoint.
  pub record StillOpen (fds conns : List ℕ) (o o' : Open) : Type 0 where
    pub sockets : Holds fds o.sockets o'.sockets
    pub connections : Holds conns o.connections o'.connections

  unfoldable pub Candidate : Open → Option Endpoint × Open → Type 0
  Candidate o (none, o') = StillOpen [] [] o o'
  Candidate o (some e, o') = StillOpen (e.fd ∷ []) (e.conn ∷ []) o o'

  connected-Candidate :
      (o₀ o : Open) (fd : ℕ) (family : Family) (conn : Option ℕ)
      → StillOpen (fd ∷ []) [] o₀ o
      → Candidate o₀ (connected fd family conn o)
  unfolding connected Candidate close_socket close_connection occurrences
  connected-Candidate o₀ o fd family none h = record {
    sockets = Holds-free fd h.sockets;
    connections = h.connections;
  }
  connected-Candidate o₀ o fd family (some conn) h =
      let held : Holds (conn ∷ []) o₀.connections (record o.connections {
        attempts = o.connections.attempts + 1;
        made = conn ∷ o.connections.made;
      }) =
        record { balance = λ p. ground (arith, h.connections.balance p) } in
      if_cases (Candidate o₀) (system.add_event conn)
        (λ _. record { sockets = h.sockets; connections = held })
        (λ _. record { sockets = Holds-free fd h.sockets; connections = Holds-free conn held })

  configured-Candidate :
      (address : Option Address) (o : Open) (got : Option ℕ × Family)
      → Candidate o (configured address got o)
  unfolding configured Candidate close_socket occurrences
  configured-Candidate address o (none, family) = record {
    sockets = Holds-none o.sockets;
    connections = Holds-none o.connections;
  }
  configured-Candidate address o (some fd, family) =
      let o' : Open = record o {
        sockets = record o.sockets {
          attempts = o.sockets.attempts + 1;
          made = fd ∷ o.sockets.made;
        };
      } in
      let held : Holds (fd ∷ []) o.sockets o'.sockets = record { balance = λ p. ground arith } in
      let closed : StillOpen [] [] o (close_socket fd o') = record {
        sockets = Holds-free fd held;
        connections = Holds-none o.connections;
      } in
      if_cases (Candidate o) (system.nonblocking fd)
        (λ _.
          if_cases (Candidate o) (system.bind fd (bound_to address family))
            (λ _.
              connected-Candidate o o' fd family (system.connection fd)
                (record { sockets = held; connections = Holds-none o.connections }))
            (λ _. closed))
        (λ _. closed)

  -- A candidate that could not be opened leaves no socket and no connection open.
  pub open_candidate-Candidate :
      (address : Option Address) (o : Open) → Candidate o (open_candidate address o)
  unfolding open_candidate
  open_candidate-Candidate address o = configured-Candidate address o (first_socket address)

-- ===== src/Worker/Receive.antt =====
-- `rn_udp_read_handler`: the datagrams that are read when the UDP endpoint is readable. What `recvfrom`
-- returns at each call, and what `r_client_on_datagram` makes of the worker, are parameters. The
-- receive buffer has 2048 bytes, which the datagrams given here fit.
use rl_nginx.Base.{
  ℕ, zero, suc, ◌+◌, ◌≤◌, ◌<◌, Bool, true, false, Option, none, some, Bytes, ◌≡◌, ◌⊎◌, inl, inr,
  refl, ap, ◌==◌, if_cases, Bool-cases, if◌then◌else◌, arith,
}
use rl_nginx.Worker.{Worker}

-- A call of `recvfrom`: a datagram, an empty one, nothing to read yet, or another error.
pub data Received : Type 0 where
  datagram : Bytes → Received
  empty would_block receive_error : Received

abbrev pub udp_read_batch_max : ℕ
udp_read_batch_max = 64

-- How a turn of the handler ended: the worker, the number of datagrams that the client got, and whether
-- the event was posted again.
pub record Turn : Type 0 where
  pub worker : Worker
  pub received : ℕ
  pub posted : Bool

extend_range :
    (P : ℕ → Type 0) (a b : ℕ)
    → P a
    → ((i : ℕ) → a + 1 ≤ i → i < b → P i)
    → (i : ℕ) → a ≤ i
    → i < b
    → P i
extend_range P a b pa h i lo hi = elim (Bool-cases (a == i)) [
  | inl t ↦ let e : a ≡ i = ground (arith, t) in rw (← e) pa
  | inr f ↦ h i (ground (arith, lo, f)) hi
]

module _ (recv : ℕ → Received) (on_datagram : Bytes → Worker → Worker) where
  unfoldable pub stop : Worker → ℕ → Bool → Option Turn
  stop w received posted = some (record {
    worker = record w { udp_read_active = false };
    received = received;
    posted = posted;
  })

  -- What is done with one result of `recvfrom`, and the rest of the loop.
  unfoldable pub read_one : Worker → ℕ → Received → (Worker → Option Turn) → Option Turn
  unfolding stop
  read_one w received would_block rest = stop w received false
  read_one w received receive_error rest = stop w received false
  read_one w received empty rest = stop w received false
  read_one w received (datagram bytes) rest =
      let w' = on_datagram bytes w in
      if received + 1 == udp_read_batch_max then stop w' (received + 1) true else rest w'

  -- The loop, on fuel: every turn of it calls `recvfrom` once.
  unfoldable pub receive : ℕ → Worker → ℕ → Option Turn
  unfolding read_one
  receive zero w received = none
  receive (suc fuel) w received =
      read_one w received (recv received) (λ w'. receive fuel w' (received + 1))

  unfoldable pub udp_read_handler : ℕ → Worker → Option Turn
  unfolding receive
  udp_read_handler fuel w =
      if w.client
      then receive fuel (record w { udp_read_active = true }) 0
      else some (record { worker = w; received = 0; posted = false })

  abbrev pub is_datagram : Received → Bool
  is_datagram (datagram bytes) = true
  is_datagram _ = false

  -- What a turn that begins after `start` datagrams has done.
  pub record Batch (start : ℕ) (turn : Turn) : Type 0 where
    pub reading : turn.worker.udp_read_active ≡ false
    pub bound : turn.received ≤ udp_read_batch_max
    pub all_read : (i : ℕ) → start ≤ i → i < turn.received → is_datagram (recv i) ≡ true
    pub stopped :
        ((turn.posted ≡ true) × (turn.received ≡ udp_read_batch_max))
        ⊎ ((turn.posted ≡ false) × (is_datagram (recv turn.received) ≡ false))

  -- The loop returns.
  pub record Returns (start : ℕ) (result : Option Turn) : Type 0 where
    pub turn : Turn
    pub is_turn : result ≡ some turn
    pub batch : Batch start turn

  stopped_here :
      (w : Worker) (received : ℕ)
      → received ≤ udp_read_batch_max
      → is_datagram (recv received) ≡ false
      → Returns received (stop w received false)
  unfolding stop
  stopped_here w received b e = record {
    turn = _;
    is_turn = refl;
    batch = record {
      reading = refl;
      bound = b;
      all_read = λ i lo hi. ground (arith, lo, hi);
      stopped = inr (refl, e);
    };
  }

  later_batch :
      (received : ℕ) (result : Option Turn)
      → is_datagram (recv received) ≡ true
      → Returns (received + 1) result
      → Returns received result
  later_batch received result e r = record {
    turn = r.turn;
    is_turn = r.is_turn;
    batch = record {
      reading = r.batch.reading;
      bound = r.batch.bound;
      all_read =
          extend_range (λ i. is_datagram (recv i) ≡ true) received r.turn.received e
            r.batch.all_read;
      stopped = r.batch.stopped;
    };
  }

  full_batch :
      (w : Worker) (received : ℕ)
      → is_datagram (recv received) ≡ true
      → received + 1 ≡ udp_read_batch_max
      → Returns received (stop w (received + 1) true)
  unfolding stop
  full_batch w received e b = record {
    turn = _;
    is_turn = refl;
    batch = record {
      reading = refl;
      bound = omega (arith, b);
      all_read =
          extend_range (λ i. is_datagram (recv i) ≡ true) received (received + 1) e
            (λ i lo hi. ground (arith, lo, hi));
      stopped = inl (refl, b);
    };
  }

  -- One turn of the loop, with the rest of the loop done.
  read_one-Returns :
      (w : Worker) (received : ℕ) (first : Received) (rest : Worker → Option Turn)
      → recv received ≡ first
      → received < udp_read_batch_max
      → ((w' : Worker) → received + 1 < udp_read_batch_max → Returns (received + 1) (rest w'))
      → Returns received (read_one w received first rest)
  unfolding read_one
  read_one-Returns w received would_block rest e b h =
      stopped_here w received (omega (arith, b)) (ap is_datagram e)
  read_one-Returns w received receive_error rest e b h =
      stopped_here w received (omega (arith, b)) (ap is_datagram e)
  read_one-Returns w received empty rest e b h =
      stopped_here w received (omega (arith, b)) (ap is_datagram e)
  read_one-Returns w received (datagram bytes) rest e b h =
      if_cases (Returns received) (received + 1 == udp_read_batch_max)
        (λ t. full_batch (on_datagram bytes w) received (ap is_datagram e) (ground (arith, t)))
        (λ f.
          later_batch received (rest (on_datagram bytes w)) (ap is_datagram e)
            (h (on_datagram bytes w) (ground (arith, b, f))))

  receive-Returns :
      (fuel : ℕ) (w : Worker) (received : ℕ)
      → received < udp_read_batch_max
      → udp_read_batch_max ≤ received + fuel
      → Returns received (receive fuel w received)
  unfolding receive
  receive-Returns zero w received b enough = ground (arith, b, enough)
  receive-Returns (suc fuel) w received b enough =
      read_one-Returns w received (recv received) _ refl b
        (λ w' b'. receive-Returns fuel w' (received + 1) b' (omega (arith, enough)))

  -- A turn of the handler of a worker that has a client returns, with fuel for the largest batch, whatever
  -- arrives and whatever the client makes of it: the worker is not reading any more, at most 64
  -- datagrams were received, every call of `recvfrom` before the last gave one, and the event
  -- was posted again if there were 64, and otherwise the next call gave no datagram.
  pub udp_read_handler-Returns :
      (fuel : ℕ) (w : Worker)
      → w.client ≡ true
      → udp_read_batch_max ≤ fuel
      → Returns 0 (udp_read_handler fuel w)
  unfolding udp_read_handler
  udp_read_handler-Returns fuel w c enough =
      if_cases (Returns 0) w.client
        (λ _.
          receive-Returns fuel (record w { udp_read_active = true }) 0 (omega arith)
            (omega (arith, enough)))
        (λ f. cc)

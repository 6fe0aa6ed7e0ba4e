-- ===== src/Dns/Launched.antt =====
-- The start of a lookup, `rn_resolve_srv` and `rn_resolve_addrs`, keeps track of all that it obtains.
use rl_nginx.Base.{
  ℕ, ◌+◌, true, false, none, some, List, [], ◌∷◌, Bytes, ◌≡◌, inl, inr, refl, length, option_cases,
  arith,
}
use rl_nginx.AsyncState.{state_begin, state_complete, state_is_starting, state_finish}
use rl_nginx.Memory.{Memory, occurrences, Holds, Holds-free, Holds-order, free_if, with_block-Holds}
use rl_nginx.Dns.{
  Kind, srv_lookup, addr_lookup, DnsReq, Dns, Platform, with_memory, name_done, req_release,
  discard_unstarted, resolved,
}
use rl_nginx.Dns.Start.{
  Started, later, at_once, refused, split_service, discarded, returned, answered_at_once, launch,
  launch_service, launch_srv, launch_kind, new_req, prepare,
}
use rl_nginx.Dns.Held.{Held, Once, Outcome, answered-Ended, blocks_of, discarded-Rejected}

module _ (platform : Platform) (rctx : ℕ) where
  discarded-Outcome :
      {d₀ : Dns} (started : Started) (req : DnsReq) (d : Dns) (m : Memory)
      → Held d₀ rctx req (with_memory m d)
      → Outcome d₀ req.user (discarded platform started rctx (some req) d m)
  unfolding discarded Outcome Once discard_unstarted
  discarded-Outcome started req d m h = inl (refl, discarded-Rejected rctx req (with_memory m d) h)

  -- The three ways in which the resolver can start, each with what the return of the call does.
  launch-Outcome :
      {d₀ : Dns} (started : Started) (req : DnsReq) (d : Dns) (m : Memory)
      → Held d₀ rctx req (with_memory m d)
      → Outcome d₀ req.user (launch platform started rctx req d m)
  unfolding launch Outcome Once returned answered_at_once resolved state_begin state_complete
      state_is_starting state_finish
  launch-Outcome later req d m h = (
    refl,
    record {
      req = _;
      owner = refl;
      same_user = refl;
      call_over = refl;
      held = record { delivered = h.delivered; memory = h.memory; contexts = h.contexts };
    },
  )
  launch-Outcome (at_once r) req d m h = inr (
    refl,
    answered-Ended platform rctx
        (record req { start_state = record { starting = false; completed = true } }) r
        (with_memory m d)
        (record { delivered = h.delivered; memory = h.memory; contexts = h.contexts }),
  )
  launch-Outcome refused req d m h = inl (
    refl,
    discarded-Rejected rctx
        (record req { start_state = record { starting = false; completed = false } })
        (with_memory m d)
        (record { delivered = h.delivered; memory = h.memory; contexts = h.contexts }),
  )

  -- The blocks of a request in the order in which they were obtained.
  held_in :
      {d₀ : Dns} (blocks : List ℕ) (req : DnsReq) (d : Dns) (m : Memory)
      → ((p : ℕ) → occurrences p blocks ≡ occurrences p (blocks_of req))
      → d.delivered ≡ d₀.delivered
      → Holds (rctx ∷ []) d₀.contexts d.contexts
      → Holds blocks d₀.memory m
      → Held d₀ rctx req (with_memory m d)
  unfolding with_memory
  held_in blocks req d m e s c h = record { delivered = s; memory = Holds-order e h; contexts = c }

  launch_service-Outcome :
      {d₀ : Dns} (started : Started) (service domain : Bytes) (req : DnsReq) (q : ℕ) (d : Dns)
      (m : Memory)
      → req.name_buf ≡ some q
      → req.service_buf ≡ none
      → d.delivered ≡ d₀.delivered
      → Holds (rctx ∷ []) d₀.contexts d.contexts
      → Holds (q ∷ req.block ∷ []) d₀.memory m
      → Outcome d₀ req.user (launch_service platform started rctx service domain req d m)
  unfolding launch_service occurrences free_if
  launch_service-Outcome {d₀ = d₀} started service domain req q d m n v s c h =
      with_block-Holds (Outcome d₀ req.user) platform.give (length service) _ _ h
        (λ m' h'.
          discarded-Outcome started req d m'
            (held_in (q ∷ req.block ∷ []) req d m' (λ x. rw (n, v) refl) s c h'))
        (λ p m' h'.
          let req' : DnsReq = record req { service_buf = some p; service = service } in
          with_block-Holds (Outcome d₀ req.user) platform.give (length domain + 1) _ _ h'
            (λ m'' h''.
              discarded-Outcome started req' d m''
                (held_in (p ∷ q ∷ req.block ∷ []) req' d m'' (λ x. rw n (ground arith)) s c h''))
            (λ t m'' h''.
              launch-Outcome started (record req' { name_buf = some t; name = domain }) d
                (free_if req.name_buf m'')
                (held_in (t ∷ p ∷ req.block ∷ []) (record req' { name_buf = some t; name = domain })
                  d (free_if req.name_buf m'') (λ x. refl) s c
                  (rw n (Holds-free q (Holds-order (λ x. ground arith) h''))))))

  launch_kind-Outcome :
      {d₀ : Dns} (started : Started) (kind : Kind) (req : DnsReq) (q : ℕ) (d : Dns) (m : Memory)
      → req.name_buf ≡ some q
      → req.service_buf ≡ none
      → d.delivered ≡ d₀.delivered
      → Holds (rctx ∷ []) d₀.contexts d.contexts
      → Holds (q ∷ req.block ∷ []) d₀.memory m
      → Outcome d₀ req.user (launch_kind platform started rctx kind req d m)
  unfolding launch_kind launch_srv
  launch_kind-Outcome {d₀ = d₀} started srv_lookup req q d m n v s c h =
      option_cases (Outcome d₀ req.user) (split_service req.name)
        (λ _.
          launch-Outcome started req d m
            (held_in (q ∷ req.block ∷ []) req d m (λ x. rw (n, v) refl) s c h))
        (λ (service, domain) _. launch_service-Outcome started service domain req q d m n v s c h)
  launch_kind-Outcome started addr_lookup req q d m n v s c h =
      launch-Outcome started req d m
        (held_in (q ∷ req.block ∷ []) req d m (λ x. rw (n, v) refl) s c h)

  unmade-Outcome :
      {d₀ : Dns} (started : Started) (user : ℕ) (d : Dns) (m : Memory)
      → d.delivered ≡ d₀.delivered
      → Holds (rctx ∷ []) d₀.contexts d.contexts
      → Holds [] d₀.memory m
      → Outcome d₀ user (discarded platform started rctx none d m)
  unfolding discarded Outcome Once discard_unstarted req_release name_done with_memory
  unmade-Outcome started user d m s c h =
      inl (refl, record { delivered = s; memory = h; contexts = Holds-free rctx c })

  pub prepare-Outcome :
      {d₀ : Dns} (started : Started) (kind : Kind) (user : ℕ) (name : Bytes) (d : Dns)
      → d.delivered ≡ d₀.delivered
      → Holds (rctx ∷ []) d₀.contexts d.contexts
      → Holds [] d₀.memory d.memory
      → Outcome d₀ user (prepare platform started rctx kind user name d)
  unfolding prepare new_req
  prepare-Outcome {d₀ = d₀} started kind user name d s c h =
      with_block-Holds (Outcome d₀ user) platform.give platform.request_size _ _ h
        (λ m h'. unmade-Outcome started user d m s c h')
        (λ p m h'.
          let req : DnsReq = new_req platform started rctx p kind user in
          with_block-Holds (Outcome d₀ user) platform.give (length name + 1) _ _ h'
            (λ m' h''.
              discarded-Outcome started req d m' (held_in (p ∷ []) req d m' (λ x. refl) s c h''))
            (λ q m' h''.
              launch_kind-Outcome started kind (record req { name_buf = some q; name = name }) q d
                m' refl refl s c h''))

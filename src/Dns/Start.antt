-- ===== src/Dns/Start.antt =====
-- `rn_resolve_srv` and `rn_resolve_addrs`: the start of a lookup. The client passes a callback and a
-- place for the identifier; the identifier is the context of the lookup, if it is pending.
use rl_nginx.Base.{
  ℕ, ◌+◌, Bool, true, false, Option, none, some, [], ◌∷◌, ◌++◌, Bytes, ◌==◌, if◌then◌else◌, length,
}
use rl_nginx.AsyncState.{state_begin, state_finish}
use rl_nginx.Memory.{Memory, with_block, free_if}
use rl_nginx.Dns.{
  Kind, srv_lookup, addr_lookup, DnsReq, Dns, Lookup, Resolved, Platform, with_memory, name_done,
  req_release, discard_unstarted, resolved,
}

-- What `ngx_resolve_name` does: it will call the handler later, it has called it, or it refuses.
pub data Started : Type 0 where
  later : Started
  at_once : Resolved → Started
  refused : Started

abbrev pub Result : Type 0
Result = Bool × Option Lookup × Dns

-- The text before the first dot and the text after it.
unfoldable pub cut_at_dot : Bytes → Option (Bytes × Bytes)
cut_at_dot [] = none
cut_at_dot (c ∷ s) =
    let rest = cut_at_dot s in
    if c == 46 then some ([], s) else elim rest [ none ↦ none | some (a, b) ↦ some (c ∷ a, b) ]

-- `_service._proto.domain`: what comes before the second dot, and what comes after it.
unfoldable pub split_service : Bytes → Option (Bytes × Bytes)
unfolding cut_at_dot
split_service name = elim (cut_at_dot name) [
  | none ↦ none
  | some (first, rest) ↦ elim (cut_at_dot rest) [
    | none ↦ none
    | some (second, domain) ↦ some (first ++ 46 ∷ second, domain)
  ]
]

module _ (platform : Platform) (started : Started) (rctx : ℕ) where
  unfoldable pub discarded : Option DnsReq → Dns → Memory → Result
  unfolding discard_unstarted with_memory
  discarded req d m = (false, none, discard_unstarted rctx req (with_memory m d))

  -- The return of the call that started the lookup: what has completed is released.
  unfoldable pub returned : Bool → DnsReq → Dns → Result
  unfolding state_finish req_release
  returned ok req d =
      let (pending, state) = state_finish req.start_state ok in
      let req' : DnsReq = record req { start_state = state } in
      if pending
      then (true, some (record { rctx = rctx; owner = some req' }), d)
      else (ok, none, req_release (some req') d)

  -- The handler has left the request to the call that started the lookup.
  unfoldable pub answered_at_once : DnsReq → Option DnsReq × Dns → Result
  unfolding returned
  answered_at_once req (none, d) = (true, none, d)
  answered_at_once req (some req', d) = returned true req' d

  unfoldable pub launch : DnsReq → Dns → Memory → Result
  unfolding state_begin resolved returned answered_at_once name_done with_memory
  launch req d m =
      let req' : DnsReq = record req { start_state = state_begin req.start_state } in
      let d' = with_memory m d in
      elim started [
        | later ↦ returned true req' d'
        | at_once r ↦
            answered_at_once req'
              (resolved platform (record { rctx = rctx; owner = some req' }) r d')
        | refused ↦ returned false req' (name_done rctx d')
      ]

  -- An SRV name is looked up as a service of a domain, where it has two dots.
  unfoldable pub launch_service : Bytes → Bytes → DnsReq → Dns → Memory → Result
  unfolding discarded launch with_block free_if
  launch_service service domain req d m =
      with_block platform.give (length service) m (discarded (some req) d) (λ p m'.
        let req' : DnsReq = record req { service_buf = some p; service = service } in
        with_block platform.give (length domain + 1) m' (discarded (some req') d) (λ q m''.
          launch (record req' { name_buf = some q; name = domain }) d (free_if req'.name_buf m'')))

  unfoldable pub launch_srv : DnsReq → Dns → Memory → Result
  unfolding split_service launch launch_service
  launch_srv req d m = elim (split_service req.name) [
    | none ↦ launch req d m
    | some (service, domain) ↦ launch_service service domain req d m
  ]

  unfoldable pub launch_kind : Kind → DnsReq → Dns → Memory → Result
  unfolding launch launch_srv
  launch_kind srv_lookup req d m = launch_srv req d m
  launch_kind addr_lookup req d m = launch req d m

  -- The request, zeroed but for the callback and its argument.
  unfoldable pub new_req : ℕ → Kind → ℕ → DnsReq
  new_req block kind user = record {
    block = block;
    kind = kind;
    user = user;
    name_buf = none;
    name = [];
    service_buf = none;
    service = [];
    start_state = record { starting = false; completed = false };
  }

  unfoldable pub prepare : Kind → ℕ → Bytes → Dns → Result
  unfolding discarded new_req launch_kind with_block
  prepare kind user name d =
      with_block platform.give platform.request_size d.memory (discarded none d) (λ p m.
        let req = new_req p kind user in
        with_block platform.give (length name + 1) m (discarded (some req) d)
          (λ q. launch_kind kind (record req { name_buf = some q; name = name }) d))

-- `rn_resolve_srv` and `rn_resolve_addrs`: whether they return 0, the lookup that is pending, and the
-- state. `context` is what `ngx_resolve_start` gives.
unfoldable pub resolve_in : Platform → Started → Kind → ℕ → Bytes → Dns → Option ℕ → Result
unfolding prepare
resolve_in platform started kind user name d none = (false, none, d)
resolve_in platform started kind user name d (some rctx) =
    prepare platform started rctx kind user name (record d {
      contexts = record d.contexts {
        attempts = d.contexts.attempts + 1;
        made = rctx ∷ d.contexts.made;
      };
    })

unfoldable pub resolve :
    Platform → Bool → Option ℕ → Started → Kind → ℕ → Option Bytes → Dns → Result
unfolding resolve_in
resolve platform resolver context started kind user none d = (false, none, d)
resolve platform resolver context started kind user (some name) d =
    if resolver then resolve_in platform started kind user name d context else (false, none, d)

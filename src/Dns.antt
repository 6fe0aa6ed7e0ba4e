-- ===== src/Dns.antt =====
-- The DNS callbacks of the client in src/ngx_http_ratelimitly_module.c: `rn_resolve_srv`,
-- `rn_resolve_addrs`, `rn_resolve_cancel` and the handlers of their answers. The resolver of nginx is a
-- parameter: whether it gives a context, and whether it answers before the call that starts the
-- lookup returns, later, or refuses it; on a refusal it has already freed its context. Blocks are
-- numbers; the resolver's contexts are counted like blocks. Fault injection is off.
pub mod Start
pub mod Name
pub mod Answered
pub mod Held
pub mod Launched
pub mod Once
use rl_nginx.Base.{
  ℕ, ◌+◌, ◌-◌, ◌*◌, ◌/◌, ◌%◌, ◌^◌, Bool, true, false, not, ◌&&◌, ◌||◌, Option, none, some, List, [],
  ◌∷◌, ◌++◌, map, Bytes, ltb, ◌==◌, if◌then◌else◌, length,
}
use rl_nginx.Numeric.{ttl_ms_until}
use rl_nginx.AddrRecords.{AddrSource, Addr, compact}
use rl_nginx.AsyncState.{AsyncState, state_complete, state_is_starting}
use rl_nginx.Memory.{Allocator, Memory, with_block, free, free_if}
use rl_nginx.SrvRecords.{
  SrvSource, SrvRecord, SrvRecords, size_max, no_records, records_free, build,
}

-- Which of the two callbacks of the client a request has.
pub data Kind : Type 0 where
  srv_lookup addr_lookup : Kind

-- `rn_dns_req_t`: its own block, the client's callback and its argument, and the two names.
pub record DnsReq : Type 0 where
  pub block : ℕ
  pub kind : Kind
  pub user : ℕ
  pub name_buf : Option ℕ
  pub name : Bytes
  pub service_buf : Option ℕ
  pub service : Bytes
  pub start_state : AsyncState

-- What the client is called back with, by its argument.
pub data Answer : Type 0 where
  srv_answer : List SrvRecord → Answer
  addr_answer : List Addr → Answer
  no_answer dns_error : Answer

-- The blocks, the resolver's contexts, and the callbacks in order.
pub record Dns : Type 0 where
  pub memory : Memory
  pub contexts : Memory
  pub delivered : List (ℕ × Answer)

-- A resolver's context while it is live: its number and the request that its data point to.
pub record Lookup : Type 0 where
  pub rctx : ℕ
  pub owner : Option DnsReq

-- The answer that the resolver leaves in its context, with the clock when it is read.
pub record Resolved : Type 0 where
  pub state : ℕ
  pub valid : ℕ
  pub now_s : ℕ
  pub srvs : List SrvSource
  pub addrs : List AddrSource

-- The sizes of the structures, the allocator and the storage of an address.
pub record Platform : Type 0 where
  pub give : Allocator
  pub request_size : ℕ
  pub srv_source_size : ℕ
  pub srv_record_size : ℕ
  pub addr_source_size : ℕ
  pub addr_size : ℕ
  pub storage_size : ℕ

unfoldable pub with_memory : Memory → Dns → Dns
with_memory m d = record d { memory = m }

unfoldable pub deliver : ℕ → Answer → Dns → Dns
deliver user answer d = record d { delivered = d.delivered ++ (user, answer) ∷ [] }

-- `ngx_resolve_name_done`.
unfoldable pub name_done : ℕ → Dns → Dns
unfolding free
name_done rctx d = record d { contexts = free rctx d.contexts }

-- `rn_dns_req_release`.
unfoldable pub req_release : Option DnsReq → Dns → Dns
unfolding free free_if with_memory
req_release none d = d
req_release (some req) d =
    with_memory (free req.block (free_if req.service_buf (free_if req.name_buf d.memory))) d

-- `rn_dns_discard_unstarted`, for a context that there is.
unfoldable pub discard_unstarted : ℕ → Option DnsReq → Dns → Dns
unfolding name_done req_release
discard_unstarted rctx req d = req_release req (name_done rctx d)

module _ (platform : Platform) where
  -- The copy of an SRV answer, with what `rn_srv_records_build` makes of it; the sources are freed last.
  unfoldable pub srv_ttl_ms : Resolved → ℕ
  srv_ttl_ms r = if ltb r.now_s r.valid then ttl_ms_until r.valid r.now_s else 0

  unfoldable pub srv_sources : Resolved → List SrvSource
  unfolding srv_ttl_ms
  srv_sources r =
      map
        (λ (s : SrvSource). record s {
          port = s.port % 2 ^ 16;
          priority = s.priority % 2 ^ 16;
          weight = s.weight % 2 ^ 16;
          ttl_ms = srv_ttl_ms r;
        })
        r.srvs

  unfoldable pub srv_built : DnsReq → Bool × SrvRecords × Memory → Dns → Dns
  unfolding deliver with_memory records_free
  srv_built req (rc, out, m) d =
      let answer = if rc then srv_answer out.entries else no_answer in
      deliver req.user answer (with_memory (records_free out m).1 d)

  unfoldable pub srv_copied : DnsReq → Resolved → Dns → Dns
  unfolding deliver with_memory with_block srv_sources srv_built build free
  srv_copied req r d =
      if ltb (size_max / platform.srv_source_size) (length r.srvs)
      then deliver req.user no_answer d
      else with_block platform.give (length r.srvs * platform.srv_source_size) d.memory
          (λ m. deliver req.user no_answer (with_memory m d))
          (λ sources m.
            let d' =
              srv_built req (build platform.give platform.srv_record_size (some (srv_sources r)) m)
                d in
            with_memory (free sources d'.memory) d')

  unfoldable pub answer_srv : DnsReq → Resolved → Dns → Dns
  unfolding deliver srv_copied
  answer_srv req r d =
      if not (r.state == 0) || length r.srvs == 0
      then deliver req.user no_answer d
      else srv_copied req r d

  -- The compaction of the addresses; both arrays are allocated before either is looked at.
  unfoldable pub addr_compacted : DnsReq → Resolved → Dns → Dns
  unfolding deliver
  addr_compacted req r d =
      let addrs = compact platform.storage_size r.addrs (length r.addrs) in
      if length addrs == 0
      then deliver req.user no_answer d
      else deliver req.user (addr_answer addrs) d

  unfoldable pub addr_sources : DnsReq → Resolved → Option ℕ → Memory → Dns → Dns
  unfolding deliver with_memory with_block addr_compacted free free_if
  addr_sources req r addrs m d =
      with_block platform.give (length r.addrs * platform.addr_source_size) m
        (λ m'.
          let d' = deliver req.user no_answer (with_memory m' d) in
          with_memory (free_if addrs d'.memory) d')
        (λ sources m'.
          let d' : Dns = elim addrs [
            | none ↦ deliver req.user no_answer (with_memory m' d)
            | some p ↦ addr_compacted req r (with_memory m' d)
          ] in
          with_memory (free_if addrs (free sources d'.memory)) d')

  unfoldable pub answer_addr : DnsReq → Resolved → Dns → Dns
  unfolding deliver with_block addr_sources
  answer_addr req r d =
      if not (r.state == 0) || length r.addrs == 0
      then deliver req.user no_answer d
      else if ltb (size_max / platform.addr_size) (length r.addrs)
          || ltb (size_max / platform.addr_source_size) (length r.addrs)
      then deliver req.user no_answer d
      else with_block platform.give (length r.addrs * platform.addr_size) d.memory
          (λ m. addr_sources req r none m d) (λ addrs m. addr_sources req r (some addrs) m d)

  unfoldable pub answer_req : DnsReq → Resolved → Dns → Dns
  unfolding answer_srv answer_addr
  answer_req req r d = elim (req.kind) [
    | srv_lookup ↦ answer_srv req r d
    | addr_lookup ↦ answer_addr req r d
  ]

-- `rn_resolve_srv_handler` and `rn_resolve_addr_handler`, the second with the other callback: the
-- resolver's context is done, and the request is released unless the call that started it still runs.
unfoldable pub resolved : Platform → Lookup → Resolved → Dns → Option DnsReq × Dns
unfolding state_complete state_is_starting answer_req name_done req_release
resolved platform lookup r d = elim (lookup.owner) [
  | none ↦ (none, name_done lookup.rctx d)
  | some req ↦
      let req' : DnsReq = record req { start_state = state_complete req.start_state } in
      let d' = name_done lookup.rctx (answer_req platform req' r d) in
      if state_is_starting req'.start_state
      then (some req', d')
      else (none, req_release (some req') d')
]

-- `rn_resolve_cancel`.
unfoldable pub resolve_cancel : Option Lookup → Dns → Dns
unfolding name_done req_release deliver state_complete
resolve_cancel none d = d
resolve_cancel (some lookup) d = elim (lookup.owner) [
  | none ↦ d
  | some req ↦
      let req' : DnsReq = record req { start_state = state_complete req.start_state } in
      deliver req.user dns_error (req_release (some req') (name_done lookup.rctx d))
]

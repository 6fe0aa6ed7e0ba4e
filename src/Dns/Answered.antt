-- ===== src/Dns/Answered.antt =====
-- The handlers of an answer call the client back once, and give back all that they obtained.
use rl_nginx.Base.{
  ℕ, ◌*◌, ◌/◌, Bool, not, ◌||◌, Option, none, some, List, [], ◌∷◌, ◌++◌, ◌≡◌, inl, inr, refl, ltb,
  ◌==◌, length, if_cases,
}
use rl_nginx.AddrRecords.{compact}
use rl_nginx.Memory.{Memory, Holds, Holds-free, Holds-after, free_if, with_block-Holds}
use rl_nginx.SrvRecords.{SrvRecords, size_max, no_records, records_free, build}
use rl_nginx.SrvRecords.Released.{Built, build-Built}
use rl_nginx.Dns.{
  Kind, srv_lookup, addr_lookup, DnsReq, Answer, no_answer, Dns, Resolved, Platform, with_memory,
  deliver, srv_sources, srv_built, srv_copied, answer_srv, addr_compacted, addr_sources,
  answer_addr, answer_req,
}

-- One callback for the argument, and the blocks that were held before.
pub record Answered (blocks : List ℕ) (m₀ : Memory) (user : ℕ) (d d' : Dns) : Type 0 where
  pub answer : Answer
  pub delivered : d'.delivered ≡ d.delivered ++ (user, answer) ∷ []
  pub contexts : d'.contexts ≡ d.contexts
  pub held : Holds blocks m₀ d'.memory

pub deliver-Answered :
    {blocks : List ℕ} {m₀ : Memory} (req : DnsReq) (answer : Answer) (d : Dns) (m : Memory)
    → Holds blocks m₀ m
    → Answered blocks m₀ req.user d (deliver req.user answer (with_memory m d))
unfolding deliver with_memory
deliver-Answered req answer d m h = record {
  answer = answer;
  delivered = refl;
  contexts = refl;
  held = h;
}

-- What happens to the memory after the callback.
freed-Answered :
    {blocks blocks' : List ℕ} {m₀ : Memory} (user : ℕ) (d d' : Dns) (m : Memory)
    → Holds blocks' m₀ m
    → Answered blocks m₀ user d d'
    → Answered blocks' m₀ user d (with_memory m d')
unfolding with_memory
freed-Answered user d d' m h a = record {
  answer = a.answer;
  delivered = a.delivered;
  contexts = a.contexts;
  held = h;
}

module _ (platform : Platform) where
  srv_built-Answered :
      {blocks : List ℕ} {m₀ m : Memory} (req : DnsReq) (r : Resolved)
      (res : Bool × SrvRecords × Memory) (d : Dns)
      → Holds blocks m₀ m
      → Built (srv_sources platform r) m res
      → Answered blocks m₀ req.user d (srv_built platform req res d)
  unfolding srv_built Built records_free no_records with_memory deliver
  srv_built-Answered req r (rc, out, m') d h (inl (bad, gone, held)) = record {
    answer = _;
    delivered = refl;
    contexts = refl;
    held = rw gone (Holds-after h held);
  }
  srv_built-Answered req r (rc, out, m') d h (inr (good, copies, held)) = record {
    answer = _;
    delivered = refl;
    contexts = refl;
    held = Holds-after h held;
  }

  srv_copied-Answered :
      {blocks : List ℕ} {m₀ : Memory} (req : DnsReq) (r : Resolved) (d : Dns)
      → Holds blocks m₀ d.memory
      → Answered blocks m₀ req.user d (srv_copied platform req r d)
  unfolding srv_copied
  srv_copied-Answered {blocks = blocks} {m₀ = m₀} req r d h =
      if_cases (Answered blocks m₀ req.user d)
        (ltb (size_max / platform.srv_source_size) (length r.srvs))
        (λ _. record { answer = no_answer; delivered = refl; contexts = refl; held = h })
        (λ _.
          with_block-Holds (Answered blocks m₀ req.user d) platform.give
            (length r.srvs * platform.srv_source_size) _ _ h
            (λ m h'. deliver-Answered req no_answer d m h')
            (λ sources m h'.
              let a =
                srv_built-Answered req r
                  (build platform.give platform.srv_record_size (some (srv_sources platform r)) m) d
                  h'
                  (build-Built platform.give platform.srv_record_size
                    (some (srv_sources platform r)) m) in
              freed-Answered req.user d _ _ (Holds-free sources a.held) a))

  answer_srv-Answered :
      {blocks : List ℕ} {m₀ : Memory} (req : DnsReq) (r : Resolved) (d : Dns)
      → Holds blocks m₀ d.memory
      → Answered blocks m₀ req.user d (answer_srv platform req r d)
  unfolding answer_srv deliver
  answer_srv-Answered {blocks = blocks} {m₀ = m₀} req r d h =
      if_cases (Answered blocks m₀ req.user d) (not (r.state == 0) || length r.srvs == 0)
        (λ _. record { answer = no_answer; delivered = refl; contexts = refl; held = h })
        (λ _. srv_copied-Answered req r d h)

  addr_compacted-Answered :
      {blocks : List ℕ} {m₀ : Memory} (req : DnsReq) (r : Resolved) (d : Dns) (m : Memory)
      → Holds blocks m₀ m
      → Answered blocks m₀ req.user d (addr_compacted platform req r (with_memory m d))
  unfolding addr_compacted
  addr_compacted-Answered {blocks = blocks} {m₀ = m₀} req r d m h =
      if_cases (Answered blocks m₀ req.user d)
        (length (compact platform.storage_size r.addrs (length r.addrs)) == 0)
        (λ _. deliver-Answered req no_answer d m h) (λ _. deliver-Answered req _ d m h)

  addr_sources-Answered :
      {blocks : List ℕ} {m₀ : Memory} (req : DnsReq) (r : Resolved) (addrs : Option ℕ) (m : Memory)
      (d : Dns)
      → Holds (elim addrs [ none ↦ blocks | some p ↦ p ∷ blocks ]) m₀ m
      → Answered blocks m₀ req.user d (addr_sources platform req r addrs m d)
  unfolding addr_sources free_if
  addr_sources-Answered {blocks = blocks} {m₀ = m₀} req r none m d h =
      with_block-Holds (Answered blocks m₀ req.user d) platform.give
        (length r.addrs * platform.addr_source_size) _ _ h
        (λ m' h'.
          let a = deliver-Answered req no_answer d m' h' in freed-Answered req.user d _ _ a.held a)
        (λ sources m' h'.
          let a = deliver-Answered req no_answer d m' h' in
          freed-Answered req.user d _ _ (Holds-free sources a.held) a)
  addr_sources-Answered {blocks = blocks} {m₀ = m₀} req r (some p) m d h =
      with_block-Holds (Answered blocks m₀ req.user d) platform.give
        (length r.addrs * platform.addr_source_size) _ _ h
        (λ m' h'.
          let a = deliver-Answered req no_answer d m' h' in
          freed-Answered req.user d _ _ (Holds-free p a.held) a)
        (λ sources m' h'.
          let a = addr_compacted-Answered req r d m' h' in
          freed-Answered req.user d _ _ (Holds-free p (Holds-free sources a.held)) a)

  answer_addr-Answered :
      {blocks : List ℕ} {m₀ : Memory} (req : DnsReq) (r : Resolved) (d : Dns)
      → Holds blocks m₀ d.memory
      → Answered blocks m₀ req.user d (answer_addr platform req r d)
  unfolding answer_addr deliver
  answer_addr-Answered {blocks = blocks} {m₀ = m₀} req r d h =
      let P = Answered blocks m₀ req.user d in
      let nothing : P (deliver req.user no_answer d) = record {
        answer = no_answer;
        delivered = refl;
        contexts = refl;
        held = h;
      } in
      if_cases P (not (r.state == 0) || length r.addrs == 0) (λ _. nothing)
        (λ _.
          if_cases P
            (ltb (size_max / platform.addr_size) (length r.addrs)
              || ltb (size_max / platform.addr_source_size) (length r.addrs))
            (λ _. nothing)
            (λ _.
              with_block-Holds P platform.give (length r.addrs * platform.addr_size) _ _ h
                (λ m h'. addr_sources-Answered req r none m d h')
                (λ addrs m h'. addr_sources-Answered req r (some addrs) m d h')))

  answer_kind-Answered :
      {blocks : List ℕ} {m₀ : Memory} (kind : Kind) (req : DnsReq) (r : Resolved) (d : Dns)
      → Holds blocks m₀ d.memory
      → Answered blocks m₀ req.user d (elim kind [
        | srv_lookup ↦ answer_srv platform req r d
        | addr_lookup ↦ answer_addr platform req r d
      ])
  answer_kind-Answered srv_lookup req r d h = answer_srv-Answered req r d h
  answer_kind-Answered addr_lookup req r d h = answer_addr-Answered req r d h

  pub answer_req-Answered :
      {blocks : List ℕ} {m₀ : Memory} (req : DnsReq) (r : Resolved) (d : Dns)
      → Holds blocks m₀ d.memory
      → Answered blocks m₀ req.user d (answer_req platform req r d)
  unfolding answer_req
  answer_req-Answered req r d h = answer_kind-Answered req.kind req r d h

-- ===== src/Dns/Held.antt =====
-- What a DNS request holds, and its release: `rn_dns_req_release` and `rn_dns_discard_unstarted`.
use rl_nginx.Base.{ℕ, Bool, true, false, Option, none, some, List, [], ◌∷◌, ◌++◌, ◌≡◌, ◌⊎◌, ap, ◌∙◌}
use rl_nginx.Memory.{Memory, Holds, Holds-free, free_if}
use rl_nginx.Dns.{
  DnsReq, Answer, Dns, Lookup, Resolved, Platform, with_memory, name_done, req_release, answer_req,
}
use rl_nginx.Dns.Answered.{answer_req-Answered}
use rl_nginx.Dns.Start.{Result}

abbrev pub listed : Option ℕ → List ℕ
listed none = []
listed (some p) = p ∷ []

-- The blocks of a request.
abbrev pub blocks_of : DnsReq → List ℕ
blocks_of req = listed req.name_buf ++ (listed req.service_buf ++ req.block ∷ [])

-- A lookup that ended with one callback, and one that never began; both have given everything back.
pub record Ended (d₀ : Dns) (user : ℕ) (d : Dns) : Type 0 where
  pub answer : Answer
  pub delivered : d.delivered ≡ d₀.delivered ++ (user, answer) ∷ []
  pub memory : Holds [] d₀.memory d.memory
  pub contexts : Holds [] d₀.contexts d.contexts

pub record Rejected (d₀ d : Dns) : Type 0 where
  pub delivered : d.delivered ≡ d₀.delivered
  pub memory : Holds [] d₀.memory d.memory
  pub contexts : Holds [] d₀.contexts d.contexts

-- A request that holds its blocks, and a resolver's context that is live.
pub record Held (d₀ : Dns) (rctx : ℕ) (req : DnsReq) (d : Dns) : Type 0 where
  pub delivered : d.delivered ≡ d₀.delivered
  pub memory : Holds (blocks_of req) d₀.memory d.memory
  pub contexts : Holds (rctx ∷ []) d₀.contexts d.contexts

-- A lookup that will call back.
pub record Pending (d₀ : Dns) (user : ℕ) (lookup : Lookup) (d : Dns) : Type 0 where
  pub req : DnsReq
  pub owner : lookup.owner ≡ some req
  pub same_user : req.user ≡ user
  pub call_over : req.start_state.starting ≡ false
  pub held : Held d₀ lookup.rctx req d

unfoldable pub Once : Dns → ℕ → Bool × Dns → Type 0
Once d₀ user (rc, d) = ((rc ≡ false) × (Rejected d₀ d)) ⊎ ((rc ≡ true) × (Ended d₀ user d))

unfoldable pub Outcome : Dns → ℕ → Result → Type 0
unfolding Once
Outcome d₀ user (rc, none, d) = Once d₀ user (rc, d)
Outcome d₀ user (rc, some lookup, d) = (rc ≡ true) × (Pending d₀ user lookup d)

free_if-Holds :
    {m₀ : Memory} (o : Option ℕ) (blocks : List ℕ) (m : Memory)
    → Holds (listed o ++ blocks) m₀ m
    → Holds blocks m₀ (free_if o m)
unfolding free_if
free_if-Holds none blocks m h = h
free_if-Holds (some p) blocks m h = Holds-free p h

pub req_release-Holds :
    {m₀ : Memory} (req : DnsReq) (d : Dns)
    → Holds (blocks_of req) m₀ d.memory
    → Holds [] m₀ (req_release (some req) d).memory
unfolding req_release with_memory
req_release-Holds req d h = Holds-free req.block (
    free_if-Holds req.service_buf (req.block ∷ []) _
      (free_if-Holds req.name_buf (listed req.service_buf ++ req.block ∷ []) d.memory h))

pub discarded-Rejected :
    {d₀ : Dns} (rctx : ℕ) (req : DnsReq) (d : Dns)
    → Held d₀ rctx req d
    → Rejected d₀ (req_release (some req) (name_done rctx d))
unfolding name_done req_release with_memory
discarded-Rejected rctx req d h = record {
  delivered = h.delivered;
  memory = req_release-Holds req d h.memory;
  contexts = Holds-free rctx h.contexts;
}

-- The answer to a request that is released after it.
pub answered-Ended :
    {d₀ : Dns} (platform : Platform) (rctx : ℕ) (req : DnsReq) (r : Resolved) (d : Dns)
    → Held d₀ rctx req d
    → Ended d₀ req.user (req_release (some req) (name_done rctx (answer_req platform req r d)))
unfolding name_done req_release with_memory
answered-Ended {d₀ = d₀} platform rctx req r d h =
    let a = answer_req-Answered platform req r d h.memory in
    record {
      answer = a.answer;
      delivered = a.delivered ∙ ap (λ xs. xs ++ (req.user, a.answer) ∷ []) h.delivered;
      memory = req_release-Holds req (name_done rctx (answer_req platform req r d)) a.held;
      contexts = Holds-free rctx (rw a.contexts h.contexts);
    }

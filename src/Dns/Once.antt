-- ===== src/Dns/Once.antt =====
-- A lookup from its start to its end: the client's callback is called once, and everything that the
-- lookup obtained is given back.
use rl_nginx.Base.{
  ℕ, Bool, true, false, Option, none, some, [], ◌∷◌, ◌++◌, Bytes, ◌≡◌, inl, inr, refl, ap, if_cases,
  arith,
}
use rl_nginx.AsyncState.{state_complete, state_is_starting}
use rl_nginx.Memory.{occurrences, Holds-none, Holds-free}
use rl_nginx.Dns.{
  Kind, DnsReq, dns_error, Dns, Resolved, Platform, with_memory, deliver, name_done, req_release,
  resolved, resolve_cancel,
}
use rl_nginx.Dns.Start.{Started, Result, resolve_in, resolve}
use rl_nginx.Dns.Held.{Ended, Held, Once, Outcome, Rejected, answered-Ended, req_release-Holds}
use rl_nginx.Dns.Launched.{prepare-Outcome}

-- The end of a lookup that the call which started it has not ended: the resolver answers, or the
-- client cancels it.
pub data End : Type 0 where
  answered : Resolved → End
  given_up : End

unfoldable pub end_lookup : Platform → End → Result → Bool × Dns
unfolding resolved resolve_cancel
end_lookup platform e (rc, none, d) = (rc, d)
end_lookup platform (answered r) (rc, some lookup, d) = (rc, (resolved platform lookup r d).1)
end_lookup platform given_up (rc, some lookup, d) = (rc, resolve_cancel (some lookup) d)

untouched : (d : Dns) → Rejected d d
untouched d = record {
  delivered = refl;
  memory = Holds-none d.memory;
  contexts = Holds-none d.contexts;
}

resolve_in-Outcome :
    (platform : Platform) (started : Started) (kind : Kind) (user : ℕ) (name : Bytes) (d : Dns)
    (context : Option ℕ)
    → Outcome d user (resolve_in platform started kind user name d context)
unfolding resolve_in Outcome Once occurrences
resolve_in-Outcome platform started kind user name d none = inl (refl, untouched d)
resolve_in-Outcome platform started kind user name d (some rctx) =
    prepare-Outcome platform rctx started kind user name _ refl
      (record { balance = λ p. ground arith }) (Holds-none d.memory)

resolve-Outcome :
    (platform : Platform) (resolver : Bool) (context : Option ℕ) (started : Started) (kind : Kind)
    (user : ℕ) (name : Option Bytes) (d : Dns)
    → Outcome d user (resolve platform resolver context started kind user name d)
unfolding resolve Outcome Once
resolve-Outcome platform resolver context started kind user none d = inl (refl, untouched d)
resolve-Outcome platform resolver context started kind user (some name) d =
    if_cases (Outcome d user) resolver
      (λ _. resolve_in-Outcome platform started kind user name d context)
      (λ _. inl (refl, untouched d))

owned-Ended :
    (platform : Platform) (e : End) (d₀ d : Dns) (rctx : ℕ) (req : DnsReq)
    → req.start_state.starting ≡ false
    → Held d₀ rctx req d
    → Ended d₀ req.user
        (end_lookup platform e (true, some (record { rctx = rctx; owner = some req }), d)).1
unfolding end_lookup resolved resolve_cancel state_complete state_is_starting deliver req_release
    name_done with_memory
owned-Ended platform (answered r) d₀ d rctx req f h =
    let req' : DnsReq = record req { start_state = state_complete req.start_state } in
    if_cases (λ (x : Option DnsReq × Dns). Ended d₀ req.user x.1) req.start_state.starting (λ t. cc)
      (λ _.
        answered-Ended platform rctx req' r d
          (record { delivered = h.delivered; memory = h.memory; contexts = h.contexts }))
owned-Ended platform given_up d₀ d rctx req f h = record {
  answer = dns_error;
  delivered = ap (λ xs. xs ++ (req.user, dns_error) ∷ []) h.delivered;
  memory = req_release-Holds req d h.memory;
  contexts = Holds-free rctx h.contexts;
}

Outcome-Once :
    (platform : Platform) (e : End) (d₀ : Dns) (user : ℕ) (res : Result)
    → Outcome d₀ user res
    → Once d₀ user (end_lookup platform e res)
unfolding Outcome Once end_lookup
Outcome-Once platform e d₀ user (rc, none, d) o = o
Outcome-Once platform (answered r) d₀ user (rc, some lookup, d) (t, p) = inr (
  t,
  rw (p.owner, ← p.same_user)
      (owned-Ended platform (answered r) d₀ d lookup.rctx p.req p.call_over p.held),
)
Outcome-Once platform given_up d₀ user (rc, some lookup, d) (t, p) = inr (
  t,
  rw (p.owner, ← p.same_user)
      (owned-Ended platform given_up d₀ d lookup.rctx p.req p.call_over p.held),
)

-- A lookup of either kind, whichever of its allocations fails and however the resolver starts it, that
-- is ended by the resolver's answer or by a cancellation when the call that started it left
-- it pending: the call returned an error and the client's callback is never called, or it
-- returned 0 and the callback is called once with the client's argument, during the call or at
-- the end of the lookup; and every block and resolver's context that the lookup obtained is given
-- back, as often as it was obtained.
pub end_lookup-Once :
    (platform : Platform) (resolver : Bool) (context : Option ℕ) (started : Started) (kind : Kind)
    (user : ℕ) (name : Option Bytes) (d : Dns) (e : End)
    → Once d user
        (end_lookup platform e (resolve platform resolver context started kind user name d))
end_lookup-Once platform resolver context started kind user name d e =
    Outcome-Once platform e d user (resolve platform resolver context started kind user name d)
      (resolve-Outcome platform resolver context started kind user name d)

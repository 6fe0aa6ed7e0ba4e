-- ===== src/Request/Verdict.antt =====
-- What a completion decides: `rn_rate_cb` against what an allowing answer is.
use rl_nginx.Base.{
  ℕ, Bool, true, false, Option, none, some, List, [], ◌∷◌, ◌≡◌, ◌↔◌, refl, ap, length, All, arith,
}
use rl_nginx.Conf.{MainConf}
use rl_nginx.Request.{allowed, valid_allow, valid_verdict, ReqCtx, fail_outcome}
use rl_nginx.Request.Complete.{
  Status, client_ok, client_timeout, client_failed, RateLimitResult, all_passed, no_deficit, allows,
  cardinality_ok, judge_result, judge,
}

-- An answer that allows the request `c`: the client's success, an entry for each guard and each resource
-- that was asked for, the server's success, every guard passed, and no token missing.
pub record IsAllow (c : ReqCtx) (status : Status) (result : Option RateLimitResult) : Type 0 where
  pub answer : RateLimitResult
  pub received : (status ≡ client_ok) × (result ≡ some answer)
  pub guards_complete : length answer.guards ≡ c.expected_guard_count
  pub resources_complete : length answer.resources ≡ c.expected_resource_count
  pub success : answer.success ≡ true
  pub guards_passed : All (λ passed. passed ≡ true) answer.guards
  pub no_deficits : All (λ deficit. deficit ≡ 0) answer.resources

all_passed_sound : (gs : List Bool) → all_passed gs ≡ true → All (λ p. p ≡ true) gs
unfolding all_passed
all_passed_sound [] h = tt
all_passed_sound (true ∷ gs) h = (refl, all_passed_sound gs h)
all_passed_sound (false ∷ gs) h = cc

all_passed_complete : (gs : List Bool) → All (λ p. p ≡ true) gs → all_passed gs ≡ true
unfolding all_passed
all_passed_complete [] h = refl
all_passed_complete (true ∷ gs) h = all_passed_complete gs h.1
all_passed_complete (false ∷ gs) h = cc

no_deficit_sound : (ds : List ℕ) → no_deficit ds ≡ true → All (λ d. d ≡ 0) ds
unfolding no_deficit
no_deficit_sound [] h = tt
no_deficit_sound (d ∷ ds) h = ground (arith, no_deficit_sound ds)

no_deficit_complete : (ds : List ℕ) → All (λ d. d ≡ 0) ds → no_deficit ds ≡ true
unfolding no_deficit
no_deficit_complete [] h = refl
no_deficit_complete (d ∷ ds) h = rw h.0 (no_deficit_complete ds h.1)

allows_sound :
    (r : RateLimitResult)
    → allows r ≡ true
    → (r.success ≡ true) × (all_passed r.guards ≡ true) × (no_deficit r.resources ≡ true)
unfolding allows
allows_sound r h = ground arith

allows_complete :
    (r : RateLimitResult)
    → r.success ≡ true
    → all_passed r.guards ≡ true
    → no_deficit r.resources ≡ true
    → allows r ≡ true
unfolding allows
allows_complete r a b d = ground arith

cardinality_ok_iff :
    (c : ReqCtx) (r : RateLimitResult)
    → (cardinality_ok c r ≡ true) ↔ (
        (length r.guards ≡ c.expected_guard_count)
        × (length r.resources ≡ c.expected_resource_count))
unfolding cardinality_ok
cardinality_ok_iff c r = ground arith

judge_result_sound :
    (mcf : MainConf) (c : ReqCtx) (r : RateLimitResult)
    → (judge_result mcf c r).1 ≡ valid_allow
    → (cardinality_ok c r ≡ true) × (allows r ≡ true)
unfolding judge_result
judge_result_sound mcf c r h = ground arith

judge_result_complete :
    (mcf : MainConf) (c : ReqCtx) (r : RateLimitResult)
    → cardinality_ok c r ≡ true
    → allows r ≡ true
    → judge_result mcf c r ≡ (allowed, valid_allow, valid_verdict)
unfolding judge_result
judge_result_complete mcf c r a b = rw (a, b) refl

judge_result-closed :
    (mcf : MainConf) (c : ReqCtx) (r : RateLimitResult)
    → mcf.fail_open ≡ false
    → (judge_result mcf c r).0 ≡ allowed
    → (judge_result mcf c r).1 ≡ valid_allow
unfolding judge_result
judge_result-closed mcf c r f h = ground arith

-- The policy for failures never gives the outcome of a valid answer.
fail_outcome-invalid : (mcf : MainConf) → fail_outcome mcf ≡ valid_allow → ⊥
fail_outcome-invalid mcf h = ground arith

allowing :
    (mcf : MainConf) (c : ReqCtx) (r : RateLimitResult)
    → (judge_result mcf c r).1 ≡ valid_allow
    → IsAllow c client_ok (some r)
allowing mcf c r h =
    let (card, all) = judge_result_sound mcf c r h in
    let (s, g, d) = allows_sound r all in
    let n = (cardinality_ok_iff c r).0 card in
    record {
      answer = r;
      received = (refl, refl);
      guards_complete = n.0;
      resources_complete = n.1;
      success = s;
      guards_passed = all_passed_sound r.guards g;
      no_deficits = no_deficit_sound r.resources d;
    }

judge_sound :
    (mcf : MainConf) (c : ReqCtx) (status : Status) (result : Option RateLimitResult)
    → (judge mcf c status result).1 ≡ valid_allow
    → IsAllow c status result
unfolding judge
judge_sound mcf c client_ok none h = absurd (fail_outcome-invalid mcf h)
judge_sound mcf c client_ok (some r) h = allowing mcf c r h
judge_sound mcf c client_timeout result h = absurd (fail_outcome-invalid mcf h)
judge_sound mcf c client_failed result h = absurd (fail_outcome-invalid mcf h)

judge_complete :
    (mcf : MainConf) (c : ReqCtx) (status : Status) (result : Option RateLimitResult)
    → IsAllow c status result
    → judge mcf c status result ≡ (allowed, valid_allow, valid_verdict)
unfolding judge
judge_complete mcf c status result a =
    rw (a.received.0, a.received.1)
      (judge_result_complete mcf c a.answer
        ((cardinality_ok_iff c a.answer).1 (a.guards_complete, a.resources_complete))
        (allows_complete a.answer a.success (all_passed_complete a.answer.guards a.guards_passed)
          (no_deficit_complete a.answer.resources a.no_deficits)))

-- The outcome of a completion is a valid allowance exactly when the answer allows the request, and
-- then the request goes on with a valid verdict as the cause.
pub judge-IsAllow_iff :
    (mcf : MainConf) (c : ReqCtx) (status : Status) (result : Option RateLimitResult)
    → (judge mcf c status result ≡ (allowed, valid_allow, valid_verdict)) ↔ IsAllow c status result
judge-IsAllow_iff mcf c status result =
    (λ h. judge_sound mcf c status result (ap (λ x. x.1) h), judge_complete mcf c status result)

judge_closed :
    (mcf : MainConf) (c : ReqCtx) (status : Status) (result : Option RateLimitResult)
    → mcf.fail_open ≡ false
    → (judge mcf c status result).0 ≡ allowed
    → (judge mcf c status result).1 ≡ valid_allow
unfolding judge
judge_closed mcf c client_ok none f h = ground arith
judge_closed mcf c client_ok (some r) f h = judge_result-closed mcf c r f h
judge_closed mcf c client_timeout result f h = ground arith
judge_closed mcf c client_failed result f h = ground arith

-- Where failures close, a completion lets a request go on exactly when the answer allows it: no error of
-- the client, no timeout and no answer of another cardinality does.
pub judge_closed_iff :
    (mcf : MainConf) (c : ReqCtx) (status : Status) (result : Option RateLimitResult)
    → mcf.fail_open ≡ false
    → ((judge mcf c status result).0 ≡ allowed) ↔ IsAllow c status result
judge_closed_iff mcf c status result f = (
  λ h. judge_sound mcf c status result (judge_closed mcf c status result f h),
  λ a. ap (λ x. x.0) (judge_complete mcf c status result a),
)

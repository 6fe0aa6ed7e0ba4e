-- ===== src/Conf/Settings/Once.antt =====
-- A configuration's sequence of the directives of Settings: all of them but `ratelimitly_fail` may
-- stand once.
use rl_nginx.Base.{
  ℕ, ◌+◌, not, ◌&&◌, Bool, true, false, Option, List, [], ◌∷◌, Bytes, codes, ltb, ◌≡◌, ap, length,
  same_bytes, is_some, if◌then◌else◌, if_cases, Result, ok, or_error, arith,
}
use rl_nginx.Base.Results.{
  ◌>>=◌, Then, Anything, Then-Anything, Then->>=, Then-guard, Then-ok, >>=-eq-ok, ok_inj,
}
use rl_nginx.Policy.{RequestPolicy, ScheduleKind}
use rl_nginx.Policy.Directive.{read_policy}
use rl_nginx.Conf.{
  Address, MainConf, DirectiveError, conf_error, is_duplicate, missing_argument, invalid_value,
  is_empty,
}
use rl_nginx.Conf.Settings.{
  KeyInfo, set_dns_srv, set_dns_resolver, set_auth_key, value_of, set_policy, set_fail, is_inet,
  set_bind, set_debug,
}
use rl_nginx.Conf.Settings.Applied.{
  Setting, dns_srv, auth_key, fail, bind, debug, dns_resolver, policy, Slot, fills, is_set, Applied,
  tenant-Applied, resolver-Applied, key-Applied, chosen-Applied, bound-Applied, debugged-Applied,
  fail-Applied,
}

abbrev pub one : Bool → ℕ
one b = if b then 1 else 0

unfoldable pub count_of : Slot → List Setting → ℕ
unfolding fills
count_of slot [] = 0
count_of slot (s ∷ settings) = one (fills slot s) + count_of slot settings

-- What nginx and the client give to the directives.
pub record Outside : Type 0 where
  pub resolver_create : List Bytes → Option ℕ
  pub alloc : Bool
  pub parse_auth_key : Bytes → Option KeyInfo
  pub max_replay_count : ℕ
  pub parse_time : Bytes → Option ℕ
  pub default_policy : RequestPolicy
  pub zero_kind : ScheduleKind
  pub storage_size : ℕ
  pub parse_addr : Bytes → Option Address

unset_before : (b : Bool) → not b ≡ true → b ≡ false
unset_before b h = ground (arith, h)

module _ (outside : Outside) where
  unfoldable pub apply : Setting → MainConf → Result DirectiveError MainConf
  apply (dns_srv v) mcf = set_dns_srv mcf v
  apply (dns_resolver vs) mcf = set_dns_resolver outside.resolver_create mcf vs
  apply (auth_key v) mcf = set_auth_key outside.alloc outside.parse_auth_key mcf v
  apply (policy name args) mcf =
      set_policy outside.max_replay_count outside.parse_time outside.default_policy
        outside.zero_kind mcf name args
  apply (fail v) mcf = set_fail mcf v
  apply (bind v) mcf = set_bind outside.storage_size outside.parse_addr mcf v
  apply (debug v) mcf = set_debug mcf v

  unfoldable pub apply_all : List Setting → MainConf → Result DirectiveError MainConf
  unfolding apply
  apply_all [] mcf = ok mcf
  apply_all (s ∷ settings) mcf = do mcf' ← apply s mcf; apply_all settings mcf'

  apply-Applied : (s : Setting) (mcf : MainConf) → Then (Applied s mcf) (apply s mcf)
  unfolding apply set_dns_srv set_dns_resolver set_auth_key set_policy set_fail set_bind set_debug
  apply-Applied (dns_srv v) mcf =
      Then-guard (Applied (dns_srv v) mcf) is_duplicate (not (is_some mcf.tenant_dns)) _
        (λ t. tenant-Applied v mcf (unset_before (is_some mcf.tenant_dns) t))
  apply-Applied (dns_resolver vs) mcf =
      Then-guard (Applied (dns_resolver vs) mcf) is_duplicate (not (is_some mcf.resolver)) _ (λ t.
        Then->>= Anything (Applied (dns_resolver vs) mcf)
          (or_error conf_error (outside.resolver_create vs)) _
          (Then-Anything (or_error conf_error (outside.resolver_create vs)))
          (λ resolver _. resolver-Applied vs resolver mcf (unset_before (is_some mcf.resolver) t)))
  apply-Applied (auth_key v) mcf =
      Then-guard (Applied (auth_key v) mcf) is_duplicate (not (is_some mcf.auth_key)) _ (λ t.
        Then-guard (Applied (auth_key v) mcf) missing_argument (not (is_empty v)) _ (λ _.
          Then-guard (Applied (auth_key v) mcf) conf_error outside.alloc _ (λ _.
            Then->>= Anything (Applied (auth_key v) mcf)
              (or_error invalid_value (outside.parse_auth_key v)) _
              (Then-Anything (or_error invalid_value (outside.parse_auth_key v)))
              (λ info _. key-Applied v info mcf (unset_before (is_some mcf.auth_key) t)))))
  apply-Applied (policy name args) mcf =
      let read = or_error invalid_value (
        value_of (
          read_policy outside.max_replay_count outside.parse_time outside.default_policy
            outside.zero_kind name args)) in
      Then-guard (Applied (policy name args) mcf) is_duplicate (not mcf.request_policy_set) _ (λ t.
        Then->>= Anything (Applied (policy name args) mcf) read _ (Then-Anything read) (λ named _.
          chosen-Applied name args named.0 named.1 mcf (unset_before mcf.request_policy_set t)))
  apply-Applied (fail v) mcf =
      if_cases (Then (Applied (fail v) mcf)) (same_bytes v (codes "open"))
        (λ _. fail-Applied v true mcf)
        (λ _.
          if_cases (Then (Applied (fail v) mcf)) (same_bytes v (codes "close"))
            (λ _. fail-Applied v false mcf) (λ _. tt))
  apply-Applied (bind v) mcf =
      Then-guard (Applied (bind v) mcf) is_duplicate (not (is_some mcf.bind)) _ (λ t.
        Then->>= Anything (Applied (bind v) mcf) (or_error invalid_value (outside.parse_addr v)) _
          (Then-Anything (or_error invalid_value (outside.parse_addr v)))
          (λ address _.
            Then-guard (Applied (bind v) mcf) invalid_value
              (is_inet address.family && not (ltb outside.storage_size (length address.sockaddr))) _
              (λ _. bound-Applied v address mcf (unset_before (is_some mcf.bind) t))))
  apply-Applied (debug v) mcf =
      Then-guard (Applied (debug v) mcf) is_duplicate (not mcf.debug_set) _ (λ t.
        if_cases (Then (Applied (debug v) mcf)) (same_bytes v (codes "on"))
          (λ _. debugged-Applied v true mcf (unset_before mcf.debug_set t))
          (λ _.
            if_cases (Then (Applied (debug v) mcf)) (same_bytes v (codes "off"))
              (λ _. debugged-Applied v false mcf (unset_before mcf.debug_set t)) (λ _. tt)))

  -- The directives of Settings, applied in order to any configuration: when all are accepted, each of
  -- those that may stand once stands at most once, and not at all where the configuration held
  -- its value before; and the result holds the value exactly when it stood or was held.
  pub apply_all-counts :
      (settings : List Setting) (mcf mcf' : MainConf) (slot : Slot)
      → apply_all settings mcf ≡ ok mcf'
      → count_of slot settings + one (is_set slot mcf) ≡ one (is_set slot mcf')
  unfolding apply_all count_of
  apply_all-counts [] mcf mcf' slot e =
      omega (arith, ap (λ (m : MainConf). one (is_set slot m)) (ok_inj e))
  apply_all-counts (s ∷ settings) mcf mcf' slot e =
      let (mcf₁, first, rest) = >>=-eq-ok (apply s mcf) _ e in
      let a = Then-ok (Applied s mcf) (apply s mcf) mcf₁ (apply-Applied s mcf) first slot in
      ground (arith, a.0, a.1, apply_all-counts settings mcf₁ mcf' slot rest)

-- ===== src/Conf/Closed/Values.antt =====
-- The directives of Settings leave the tables as they are.
use rl_nginx.Base.{not, ◌&&◌, codes, ltb, refl, is_some, length, same_bytes, if_cases, or_error}
use rl_nginx.Base.Results.{Then, Anything, Then-Anything, Then->>=, Then-guard}
use rl_nginx.Policy.Directive.{read_policy}
use rl_nginx.Conf.{
  MainConf, conf_error, is_duplicate, missing_argument, invalid_value, is_empty, find_zone,
  find_tracker, find_guard, find_group,
}
use rl_nginx.Conf.Settings.{
  set_dns_srv, set_dns_resolver, set_auth_key, value_of, set_policy, set_fail, is_inet, set_bind,
  set_debug,
}
use rl_nginx.Conf.Settings.Applied.{
  Setting, dns_srv, auth_key, fail, bind, debug, dns_resolver, policy,
}
use rl_nginx.Conf.Settings.Once.{Outside, apply}
use rl_nginx.Conf.Closed.{Stays, SameTables}

pub SameTables-Stays : {mcf mcf' : MainConf} → SameTables mcf mcf' → Stays mcf mcf'
unfolding find_zone find_tracker find_guard find_group
SameTables-Stays {mcf} {mcf'} same = record {
  tables = λ c. record {
    zones = rw same.zones c.zones;
    trackers = rw same.trackers c.trackers;
    guards = rw same.guards c.guards;
    groups = rw same.groups c.groups;
    members = rw (same.groups, same.zones) c.members;
    watched = rw (same.guards, same.trackers) c.watched;
  };
  declared = record {
    zones = λ n k. rw same.zones k;
    trackers = λ n k. rw same.trackers k;
    guards = λ n k. rw same.guards k;
    groups = λ n k. rw same.groups k;
  };
}

module _ (outside : Outside) (mcf : MainConf) where
  pub apply-SameTables : (s : Setting) → Then (SameTables mcf) (apply outside s mcf)
  unfolding apply set_dns_srv set_dns_resolver set_auth_key set_policy set_fail set_bind set_debug
  apply-SameTables (dns_srv v) =
      Then-guard (SameTables mcf) is_duplicate (not (is_some mcf.tenant_dns)) _
        λ _. record { zones = refl; trackers = refl; guards = refl; groups = refl }
  apply-SameTables (dns_resolver vs) =
      Then-guard (SameTables mcf) is_duplicate (not (is_some mcf.resolver)) _ λ _.
        Then->>= Anything (SameTables mcf) (or_error conf_error (outside.resolver_create vs)) _
          (Then-Anything (or_error conf_error (outside.resolver_create vs)))
          (λ _ _. record { zones = refl; trackers = refl; guards = refl; groups = refl })
  apply-SameTables (auth_key v) =
      Then-guard (SameTables mcf) is_duplicate (not (is_some mcf.auth_key)) _ λ _.
        Then-guard (SameTables mcf) missing_argument (not (is_empty v)) _ λ _.
          Then-guard (SameTables mcf) conf_error outside.alloc _ λ _.
            Then->>= Anything (SameTables mcf) (or_error invalid_value (outside.parse_auth_key v)) _
              (Then-Anything (or_error invalid_value (outside.parse_auth_key v)))
              (λ _ _. record { zones = refl; trackers = refl; guards = refl; groups = refl })
  apply-SameTables (policy name args) =
      let read = or_error invalid_value (
        value_of (
          read_policy outside.max_replay_count outside.parse_time outside.default_policy
            outside.zero_kind name args)) in
      Then-guard (SameTables mcf) is_duplicate (not mcf.request_policy_set) _ λ _.
        Then->>= Anything (SameTables mcf) read _ (Then-Anything read)
          (λ _ _. record { zones = refl; trackers = refl; guards = refl; groups = refl })
  apply-SameTables (fail v) =
      if_cases (Then (SameTables mcf)) (same_bytes v (codes "open"))
        (λ _. record { zones = refl; trackers = refl; guards = refl; groups = refl })
        (λ _.
          if_cases (Then (SameTables mcf)) (same_bytes v (codes "close"))
            (λ _. record { zones = refl; trackers = refl; guards = refl; groups = refl }) (λ _. tt))
  apply-SameTables (bind v) =
      Then-guard (SameTables mcf) is_duplicate (not (is_some mcf.bind)) _ λ _.
        Then->>= Anything (SameTables mcf) (or_error invalid_value (outside.parse_addr v)) _
          (Then-Anything (or_error invalid_value (outside.parse_addr v)))
          (λ address _.
            Then-guard (SameTables mcf) invalid_value
              (is_inet address.family && not (ltb outside.storage_size (length address.sockaddr))) _
              (λ _. record { zones = refl; trackers = refl; guards = refl; groups = refl }))
  apply-SameTables (debug v) = Then-guard (SameTables mcf) is_duplicate (not mcf.debug_set) _ λ _.
      if_cases (Then (SameTables mcf)) (same_bytes v (codes "on"))
        (λ _. record { zones = refl; trackers = refl; guards = refl; groups = refl })
        (λ _.
          if_cases (Then (SameTables mcf)) (same_bytes v (codes "off"))
            (λ _. record { zones = refl; trackers = refl; guards = refl; groups = refl }) (λ _. tt))

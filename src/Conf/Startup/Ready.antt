-- ===== src/Conf/Startup/Ready.antt =====
-- What `ngx_http_rn_init` guarantees for the requests of a configuration that it accepts.
use rl_nginx.Base.{
  ℕ, ◌≤◌, not, true, false, Option, none, some, [], ◌∷◌, ◌++◌, ◌==◌, ◌≡◌, refl, ap, ◌∙◌, ◌⊎◌, inl,
  inr, is_some, if◌then◌else◌, if_cases, u32_max, ok, or_error, arith,
}
use rl_nginx.Base.Results.{◌>>=◌, Then, Then->>=, Then-guard, Then-map, Then-ok}
use rl_nginx.Policy.{horizon_ms}
use rl_nginx.Policy.Horizon.{accepts, horizon_ms-total_units}
use rl_nginx.Conf.{MainConf}
use rl_nginx.Conf.Startup.{
  rn_handler, rn_log_handler, Phases, no_memory, missing_auth_key, horizon_invalid, no_resolver,
  Nginx, create_system_dns_resolver, install, is_unset, default_tenant, with_tenant, max_ttl_ms,
  system_resolver, with_resolver, with_timeout, enable, rn_init,
}

module _ (nginx : Nginx) (max_replay_count : ℕ) where
  -- What a worker needs of the configuration.
  pub record Ready (mcf mcf' : MainConf) : Type 0 where
    pub has_key : is_unset nginx max_replay_count mcf'.auth_key ≡ false
    pub has_tenant : is_unset nginx max_replay_count mcf'.tenant_dns ≡ false
    pub in_time :
        accepts max_replay_count mcf'.request_policy (max_ttl_ms nginx max_replay_count mcf') ≡ true
    pub has_resolver : is_some mcf'.resolver ≡ true
    pub has_timeout : (mcf'.resolver_timeout == 0) ≡ false
    pub same_key : mcf'.auth_key ≡ mcf.auth_key
    pub same_policy : mcf'.request_policy ≡ mcf.request_policy

  nonempty_tenant :
      (key_id : ℕ)
      → is_unset nginx max_replay_count (some (default_tenant nginx max_replay_count key_id))
        ≡ false
  unfolding default_tenant
  nonempty_tenant key_id = refl

  -- After the tenant is set, and after the resolver is.
  record Tenant (mcf mcf' : MainConf) : Type 0 where
    has_tenant : is_unset nginx max_replay_count mcf'.tenant_dns ≡ false
    same_key : mcf'.auth_key ≡ mcf.auth_key
    same_limit : mcf'.dedup_ttl_ms_max ≡ mcf.dedup_ttl_ms_max
    same_policy : mcf'.request_policy ≡ mcf.request_policy

  record Resolver (mcf mcf' : MainConf) : Type 0 where
    tenant : Tenant mcf mcf'
    has_resolver : is_some mcf'.resolver ≡ true

  with_tenant-Tenant : (mcf : MainConf) → Then (Tenant mcf) (with_tenant nginx max_replay_count mcf)
  unfolding with_tenant
  with_tenant-Tenant mcf =
      if_cases (Then (Tenant mcf)) (is_unset nginx max_replay_count mcf.tenant_dns)
        (λ _.
          if_cases (Then (Tenant mcf)) nginx.alloc_tenant
            (λ _. record {
              has_tenant = nonempty_tenant mcf.key_id;
              same_key = refl;
              same_limit = refl;
              same_policy = refl;
            })
            (λ _. tt))
        (λ t. record { has_tenant = t; same_key = refl; same_limit = refl; same_policy = refl })

  Resolver-set :
      (mcf mcf' : MainConf) (resolver timeout : ℕ)
      → Tenant mcf mcf'
      → Resolver mcf (record mcf' { resolver = some resolver; resolver_timeout = timeout })
  Resolver-set mcf mcf' resolver timeout t = record {
    tenant = record {
      has_tenant = t.has_tenant;
      same_key = t.same_key;
      same_limit = t.same_limit;
      same_policy = t.same_policy;
    };
    has_resolver = refl;
  }

  system_resolver-Resolver :
      (mcf mcf' : MainConf) (at_start : Option ℕ)
      → Tenant mcf mcf'
      → Then (Resolver mcf) (
          or_error no_resolver at_start >>= λ resolver.
          ok (record mcf' { resolver = some resolver }))
  system_resolver-Resolver mcf mcf' none t = tt
  system_resolver-Resolver mcf mcf' (some r) t = Resolver-set mcf mcf' r mcf'.resolver_timeout t

  core_resolver-Resolver :
      (mcf mcf' : MainConf) (core : Option (ℕ × ℕ))
      → Tenant mcf mcf'
      → Then (Resolver mcf) (elim core [
        | none ↦ system_resolver nginx max_replay_count mcf'
        | some (resolver, timeout) ↦
            ok (record mcf' { resolver = some resolver; resolver_timeout = timeout })
      ])
  unfolding system_resolver
  core_resolver-Resolver mcf mcf' none t =
      system_resolver-Resolver mcf mcf' (create_system_dns_resolver nginx max_replay_count) t
  core_resolver-Resolver mcf mcf' (some (r, timeout)) t = Resolver-set mcf mcf' r timeout t

  with_resolver-Resolver :
      (mcf mcf' : MainConf)
      → Tenant mcf mcf'
      → Then (Resolver mcf) (with_resolver nginx max_replay_count mcf')
  unfolding with_resolver
  with_resolver-Resolver mcf mcf' t =
      if_cases (Then (Resolver mcf)) (is_some mcf'.resolver)
        (λ set. record { tenant = t; has_resolver = set })
        (λ _. core_resolver-Resolver mcf mcf' nginx.core_resolver t)

  -- A horizon that was found is the one of an accepted policy.
  found-accepts :
      (mcf : MainConf)
      → mcf.request_policy.replay_gap.max_units ≤ u32_max
      → mcf.dedup_ttl_ms_max ≤ u32_max
      → is_some
          (horizon_ms max_replay_count mcf.request_policy (max_ttl_ms nginx max_replay_count mcf))
        ≡ true
      → accepts max_replay_count mcf.request_policy (max_ttl_ms nginx max_replay_count mcf) ≡ true
  unfolding max_ttl_ms
  found-accepts mcf g l f = ground (
    arith,
    f,
    horizon_ms-total_units max_replay_count mcf.request_policy
        (if mcf.dedup_ttl_ms_max == 0 then u32_max else mcf.dedup_ttl_ms_max) g (ground (arith, l)),
  )

  with_timeout-Ready :
      (mcf mcf' : MainConf)
      → Resolver mcf mcf'
      → is_unset nginx max_replay_count mcf.auth_key ≡ false
      → accepts max_replay_count mcf'.request_policy (max_ttl_ms nginx max_replay_count mcf') ≡ true
      → Ready mcf (with_timeout nginx max_replay_count mcf')
  unfolding with_timeout max_ttl_ms
  with_timeout-Ready mcf mcf' r k a =
      let key = ap (is_unset nginx max_replay_count) r.tenant.same_key ∙ k in
      if_cases (Ready mcf) (mcf'.resolver_timeout == 0)
        (λ _. record {
          has_key = key;
          has_tenant = r.tenant.has_tenant;
          in_time = a;
          has_resolver = r.has_resolver;
          has_timeout = refl;
          same_key = r.tenant.same_key;
          same_policy = r.tenant.same_policy;
        })
        (λ f. record {
          has_key = key;
          has_tenant = r.tenant.has_tenant;
          in_time = a;
          has_resolver = r.has_resolver;
          has_timeout = f;
          same_key = r.tenant.same_key;
          same_policy = r.tenant.same_policy;
        })

  accepted_still :
      (mcf mcf₁ mcf₂ : MainConf)
      → Tenant mcf mcf₁
      → Resolver mcf mcf₂
      → accepts max_replay_count mcf₁.request_policy (max_ttl_ms nginx max_replay_count mcf₁) ≡ true
      → accepts max_replay_count mcf₂.request_policy (max_ttl_ms nginx max_replay_count mcf₂) ≡ true
  unfolding max_ttl_ms
  accepted_still mcf mcf₁ mcf₂ t r a =
      rw (r.tenant.same_policy, r.tenant.same_limit, ← t.same_policy, ← t.same_limit) a

  enable-Ready :
      (mcf : MainConf)
      → mcf.request_policy.replay_gap.max_units ≤ u32_max
      → mcf.dedup_ttl_ms_max ≤ u32_max
      → Then (Ready mcf) (enable nginx max_replay_count mcf)
  unfolding enable
  enable-Ready mcf g l =
      Then-guard (Ready mcf) missing_auth_key (not (is_unset nginx max_replay_count mcf.auth_key)) _
        (λ k.
          Then->>= (Tenant mcf) (Ready mcf) (with_tenant nginx max_replay_count mcf) _
            (with_tenant-Tenant mcf)
            (λ mcf₁ t. Then-guard (Ready mcf) horizon_invalid _ _ (λ h.
              Then->>= (Resolver mcf) (Ready mcf) (with_resolver nginx max_replay_count mcf₁) _
                (with_resolver-Resolver mcf mcf₁ t)
                (λ mcf₂ r. with_timeout-Ready mcf mcf₂ r (ground (arith, k)) (
                  accepted_still mcf mcf₁ mcf₂ t r
                    (found-accepts mcf₁ (rw t.same_policy g) (rw t.same_limit l) h))))))

  -- The handlers of the module in their phases, before all others and after them.
  pub record Started (phases : Phases) (mcf : MainConf) (result : Phases × MainConf) : Type 0 where
    pub first : result.0.precontent ≡ rn_handler ∷ phases.precontent
    pub last : result.0.log ≡ phases.log ++ rn_log_handler ∷ []
    pub ready :
        ((mcf.enabled ≡ false) × (result.1 ≡ mcf)) ⊎ ((mcf.enabled ≡ true) × (Ready mcf result.1))

  enabled_or_same :
      (mcf : MainConf)
      → mcf.request_policy.replay_gap.max_units ≤ u32_max
      → mcf.dedup_ttl_ms_max ≤ u32_max
      → Then
          (λ mcf'.
            ((mcf.enabled ≡ false) × (mcf' ≡ mcf)) ⊎ ((mcf.enabled ≡ true) × (Ready mcf mcf')))
          (if mcf.enabled then enable nginx max_replay_count mcf else ok mcf)
  enabled_or_same mcf g l =
      if_cases
        (Then λ mcf'.
          ((mcf.enabled ≡ false) × (mcf' ≡ mcf)) ⊎ ((mcf.enabled ≡ true) × (Ready mcf mcf')))
        mcf.enabled
        (λ on.
          Then-map (Ready mcf) _ (enable nginx max_replay_count mcf) (enable-Ready mcf g l)
            (λ a r. inr (on, r)))
        (λ off. inl (off, refl))

  abbrev Installed : Phases → Phases → Type 0
  Installed phases phases' =
      (phases'.precontent ≡ rn_handler ∷ phases.precontent)
      × (phases'.log ≡ phases.log ++ rn_log_handler ∷ [])

  install-Installed :
      (phases : Phases) → Then (Installed phases) (install nginx max_replay_count phases)
  unfolding install
  install-Installed phases =
      Then-guard (Installed phases) no_memory nginx.push_precontent _
        (λ _. Then-guard (Installed phases) no_memory nginx.push_log _ (λ _. (refl, refl)))

  -- When the start of a configuration succeeds: the module's handler stands first in the array of its
  -- phase, so that nginx runs it last, and the handler of the log phase last in its own, with the
  -- handlers of other modules in their order; and where the module is enabled, there is a key
  -- and the name of a tenant, the key and the policy are those that were set, all rounds of the policy
  -- end within the time for which the key allows a request to be repeated, and there is a resolver
  -- with a timeout. The policy's gap and the key's limit fit 32 bits.
  pub rn_init-Started :
      (phases : Phases) (mcf : MainConf) (result : Phases × MainConf)
      → mcf.request_policy.replay_gap.max_units ≤ u32_max
      → mcf.dedup_ttl_ms_max ≤ u32_max
      → rn_init nginx max_replay_count phases mcf ≡ ok result
      → Started phases mcf result
  unfolding rn_init
  rn_init-Started phases mcf result g l e =
      Then-ok (Started phases mcf) (rn_init nginx max_replay_count phases mcf) result
        (Then->>= (Installed phases) (Started phases mcf) (install nginx max_replay_count phases) _
          (install-Installed phases)
          (λ phases' at.
            Then->>= _ (Started phases mcf)
              (if mcf.enabled then enable nginx max_replay_count mcf else ok mcf) _
              (enabled_or_same mcf g l)
              (λ mcf' r. record { first = at.0; last = at.1; ready = r })))
        e

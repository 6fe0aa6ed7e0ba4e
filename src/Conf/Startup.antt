-- ===== src/Conf/Startup.antt =====
-- `ngx_http_rn_init` and `rn_create_system_dns_resolver`: what is done when a configuration has been
-- read. The lines of /etc/resolv.conf as `fgets` returns them, no lines for a file that cannot be
-- opened, the creation of a resolver, the text of the key's number and the resolver of the
-- http block are parameters.
pub mod Ready
pub mod Names
use rl_nginx.Base.{
  ℕ, ◌+◌, not, ◌&&◌, ◌||◌, Bool, true, false, Option, none, some, List, [], ◌∷◌, ◌++◌, Bytes, codes,
  ltb, ◌==◌, take, length, is_some, if◌then◌else◌, u32_max, Result, ok, err, guard, or_error,
}
use rl_nginx.Base.Results.{◌>>=◌, ◌>>◌}
use rl_nginx.ResolvConf.{Nameserver, not_nameserver, inet, inet6, unusable, Output, nameserver}
use rl_nginx.Policy.{horizon_ms}
use rl_nginx.Conf.{MainConf}

abbrev pub nameserver_max : ℕ
nameserver_max = 256

abbrev pub max_nameservers : ℕ
max_nameservers = 16

abbrev pub default_timeout_ms : ℕ
default_timeout_ms = 30000

-- A handler of a phase: the module's two, or another's.
pub data Handler : Type 0 where
  rn_handler rn_log_handler : Handler
  other_handler : ℕ → Handler

pub record Phases : Type 0 where
  pub precontent : List Handler
  pub log : List Handler

pub data InitError : Type 0 where
  no_memory missing_auth_key horizon_invalid no_resolver : InitError

-- What nginx gives: the allocations in order, whether it has IPv6, the lines, `ngx_resolver_create`,
-- the number as text, and the resolver of the http block with its timeout, if it has one.
pub record Nginx : Type 0 where
  pub push_precontent : Bool
  pub push_log : Bool
  pub alloc_tenant : Bool
  pub alloc_name : ℕ → Bool
  pub has_inet6 : Bool
  pub lines : List Bytes
  pub resolver_create : List Bytes → Option ℕ
  pub number_text : ℕ → Bytes
  pub core_resolver : Option (ℕ × ℕ)

-- The nameserver of a line that a resolver can use.
unfoldable pub usable_name : Bool → Bytes → Option Bytes
usable_name has_inet6 line =
    let o = nameserver (some line) nameserver_max in
    elim (o.kind) [
      | not_nameserver ↦ none
      | unusable ↦ none
      | inet ↦ some (take o.out_len o.out)
      | inet6 ↦ if has_inet6 then some (take o.out_len o.out) else none
    ]

module _ (nginx : Nginx) (max_replay_count : ℕ) where
  -- The loop over the lines, with the count of the names so far.
  unfoldable pub system_names : List Bytes → ℕ → Option (List Bytes)
  unfolding usable_name
  system_names [] n = some []
  system_names (line ∷ lines) n =
      let rest = system_names lines in
      if ltb n max_nameservers
      then elim (usable_name nginx.has_inet6 line) [
        | none ↦ rest n
        | some name ↦
            if nginx.alloc_name n
            then elim (rest (n + 1)) [ none ↦ none | some names ↦ some (name ∷ names) ]
            else none
      ]
      else some []

  -- No usable line leaves the local resolver.
  abbrev pub or_local : List Bytes → List Bytes
  or_local [] = codes "127.0.0.1" ∷ []
  or_local (name ∷ names) = name ∷ names

  unfoldable pub create_system_dns_resolver : Option ℕ
  unfolding system_names
  create_system_dns_resolver = elim (system_names nginx.lines 0) [
    | none ↦ none
    | some names ↦ nginx.resolver_create (or_local names)
  ]

  -- The push moves the handlers up and stores the module's at index 0.
  unfoldable pub install : Phases → Result InitError Phases
  install phases = do
    guard no_memory nginx.push_precontent
    guard no_memory nginx.push_log
    ok (record {
      precontent = rn_handler ∷ phases.precontent;
      log = phases.log ++ rn_log_handler ∷ [];
    })

  abbrev pub is_unset : Option Bytes → Bool
  is_unset none = true
  is_unset (some []) = true
  is_unset (some (c ∷ s)) = false

  unfoldable pub default_tenant : ℕ → Bytes
  default_tenant key_id = codes "c-" ++ nginx.number_text key_id ++ codes ".p0.ratelimitly.com"

  unfoldable pub with_tenant : MainConf → Result InitError MainConf
  unfolding default_tenant
  with_tenant mcf =
      if is_unset mcf.tenant_dns
      then if nginx.alloc_tenant
        then ok (record mcf { tenant_dns = some (default_tenant mcf.key_id) })
        else err no_memory
      else ok mcf

  -- `max_ttl_ms`: the limit of the key, where it has one.
  unfoldable pub max_ttl_ms : MainConf → ℕ
  max_ttl_ms mcf = if mcf.dedup_ttl_ms_max == 0 then u32_max else mcf.dedup_ttl_ms_max

  unfoldable pub system_resolver : MainConf → Result InitError MainConf
  unfolding create_system_dns_resolver
  system_resolver mcf = do
    resolver ← or_error no_resolver create_system_dns_resolver
    ok (record mcf { resolver = some resolver })

  unfoldable pub with_resolver : MainConf → Result InitError MainConf
  unfolding system_resolver
  with_resolver mcf = if is_some mcf.resolver then ok mcf else elim (nginx.core_resolver) [
    | none ↦ system_resolver mcf
    | some (resolver, timeout) ↦
        ok (record mcf { resolver = some resolver; resolver_timeout = timeout })
  ]

  unfoldable pub with_timeout : MainConf → MainConf
  with_timeout mcf =
      if mcf.resolver_timeout == 0
      then record mcf { resolver_timeout = default_timeout_ms }
      else mcf

  unfoldable pub enable : MainConf → Result InitError MainConf
  unfolding with_tenant max_ttl_ms with_resolver with_timeout
  enable mcf = do
    guard missing_auth_key (not (is_unset mcf.auth_key))
    mcf₁ ← with_tenant mcf
    guard horizon_invalid
        (is_some (horizon_ms max_replay_count mcf₁.request_policy (max_ttl_ms mcf₁)))
    mcf₂ ← with_resolver mcf₁
    ok (with_timeout mcf₂)

  -- `ngx_http_rn_init`.
  unfoldable pub rn_init : Phases → MainConf → Result InitError (Phases × MainConf)
  unfolding install enable
  rn_init phases mcf = do
    phases' ← install phases
    mcf' ← (if mcf.enabled then enable mcf else ok mcf)
    ok (phases', mcf')

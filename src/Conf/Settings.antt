-- ===== src/Conf/Settings.antt =====
-- The directives that set one part of the configuration: `ratelimitly_dns_srv`,
-- `ratelimitly_dns_resolver`, `ratelimitly_auth_key`, `ratelimitly_policy`, `ratelimitly_fail`,
-- `ratelimitly_bind` and `ratelimitly_debug`. `ngx_resolver_create`, `ngx_parse_time`,
-- `ngx_parse_addr` and the client's parser of a key are parameters; a string that is set has its data,
-- be it empty.
pub mod Applied
pub mod Once
use rl_nginx.Base.{
  none, ℕ, not, ◌&&◌, Bool, true, false, Option, some, List, Bytes, codes, ltb, length, same_bytes,
  is_some, if◌then◌else◌, Result, ok, err, guard, or_error,
}
use rl_nginx.Base.Results.{◌>>=◌, ◌>>◌}
use rl_nginx.Policy.{RequestPolicy, PolicyKind, ScheduleKind}
use rl_nginx.Policy.Directive.{PolicyError, read_policy}
use rl_nginx.Conf.{
  Family, ipv4, ipv6, Address, MainConf, DirectiveError, conf_error, is_duplicate, missing_argument,
  invalid_value, is_empty,
}

-- The value, whatever the message of a refusal.
abbrev pub value_of : {E A : Type 0} → Result E A → Option A
value_of (ok a) = some a
value_of (err e) = none

-- `r_auth_key_info_t`.
pub record KeyInfo : Type 0 where
  pub auth_type : ℕ
  pub key_id : ℕ
  pub dedup_ttl_ms_max : ℕ

unfoldable pub set_dns_srv : MainConf → Bytes → Result DirectiveError MainConf
set_dns_srv mcf value = do
  guard is_duplicate (not (is_some mcf.tenant_dns))
  ok (record mcf { tenant_dns = some value })

unfoldable pub set_dns_resolver :
    (List Bytes → Option ℕ) → MainConf → List Bytes → Result DirectiveError MainConf
set_dns_resolver resolver_create mcf values = do
  guard is_duplicate (not (is_some mcf.resolver))
  resolver ← or_error conf_error (resolver_create values)
  ok (record mcf { resolver = some resolver })

unfoldable pub set_auth_key :
    Bool → (Bytes → Option KeyInfo) → MainConf → Bytes → Result DirectiveError MainConf
set_auth_key alloc parse_auth_key mcf value = do
  guard is_duplicate (not (is_some mcf.auth_key))
  guard missing_argument (not (is_empty value))
  guard conf_error alloc
  info ← or_error invalid_value (parse_auth_key value)
  ok (record mcf {
    auth_key = some value;
    auth_type = info.auth_type;
    key_id = info.key_id;
    dedup_ttl_ms_max = info.dedup_ttl_ms_max;
  })

-- `ngx_http_rn_set_policy`, with the reading of its arguments; the message is that of `read_policy`.
unfoldable pub set_policy :
    ℕ
    → (Bytes → Option ℕ)
    → RequestPolicy
    → ScheduleKind
    → MainConf
    → Bytes
    → List Bytes
    → Result DirectiveError MainConf
set_policy max_replay_count parse_time default_policy zero_kind mcf name args = do
  guard is_duplicate (not mcf.request_policy_set)
  (kind, policy) ←
      or_error invalid_value
        (value_of (read_policy max_replay_count parse_time default_policy zero_kind name args))
  ok (record mcf { request_policy = policy; request_policy_kind = kind; request_policy_set = true })

unfoldable pub set_fail : MainConf → Bytes → Result DirectiveError MainConf
set_fail mcf value =
    if same_bytes value (codes "open")
    then ok (record mcf { fail_open = true })
    else if same_bytes value (codes "close")
    then ok (record mcf { fail_open = false })
    else err invalid_value

abbrev pub is_inet : Family → Bool
is_inet ipv4 = true
is_inet ipv6 = true
is_inet _ = false

unfoldable pub set_bind :
    ℕ → (Bytes → Option Address) → MainConf → Bytes → Result DirectiveError MainConf
set_bind storage_size parse_addr mcf value = do
  guard is_duplicate (not (is_some mcf.bind))
  address ← or_error invalid_value (parse_addr value)
  guard invalid_value (is_inet address.family && not (ltb storage_size (length address.sockaddr)))
  ok (record mcf { bind = some address })

unfoldable pub set_debug : MainConf → Bytes → Result DirectiveError MainConf
set_debug mcf value = do
  guard is_duplicate (not mcf.debug_set)
  if same_bytes value (codes "on")
      then ok (record mcf { debug = true; debug_set = true })
      else if same_bytes value (codes "off")
      then ok (record mcf { debug = false; debug_set = true })
      else err invalid_value

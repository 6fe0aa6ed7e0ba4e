-- ===== src/Conf.antt =====
-- The configuration of src/ngx_http_ratelimitly_module.c: the tables of zones, trackers, guards and
-- groups, the scalar settings, the rules of a location, and the lookups, defaults and merges. An
-- `ngx_array_t` is a list, a null one an empty list where the code treats them alike. An `ngx_str_t`
-- whose null data the code tests is an `Option`. A compiled complex value is its template.
pub mod Closed
pub mod Merge
pub mod ZoneDirective
pub mod GroupDirective
pub mod TrackerDirective
pub mod GuardDirective
pub mod RuleDirective
pub mod Location
pub mod Lookup
pub mod References
pub mod Settings
pub mod Startup
use rl_nginx.Base.{
  ℕ, Bool, true, false, not, ◌&&◌, ◌||◌, Option, none, some, List, [], ◌∷◌, Bytes, ltb, ◌==◌,
  if◌then◌else◌, has_byte, same_bytes,
}
use rl_nginx.Policy.{RequestPolicy, PolicyKind, standard}

pub record Zone : Type 0 where
  pub name : Bytes
  pub bucket : Bytes
  pub rate : Bytes

pub record Tracker : Type 0 where
  pub name : Bytes
  pub service : Bytes
  pub ttl_ms : ℕ
  pub max_samples : ℕ
  pub min_sample_threshold : ℕ

pub record Guard : Type 0 where
  pub name : Bytes
  pub tracker_name : Bytes
  pub threshold : Bytes

pub record Group : Type 0 where
  pub name : Bytes
  pub zones : List Bytes

-- `Address` is an `ngx_addr_t` as `ngx_parse_addr` returns it: its family and its bytes.
pub data Family : Type 0 where
  unspecified ipv4 ipv6 other_family : Family

pub record Address : Type 0 where
  pub family : Family
  pub sockaddr : Bytes

-- `rn_main_conf_t` but for the worker; a resolver is known by a number.
pub record MainConf : Type 0 where
  pub zones : List Zone
  pub trackers : List Tracker
  pub guards : List Guard
  pub groups : List Group
  pub tenant_dns : Option Bytes
  pub key_id : ℕ
  pub auth_type : ℕ
  pub auth_key : Option Bytes
  pub dedup_ttl_ms_max : ℕ
  pub request_policy : RequestPolicy
  pub request_policy_kind : PolicyKind
  pub request_policy_set : Bool
  pub fail_open : Bool
  pub enabled : Bool
  pub bind : Option Address
  pub resolver : Option ℕ
  pub resolver_timeout : ℕ
  pub init_retry_at : ℕ
  pub init_retry_delay : ℕ
  pub debug : Bool
  pub debug_set : Bool

pub data RuleKind : Type 0 where
  zone_rule group_rule guard_only : RuleKind

pub record Rule : Type 0 where
  pub kind : RuleKind
  pub name : Bytes
  pub guards : List Bytes

-- `rn_loc_conf_t`, and `rn_srv_conf_t`, which has the same fields. `none` is NGX_CONF_UNSET.
pub record LocConf : Type 0 where
  pub enabled : Option Bool
  pub rules : Option (List Rule)
  pub report_set : Bool
  pub report_enabled : Bool
  pub report_tracker_name : Bytes
  pub label : Bytes
  pub label_set : Bool

-- What nginx does for the directives: the outcome of their allocations in order, the count of
-- variables in a template, whether a template compiles, and `ngx_parse_time`.
pub record Ngx : Type 0 where
  pub alloc : ℕ → Bool
  pub variables_count : Bytes → ℕ
  pub compiles : Bytes → Bool
  pub parse_time : Bytes → Option ℕ

-- The messages of the directives; `conf_error` is NGX_CONF_ERROR.
pub data DirectiveError : Type 0 where
  conf_error is_duplicate missing_name reserved_name invalid_argument : DirectiveError
  duplicate_argument missing_argument literal_quotes invalid_value : DirectiveError
  duplicate_name unknown_zone unknown_tracker unknown_guard unknown_group : DirectiveError
  empty_reference one_target_only no_longer_supported : DirectiveError

abbrev pub max_bucket_len : ℕ
max_bucket_len = 1024

abbrev pub max_service_len : ℕ
max_service_len = 1024

abbrev pub max_label_len : ℕ
max_label_len = 256

abbrev pub is_empty {ℓ} : {A : Type ℓ} → List A → Bool
is_empty [] = true
is_empty (x ∷ xs) = false

-- The loop of the four lookups: the first entry of that name.
pub find_by {ℓ} : {A : Type ℓ} → (A → Bytes) → Bytes → List A → Option A
find_by name_of name [] = none
find_by name_of name (a ∷ as_) =
    if same_bytes (name_of a) name then some a else find_by name_of name as_

unfoldable pub find_zone : MainConf → Bytes → Option Zone
unfolding find_by
find_zone mcf name = find_by (λ (z : Zone). z.name) name mcf.zones

unfoldable pub find_tracker : MainConf → Bytes → Option Tracker
unfolding find_by
find_tracker mcf name = find_by (λ (t : Tracker). t.name) name mcf.trackers

unfoldable pub find_guard : MainConf → Bytes → Option Guard
unfolding find_by
find_guard mcf name = find_by (λ (g : Guard). g.name) name mcf.guards

unfoldable pub find_group : MainConf → Bytes → Option Group
unfolding find_by
find_group mcf name = find_by (λ (g : Group). g.name) name mcf.groups

-- A positional name: nonempty, with no `=`.
abbrev pub is_name : Bytes → Bool
is_name name = not (is_empty name) && not (has_byte b'=' name)

unfoldable pub final_byte : Bytes → ℕ
final_byte [] = 0
final_byte (c ∷ []) = c
final_byte (c ∷ d ∷ s) = final_byte (d ∷ s)

unfoldable pub has_literal_value_quotes : Bytes → Bool
unfolding final_byte
has_literal_value_quotes [] = false
has_literal_value_quotes (c ∷ []) = false
has_literal_value_quotes (c ∷ d ∷ s) = (c == b'"' || c == b'\'') && final_byte (d ∷ s) == c

unfoldable pub create_main_conf : RequestPolicy → MainConf
create_main_conf default_policy = record {
  zones = [];
  trackers = [];
  guards = [];
  groups = [];
  tenant_dns = none;
  key_id = 0;
  auth_type = 0;
  auth_key = none;
  dedup_ttl_ms_max = 0;
  request_policy = default_policy;
  request_policy_kind = standard;
  request_policy_set = false;
  fail_open = true;
  enabled = false;
  bind = none;
  resolver = none;
  resolver_timeout = 0;
  init_retry_at = 0;
  init_retry_delay = 0;
  debug = false;
  debug_set = false;
}

unfoldable pub create_loc_conf : LocConf
create_loc_conf = record {
  enabled = none;
  rules = none;
  report_set = false;
  report_enabled = false;
  report_tracker_name = [];
  label = [];
  label_set = false;
}

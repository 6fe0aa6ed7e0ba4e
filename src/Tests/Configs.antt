-- ===== src/Tests/Configs.antt =====
-- Runs of the directives that fill the configuration.
use rl_nginx.Base.{
  List, true, none, some, [], ◌∷◌, codes, strip_prefix, same_bytes, has_byte, refl, arith,
}
use rl_nginx.Numeric.{parse_rate}
use rl_nginx.Policy.{RequestPolicy, fixed}
use rl_nginx.Conf.{
  zone_rule, group_rule, MainConf, LocConf, Ngx, find_zone, find_group, create_main_conf,
  create_loc_conf, has_literal_value_quotes,
}
use rl_nginx.Conf.ZoneDirective.{zone, zone_arguments}
use rl_nginx.Conf.RuleDirective.{rule, rule_arguments, rule_argument, apply_rule}
use rl_nginx.Conf.Lookup.{Declares, zone-Declares}
use rl_nginx.Conf.References.{Enables, rule-Enables}
use rl_nginx.Conf.Startup.{other_handler, rn_handler, rn_log_handler, Phases, Nginx, rn_init}
use rl_nginx.Conf.Startup.Names.{Names}
use rl_nginx.Conf.Settings.{set_dns_srv, set_fail}
use rl_nginx.Conf.Settings.Applied.{dns_srv, fail, srv_slot, is_set}
use rl_nginx.Conf.Settings.Once.{one, count_of, Outside, apply_all, apply_all-counts}
use rl_nginx.Base.{false, ◌+◌, ◌≡◌, length}
use rl_nginx.Conf.GroupDirective.{group, group_zones}
use rl_nginx.Conf.Merge.{merge_loc_conf, merge_report, merge_label}
use rl_nginx.Conf.Closed.Read.{
  Configuration, Directive, at_start, with_location, declare_zone, declare_group, add_rule,
  merge_into, read_directive, read_all,
}
use rl_nginx.Conf.Closed.Whole.{Closed, configured-Closed}
use rl_nginx.Conf.Startup.Ready.{Started, rn_init-Started}

-- Allocations succeed and templates are constant.
abbrev ngx : Ngx
ngx = record {
  alloc = λ k. true;
  variables_count = λ text. 0;
  compiles = λ text. true;
  parse_time = λ text. none;
}

abbrev policy : RequestPolicy
policy = record {
  unit_ms = 250;
  replay_count = 1;
  replay_gap = record { kind = fixed; initial_units = 1; max_units = 1; growth = 0 };
  final_receive_units = 1;
  completion_delivery = true;
}

abbrev before : MainConf
before = create_main_conf policy

abbrev after : MainConf
after = record before {
  zones = record { name = codes "z"; bucket = codes "b"; rate = codes "10r/s" } ∷ [];
}

zone-Declares_example : Declares before after (codes "z")
unfolding zone zone_arguments strip_prefix has_byte has_literal_value_quotes parse_rate
    create_main_conf find_zone
zone-Declares_example =
    zone-Declares ngx before after (codes "z") (codes "bucket=b" ∷ codes "rate=10r/s" ∷ []) refl

abbrev enabled_conf : MainConf
enabled_conf = record after { enabled = true }

abbrev limited : LocConf
limited = record create_loc_conf {
  rules = some (record { kind = zone_rule; name = codes "z"; guards = [] } ∷ []);
  enabled = some true;
}

rule-Enables_example : Enables after enabled_conf [] limited
unfolding rule rule_arguments rule_argument apply_rule strip_prefix create_main_conf create_loc_conf
    find_zone same_bytes
rule-Enables_example =
    rule-Enables ngx after create_loc_conf limited enabled_conf (codes "zone=z" ∷ []) refl

-- The start of a configuration with a key, without a resolver and without a file of them.
abbrev nginx : Nginx
nginx = record {
  push_precontent = true;
  push_log = true;
  alloc_tenant = true;
  alloc_name = λ n. true;
  has_inet6 = true;
  lines = [];
  resolver_create = λ names. some 4;
  number_text = λ n. codes "12";
  core_resolver = none;
}

abbrev keyed_conf : MainConf
keyed_conf = record (create_main_conf policy) {
  auth_key = some (codes "key");
  enabled = true;
  key_id = 12;
}

abbrev other_phases : Phases
other_phases = record { precontent = other_handler 0 ∷ []; log = other_handler 1 ∷ [] }

abbrev own_phases : Phases
own_phases = record {
  precontent = rn_handler ∷ other_handler 0 ∷ [];
  log = other_handler 1 ∷ rn_log_handler ∷ [];
}

abbrev started_conf : MainConf
started_conf = record keyed_conf {
  tenant_dns = some (codes "c-12.p0.ratelimitly.com");
  resolver = some 4;
  resolver_timeout = 30000;
}

rn_init-Started_example : Started nginx 10 other_phases keyed_conf (own_phases, started_conf)
unfolding rn_init create_main_conf rl_nginx.Policy.horizon_ms rl_nginx.Policy.add_gaps
    rl_nginx.Policy.schedule_units
rn_init-Started_example =
    rn_init-Started nginx 10 other_phases keyed_conf (own_phases, started_conf) (omega arith)
      (omega arith) refl

-- Two lines of /etc/resolv.conf, of which one has a name.
abbrev with_lines : Nginx
with_lines = record nginx {
  lines = codes "search x" ∷ codes "nameserver 9.9.9.9" ∷ [];
  resolver_create = λ names. some (length names);
}

abbrev outside : Outside
outside = record {
  resolver_create = λ names. some 4;
  alloc = true;
  parse_auth_key = λ text. none;
  max_replay_count = 4;
  parse_time = λ text. none;
  default_policy = policy;
  zero_kind = fixed;
  storage_size = 128;
  parse_addr = λ text. none;
}

abbrev named_conf : MainConf
named_conf = record (create_main_conf policy) { tenant_dns = some (codes "t"); fail_open = false }

apply_all-counts_example :
    count_of srv_slot (dns_srv (codes "t") ∷ fail (codes "close") ∷ [])
      + one (is_set srv_slot (create_main_conf policy))
    ≡ one (is_set srv_slot named_conf)
unfolding apply_all set_dns_srv set_fail create_main_conf same_bytes
apply_all-counts_example =
    apply_all-counts outside (dns_srv (codes "t") ∷ fail (codes "close") ∷ [])
      (create_main_conf policy) named_conf srv_slot refl

-- A zone, a group of it, a rule of location 1 for the group, and location 2 inside location 1.
abbrev whole_file : List (Ngx × Directive)
whole_file =
    (ngx, declare_zone (codes "z") (codes "bucket=b" ∷ codes "rate=10r/s" ∷ []))
    ∷ (ngx, declare_group (codes "g") (codes "zone=z" ∷ []))
    ∷ (ngx, add_rule 1 (codes "group=g" ∷ []))
    ∷ (ngx, merge_into 2 1)
    ∷ []

abbrev grouped : LocConf
grouped = record create_loc_conf {
  rules = some (record { kind = group_rule; name = codes "g"; guards = [] } ∷ []);
  enabled = some true;
}

abbrev whole_conf : Configuration
whole_conf = record {
  main = record enabled_conf { groups = record { name = codes "g"; zones = codes "z" ∷ [] } ∷ [] };
  locations = with_location 2 grouped (with_location 1 grouped (λ i. create_loc_conf));
}

configured-Closed_example : Closed whole_conf
unfolding read_all read_directive at_start zone zone_arguments group group_zones rule rule_arguments
    rule_argument apply_rule merge_loc_conf merge_report merge_label strip_prefix has_byte
    has_literal_value_quotes parse_rate create_main_conf create_loc_conf find_zone find_group
    same_bytes
configured-Closed_example = configured-Closed outside whole_file policy whole_conf refl

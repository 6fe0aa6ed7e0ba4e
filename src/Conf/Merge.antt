-- ===== src/Conf/Merge.antt =====
-- `ngx_http_rn_merge_loc_conf` and `ngx_http_rn_merge_srv_conf`, which are the same code.
use rl_nginx.Base.{Bool, true, false, not, ◌&&◌, Option, none, some, if◌then◌else◌}
use rl_nginx.Conf.{LocConf}

-- `ngx_conf_merge_value(conf, prev, 0)`.
abbrev pub merge_enabled : Option Bool → Option Bool → Option Bool
merge_enabled (some b) prev = some b
merge_enabled none (some b) = some b
merge_enabled none none = some false

abbrev pub merge_rules {ℓ} : {A : Type ℓ} → Option A → Option A → Option A
merge_rules none prev = prev
merge_rules (some rules) prev = some rules

unfoldable pub merge_report : LocConf → LocConf → LocConf
merge_report prev conf =
    if not conf.report_set && prev.report_set
    then record conf {
      report_set = true;
      report_enabled = prev.report_enabled;
      report_tracker_name = prev.report_tracker_name;
    }
    else conf

unfoldable pub merge_label : LocConf → LocConf → LocConf
merge_label prev conf =
    if not conf.label_set && prev.label_set
    then record conf { label = prev.label; label_set = prev.label_set }
    else conf

unfoldable pub merge_loc_conf : LocConf → LocConf → LocConf
unfolding merge_report merge_label
merge_loc_conf prev conf = merge_label prev (
    merge_report prev (record conf {
      enabled = merge_enabled conf.enabled prev.enabled;
      rules = merge_rules conf.rules prev.rules;
    }))

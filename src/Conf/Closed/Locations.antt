-- ===== src/Conf/Closed/Locations.antt =====
-- The directives of a location and the merge of two locations keep a location's references closed.
use rl_nginx.Base.{
  true, not, ◌&&◌, ◌||◌, Option, none, some, List, [], Bytes, codes, ltb, ◌==◌, ◌≡◌, refl, is_some,
  length, same_bytes, if_cases, All, All-map,
}
use rl_nginx.Base.Results.{Then, Anything, Then-Anything, Then->>=, Then-guard}
use rl_nginx.Conf.{
  Rule, RuleKind, zone_rule, group_rule, guard_only, MainConf, LocConf, Ngx, conf_error,
  missing_argument, max_label_len, is_empty, find_tracker, find_guard,
}
use rl_nginx.Conf.RuleDirective.{RuleArgs, rule_arguments, rule_target, rule, existing}
use rl_nginx.Conf.References.{Resolves}
use rl_nginx.Conf.Location.{label, report}
use rl_nginx.Conf.Merge.{merge_loc_conf, merge_report, merge_label, merge_enabled, merge_rules}
use rl_nginx.Conf.Closed.{ClosedLocation, ResolvedRule, Extends, SameTables}

Resolves-Extends :
    {mcf mcf' : MainConf}
    → Extends mcf mcf'
    → (kind : RuleKind) (name : Bytes) → Resolves mcf kind name
    → Resolves mcf' kind name
unfolding Resolves
Resolves-Extends x zone_rule name h = x.zones name h
Resolves-Extends x group_rule name h = x.groups name h
Resolves-Extends x guard_only name h = tt

-- A location stays closed when more is declared.
pub ClosedLocation-Extends :
    {mcf mcf' : MainConf} (lcf : LocConf)
    → Extends mcf mcf'
    → ClosedLocation mcf lcf
    → ClosedLocation mcf' lcf
ClosedLocation-Extends {mcf} {mcf'} lcf x c = record {
  rules =
      All-map (ResolvedRule mcf) (ResolvedRule mcf') (existing lcf.rules)
        (λ r h. (
          Resolves-Extends x r.kind r.name h.0,
          All-map (λ n. is_some (find_guard mcf n) ≡ true) (λ n. is_some (find_guard mcf' n) ≡ true)
              r.guards x.guards h.1,
        ))
        c.rules;
  reported = λ on. x.trackers lcf.report_tracker_name (c.reported on);
}

-- What a rule leaves as it is.
pub record KeepsRest (mcf : MainConf) (lcf : LocConf) (q : MainConf × LocConf) : Type 0 where
  pub tables : SameTables mcf q.0
  pub report_enabled : q.1.report_enabled ≡ lcf.report_enabled
  pub report_tracker_name : q.1.report_tracker_name ≡ lcf.report_tracker_name

module _ (ngx : Ngx) (mcf : MainConf) (lcf : LocConf) where
  pub rule-KeepsRest : (args : List Bytes) → Then (KeepsRest mcf lcf) (rule ngx mcf lcf args)
  unfolding rule
  rule-KeepsRest args =
      let none_yet : RuleArgs = record { zone_name = none; group_name = none; guard_names = [] } in
      let P = KeepsRest mcf lcf in
      Then-guard P conf_error (is_some lcf.rules || ngx.alloc 0) _ λ _.
        Then-guard P conf_error (ngx.alloc 1) _ λ _.
          Then->>= Anything P (rule_arguments ngx mcf 0 args none_yet) _
            (Then-Anything (rule_arguments ngx mcf 0 args none_yet))
            (λ a _.
              Then-guard P missing_argument
                (is_some a.zone_name || is_some a.group_name || not (is_empty a.guard_names)) _
                λ _.
                  Then->>= Anything P (rule_target ngx mcf a.zone_name a.group_name) _
                    (Then-Anything (rule_target ngx mcf a.zone_name a.group_name))
                    (λ t _. Then-guard P conf_error (ngx.alloc 2) _ λ _.
                      Then-guard P conf_error (ngx.alloc 3) _ λ _. record {
                        tables = record {
                          zones = refl;
                          trackers = refl;
                          guards = refl;
                          groups = refl;
                        };
                        report_enabled = refl;
                        report_tracker_name = refl;
                      }))

  pub label-ClosedLocation :
      (value : Bytes) → ClosedLocation mcf lcf → Then (ClosedLocation mcf) (label ngx lcf value)
  unfolding label
  label-ClosedLocation value c =
      Then-guard (ClosedLocation mcf) conf_error
        (not (ngx.variables_count value == 0 && ltb max_label_len (length value))) _
        λ _.
          Then-guard (ClosedLocation mcf) conf_error (ngx.compiles value) _
            λ _. record { rules = c.rules; reported = c.reported }

pub record ClosedBoth (mcf : MainConf) (q : MainConf × LocConf) : Type 0 where
  pub tables : SameTables mcf q.0
  pub location : ClosedLocation mcf q.1

pub report-ClosedBoth :
    (mcf : MainConf) (lcf : LocConf) (value : Bytes)
    → ClosedLocation mcf lcf
    → Then (ClosedBoth mcf) (report mcf lcf value)
unfolding report
report-ClosedBoth mcf lcf value c =
    if_cases (Then (ClosedBoth mcf)) lcf.report_set (λ _. tt)
      (λ _.
        if_cases (Then (ClosedBoth mcf)) (same_bytes value (codes "off"))
          (λ _. record {
            tables = record { zones = refl; trackers = refl; guards = refl; groups = refl };
            location = record { rules = c.rules; reported = λ on. cc };
          })
          (λ _.
            if_cases (Then (ClosedBoth mcf)) (is_some (find_tracker mcf value))
              (λ known. record {
                tables = record { zones = refl; trackers = refl; guards = refl; groups = refl };
                location = record { rules = c.rules; reported = λ on. known };
              })
              (λ _. tt)))

merge_report-ClosedLocation :
    (mcf : MainConf) (prev conf : LocConf)
    → ClosedLocation mcf prev
    → ClosedLocation mcf conf
    → ClosedLocation mcf (merge_report prev conf)
unfolding merge_report
merge_report-ClosedLocation mcf prev conf p c =
    if_cases (ClosedLocation mcf) (not conf.report_set && prev.report_set)
      (λ _. record { rules = c.rules; reported = p.reported }) (λ _. c)

merge_label-ClosedLocation :
    (mcf : MainConf) (prev conf : LocConf)
    → ClosedLocation mcf conf
    → ClosedLocation mcf (merge_label prev conf)
unfolding merge_label
merge_label-ClosedLocation mcf prev conf c =
    if_cases (ClosedLocation mcf) (not conf.label_set && prev.label_set)
      (λ _. record { rules = c.rules; reported = c.reported }) (λ _. c)

merge_rules-All :
    (mcf : MainConf) (own inherited : Option (List Rule))
    → All (ResolvedRule mcf) (existing own)
    → All (ResolvedRule mcf) (existing inherited)
    → All (ResolvedRule mcf) (existing (merge_rules own inherited))
merge_rules-All mcf none inherited h k = k
merge_rules-All mcf (some rules) inherited h k = h

pub merge_loc_conf-ClosedLocation :
    (mcf : MainConf) (prev conf : LocConf)
    → ClosedLocation mcf prev
    → ClosedLocation mcf conf
    → ClosedLocation mcf (merge_loc_conf prev conf)
unfolding merge_loc_conf
merge_loc_conf-ClosedLocation mcf prev conf p c =
    let merged : LocConf = record conf {
      enabled = merge_enabled conf.enabled prev.enabled;
      rules = merge_rules conf.rules prev.rules;
    } in
    merge_label-ClosedLocation mcf prev (merge_report prev merged) (
      merge_report-ClosedLocation mcf prev merged p (record {
        rules = merge_rules-All mcf conf.rules prev.rules c.rules p.rules;
        reported = c.reported;
      }))

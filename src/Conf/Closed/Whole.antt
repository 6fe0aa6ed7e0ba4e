-- ===== src/Conf/Closed/Whole.antt =====
-- Every configuration that the directives make has closed references.
use rl_nginx.Base.{ℕ, ◌≡◌, ◌==◌, List, [], ◌∷◌, Bytes, All-append, refl, ok, err, if_cases, Result}
use rl_nginx.Base.Results.{Then, Then->>=, Then-ok, >>=-eq-ok, ok_inj}
use rl_nginx.Policy.{RequestPolicy}
use rl_nginx.Conf.{create_main_conf, create_loc_conf, MainConf, LocConf, Ngx}
use rl_nginx.Conf.ZoneDirective.{zone}
use rl_nginx.Conf.TrackerDirective.{tracker}
use rl_nginx.Conf.GuardDirective.{latency_guard}
use rl_nginx.Conf.GroupDirective.{group}
use rl_nginx.Conf.RuleDirective.{rule, existing}
use rl_nginx.Conf.References.{rule-Enables}
use rl_nginx.Conf.Location.{label, report}
use rl_nginx.Conf.Merge.{merge_loc_conf}
use rl_nginx.Conf.Settings.Once.{Outside, apply}
use rl_nginx.Conf.Closed.{ClosedTables, ClosedLocation, ResolvedRule, Stays, SameTables}
use rl_nginx.Conf.Closed.Directives.{zone-Stays, tracker-Stays, latency_guard-Stays, group-Stays}
use rl_nginx.Conf.Closed.Values.{SameTables-Stays, apply-SameTables}
use rl_nginx.Conf.Closed.Locations.{
  ClosedLocation-Extends, KeepsRest, rule-KeepsRest, label-ClosedLocation, ClosedBoth,
  report-ClosedBoth, merge_loc_conf-ClosedLocation,
}
use rl_nginx.Conf.Closed.Read.{
  at_start, Configuration, Directive, declare_zone, declare_tracker, declare_guard, declare_group,
  set_value, add_rule, set_label, set_report, merge_into, with_main, with_both, read_directive,
  read_all,
}

pub record Closed (c : Configuration) : Type 0 where
  pub tables : ClosedTables c.main
  pub locations : (i : ℕ) → ClosedLocation c.main (c.locations i)

main_changed :
    (c : Configuration) (mcf : MainConf) → Closed c → Stays c.main mcf → Closed (with_main c mcf)
main_changed c mcf closed s = record {
  tables = s.tables closed.tables;
  locations = λ i. ClosedLocation-Extends (c.locations i) s.declared (closed.locations i);
}

both_changed :
    (c : Configuration) (at : ℕ) (q : MainConf × LocConf)
    → Closed c
    → ClosedBoth c.main q
    → Closed (with_both c at q)
both_changed c at (mcf, lcf) closed b =
    let s = SameTables-Stays b.tables in
    record {
      tables = s.tables closed.tables;
      locations = λ i.
          if_cases (ClosedLocation mcf) (i == at)
            (λ _. ClosedLocation-Extends lcf s.declared b.location)
            (λ _. ClosedLocation-Extends (c.locations i) s.declared (closed.locations i));
    }

rule-ClosedBoth :
    (ngx : Ngx) (mcf : MainConf) (lcf : LocConf) (args : List Bytes) (q : MainConf × LocConf)
    → ClosedLocation mcf lcf
    → rule ngx mcf lcf args ≡ ok q
    → ClosedBoth mcf q
rule-ClosedBoth ngx mcf lcf args (mcf', lcf') c e =
    let rest =
      Then-ok (KeepsRest mcf lcf) (rule ngx mcf lcf args) (mcf', lcf')
        (rule-KeepsRest ngx mcf lcf args) e in
    let on = rule-Enables ngx mcf lcf lcf' mcf' args e in
    record {
      tables = rest.tables;
      location = record {
        rules = rw on.appended (
            All-append (ResolvedRule mcf) (existing lcf.rules) (on.entry ∷ []) c.rules
              ((on.target, on.guards_declared), tt));
        reported = rw (rest.report_enabled, rest.report_tracker_name) c.reported;
      };
    }

Then-intro :
    {E A : Type 0} (P : A → Type 0) (r : Result E A) → ((a : A) → r ≡ ok a → P a) → Then P r
Then-intro P (ok a) f = f a refl
Then-intro P (err e) f = tt

same_main : (mcf : MainConf) → SameTables mcf mcf
same_main mcf = record { zones = refl; trackers = refl; guards = refl; groups = refl }

module _ (outside : Outside) where
  read_directive-Closed :
      (ngx : Ngx) (d : Directive) (c : Configuration)
      → Closed c
      → Then Closed (read_directive outside (ngx, d) c)
  unfolding read_directive
  read_directive-Closed ngx (declare_zone name args) c h =
      Then->>= (Stays c.main) Closed (zone ngx c.main name args) _ (zone-Stays ngx c.main name args)
        (λ mcf s. main_changed c mcf h s)
  read_directive-Closed ngx (declare_tracker name args) c h =
      Then->>= (Stays c.main) Closed (tracker ngx c.main name args) _
        (tracker-Stays ngx c.main name args) (λ mcf s. main_changed c mcf h s)
  read_directive-Closed ngx (declare_guard name args) c h =
      Then->>= (Stays c.main) Closed (latency_guard ngx c.main name args) _
        (latency_guard-Stays ngx c.main name args) (λ mcf s. main_changed c mcf h s)
  read_directive-Closed ngx (declare_group name args) c h =
      Then->>= (Stays c.main) Closed (group ngx c.main name args) _
        (group-Stays ngx c.main name args) (λ mcf s. main_changed c mcf h s)
  read_directive-Closed ngx (set_value s) c h =
      Then->>= (SameTables c.main) Closed (apply outside s c.main) _
        (apply-SameTables outside c.main s)
        (λ mcf same. main_changed c mcf h (SameTables-Stays same))
  read_directive-Closed ngx (add_rule at args) c h =
      Then->>= (ClosedBoth c.main) Closed (rule ngx c.main (c.locations at) args) _
        (Then-intro (ClosedBoth c.main) (rule ngx c.main (c.locations at) args)
          (λ q. rule-ClosedBoth ngx c.main (c.locations at) args q (h.locations at)))
        (λ q b. both_changed c at q h b)
  read_directive-Closed ngx (set_label at value) c h =
      Then->>= (ClosedLocation c.main) Closed (label ngx (c.locations at) value) _
        (label-ClosedLocation ngx c.main (c.locations at) value (h.locations at))
        (λ lcf l.
          both_changed c at (c.main, lcf) h (record { tables = same_main c.main; location = l }))
  read_directive-Closed ngx (set_report at value) c h =
      Then->>= (ClosedBoth c.main) Closed (report c.main (c.locations at) value) _
        (report-ClosedBoth c.main (c.locations at) value (h.locations at))
        (λ q b. both_changed c at q h b)
  read_directive-Closed ngx (merge_into at parent) c h =
      both_changed c at (c.main, merge_loc_conf (c.locations parent) (c.locations at)) h
        (record {
          tables = same_main c.main;
          location =
              merge_loc_conf-ClosedLocation c.main (c.locations parent) (c.locations at)
                (h.locations parent) (h.locations at);
        })

  read_all-Closed :
      (ds : List (Ngx × Directive)) (c c' : Configuration)
      → Closed c
      → read_all outside ds c ≡ ok c'
      → Closed c'
  unfolding read_all
  read_all-Closed [] c c' h e = rw (← ok_inj e) h
  read_all-Closed (d ∷ ds) c c' h e =
      let (c₁, first, rest) = >>=-eq-ok (read_directive outside d c) _ e in
      read_all-Closed ds c₁ c'
        (Then-ok Closed (read_directive outside d c) c₁ (read_directive-Closed d.0 d.1 c h) first)
        rest

  at_start-Closed : (default_policy : RequestPolicy) → Closed (at_start default_policy)
  unfolding at_start create_main_conf create_loc_conf
  at_start-Closed default_policy = record {
    tables = record {
      zones = tt;
      trackers = tt;
      guards = tt;
      groups = tt;
      members = tt;
      watched = tt;
    };
    locations = λ i. record { rules = tt; reported = λ on. cc };
  }

  -- Any sequence of directives and merges of locations that nginx reads without an error leaves a
  -- configuration whose references are closed: each entry of a table is the one that its name finds, the
  -- zones of a group and the tracker of a guard are declared, and so is what the rules and the report
  -- of each location name.
  pub configured-Closed :
      (ds : List (Ngx × Directive)) (default_policy : RequestPolicy) (c : Configuration)
      → read_all outside ds (at_start default_policy) ≡ ok c
      → Closed c
  configured-Closed ds default_policy c =
      read_all-Closed ds (at_start default_policy) c (at_start-Closed default_policy)

-- ===== src/Conf/Closed/Directives.antt =====
-- Each directive that declares a zone, a group, a tracker or a guard keeps the references closed.
use rl_nginx.Base.{
  option_cases, ℕ, ◌+◌, not, ◌&&◌, ◌||◌, none, List, [], ◌∷◌, Bytes, codes, ltb, ◌==◌, is_some,
  length, same_bytes, strip_prefix,
}
use rl_nginx.Base.Results.{Then, Anything, Then-Anything, Then->>=, Then-guard}
use rl_nginx.Duration.{parse_duration_ms}
use rl_nginx.Conf.{
  MainConf, Ngx, conf_error, missing_name, reserved_name, missing_argument, literal_quotes,
  invalid_value, duplicate_name, empty_reference, unknown_zone, unknown_tracker, max_service_len,
  is_empty, is_name, find_zone, find_tracker, find_guard, find_group, has_literal_value_quotes,
}
use rl_nginx.Conf.ZoneDirective.{zone_arguments, check_zone, push_zone, zone}
use rl_nginx.Conf.TrackerDirective.{
  TrackerArgs, default_args, tracker_arguments, push_tracker, tracker,
}
use rl_nginx.Conf.GuardDirective.{guard_arguments, given, push_guard, latency_guard}
use rl_nginx.Conf.GroupDirective.{group_zones, group}
use rl_nginx.Conf.Closed.{AllZones, Stays}
use rl_nginx.Conf.Closed.Tables.{zone_pushed, tracker_pushed, guard_pushed, group_pushed}

module _ (ngx : Ngx) (mcf : MainConf) where
  push_zone-Stays :
      (name bucket rate : Bytes) → Then (Stays mcf) (push_zone ngx mcf name bucket rate)
  unfolding push_zone
  push_zone-Stays name bucket rate =
      Then-guard (Stays mcf) conf_error (not (is_empty mcf.zones) || ngx.alloc 0) _ λ _.
        Then-guard (Stays mcf) duplicate_name (not (is_some (find_zone mcf name))) _ λ new.
          Then-guard (Stays mcf) conf_error
            (ngx.alloc 1 && ngx.compiles bucket && ngx.compiles rate) _
            λ _. zone_pushed mcf (record { name = name; bucket = bucket; rate = rate }) new

  pub zone-Stays : (name : Bytes) (args : List Bytes) → Then (Stays mcf) (zone ngx mcf name args)
  unfolding zone
  zone-Stays name args = Then-guard (Stays mcf) missing_name (is_name name) _ λ _.
      Then->>= Anything (Stays mcf) (zone_arguments args [] []) _
        (Then-Anything (zone_arguments args [] []))
        (λ p _.
          Then->>= Anything (Stays mcf) (check_zone ngx p.0 p.1) _
            (Then-Anything (check_zone ngx p.0 p.1)) (λ _ _. push_zone-Stays name p.0 p.1))

  push_tracker-Stays :
      (name : Bytes) (a : TrackerArgs) → Then (Stays mcf) (push_tracker ngx mcf name a)
  unfolding push_tracker
  push_tracker-Stays name a =
      Then-guard (Stays mcf) missing_argument (not (is_empty a.service)) _ λ _.
        Then-guard (Stays mcf) literal_quotes (not (has_literal_value_quotes a.service)) _ λ _.
          Then-guard (Stays mcf) conf_error
            (not (ngx.variables_count a.service == 0 && ltb max_service_len (length a.service))) _
            λ _.
              Then-guard (Stays mcf) conf_error (not (is_empty mcf.trackers) || ngx.alloc 0) _ λ _.
                Then-guard (Stays mcf) duplicate_name (not (is_some (find_tracker mcf name))) _
                  λ new.
                    Then-guard (Stays mcf) conf_error (ngx.alloc 1 && ngx.compiles a.service) _ λ _.
                      tracker_pushed mcf
                        (record {
                          name = name;
                          service = a.service;
                          ttl_ms = a.ttl_ms;
                          max_samples = a.max_samples;
                          min_sample_threshold = a.min_sample_threshold;
                        })
                        new

  pub tracker-Stays :
      (name : Bytes) (args : List Bytes) → Then (Stays mcf) (tracker ngx mcf name args)
  unfolding tracker
  tracker-Stays name args = Then-guard (Stays mcf) missing_argument (not (is_empty args)) _ λ _.
      Then-guard (Stays mcf) missing_name (is_name name) _ λ _.
        Then-guard (Stays mcf) reserved_name (not (same_bytes name (codes "off"))) _ λ _.
          Then->>= Anything (Stays mcf) (tracker_arguments ngx args default_args) _
            (Then-Anything (tracker_arguments ngx args default_args))
            (λ a _. push_tracker-Stays name a)

  push_guard-Stays :
      (name tracker_name threshold : Bytes)
      → Then (Stays mcf) (push_guard ngx mcf name tracker_name threshold)
  unfolding push_guard
  push_guard-Stays name tracker_name threshold =
      Then-guard (Stays mcf) missing_argument
        (not (is_empty tracker_name) && not (is_empty threshold)) _
        λ _.
          Then-guard (Stays mcf) unknown_tracker (is_some (find_tracker mcf tracker_name)) _
            λ known.
              Then-guard (Stays mcf) invalid_value
                (not (
                  ngx.variables_count threshold == 0
                  && not (is_some (parse_duration_ms ngx.parse_time threshold))))
                _
                λ _.
                  Then-guard (Stays mcf) conf_error (not (is_empty mcf.guards) || ngx.alloc 0) _
                    λ _.
                      Then-guard (Stays mcf) duplicate_name (not (is_some (find_guard mcf name))) _
                        λ new.
                          Then-guard (Stays mcf) conf_error (ngx.alloc 1 && ngx.compiles threshold)
                            _
                            λ _.
                              guard_pushed mcf
                                (record {
                                  name = name;
                                  tracker_name = tracker_name;
                                  threshold = threshold;
                                })
                                new known

  pub latency_guard-Stays :
      (name : Bytes) (args : List Bytes) → Then (Stays mcf) (latency_guard ngx mcf name args)
  unfolding latency_guard
  latency_guard-Stays name args = Then-guard (Stays mcf) missing_name (is_name name) _ λ _.
      Then->>= Anything (Stays mcf) (guard_arguments args none none) _
        (Then-Anything (guard_arguments args none none))
        (λ p _. push_guard-Stays name (given p.0) (given p.1))

  group_zones-AllZones :
      (k : ℕ) (args : List Bytes) → Then (AllZones mcf) (group_zones ngx mcf k args)
  unfolding group_zones
  group_zones-AllZones k [] = tt
  group_zones-AllZones k (arg ∷ args) =
      option_cases (Then (AllZones mcf)) (strip_prefix (codes "zone=") arg) (λ _. tt)
        λ zname _. Then-guard (AllZones mcf) empty_reference (not (is_empty zname)) _ λ _.
          Then-guard (AllZones mcf) unknown_zone (is_some (find_zone mcf zname)) _ λ known.
            Then-guard (AllZones mcf) conf_error (ngx.alloc (k + 3)) _ λ _.
              Then->>= (AllZones mcf) (AllZones mcf) (group_zones ngx mcf (k + 1) args) _
                (group_zones-AllZones (k + 1) args) (λ rest known_rest. (known, known_rest))

  pub group-Stays : (name : Bytes) (args : List Bytes) → Then (Stays mcf) (group ngx mcf name args)
  unfolding group
  group-Stays name args = Then-guard (Stays mcf) missing_argument (not (is_empty args)) _ λ _.
      Then-guard (Stays mcf) missing_name (is_name name) _ λ _.
        Then-guard (Stays mcf) conf_error (not (is_empty mcf.groups) || ngx.alloc 0) _ λ _.
          Then-guard (Stays mcf) duplicate_name (not (is_some (find_group mcf name))) _ λ new.
            Then-guard (Stays mcf) conf_error (ngx.alloc 1) _ λ _.
              Then-guard (Stays mcf) conf_error (ngx.alloc 2) _ λ _.
                Then->>= (AllZones mcf) (Stays mcf) (group_zones ngx mcf 0 args) _
                  (group_zones-AllZones 0 args)
                  (λ zones known.
                    group_pushed mcf (record { name = name; zones = zones }) new known)

-- ===== src/Conf/Closed/Tables.antt =====
-- A table that grows by an entry of a new name keeps the references closed.
use rl_nginx.Base.{
  true, not, some, List, [], ◌∷◌, ◌++◌, Bytes, ◌≡◌, is_some, same_bytes_self, All-map, All-append,
  arith,
}
use rl_nginx.Conf.{
  Zone, Tracker, Guard, Group, MainConf, find_by, find_zone, find_tracker, find_guard, find_group,
}
use rl_nginx.Conf.Lookup.{find_by-append, not_some}
use rl_nginx.Conf.Closed.{Entered, AllZones, Stays}

find_by-kept :
    {A : Type 0} (name_of : A → Bytes) (name : Bytes) (as_ : List A) (a x : A)
    → find_by name_of name as_ ≡ some x
    → find_by name_of name (as_ ++ a ∷ []) ≡ some x
unfolding find_by
find_by-kept name_of name [] a x h = cc
find_by-kept name_of name (y ∷ ys) a x h = ground (arith, find_by-kept name_of name ys a x)

find_by-known :
    {A : Type 0} (name_of : A → Bytes) (name : Bytes) (as_ : List A) (a : A)
    → is_some (find_by name_of name as_) ≡ true
    → is_some (find_by name_of name (as_ ++ a ∷ [])) ≡ true
unfolding find_by
find_by-known name_of name [] a h = cc
find_by-known name_of name (y ∷ ys) a h = ground (arith, find_by-known name_of name ys a)

Entered-append :
    {A : Type 0} (name_of : A → Bytes) (as_ : List A) (a : A)
    → not (is_some (find_by name_of (name_of a) as_)) ≡ true
    → Entered name_of as_
    → Entered name_of (as_ ++ a ∷ [])
Entered-append name_of as_ a new e =
    All-append (λ x. find_by name_of (name_of x) (as_ ++ a ∷ []) ≡ some x) as_ (a ∷ [])
      (All-map (λ x. find_by name_of (name_of x) as_ ≡ some x) _ as_
        (λ x f. find_by-kept name_of (name_of x) as_ a x f) e)
      (find_by-append name_of (name_of a) as_ a (same_bytes_self (name_of a)) (not_some _ new), tt)

pub zone_pushed :
    (mcf : MainConf) (z : Zone)
    → not (is_some (find_zone mcf z.name)) ≡ true
    → Stays mcf (record mcf { zones = mcf.zones ++ z ∷ [] })
unfolding find_zone find_tracker find_guard find_group
zone_pushed mcf z new =
    let mcf' : MainConf = record mcf { zones = mcf.zones ++ z ∷ [] } in
    let known : (n : Bytes) → is_some (find_zone mcf n) ≡ true → is_some (find_zone mcf' n) ≡ true =
      λ n k. find_by-known (λ (y : Zone). y.name) n mcf.zones z k in
    record {
      tables = λ c. record {
        zones = Entered-append (λ (y : Zone). y.name) mcf.zones z new c.zones;
        trackers = c.trackers;
        guards = c.guards;
        groups = c.groups;
        members =
            All-map (λ (g : Group). AllZones mcf g.zones) (λ (g : Group). AllZones mcf' g.zones)
              mcf.groups
              (λ g m.
                All-map (λ n. is_some (find_zone mcf n) ≡ true)
                  (λ n. is_some (find_zone mcf' n) ≡ true) g.zones known m)
              c.members;
        watched = c.watched;
      };
      declared = record {
        zones = known;
        trackers = λ n k. k;
        guards = λ n k. k;
        groups = λ n k. k;
      };
    }

pub tracker_pushed :
    (mcf : MainConf) (t : Tracker)
    → not (is_some (find_tracker mcf t.name)) ≡ true
    → Stays mcf (record mcf { trackers = mcf.trackers ++ t ∷ [] })
unfolding find_zone find_tracker find_guard find_group
tracker_pushed mcf t new =
    let mcf' : MainConf = record mcf { trackers = mcf.trackers ++ t ∷ [] } in
    let known : (n : Bytes)
        → is_some (find_tracker mcf n) ≡ true
        → is_some (find_tracker mcf' n) ≡ true =
      λ n k. find_by-known (λ (y : Tracker). y.name) n mcf.trackers t k in
    record {
      tables = λ c. record {
        zones = c.zones;
        trackers = Entered-append (λ (y : Tracker). y.name) mcf.trackers t new c.trackers;
        guards = c.guards;
        groups = c.groups;
        members = c.members;
        watched =
            All-map (λ (g : Guard). is_some (find_tracker mcf g.tracker_name) ≡ true)
              (λ (g : Guard). is_some (find_tracker mcf' g.tracker_name) ≡ true) mcf.guards
              (λ g k. known g.tracker_name k) c.watched;
      };
      declared = record {
        zones = λ n k. k;
        trackers = known;
        guards = λ n k. k;
        groups = λ n k. k;
      };
    }

pub guard_pushed :
    (mcf : MainConf) (g : Guard)
    → not (is_some (find_guard mcf g.name)) ≡ true
    → is_some (find_tracker mcf g.tracker_name) ≡ true
    → Stays mcf (record mcf { guards = mcf.guards ++ g ∷ [] })
unfolding find_zone find_tracker find_guard find_group
guard_pushed mcf g new watched = record {
  tables = λ c. record {
    zones = c.zones;
    trackers = c.trackers;
    guards = Entered-append (λ (y : Guard). y.name) mcf.guards g new c.guards;
    groups = c.groups;
    members = c.members;
    watched =
        All-append (λ (y : Guard). is_some (find_tracker mcf y.tracker_name) ≡ true) mcf.guards
          (g ∷ []) c.watched (watched, tt);
  };
  declared = record {
    zones = λ n k. k;
    trackers = λ n k. k;
    guards = λ n k. find_by-known (λ (y : Guard). y.name) n mcf.guards g k;
    groups = λ n k. k;
  };
}

pub group_pushed :
    (mcf : MainConf) (g : Group)
    → not (is_some (find_group mcf g.name)) ≡ true
    → AllZones mcf g.zones
    → Stays mcf (record mcf { groups = mcf.groups ++ g ∷ [] })
unfolding find_zone find_tracker find_guard find_group
group_pushed mcf g new members = record {
  tables = λ c. record {
    zones = c.zones;
    trackers = c.trackers;
    guards = c.guards;
    groups = Entered-append (λ (y : Group). y.name) mcf.groups g new c.groups;
    members =
        All-append (λ (y : Group). AllZones mcf y.zones) mcf.groups (g ∷ []) c.members
          (members, tt);
    watched = c.watched;
  };
  declared = record {
    zones = λ n k. k;
    trackers = λ n k. k;
    guards = λ n k. k;
    groups = λ n k. find_by-known (λ (y : Group). y.name) n mcf.groups g k;
  };
}

-- ===== src/Conf/Closed.antt =====
-- The references of a whole configuration: a table's entries are found by their names, the zones of a
-- group and the tracker of a guard are declared, and so are those of a location's rules and report.
pub mod Tables
pub mod Directives
pub mod Read
pub mod Locations
pub mod Values
pub mod Whole
use rl_nginx.Base.{ℕ, true, Option, some, List, Bytes, ◌≡◌, is_some, All}
use rl_nginx.Conf.{
  Zone, Tracker, Guard, Group, Rule, MainConf, LocConf, find_by, find_zone, find_tracker,
  find_guard, find_group,
}
use rl_nginx.Conf.RuleDirective.{existing}
use rl_nginx.Conf.References.{Resolves, AllGuards}

-- Each entry is the one that its name finds.
abbrev pub Entered {ℓ} : {A : Type ℓ} → (A → Bytes) → List A → Type ℓ
Entered name_of as_ = All (λ a. find_by name_of (name_of a) as_ ≡ some a) as_

abbrev pub AllZones : MainConf → List Bytes → Type 0
AllZones mcf names = All (λ name. is_some (find_zone mcf name) ≡ true) names

pub record ClosedTables (mcf : MainConf) : Type 0 where
  pub zones : Entered (λ (z : Zone). z.name) mcf.zones
  pub trackers : Entered (λ (t : Tracker). t.name) mcf.trackers
  pub guards : Entered (λ (g : Guard). g.name) mcf.guards
  pub groups : Entered (λ (g : Group). g.name) mcf.groups
  pub members : All (λ (g : Group). AllZones mcf g.zones) mcf.groups
  pub watched : All (λ (g : Guard). is_some (find_tracker mcf g.tracker_name) ≡ true) mcf.guards

abbrev pub ResolvedRule : MainConf → Rule → Type 0
ResolvedRule mcf r = Resolves mcf r.kind r.name × AllGuards mcf r.guards

pub record ClosedLocation (mcf : MainConf) (lcf : LocConf) : Type 0 where
  pub rules : All (ResolvedRule mcf) (existing lcf.rules)
  pub reported :
      lcf.report_enabled ≡ true → is_some (find_tracker mcf lcf.report_tracker_name) ≡ true

-- What was declared still is.
pub record Extends (mcf mcf' : MainConf) : Type 0 where
  pub zones : (n : Bytes) → is_some (find_zone mcf n) ≡ true → is_some (find_zone mcf' n) ≡ true
  pub trackers :
      (n : Bytes) → is_some (find_tracker mcf n) ≡ true → is_some (find_tracker mcf' n) ≡ true
  pub guards : (n : Bytes) → is_some (find_guard mcf n) ≡ true → is_some (find_guard mcf' n) ≡ true
  pub groups : (n : Bytes) → is_some (find_group mcf n) ≡ true → is_some (find_group mcf' n) ≡ true

-- A directive's result has closed tables, if those before it are, and all that was declared.
pub record Stays (mcf mcf' : MainConf) : Type 0 where
  pub tables : ClosedTables mcf → ClosedTables mcf'
  pub declared : Extends mcf mcf'

-- The tables are the same.
pub record SameTables (mcf mcf' : MainConf) : Type 0 where
  pub zones : mcf'.zones ≡ mcf.zones
  pub trackers : mcf'.trackers ≡ mcf.trackers
  pub guards : mcf'.guards ≡ mcf.guards
  pub groups : mcf'.groups ≡ mcf.groups

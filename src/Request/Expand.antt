-- ===== src/Request/Expand.antt =====
-- The expansion of a location's rules in `ngx_http_rn_handler`: the count that sizes the arrays, and the
-- loop that fills them. Two guards that `rn_find_guard` found are one entry exactly when their names
-- are equal, since the lookup returns the first entry of a name; the loop's comparison of pointers is
-- a comparison of names.
use rl_nginx.Base.{
  ℕ, ◌+◌, Bool, true, false, Option, none, some, List, [], ◌∷◌, ◌++◌, Bytes, length, same_bytes,
  if◌then◌else◌, Result, ok, err,
}
use rl_nginx.Base.Results.{◌>>=◌}
use rl_nginx.Conf.{
  Guard, MainConf, Rule, RuleKind, zone_rule, group_rule, guard_only, find_zone, find_guard,
  find_group,
}
use rl_nginx.Request.{Code, internal_server_error, Resource, LatencyGuard, Env}
use rl_nginx.Request.Build.{build_zone_resource, build_guard_entries}

-- How the expansion ends early: `rn_finish_internal_error` or `rn_finish_preflight_failure`.
pub data Failure : Type 0 where
  internal preflight : Failure

abbrev pub failure_of : Code → Failure
failure_of internal_server_error = internal
failure_of _ = preflight

abbrev pub built : {A : Type 0} → Result Code A → Result Failure A
built (ok a) = ok a
built (err code) = err (failure_of code)

abbrev pub found : {A : Type 0} → Option A → Result Failure A
found none = err preflight
found (some a) = ok a

module _ (mcf : MainConf) where
  -- The resources that a rule stands for.
  unfoldable pub rule_resources : RuleKind → Bytes → Result Failure ℕ
  rule_resources zone_rule name = ok 1
  rule_resources group_rule name = do g ← found (find_group mcf name); ok (length g.zones)
  rule_resources guard_only name = ok 0

  -- The counting loop: the resources, then the guard references.
  unfoldable pub count_rules : List Rule → ℕ → ℕ → Result Failure (ℕ × ℕ)
  unfolding rule_resources
  count_rules [] total refs = ok (total, refs)
  count_rules (rule ∷ rules) total refs = do
    n ← rule_resources rule.kind rule.name
    count_rules rules (total + n) (refs + length rule.guards)

-- The arrays as far as they are filled; `guard_defs` has the names.
pub record Entries : Type 0 where
  pub guard_defs : List Bytes
  pub guards : List LatencyGuard
  pub resources : List Resource

abbrev pub no_entries : Entries
no_entries = record { guard_defs = []; guards = []; resources = [] }

unfoldable pub already_added : Bytes → List Bytes → Bool
already_added name [] = false
already_added name (d ∷ ds) = if same_bytes d name then true else already_added name ds

module _ (env : Env) (mcf : MainConf) where
  unfoldable pub build_guard : Bytes → Result Failure LatencyGuard
  build_guard name = do g ← found (find_guard mcf name); built (build_guard_entries env mcf g)

  unfoldable pub build_zone : Bytes → Result Failure Resource
  build_zone name = do zone ← found (find_zone mcf name); built (build_zone_resource env zone)

  -- The entry of a guard that was found, unless it repeats.
  unfoldable pub add_found : Bytes → Guard → Entries → Bool → Result Failure Entries
  add_found name g e true = ok e
  add_found name g e false = do
    entry ← built (build_guard_entries env mcf g)
    ok (record e { guard_defs = e.guard_defs ++ name ∷ []; guards = e.guards ++ entry ∷ [] })

  -- One guard reference: the lookup, then the test for a repetition.
  unfoldable pub add_guard : Bytes → Entries → Result Failure Entries
  unfolding add_found
  add_guard name e = do
    g ← found (find_guard mcf name)
    add_found name g e (already_added name e.guard_defs)

  unfoldable pub add_guards : List Bytes → Entries → Result Failure Entries
  unfolding add_guard
  add_guards [] e = ok e
  add_guards (name ∷ names) e = do e' ← add_guard name e; add_guards names e'

  unfoldable pub add_zone : Bytes → Entries → Result Failure Entries
  unfolding build_zone
  add_zone name e = do
    entry ← build_zone name
    ok (record e { resources = e.resources ++ entry ∷ [] })

  unfoldable pub add_zones : List Bytes → Entries → Result Failure Entries
  unfolding add_zone
  add_zones [] e = ok e
  add_zones (name ∷ names) e = do e' ← add_zone name e; add_zones names e'

  unfoldable pub add_target : RuleKind → Bytes → Entries → Result Failure Entries
  unfolding add_zone add_zones
  add_target zone_rule name e = add_zone name e
  add_target group_rule name e = do g ← found (find_group mcf name); add_zones g.zones e
  add_target guard_only name e = ok e

  unfoldable pub add_rules : List Rule → Entries → Result Failure Entries
  unfolding add_guards add_target
  add_rules [] e = ok e
  add_rules (rule ∷ rules) e = do
    e₁ ← add_guards rule.guards e
    e₂ ← add_target rule.kind rule.name e₁
    add_rules rules e₂

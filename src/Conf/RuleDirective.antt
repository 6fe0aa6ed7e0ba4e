-- ===== src/Conf/RuleDirective.antt =====
-- `ngx_http_rn_rule`: the directive `ratelimitly zone= | group= [guard=...]` of a location.
use rl_nginx.Base.{
  ℕ, ◌+◌, true, not, ◌||◌, Option, none, some, List, [], ◌∷◌, ◌++◌, Bytes, codes, strip_prefix,
  is_some, Result, ok, err, guard,
}
use rl_nginx.Base.Results.{◌>>=◌, ◌>>◌}
use rl_nginx.Conf.{
  Rule, RuleKind, zone_rule, group_rule, guard_only, MainConf, LocConf, Ngx, DirectiveError,
  conf_error, invalid_argument, missing_argument, one_target_only, empty_reference, unknown_zone,
  unknown_guard, unknown_group, is_empty, find_zone, find_guard, find_group,
}

-- The references seen so far; `none` is a flag that is not set.
pub record RuleArgs : Type 0 where
  pub zone_name : Option Bytes
  pub group_name : Option Bytes
  pub guard_names : List Bytes

pub data RuleArgument : Type 0 where
  to_zone to_group with_guard : Bytes → RuleArgument
  other : RuleArgument

unfoldable pub rule_argument : Bytes → RuleArgument
rule_argument arg = elim (strip_prefix (codes "zone=") arg) [
  | some v ↦ to_zone v
  | none ↦ elim (strip_prefix (codes "group=") arg) [
    | some v ↦ to_group v
    | none ↦ elim (strip_prefix (codes "guard=") arg) [ some v ↦ with_guard v | none ↦ other ]
  ]
]

abbrev pub existing : Option (List Rule) → List Rule
existing none = []
existing (some rules) = rules

module _ (ngx : Ngx) (mcf : MainConf) where
  -- One round of the loop; the k-th push is the allocation `k + 4`.
  unfoldable pub apply_rule : ℕ → RuleArgument → RuleArgs → Result DirectiveError RuleArgs
  apply_rule k (to_zone v) a = do
    guard one_target_only (not (is_some a.group_name || is_some a.zone_name))
    ok (record a { zone_name = some v })
  apply_rule k (to_group v) a = do
    guard one_target_only (not (is_some a.zone_name || is_some a.group_name))
    ok (record a { group_name = some v })
  apply_rule k (with_guard v) a = do
    guard empty_reference (not (is_empty v))
    guard unknown_guard (is_some (find_guard mcf v))
    guard conf_error (ngx.alloc (k + 4))
    ok (record a { guard_names = a.guard_names ++ v ∷ [] })
  apply_rule k other a = err invalid_argument

  unfoldable pub rule_arguments : ℕ → List Bytes → RuleArgs → Result DirectiveError RuleArgs
  rule_arguments k [] a = ok a
  rule_arguments k (arg ∷ args) a = do
    b ← apply_rule k (rule_argument arg) a
    rule_arguments (k + 1) args b

  -- The kind of the rule and its reference, with the lookups.
  unfoldable pub rule_target :
      Option Bytes → Option Bytes → Result DirectiveError (RuleKind × Bytes)
  rule_target (some zone_name) group_name = do
    guard empty_reference (not (is_empty zone_name))
    guard unknown_zone (is_some (find_zone mcf zone_name))
    ok (zone_rule, zone_name)
  rule_target none (some group_name) = do
    guard empty_reference (not (is_empty group_name))
    guard unknown_group (is_some (find_group mcf group_name))
    ok (group_rule, group_name)
  rule_target none none = ok (guard_only, [])

  -- Both configurations are enabled; the copies of the guard names are the last allocation.
  unfoldable pub rule : LocConf → List Bytes → Result DirectiveError (MainConf × LocConf)
  unfolding rule_target
  rule lcf args = do
    guard conf_error (is_some lcf.rules || ngx.alloc 0)
    guard conf_error (ngx.alloc 1)
    a ← rule_arguments 0 args (record { zone_name = none; group_name = none; guard_names = [] })
    guard missing_argument
        (is_some a.zone_name || is_some a.group_name || not (is_empty a.guard_names))
    (kind, name) ← rule_target a.zone_name a.group_name
    guard conf_error (ngx.alloc 2)
    guard conf_error (ngx.alloc 3)
    let entry : Rule = record { kind = kind; name = name; guards = a.guard_names }
    ok (
      record mcf { enabled = true },
      record lcf { rules = some (existing lcf.rules ++ entry ∷ []); enabled = some true },
    )

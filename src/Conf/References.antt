-- ===== src/Conf/References.antt =====
-- The references of a rule: what `ngx_http_rn_rule` accepts resolves.
use rl_nginx.Base.{
  ℕ, ◌+◌, true, not, ◌||◌, Option, none, some, List, [], ◌∷◌, ◌++◌, Bytes, ◌≡◌, refl, ap, is_some,
  All, All-append, guard, guard-eq-ok, ok,
}
use rl_nginx.Base.Results.{>>=-eq-ok, ok_inj}
use rl_nginx.Conf.{
  Rule, RuleKind, zone_rule, group_rule, guard_only, MainConf, LocConf, Ngx, conf_error,
  one_target_only, empty_reference, unknown_zone, unknown_guard, unknown_group, missing_argument,
  is_empty, find_zone, find_guard, find_group,
}
use rl_nginx.Conf.RuleDirective.{
  RuleArgs, RuleArgument, to_zone, to_group, with_guard, other, rule_argument, apply_rule,
  rule_arguments, rule_target, existing, rule,
}

-- The zone or the group of a rule is declared.
unfoldable pub Resolves : MainConf → RuleKind → Bytes → Type 0
Resolves mcf zone_rule name = is_some (find_zone mcf name) ≡ true
Resolves mcf group_rule name = is_some (find_group mcf name) ≡ true
Resolves mcf guard_only name = Unit {0}

abbrev pub AllGuards : MainConf → List Bytes → Type 0
AllGuards mcf names = All (λ name. is_some (find_guard mcf name) ≡ true) names

-- The location has one rule more, whose references resolve, and both configurations are enabled.
pub record Enables (mcf mcf' : MainConf) (rules : List Rule) (lcf' : LocConf) : Type 0 where
  pub entry : Rule
  pub appended : lcf'.rules ≡ some (rules ++ entry ∷ [])
  pub enabled : (mcf'.enabled ≡ true) × (lcf'.enabled ≡ some true)
  pub target : Resolves mcf entry.kind entry.name
  pub guards_declared : AllGuards mcf entry.guards

module _ (ngx : Ngx) (mcf : MainConf) where
  apply_rule-AllGuards :
      (k : ℕ) (arg : RuleArgument) (a a' : RuleArgs)
      → AllGuards mcf a.guard_names
      → apply_rule ngx mcf k arg a ≡ ok a'
      → AllGuards mcf a'.guard_names
  unfolding apply_rule
  apply_rule-AllGuards k (to_zone v) a a' g h =
      let (u, t, h₁) =
        >>=-eq-ok (guard one_target_only (not (is_some a.group_name || is_some a.zone_name))) _ h in
      rw (← ok_inj h₁) g
  apply_rule-AllGuards k (to_group v) a a' g h =
      let (u, t, h₁) =
        >>=-eq-ok (guard one_target_only (not (is_some a.zone_name || is_some a.group_name))) _ h in
      rw (← ok_inj h₁) g
  apply_rule-AllGuards k (with_guard v) a a' g h =
      let (u, t, h₁) = >>=-eq-ok (guard empty_reference (not (is_empty v))) _ h in
      let (w, f, h₂) = >>=-eq-ok (guard unknown_guard (is_some (find_guard mcf v))) _ h₁ in
      let (x, m, h₃) = >>=-eq-ok (guard conf_error (ngx.alloc (k + 4))) _ h₂ in
      rw (← ok_inj h₃) (
        All-append (λ name. is_some (find_guard mcf name) ≡ true) a.guard_names (v ∷ []) g
          (guard-eq-ok unknown_guard _ f, tt))
  apply_rule-AllGuards k other a a' g h = cc

  rule_arguments-AllGuards :
      (k : ℕ) (args : List Bytes) (a a' : RuleArgs)
      → AllGuards mcf a.guard_names
      → rule_arguments ngx mcf k args a ≡ ok a'
      → AllGuards mcf a'.guard_names
  unfolding rule_arguments
  rule_arguments-AllGuards k [] a a' g h = rw (← ok_inj h) g
  rule_arguments-AllGuards k (arg ∷ args) a a' g h =
      let (b, e, h₁) = >>=-eq-ok (apply_rule ngx mcf k (rule_argument arg) a) _ h in
      rule_arguments-AllGuards (k + 1) args b a'
        (apply_rule-AllGuards k (rule_argument arg) a b g e) h₁

  rule_target-Resolves :
      (zone_name group_name : Option Bytes) (t : RuleKind × Bytes)
      → rule_target ngx mcf zone_name group_name ≡ ok t
      → Resolves mcf t.0 t.1
  unfolding rule_target Resolves
  rule_target-Resolves (some z) g t h =
      let (u, e, h₁) = >>=-eq-ok (guard empty_reference (not (is_empty z))) _ h in
      let (v, f, h₂) = >>=-eq-ok (guard unknown_zone (is_some (find_zone mcf z))) _ h₁ in
      rw (← ok_inj h₂) (guard-eq-ok unknown_zone _ f)
  rule_target-Resolves none (some g) t h =
      let (u, e, h₁) = >>=-eq-ok (guard empty_reference (not (is_empty g))) _ h in
      let (v, f, h₂) = >>=-eq-ok (guard unknown_group (is_some (find_group mcf g))) _ h₁ in
      rw (← ok_inj h₂) (guard-eq-ok unknown_group _ f)
  rule_target-Resolves none none t h = rw (← ok_inj h) tt

  -- The directive `ratelimitly` of a location, when it succeeds, appends one rule to the location and
  -- enables the location and the module; the zone or the group that the rule names and each of its
  -- guards are declared.
  pub rule-Enables :
      (lcf lcf' : LocConf) (mcf' : MainConf) (args : List Bytes)
      → rule ngx mcf lcf args ≡ ok (mcf', lcf')
      → Enables mcf mcf' (existing lcf.rules) lcf'
  unfolding rule
  rule-Enables lcf lcf' mcf' args h =
      let (u, e, h₁) = >>=-eq-ok (guard conf_error (is_some lcf.rules || ngx.alloc 0)) _ h in
      let (v, f, h₂) = >>=-eq-ok (guard conf_error (ngx.alloc 1)) _ h₁ in
      let (a, b, h₃) =
        >>=-eq-ok
          (rule_arguments ngx mcf 0 args
            (record { zone_name = none; group_name = none; guard_names = [] }))
          _ h₂ in
      let (w, c, h₄) =
        >>=-eq-ok
          (guard missing_argument
            (is_some a.zone_name || is_some a.group_name || not (is_empty a.guard_names)))
          _ h₃ in
      let (t, d, h₅) = >>=-eq-ok (rule_target ngx mcf a.zone_name a.group_name) _ h₄ in
      let (x, m, h₆) = >>=-eq-ok (guard conf_error (ngx.alloc 2)) _ h₅ in
      let (y, n, h₇) = >>=-eq-ok (guard conf_error (ngx.alloc 3)) _ h₆ in
      let p = ok_inj h₇ in
      let on : record mcf { enabled = true } ≡ mcf' = ap (λ q. q.0) p in
      let ruled : record lcf {
        rules =
            some (
              existing lcf.rules ++ record { kind = t.0; name = t.1; guards = a.guard_names } ∷ []);
        enabled = some true;
      }
          ≡ lcf' =
        ap (λ q. q.1) p in
      rw (← on, ← ruled)
        (record {
          entry = record { kind = t.0; name = t.1; guards = a.guard_names };
          appended = refl;
          enabled = (refl, refl);
          target = rule_target-Resolves a.zone_name a.group_name t d;
          guards_declared =
              rule_arguments-AllGuards 0 args
                (record { zone_name = none; group_name = none; guard_names = [] }) a tt b;
        })

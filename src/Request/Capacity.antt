-- ===== src/Request/Capacity.antt =====
-- The arrays of the handler are sized by one loop and filled by another: their agreement.
use rl_nginx.Base.{
  ℕ, ◌+◌, ◌≤◌, Bool, true, false, List, [], ◌∷◌, ◌++◌, Bytes, ◌≡◌, ap, Option-cases, length,
  length-append, ok, inl, inr, arith,
}
use rl_nginx.Base.Results.{>>=-eq-ok, ok_inj}
use rl_nginx.Conf.{
  MainConf, Guard, Rule, RuleKind, zone_rule, group_rule, guard_only, find_group, find_guard,
}
use rl_nginx.Request.{Env}
use rl_nginx.Request.Build.{build_guard_entries}
use rl_nginx.Request.Expand.{
  Entries, no_entries, already_added, found, built, build_zone, add_found, add_guard, add_guards,
  add_zone, add_zones, add_target, add_rules, rule_resources, count_rules,
}

module _ (env : Env) (mcf : MainConf) where
  -- From `e` to `e'`: `n` resources more, and at most `k` guards more.
  record Grown (n k : ℕ) (e e' : Entries) : Type 0 where
    resources_grown : length e'.resources ≡ length e.resources + n
    guards_grown : length e'.guards ≤ length e.guards + k

  add_zone-Grown :
      (name : Bytes) (e : Entries) {e' : Entries} → add_zone env mcf name e ≡ ok e' → Grown 1 0 e e'
  unfolding add_zone
  add_zone-Grown name e h =
      let (entry, b, h₁) = >>=-eq-ok (build_zone env mcf name) _ h in
      let goal : Grown 1 0 e (record e { resources = e.resources ++ entry ∷ [] }) = record {
        resources_grown = length-append e.resources (entry ∷ []);
        guards_grown = omega arith;
      } in
      rw (← ok_inj h₁) goal

  add_zones-Grown :
      (names : List Bytes) (e : Entries) {e' : Entries}
      → add_zones env mcf names e ≡ ok e'
      → Grown (length names) 0 e e'
  unfolding add_zones
  add_zones-Grown [] e h =
      rw (← ok_inj h) record { resources_grown = omega arith; guards_grown = omega arith }
  add_zones-Grown (name ∷ names) e h =
      let (e₁, s, h₁) = >>=-eq-ok (add_zone env mcf name e) _ h in
      let g = add_zone-Grown name e s in
      let rest = add_zones-Grown names e₁ h₁ in
      record {
        resources_grown = omega (arith, g.resources_grown, rest.resources_grown);
        guards_grown = omega (arith, g.guards_grown, rest.guards_grown);
      }

  add_found-Grown :
      (name : Bytes) (g : Guard) (e : Entries) (b : Bool) {e' : Entries}
      → add_found env mcf name g e b ≡ ok e'
      → Grown 0 1 e e'
  unfolding add_found
  add_found-Grown name g e true h =
      rw (← ok_inj h) record { resources_grown = omega arith; guards_grown = omega arith }
  add_found-Grown name g e false h =
      let (entry, b, h₁) = >>=-eq-ok (built (build_guard_entries env mcf g)) _ h in
      let goal : Grown 0 1 e
          (record e { guard_defs = e.guard_defs ++ name ∷ []; guards = e.guards ++ entry ∷ [] }) =
        record {
          resources_grown = omega arith;
          guards_grown = omega (arith, length-append e.guards (entry ∷ []));
        } in
      rw (← ok_inj h₁) goal

  add_guard-Grown :
      (name : Bytes) (e : Entries) {e' : Entries}
      → add_guard env mcf name e ≡ ok e'
      → Grown 0 1 e e'
  unfolding add_guard
  add_guard-Grown name e h =
      let (g, f, h₁) = >>=-eq-ok (found (find_guard mcf name)) _ h in
      add_found-Grown name g e (already_added name e.guard_defs) h₁

  add_guards-Grown :
      (names : List Bytes) (e : Entries) {e' : Entries}
      → add_guards env mcf names e ≡ ok e'
      → Grown 0 (length names) e e'
  unfolding add_guards
  add_guards-Grown [] e h =
      rw (← ok_inj h) record { resources_grown = omega arith; guards_grown = omega arith }
  add_guards-Grown (name ∷ names) e h =
      let (e₁, s, h₁) = >>=-eq-ok (add_guard env mcf name e) _ h in
      let g = add_guard-Grown name e s in
      let rest = add_guards-Grown names e₁ h₁ in
      record {
        resources_grown = omega (arith, g.resources_grown, rest.resources_grown);
        guards_grown = omega (arith, g.guards_grown, rest.guards_grown);
      }

  add_target-Grown :
      (kind : RuleKind) (name : Bytes) (e : Entries) {e' : Entries} {n : ℕ}
      → rule_resources mcf kind name ≡ ok n
      → add_target env mcf kind name e ≡ ok e'
      → Grown n 0 e e'
  unfolding add_target rule_resources
  add_target-Grown zone_rule name e c h = rw (← ok_inj c) (add_zone-Grown name e h)
  add_target-Grown group_rule name e c h = elim (Option-cases (find_group mcf name)) [
    | inl none_found ↦ cc (rw (none_found, found) at h)
    | inr (g, fg) ↦
        rw (← ok_inj (rw (fg, found) at c)) (add_zones-Grown g.zones e (rw (fg, found) at h))
  ]
  add_target-Grown guard_only name e c h =
      rw (← ok_inj c, ← ok_inj h)
        record { resources_grown = omega arith; guards_grown = omega arith }

  add_rules-Grown :
      (rules : List Rule) (e : Entries) {e' : Entries} (t₀ r₀ : ℕ) {total refs : ℕ}
      → count_rules mcf rules t₀ r₀ ≡ ok (total, refs)
      → add_rules env mcf rules e ≡ ok e'
      → (length e'.resources + t₀ ≡ length e.resources + total)
        × (length e'.guards + r₀ ≤ length e.guards + refs)
  unfolding add_rules count_rules
  add_rules-Grown [] e t₀ r₀ {total} {refs} c h =
      let p : ◌≡◌ {A = ℕ × ℕ} (t₀, r₀) (total, refs) = ok_inj c in
      let p₀ : t₀ ≡ total = ap (λ x. x.0) p in
      let p₁ : r₀ ≡ refs = ap (λ x. x.1) p in rw (← ok_inj h) (omega arith, omega arith)
  add_rules-Grown (rule ∷ rules) e t₀ r₀ c h =
      let (n, cn, c₁) = >>=-eq-ok (rule_resources mcf rule.kind rule.name) _ c in
      let (e₁, s₁, h₁) = >>=-eq-ok (add_guards env mcf rule.guards e) _ h in
      let (e₂, s₂, h₂) = >>=-eq-ok (add_target env mcf rule.kind rule.name e₁) _ h₁ in
      let g₁ = add_guards-Grown rule.guards e s₁ in
      let g₂ = add_target-Grown rule.kind rule.name e₁ cn s₂ in
      let rest = add_rules-Grown rules e₂ (t₀ + n) (r₀ + length rule.guards) c₁ h₂ in
      (
        omega (arith, g₁.resources_grown, g₂.resources_grown, rest.0),
        omega (arith, g₁.guards_grown, g₂.guards_grown, rest.1),
      )

  -- The loop that fills the arrays of resources and guards stores exactly as many resources, and at most
  -- as many guards, as the loop that sizes the arrays counted.
  pub add_rules_capacity :
      (rules : List Rule) (e : Entries) (total refs : ℕ)
      → count_rules mcf rules 0 0 ≡ ok (total, refs)
      → add_rules env mcf rules no_entries ≡ ok e
      → (length e.resources ≡ total) × (length e.guards ≤ refs)
  add_rules_capacity rules e total refs c h =
      let r = add_rules-Grown rules no_entries 0 0 c h in (omega (arith, r.0), omega (arith, r.1))

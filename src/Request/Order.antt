-- ===== src/Request/Order.antt =====
-- What the expansion of the rules builds, against the lists of names that the rules stand for.
pub mod Distinct
use rl_nginx.Base.{
  Bool, true, false, Option, none, some, List, [], ◌∷◌, ◌++◌, Bytes, ◌≡◌, refl, ap, append_assoc,
  append-nil, if◌then◌else◌, Option-cases, Bool-cases, Result, ok, inl, inr,
}
use rl_nginx.Base.Results.{◌>>=◌, >>=-eq-ok, ok_inj}
use rl_nginx.Conf.{
  MainConf, Group, Guard, Rule, RuleKind, zone_rule, group_rule, guard_only, find_group, find_guard,
}
use rl_nginx.Request.{Env}
use rl_nginx.Request.Build.{build_guard_entries}
use rl_nginx.Request.Expand.{
  Entries, no_entries, already_added, found, built, build_guard, build_zone, add_found, add_guard,
  add_guards, add_zone, add_zones, add_target, add_rules,
}

-- The results of all the elements, or the first failure.
unfoldable pub all_ok {ℓ} : {E A B : Type ℓ} → (A → Result E B) → List A → Result E (List B)
all_ok f [] = ok []
all_ok f (a ∷ as_) = f a >>= λ b. all_ok f as_ >>= λ bs. ok (b ∷ bs)

-- The zones that a rule stands for, in order, and those of a list of rules.
abbrev pub zones_of : Option Group → List Bytes
zones_of none = []
zones_of (some g) = g.zones

unfoldable pub rule_zones : MainConf → RuleKind → Bytes → List Bytes
rule_zones mcf zone_rule name = name ∷ []
rule_zones mcf group_rule name = zones_of (find_group mcf name)
rule_zones mcf guard_only name = []

unfoldable pub rules_zones : MainConf → List Rule → List Bytes
rules_zones mcf [] = []
rules_zones mcf (rule ∷ rules) = rule_zones mcf rule.kind rule.name ++ rules_zones mcf rules

unfoldable pub rules_guards : List Rule → List Bytes
rules_guards [] = []
rules_guards (rule ∷ rules) = rule.guards ++ rules_guards rules

-- The names in the order of their first use.
unfoldable pub first_use : List Bytes → Bytes → List Bytes
first_use seen name = if already_added name seen then seen else seen ++ name ∷ []

unfoldable pub first_uses : List Bytes → List Bytes → List Bytes
first_uses seen [] = seen
first_uses seen (name ∷ names) = first_uses (first_use seen name) names

all_ok-snoc {ℓ} :
    {E A B : Type ℓ} (f : A → Result E B) (xs : List A) {x : A} {ys : List B} {y : B}
    → all_ok f xs ≡ ok ys
    → f x ≡ ok y
    → all_ok f (xs ++ x ∷ []) ≡ ok (ys ++ y ∷ [])
unfolding all_ok
all_ok-snoc f [] {x} h e = rw (e, ← ok_inj h)
all_ok-snoc f (x ∷ xs) h e =
    let (b, e₁, h₁) = >>=-eq-ok (f x) _ h in
    let (bs, e₂, h₂) = >>=-eq-ok (all_ok f xs) _ h₁ in rw (e₁, all_ok-snoc f xs e₂ e, ← ok_inj h₂)

first_uses-append :
    (seen xs ys : List Bytes) → first_uses seen (xs ++ ys) ≡ first_uses (first_uses seen xs) ys
unfolding first_uses
first_uses-append seen [] ys = refl
first_uses-append seen (x ∷ xs) ys = first_uses-append (first_use seen x) xs ys

module _ (env : Env) (mcf : MainConf) where
  -- The entries are those of the zones `zs` and of the guards `ds`, in order.
  record Filled (zs ds : List Bytes) (e : Entries) : Type 0 where
    zones_built : all_ok (build_zone env mcf) zs ≡ ok e.resources
    guards_built : all_ok (build_guard env mcf) ds ≡ ok e.guards
    defs : e.guard_defs ≡ ds

  add_zone-Filled :
      {zs ds : List Bytes} {e e' : Entries} (name : Bytes)
      → Filled zs ds e
      → add_zone env mcf name e ≡ ok e'
      → Filled (zs ++ name ∷ []) ds e'
  unfolding add_zone
  add_zone-Filled {zs} {ds} {e} {e'} name f h =
      let (entry, e₁, h₁) = >>=-eq-ok (build_zone env mcf name) _ h in
      let goal : Filled (zs ++ name ∷ []) ds (record e { resources = e.resources ++ entry ∷ [] }) =
        record {
          zones_built = all_ok-snoc (build_zone env mcf) zs f.zones_built e₁;
          guards_built = f.guards_built;
          defs = f.defs;
        } in
      rw (← ok_inj h₁) goal

  add_zones-Filled :
      (names : List Bytes) {zs ds : List Bytes} {e e' : Entries}
      → Filled zs ds e
      → add_zones env mcf names e ≡ ok e'
      → Filled (zs ++ names) ds e'
  unfolding add_zones
  add_zones-Filled [] {zs} {ds} {e} {e'} f h = rw (append-nil zs, ← ok_inj h) f
  add_zones-Filled (name ∷ names) {zs} {ds} {e} f h =
      let (e₁, s, h₁) = >>=-eq-ok (add_zone env mcf name e) _ h in
      rw (← append_assoc zs (name ∷ []) names)
        (add_zones-Filled names (add_zone-Filled name f s) h₁)

  seen :
      (name : Bytes) {zs ds : List Bytes} {e : Entries} {b : Bool}
      → Filled zs ds e
      → already_added name ds ≡ b
      → already_added name e.guard_defs ≡ b
  seen name f h = rw f.defs h

  add_old :
      (name : Bytes) (g : Guard) {zs ds : List Bytes} {e e' : Entries}
      → Filled zs ds e
      → already_added name ds ≡ true
      → add_found env mcf name g e true ≡ ok e'
      → Filled zs (first_use ds name) e'
  unfolding first_use add_found
  add_old name g f old h = rw (old, ← ok_inj h) f

  add_new :
      (name : Bytes) (g : Guard) {zs ds : List Bytes} {e e' : Entries}
      → Filled zs ds e
      → already_added name ds ≡ false
      → find_guard mcf name ≡ some g
      → add_found env mcf name g e false ≡ ok e'
      → Filled zs (first_use ds name) e'
  unfolding first_use add_found build_guard
  add_new name g {zs} {ds} {e} {e'} f new fg h =
      let (entry, b, h₁) = >>=-eq-ok (built (build_guard_entries env mcf g)) _ h in
      let goal : Filled zs (ds ++ name ∷ [])
          (record e { guard_defs = e.guard_defs ++ name ∷ []; guards = e.guards ++ entry ∷ [] }) =
        record {
          zones_built = f.zones_built;
          guards_built = all_ok-snoc (build_guard env mcf) ds f.guards_built (rw (fg, found) b);
          defs = ap (λ d. d ++ name ∷ []) f.defs;
        } in
      rw (new, ← ok_inj h₁) goal

  add_found-Filled :
      (name : Bytes) (g : Guard) {zs ds : List Bytes} {e e' : Entries}
      → Filled zs ds e
      → find_guard mcf name ≡ some g
      → add_found env mcf name g e (already_added name e.guard_defs) ≡ ok e'
      → Filled zs (first_use ds name) e'
  unfolding first_use add_found build_guard
  add_found-Filled name g {zs} {ds} {e} {e'} f fg h = elim (Bool-cases (already_added name ds)) [
    | inl old ↦ add_old name g f old (rw (seen name f old) at h)
    | inr new ↦ add_new name g f new fg (rw (seen name f new) at h)
  ]

  add_guard-Filled :
      (name : Bytes) {zs ds : List Bytes} {e e' : Entries}
      → Filled zs ds e
      → add_guard env mcf name e ≡ ok e'
      → Filled zs (first_use ds name) e'
  unfolding add_guard
  add_guard-Filled name {zs} {ds} {e} f h = elim (Option-cases (find_guard mcf name)) [
    | inl none_found ↦ cc (rw (none_found, found) at h)
    | inr (g, fg) ↦ add_found-Filled name g f fg (rw (fg, found) at h)
  ]

  add_guards-Filled :
      (names : List Bytes) {zs ds : List Bytes} {e e' : Entries}
      → Filled zs ds e
      → add_guards env mcf names e ≡ ok e'
      → Filled zs (first_uses ds names) e'
  unfolding add_guards first_uses
  add_guards-Filled [] f h = rw (← ok_inj h) f
  add_guards-Filled (name ∷ names) {zs} {ds} {e} f h =
      let (e₁, s, h₁) = >>=-eq-ok (add_guard env mcf name e) _ h in
      add_guards-Filled names (add_guard-Filled name f s) h₁

  add_target-Filled :
      (kind : RuleKind) (name : Bytes) {zs ds : List Bytes} {e e' : Entries}
      → Filled zs ds e
      → add_target env mcf kind name e ≡ ok e'
      → Filled (zs ++ rule_zones mcf kind name) ds e'
  unfolding add_target rule_zones
  add_target-Filled zone_rule name f h = add_zone-Filled name f h
  add_target-Filled group_rule name {zs} {ds} {e} f h = elim (Option-cases (find_group mcf name)) [
    | inl none_found ↦ cc (rw (none_found, found) at h)
    | inr (g, fg) ↦ rw (fg, zones_of) (add_zones-Filled g.zones f (rw (fg, found) at h))
  ]
  add_target-Filled guard_only name {zs} f h = rw (append-nil zs, ← ok_inj h) f

  add_rules-Filled :
      (rules : List Rule) {zs ds : List Bytes} {e e' : Entries}
      → Filled zs ds e
      → add_rules env mcf rules e ≡ ok e'
      → Filled (zs ++ rules_zones mcf rules) (first_uses ds (rules_guards rules)) e'
  unfolding add_rules rules_zones rules_guards first_uses
  add_rules-Filled [] {zs} f h = rw (append-nil zs, ← ok_inj h) f
  add_rules-Filled (rule ∷ rules) {zs} {ds} {e} f h =
      let (e₁, g, h₁) = >>=-eq-ok (add_guards env mcf rule.guards e) _ h in
      let (e₂, t, h₂) = >>=-eq-ok (add_target env mcf rule.kind rule.name e₁) _ h₁ in
      rw
        (
          first_uses-append ds rule.guards (rules_guards rules),
          ← append_assoc zs (rule_zones mcf rule.kind rule.name) (rules_zones mcf rules),
        )
        (add_rules-Filled rules
          (add_target-Filled rule.kind rule.name (add_guards-Filled rule.guards f g) t) h₂)

  -- The entries are those of the zones and of the guards that are used first.
  pub add_rules_built :
      (rules : List Rule) (e : Entries)
      → add_rules env mcf rules no_entries ≡ ok e
      → (all_ok (build_zone env mcf) (rules_zones mcf rules) ≡ ok e.resources)
        × (all_ok (build_guard env mcf) (first_uses [] (rules_guards rules)) ≡ ok e.guards)
  unfolding all_ok
  add_rules_built rules e h =
      let start : Filled [] [] no_entries = record {
        zones_built = refl;
        guards_built = refl;
        defs = refl;
      } in
      let f = add_rules-Filled rules start h in (f.zones_built, f.guards_built)

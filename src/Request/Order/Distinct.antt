-- ===== src/Request/Order/Distinct.antt =====
-- The guards that the rules' expansion builds: each name at its first use, and no name twice.
use mathlib.Core.List.{
  Mem, Nodup, Nodup-append, Pairwise, Pairwise-singleton, not-mem-nil, mem-cons_self,
  mem-cons_of_mem, mem-cast, eq-or-mem_of_mem-cons,
}
use mathlib.Core.HLevel.{⊥_prop}
use mathlib.Core.Logic.Or
use rl_nginx.Base.{
  true, false, List, [], ◌∷◌, ◌++◌, Bytes, ◌≡◌, sym, ok, inl, inr, Bool-cases, same_bytes,
  same_bytes_sound, same_bytes_self,
}
use rl_nginx.Conf.{MainConf, Rule}
use rl_nginx.Request.{Env}
use rl_nginx.Request.Expand.{Entries, no_entries, already_added, build_guard, build_zone, add_rules}
use rl_nginx.Request.Order.{
  all_ok, rules_zones, rules_guards, first_use, first_uses, add_rules_built,
}

-- The names seen, followed by the further names in the order of their first use.
pub data FirstUses : List Bytes → List Bytes → List Bytes → Type 0 where
  no_names : {seen : List Bytes} → FirstUses seen [] seen
  again :
      {seen names uses : List Bytes} {name : Bytes}
      → Mem name seen
      → FirstUses seen names uses
      → FirstUses seen (name ∷ names) uses
  first :
      {seen names uses : List Bytes} {name : Bytes}
      → ¬ Mem name seen
      → FirstUses (seen ++ name ∷ []) names uses
      → FirstUses seen (name ∷ names) uses

already_added-Mem : (name : Bytes) (ds : List Bytes) → already_added name ds ≡ true → Mem name ds
unfolding already_added
already_added-Mem name [] h = cc
already_added-Mem name (d ∷ ds) h = elim (Bool-cases (same_bytes d name)) [
  | inl same ↦ mem-cast (sym (same_bytes_sound d name same)) mem-cons_self
  | inr other ↦ mem-cons_of_mem d (already_added-Mem name ds (rw (other) at h))
]

not_itself : (name d : Bytes) → same_bytes d name ≡ false → ¬ (name ≡ d)
not_itself name d h e = cc (rw (e, same_bytes_self d) at h)

already_added-not_Mem :
    (name : Bytes) (ds : List Bytes) → already_added name ds ≡ false → ¬ Mem name ds
unfolding already_added
already_added-not_Mem name [] h m = not-mem-nil m
already_added-not_Mem name (d ∷ ds) h m = elim (Bool-cases (same_bytes d name)) [
  | inl same ↦ cc (rw (same) at h)
  | inr other ↦
      Or.elim ⊥_prop (eq-or-mem_of_mem-cons m) (not_itself name d other)
        (already_added-not_Mem name ds (rw (other) at h))
]

first_uses-FirstUses : (seen names : List Bytes) → FirstUses seen names (first_uses seen names)
unfolding first_uses first_use
first_uses-FirstUses seen [] = no_names
first_uses-FirstUses seen (name ∷ names) = elim (Bool-cases (already_added name seen)) [
  | inl old ↦ again (already_added-Mem name seen old) (rw old (first_uses-FirstUses seen names))
  | inr new ↦
      first (already_added-not_Mem name seen new)
        (rw new (first_uses-FirstUses (seen ++ name ∷ []) names))
]

Nodup-snoc :
    (seen : List Bytes) (name : Bytes) → Nodup seen → ¬ Mem name seen → Nodup (seen ++ name ∷ [])
Nodup-snoc seen name d new = (Nodup-append {l₁ = seen} {l₂ = name ∷ []}).1 (
  d,
  Pairwise-singleton (λ a b. ¬ (a ≡ b)) name,
  λ a m n. Or.elim ⊥_prop (eq-or-mem_of_mem-cons n) (λ e. new (mem-cast (sym e) m)) not-mem-nil,
)

FirstUses-Nodup :
    {seen names uses : List Bytes} → FirstUses seen names uses → Nodup seen → Nodup uses
FirstUses-Nodup no_names d = d
FirstUses-Nodup (again old u) d = FirstUses-Nodup u d
FirstUses-Nodup (first {seen = seen} {name = name} new u) d =
    FirstUses-Nodup u (Nodup-snoc seen name d new)

module _ (env : Env) (mcf : MainConf) where
  -- The entries that the rules are expanded to: the resources are those of the zones that the rules
  -- and their groups name, in order, each built once for every time it is named; the guards are those
  -- of the names that the rules use, in the order of first use, and no name stands twice.
  pub add_rules_entries :
      (rules : List Rule) (e : Entries)
      → add_rules env mcf rules no_entries ≡ ok e
      → (all_ok (build_zone env mcf) (rules_zones mcf rules) ≡ ok e.resources)
        × ((names : List Bytes) × FirstUses [] (rules_guards rules) names
            × Nodup names
            × (all_ok (build_guard env mcf) names ≡ ok e.guards))
  add_rules_entries rules e h =
      let (zones, guards) = add_rules_built env mcf rules e h in
      let uses = first_uses-FirstUses [] (rules_guards rules) in
      (zones, (first_uses [] (rules_guards rules), uses, FirstUses-Nodup uses Pairwise.nil, guards))

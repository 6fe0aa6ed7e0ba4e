-- ===== src/Conf/Lookup.antt =====
-- The lookups after a directive: what `ngx_http_rn_zone` declares is what `rn_find_zone` finds.
use rl_nginx.Base.{
  true, false, not, ◌&&◌, ◌||◌, Option, none, some, List, [], ◌∷◌, ◌++◌, Bytes, ◌≡◌, refl, ap,
  is_some, same_bytes, same_bytes_self, if◌then◌else◌, guard, guard-eq-ok, ok, arith,
}
use rl_nginx.Base.Results.{>>=-eq-ok, ok_inj}
use rl_nginx.Conf.{
  Zone, MainConf, Ngx, conf_error, duplicate_name, missing_name, is_name, is_empty, find_by,
  find_zone,
}
use rl_nginx.Conf.ZoneDirective.{zone_arguments, check_zone, push_zone, zone}

pub find_by-append :
    {A : Type 0} (name_of : A → Bytes) (name : Bytes) (as_ : List A) (a : A)
    → same_bytes (name_of a) name ≡ true
    → find_by name_of name as_ ≡ none
    → find_by name_of name (as_ ++ a ∷ []) ≡ some a
unfolding find_by
find_by-append name_of name [] a h e = rw h refl
find_by-append name_of name (x ∷ xs) a h e = ground (arith, find_by-append name_of name xs a h)

find_by-other :
    {A : Type 0} (name_of : A → Bytes) (name : Bytes) (as_ : List A) (a : A)
    → same_bytes (name_of a) name ≡ false
    → find_by name_of name (as_ ++ a ∷ []) ≡ find_by name_of name as_
unfolding find_by
find_by-other name_of name [] a h = rw h refl
find_by-other name_of name (x ∷ xs) a h =
    ap (λ r. if same_bytes (name_of x) name then some x else r) (find_by-other name_of name xs a h)

-- A zone of that name is new, found afterwards, and the other names are found as before.
pub record Declares (mcf mcf' : MainConf) (name : Bytes) : Type 0 where
  pub fresh : find_zone mcf name ≡ none
  pub entry : Zone
  pub named : entry.name ≡ name
  pub declared : find_zone mcf' name ≡ some entry
  pub others :
      (other : Bytes) → same_bytes name other ≡ false → find_zone mcf' other ≡ find_zone mcf other

pub not_some {ℓ} : {A : Type ℓ} (o : Option A) → not (is_some o) ≡ true → o ≡ none
not_some none h = refl
not_some (some a) h = cc

pushed :
    (mcf : MainConf) (name : Bytes) (entry : Zone)
    → entry.name ≡ name
    → find_zone mcf name ≡ none
    → Declares mcf (record mcf { zones = mcf.zones ++ entry ∷ [] }) name
unfolding find_zone
pushed mcf name entry e new = record {
  fresh = new;
  entry = entry;
  named = e;
  declared =
      find_by-append (λ (z : Zone). z.name) name mcf.zones entry (rw e (same_bytes_self name)) new;
  others = λ other d. find_by-other (λ (z : Zone). z.name) other mcf.zones entry (rw e d);
}

module _ (ngx : Ngx) where
  push_zone-Declares :
      (mcf mcf' : MainConf) (name bucket rate : Bytes)
      → push_zone ngx mcf name bucket rate ≡ ok mcf'
      → Declares mcf mcf' name
  unfolding push_zone
  push_zone-Declares mcf mcf' name bucket rate h =
      let (u, a, h₁) = >>=-eq-ok (guard conf_error (not (is_empty mcf.zones) || ngx.alloc 0)) _ h in
      let (v, b, h₂) = >>=-eq-ok (guard duplicate_name (not (is_some (find_zone mcf name)))) _ h₁ in
      let (w, c, h₃) =
        >>=-eq-ok (guard conf_error (ngx.alloc 1 && ngx.compiles bucket && ngx.compiles rate)) _
          h₂ in
      let new = not_some (find_zone mcf name) (guard-eq-ok duplicate_name _ b) in
      rw (← ok_inj h₃)
        (pushed mcf name (record { name = name; bucket = bucket; rate = rate }) refl new)

  -- The directive `ratelimitly_zone`, when it succeeds, declares a zone of its name that was not declared
  -- before: the lookup finds it from then on, and finds every other name as before.
  pub zone-Declares :
      (mcf mcf' : MainConf) (name : Bytes) (args : List Bytes)
      → zone ngx mcf name args ≡ ok mcf'
      → Declares mcf mcf' name
  unfolding zone
  zone-Declares mcf mcf' name args h =
      let (u, a, h₁) = >>=-eq-ok (guard missing_name (is_name name)) _ h in
      let (p, b, h₂) = >>=-eq-ok (zone_arguments args [] []) _ h₁ in
      let (v, c, h₃) = >>=-eq-ok (check_zone ngx p.0 p.1) _ h₂ in
      push_zone-Declares mcf mcf' name p.0 p.1 h₃

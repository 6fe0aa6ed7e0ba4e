-- ===== src/Dns/Name.antt =====
-- The two parts that `rn_resolve_srv` makes of a name.
use rl_nginx.Base.{
  ℕ, Bool, true, false, not, Option, none, some, [], ◌∷◌, ◌++◌, Bytes, ◌==◌, ◌≡◌, ◌↔◌, refl, sym,
  ap, ◌∙◌, has_byte, append_assoc, if_cases, some_inj, arith,
}
use rl_nginx.Dns.Start.{cut_at_dot, split_service}

-- A text without a dot.
abbrev pub dotless : Bytes → Bool
dotless s = not (has_byte 46 s)

-- The two parts of a text around its first dot, and nothing else, are found.
cut_at_dot-found : (a b : Bytes) → dotless a ≡ true → cut_at_dot (a ++ 46 ∷ b) ≡ some (a, b)
unfolding cut_at_dot has_byte
cut_at_dot-found [] b h = refl
cut_at_dot-found (c ∷ a) b h =
    if_cases (λ r. r ≡ some (c ∷ a, b)) (c == 46) (λ t. ground (arith, t, h))
      (λ f. rw (cut_at_dot-found a b (ground (arith, f, h))) refl)

-- What was found before and after a dot.
abbrev Cut : Bytes → Option (Bytes × Bytes) → Type 0
Cut name none = Unit {0}
Cut name (some (a, b)) = (name ≡ a ++ 46 ∷ b) × (dotless a ≡ true)

Cut-later :
    (c : ℕ) (name : Bytes) (r : Option (Bytes × Bytes))
    → (c == 46) ≡ false
    → Cut name r
    → Cut (c ∷ name) (elim r [ none ↦ none | some (a, b) ↦ some (c ∷ a, b) ])
unfolding has_byte
Cut-later c name none f h = tt
Cut-later c name (some (a, b)) f (e, d) = (ap (λ s. c ∷ s) e, ground (arith, f, d))

cut_at_dot-Cut : (name : Bytes) → Cut name (cut_at_dot name)
unfolding cut_at_dot has_byte
cut_at_dot-Cut [] = tt
cut_at_dot-Cut (c ∷ name) =
    if_cases (Cut (c ∷ name)) (c == 46) (λ t. (ap (λ k. k ∷ name) (ground (arith, t)), refl))
      (λ f. Cut-later c name (cut_at_dot name) f (cut_at_dot-Cut name))

-- The service and the domain of a name.
pub record Parts (name service domain : Bytes) : Type 0 where
  pub first_label : Bytes
  pub second_label : Bytes
  pub label_dotless : dotless first_label ≡ true
  pub proto_dotless : dotless second_label ≡ true
  pub is_service : service ≡ first_label ++ 46 ∷ second_label
  pub is_whole : name ≡ service ++ 46 ∷ domain

second-Cut :
    (name service domain a rest : Bytes) (r : Option (Bytes × Bytes))
    → name ≡ a ++ 46 ∷ rest
    → dotless a ≡ true
    → Cut rest r
    → ◌≡◌ {A = Option (Bytes × Bytes)}
        (elim r [ none ↦ none | some (b, d) ↦ some (a ++ 46 ∷ b, d) ])
        (some (service, domain))
    → Parts name service domain
second-Cut name service domain a rest none e d h q = cc
second-Cut name service domain a rest (some (b, dom)) e d (f, g) q =
    let p : (a ++ 46 ∷ b, dom) ≡ (service, domain) = some_inj q in
    record {
      first_label = a;
      second_label = b;
      label_dotless = d;
      proto_dotless = g;
      is_service = sym (ap (λ x. x.0) p);
      is_whole =
          e
          ∙ ap (λ r. a ++ 46 ∷ r) f
          ∙ sym (append_assoc a (46 ∷ b) (46 ∷ dom))
          ∙ ap (λ x. x.0 ++ 46 ∷ x.1) p;
    }

first-Cut :
    (name service domain : Bytes) (r : Option (Bytes × Bytes))
    → Cut name r
    → ◌≡◌ {A = Option (Bytes × Bytes)}
        (elim r [
          | none ↦ none
          | some (first, rest) ↦ elim (cut_at_dot rest) [
            | none ↦ none
            | some (second, d) ↦ some (first ++ 46 ∷ second, d)
          ]
        ])
        (some (service, domain))
    → Parts name service domain
first-Cut name service domain none h q = cc
first-Cut name service domain (some (a, rest)) (e, d) q =
    second-Cut name service domain a rest (cut_at_dot rest) e d (cut_at_dot-Cut rest) q

split_parts :
    (a b d : Bytes)
    → dotless a ≡ true
    → dotless b ≡ true
    → split_service (a ++ 46 ∷ (b ++ 46 ∷ d)) ≡ some (a ++ 46 ∷ b, d)
unfolding split_service
split_parts a b d ha hb =
    rw (split_service, cut_at_dot-found a (b ++ 46 ∷ d) ha, cut_at_dot-found b d hb) refl

-- The name of an SRV lookup is split into a service and a domain exactly when it is two labels without a
-- dot, each followed by a dot, and the domain: the service is the two labels with the dot between
-- them.
pub split_service_iff :
    (name service domain : Bytes)
    → (split_service name ≡ some (service, domain)) ↔ Parts name service domain
unfolding split_service
split_service_iff name service domain = (
  first-Cut name service domain (cut_at_dot name) (cut_at_dot-Cut name),
  λ p.
      ap split_service (
        p.is_whole
        ∙ ap (λ s. s ++ 46 ∷ domain) p.is_service
        ∙ append_assoc p.first_label (46 ∷ p.second_label) (46 ∷ domain))
      ∙ split_parts p.first_label p.second_label domain p.label_dotless p.proto_dotless
      ∙ ap (λ s. some (s, domain)) (sym p.is_service),
)

-- ===== src/Memory.antt =====
-- Blocks that are obtained and given back: the calls of `ngx_alloc` and `ngx_free`, and of
-- `ngx_resolve_start` and `ngx_resolve_name_done`. What the allocator answers is a parameter, which
-- may depend on the calls before and on the size.
use rl_nginx.Base.{ℕ, ◌+◌, Option, none, some, List, [], ◌∷◌, ◌++◌, ◌==◌, if◌then◌else◌, ◌≡◌, arith}

abbrev pub Allocator : Type 0
Allocator = ℕ → ℕ → Option ℕ

-- Every block that was obtained and every one that was given back.
pub record Memory : Type 0 where
  pub attempts : ℕ
  pub made : List ℕ
  pub freed : List ℕ

unfoldable pub taken : Option ℕ → Memory → Option ℕ × Memory
taken none m = (none, record m { attempts = m.attempts + 1 })
taken (some p) m = (some p, record m { attempts = m.attempts + 1; made = p ∷ m.made })

unfoldable pub alloc : Allocator → ℕ → Memory → Option ℕ × Memory
unfolding taken
alloc give size m = taken (give m.attempts size) m

unfoldable pub free : ℕ → Memory → Memory
free p m = record m { freed = p ∷ m.freed }

unfoldable pub free_if : Option ℕ → Memory → Memory
unfolding free
free_if none m = m
free_if (some p) m = free p m

unfoldable pub occurrences : ℕ → List ℕ → ℕ
occurrences p [] = 0
occurrences p (q ∷ rest) = if p == q then occurrences p rest + 1 else occurrences p rest

-- Between the two memories the blocks of the list were obtained, and they are still held; every other
-- block was given back as often as it was obtained.
pub record Holds (blocks : List ℕ) (m m' : Memory) : Type 0 where
  pub balance :
      (p : ℕ)
      → occurrences p m'.made + occurrences p m.freed
        ≡ occurrences p m'.freed + occurrences p m.made + occurrences p blocks

pub occurrences-append :
    (p : ℕ) (xs ys : List ℕ) → occurrences p (xs ++ ys) ≡ occurrences p xs + occurrences p ys
unfolding occurrences
occurrences-append p [] ys = omega arith
occurrences-append p (x ∷ xs) ys = ground (arith, occurrences-append p xs ys)

pub Holds-none : (m : Memory) → Holds [] m m
unfolding occurrences
Holds-none m = record { balance = λ p. omega arith }

pub Holds-free :
    {blocks : List ℕ} {m m' : Memory} (p : ℕ) → Holds (p ∷ blocks) m m' → Holds blocks m (free p m')
unfolding occurrences free
Holds-free p h = record { balance = λ q. ground (arith, h.balance q) }

-- The order in which blocks are held does not matter.
pub Holds-order :
    {blocks blocks' : List ℕ} {m m' : Memory}
    → ((p : ℕ) → occurrences p blocks ≡ occurrences p blocks')
    → Holds blocks m m'
    → Holds blocks' m m'
Holds-order e h = record { balance = λ p. omega (arith, e p, h.balance p) }

-- A balance that holds after two stretches of the run.
pub Holds-after :
    {blocks blocks' : List ℕ} {m₀ m m' : Memory}
    → Holds blocks m₀ m
    → Holds blocks' m m'
    → Holds (blocks' ++ blocks) m₀ m'
unfolding occurrences
Holds-after {blocks = blocks} {blocks' = blocks'} h h' = record {
  balance = λ p. omega (arith, occurrences-append p blocks' blocks, h.balance p, h'.balance p);
}

-- What is done when the allocator refuses, and with the block that it gives.
unfoldable pub with_block :
    {A : Type 0} → Allocator → ℕ → Memory → (Memory → A) → (ℕ → Memory → A) → A
unfolding alloc
with_block give size m refused go =
    let (got, m') = alloc give size m in elim got [ none ↦ refused m' | some p ↦ go p m' ]

taken-Holds :
    {A : Type 0} {blocks : List ℕ} {m₀ m : Memory} (P : A → Type 0) (got : Option ℕ)
    (refused : Memory → A) (go : ℕ → Memory → A)
    → Holds blocks m₀ m
    → ((m' : Memory) → Holds blocks m₀ m' → P (refused m'))
    → ((p : ℕ) (m' : Memory) → Holds (p ∷ blocks) m₀ m' → P (go p m'))
    → P (elim (taken got m).0 [ none ↦ refused (taken got m).1 | some p ↦ go p (taken got m).1 ])
unfolding taken occurrences
taken-Holds P none refused go h hr hu = hr _ (record { balance = h.balance })
taken-Holds P (some p) refused go h hr hu =
    hu p _ (record { balance = λ q. ground (arith, h.balance q) })

-- Both ways on from an allocation, with what is held then.
pub with_block-Holds :
    {A : Type 0} {blocks : List ℕ} {m₀ m : Memory} (P : A → Type 0) (give : Allocator) (size : ℕ)
    (refused : Memory → A) (go : ℕ → Memory → A)
    → Holds blocks m₀ m
    → ((m' : Memory) → Holds blocks m₀ m' → P (refused m'))
    → ((p : ℕ) (m' : Memory) → Holds (p ∷ blocks) m₀ m' → P (go p m'))
    → P (with_block give size m refused go)
unfolding with_block alloc
with_block-Holds {m = m} P give size refused go h hr hu =
    taken-Holds P (give m.attempts size) refused go h hr hu

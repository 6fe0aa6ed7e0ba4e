-- ===== src/Policy/Growth.antt =====
-- The schedules in closed form: the loop and the guarded products compute a capped progression.
use rl_nginx.Base.{
  ℕ, zero, suc, ◌+◌, ◌-◌, ◌*◌, ◌/◌, ◌^◌, ◌≤◌, ◌<◌, ◌≡◌, Bool, true, false, not, ◌&&◌, none, some,
  ltb, leb, ◌==◌, if◌then◌else◌, u32_max, min, arith,
}
use native.Mathlib.Nat.{pow-zero, pow-suc}
use rl_nginx.Policy.{
  Schedule, ScheduleKind, fixed, linear, exponential, unknown, grow, units_by_kind, schedule_units,
}

-- The units of a round, with no machine arithmetic and no loop.
abbrev pub progression : ScheduleKind → ℕ → ℕ → ℕ → ℕ → ℕ
progression fixed initial max_units growth round = initial
progression linear initial max_units growth round = min max_units (initial + round * growth)
progression exponential initial max_units growth round = min max_units (initial * growth ^ round)
progression unknown initial max_units growth round = 0

abbrev pub units_at : Schedule → ℕ → ℕ
units_at s = progression s.kind s.initial_units s.max_units s.growth

-- The parameters that the code accepts.
abbrev pub growth_valid : ScheduleKind → ℕ → Bool
growth_valid fixed growth = true
growth_valid linear growth = not (growth == 0)
growth_valid exponential growth = leb 2 growth
growth_valid unknown growth = false

abbrev pub is_valid : Schedule → Bool
is_valid s = leb s.initial_units s.max_units && growth_valid s.kind s.growth

-- A value above the quotient passes the maximum when it is multiplied.
above_quotient : (m f v : ℕ) → 2 ≤ f → m / f < v → m < v * f
above_quotient m f v h lt = grind arith

below_quotient : (m f v : ℕ) → 2 ≤ f → v ≤ m / f → v * f ≤ m
below_quotient m f v h le = grind arith

pow_pos : (f r : ℕ) → 1 ≤ f → 1 ≤ f ^ r
pow_pos f zero h = rw pow-zero (omega arith)
pow_pos f (suc r) h = rw pow-suc (grind (arith, pow_pos f r h))

mul-pow-suc : (v f r : ℕ) → v * f ^ suc r ≡ v * f * f ^ r
mul-pow-suc v f r = rw pow-suc (grind arith)

le-mul : (a p : ℕ) → 1 ≤ p → a ≤ a * p
le-mul a p h = grind arith

-- A value at or above the maximum keeps its capped power there.
capped : (m v p : ℕ) → m ≤ v → 1 ≤ p → min m (v * p) ≡ m
capped m v p hv hp = omega (arith, le-mul v p hp)

grow-min :
    (round m f v : ℕ) → 2 ≤ f → v ≤ m → m ≤ u32_max → grow round m f v ≡ min m (v * f ^ round)
unfolding grow
grow-min zero m f v hf hv hm = rw pow-zero (omega arith)
grow-min (suc round) m f v hf hv hm =
    let pos = pow_pos f round (omega arith) in
    rw (mul-pow-suc v f round) (
      ground (
        arith,
        grow-min round m f m hf (omega arith) hm,
        grow-min round m f (v * f) hf,
        capped m m (f ^ round) (omega arith) pos,
        capped m (v * f) (f ^ round),
        above_quotient m f v hf,
        below_quotient m f v hf,
        le-mul v f (omega arith),
        pos,
      ))

above_step : (d g r : ℕ) → 0 < g → d / g < r → d < r * g
above_step d g r h lt = grind arith

below_step : (d g r : ℕ) → 0 < g → r ≤ d / g → r * g ≤ d
below_step d g r h le = grind arith

linear_units :
    (initial m g round : ℕ)
    → 0 < g
    → initial ≤ m
    → m ≤ u32_max
    → units_by_kind linear initial m g round ≡ some (min m (initial + round * g))
unfolding units_by_kind
linear_units initial m g round hg hi hm =
    ground (arith, above_step (m - initial) g round hg, below_step (m - initial) g round hg)

-- For a maximum that fits 32 bits, the units of a round are those of the capped arithmetic or
-- geometric progression, `min max (initial + round * step)` or `min max (initial * factor ^ round)`,
-- exactly when the initial units do not exceed the maximum and the step or factor is in range; any
-- other schedule is refused. So no product or sum of the code wraps.
pub schedule_units-progression :
    (s : Schedule) (round : ℕ)
    → s.max_units ≤ u32_max
    → schedule_units s round ≡ (if is_valid s then some (units_at s round) else none)
unfolding schedule_units
schedule_units-progression s round hm = by_kind s.kind s.initial_units s.max_units s.growth hm
  where
    by_kind :
        (k : ScheduleKind) (i m g : ℕ)
        → m ≤ u32_max
        → (if ltb m i then none else units_by_kind k i m g round)
          ≡ (if leb i m && growth_valid k g then some (progression k i m g round) else none)
    by_kind fixed i m g hm = ground arith
    by_kind linear i m g hm = ground (arith, linear_units i m g round)
    by_kind exponential i m g hm = ground (arith, grow-min round m g i)
    by_kind unknown i m g hm = ground arith

progression_mono :
    (k : ScheduleKind) (i m g r : ℕ)
    → growth_valid k g ≡ true
    → progression k i m g r ≤ progression k i m g (suc r)
progression_mono fixed i m g r v = omega arith
progression_mono linear i m g r v = grind arith
progression_mono exponential i m g r v =
    rw (mul-pow-suc i g r) (ground (arith, le-mul (i * g ^ r) g))
progression_mono unknown i m g r v = ground arith

progression-le :
    (k : ScheduleKind) (i m g r : ℕ) → growth_valid k g ≡ true → i ≤ m → progression k i m g r ≤ m
progression-le fixed i m g r v h = h
progression-le linear i m g r v h = omega arith
progression-le exponential i m g r v h = omega arith
progression-le unknown i m g r v h = ground arith

-- Along the rounds of one accepted schedule the gaps never shrink, and none exceeds the maximum.
pub schedule_units_mono :
    (s : Schedule) (round a b : ℕ)
    → s.max_units ≤ u32_max
    → schedule_units s round ≡ some a
    → schedule_units s (suc round) ≡ some b
    → (a ≤ b) × (b ≤ s.max_units)
schedule_units_mono s round a b hm ha hb = ground (
  arith,
  schedule_units-progression s round hm,
  schedule_units-progression s (suc round) hm,
  progression_mono s.kind s.initial_units s.max_units s.growth round,
  progression-le s.kind s.initial_units s.max_units s.growth (suc round),
)

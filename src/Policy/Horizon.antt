-- ===== src/Policy/Horizon.antt =====
-- The horizon of a policy: the loop and its guards against the sum that the documents give.
use rl_nginx.Base.{
  ℕ, zero, suc, ◌+◌, ◌*◌, ◌/◌, ◌%◌, ◌^◌, ◌≤◌, ◌<◌, ◌≡◌, inl, inr, Bool, true, false, not, ◌&&◌,
  Option, none, some, ltb, leb, ◌==◌, if◌then◌else◌, u32_max, arith, Bool-cases, ◌>>=◌, ◌>>◌,
  require,
}
use native.Mathlib.Nat.{pow-zero}
use rl_nginx.Policy.{
  ScheduleKind, fixed, linear, exponential, unknown, Schedule, RequestPolicy, add_gaps, sub64,
  horizon_checks, horizon_ms,
}
use rl_nginx.Policy.Growth.{
  units_at, is_valid, growth_valid, progression, schedule_units-progression,
}

-- The sum of the units of `rounds` rounds from `round` on.
pub sum_units : Schedule → ℕ → ℕ → ℕ
sum_units s zero round = 0
sum_units s (suc rounds) round = units_at s round + sum_units s rounds (round + 1)

abbrev pub total_units : RequestPolicy → ℕ
total_units p = sum_units p.replay_gap (p.replay_count + 1) 0 + p.final_receive_units

add_gaps_valid :
    (gap : Schedule) (max_units rounds round total : ℕ)
    → gap.max_units ≤ u32_max
    → max_units ≤ u32_max
    → is_valid gap ≡ true
    → total ≤ max_units
    → add_gaps gap max_units rounds round total ≡ (
        if leb (total + sum_units gap rounds round) max_units
        then some (total + sum_units gap rounds round)
        else none)
unfolding add_gaps sum_units
add_gaps_valid gap max_units zero round total hg hm v h = ground arith
add_gaps_valid gap max_units (suc rounds) round total hg hm v h = ground (
  arith,
  schedule_units-progression gap round hg,
  add_gaps_valid gap max_units rounds (round + 1) (total + units_at gap round) hg hm v,
)

add_gaps_invalid :
    (gap : Schedule) (max_units rounds round total : ℕ)
    → gap.max_units ≤ u32_max
    → is_valid gap ≡ false
    → 0 < rounds
    → add_gaps gap max_units rounds round total ≡ none
unfolding add_gaps
add_gaps_invalid gap max_units zero round total hg v pos = absurd (omega arith)
add_gaps_invalid gap max_units (suc rounds) round total hg v pos =
    ground (arith, schedule_units-progression gap round hg)

first_units_pos : (s : Schedule) → is_valid s ≡ true → 0 < s.initial_units → 0 < units_at s 0
first_units_pos s v h = by_kind s.kind s.initial_units s.max_units s.growth v h
  where
    by_kind :
        (k : ScheduleKind) (i m g : ℕ)
        → (leb i m && growth_valid k g) ≡ true
        → 0 < i
        → 0 < progression k i m g 0
    by_kind fixed i m g v h = h
    by_kind linear i m g v h = ground arith
    by_kind exponential i m g v h = rw pow-zero (ground arith)
    by_kind unknown i m g v h = ground arith

sum_units_pos :
    (s : Schedule) (rounds : ℕ)
    → 0 < rounds
    → is_valid s ≡ true
    → 0 < s.initial_units
    → 0 < sum_units s rounds 0
unfolding sum_units
sum_units_pos s zero pos v h = absurd (omega arith)
sum_units_pos s (suc rounds) pos v h = omega (arith, first_units_pos s v h)

quotient_above : (t u ttl : ℕ) → 0 < u → t ≤ ttl / u → t * u ≤ ttl
quotient_above t u ttl hu h = grind arith

quotient_below : (t u ttl : ℕ) → 0 < u → ttl / u < t → ttl < t * u
quotient_below t u ttl hu h = grind arith

-- The checks and the tail of the code around the sum of the gaps, which is `s` when it is found.
tail_of_gaps :
    (gaps : Option ℕ) (v : Bool) (s u ttl final : ℕ)
    → ttl ≤ u32_max
    → 0 < u
    → (v ≡ true → 0 < s)
    → gaps ≡ (if v && leb s (ttl / u) then some s else none)
    → (gaps >>= λ total.
        require (not (ltb (sub64 (ttl / u) total) final))
        >> (let t = (total + final) % 2 ^ 64 in
            require (not (t == 0)) >> some (t * u % 2 ^ 64 % 2 ^ 32)))
      ≡ (if v && leb ((s + final) * u) ttl then some ((s + final) * u) else none)
tail_of_gaps gaps v s u ttl final ht hu pos e = rw e (
    ground (
      arith,
      quotient_above (s + final) u ttl hu,
      quotient_below (s + final) u ttl hu,
      quotient_below s u ttl hu,
    ))

quotient-le : (n u : ℕ) → n / u ≤ n
quotient-le n u = grind arith

le-product : (t u ttl : ℕ) → 0 < t → t * u ≤ ttl → u ≤ ttl
le-product t u ttl h le = grind arith

gaps_of_policy :
    (gap : Schedule) (max_units rounds : ℕ)
    → gap.max_units ≤ u32_max
    → max_units ≤ u32_max
    → 0 < rounds
    → add_gaps gap max_units rounds 0 0 ≡ (
        if is_valid gap && leb (sum_units gap rounds 0) max_units
        then some (sum_units gap rounds 0)
        else none)
gaps_of_policy gap max_units rounds hg hm pos = elim (Bool-cases (is_valid gap)) [
  | inl v ↦ rw v (ground (arith, add_gaps_valid gap max_units rounds 0 0 hg hm v (omega arith)))
  | inr v ↦ rw v (add_gaps_invalid gap max_units rounds 0 0 hg v pos)
]

module _ (max_replay_count : ℕ) where
  -- The conditions that the documents put on a policy under a limit on its horizon.
  abbrev pub accepts : RequestPolicy → ℕ → Bool
  accepts p max_ttl_ms =
      not (p.unit_ms == 0)
      && leb p.replay_count max_replay_count
      && not (p.replay_gap.initial_units == 0)
      && is_valid p.replay_gap
      && leb (total_units p * p.unit_ms) max_ttl_ms

  refused_checks :
      (p : RequestPolicy) (max_ttl_ms : ℕ)
      → horizon_checks max_replay_count p max_ttl_ms ≡ true
      → accepts p max_ttl_ms ≡ false
  refused_checks p max_ttl_ms e = elim (Bool-cases (accepts p max_ttl_ms)) [
    | inr refused ↦ refused
    | inl accepted ↦ ground (
      arith,
      le-product (total_units p) p.unit_ms max_ttl_ms,
      sum_units_pos p.replay_gap (p.replay_count + 1),
    )
  ]

  passed_checks :
      (p : RequestPolicy) (max_ttl_ms : ℕ)
      → horizon_checks max_replay_count p max_ttl_ms ≡ false
      → accepts p max_ttl_ms ≡ (is_valid p.replay_gap && leb (total_units p * p.unit_ms) max_ttl_ms)
  passed_checks p max_ttl_ms e = ground arith

  -- The code's horizon is `unit * (sum of the replay gaps + final wait units)`, found exactly when the
  -- unit is positive, the replay count is within the client's limit, the schedule is valid with a
  -- positive first gap, and the horizon is at most the limit in milliseconds; otherwise the policy is
  -- refused. For a limit and a maximum gap that fit 32 bits, no step of the computation wraps.
  pub horizon_ms-total_units :
      (p : RequestPolicy) (max_ttl_ms : ℕ)
      → p.replay_gap.max_units ≤ u32_max
      → max_ttl_ms ≤ u32_max
      → horizon_ms max_replay_count p max_ttl_ms
        ≡ (if accepts p max_ttl_ms then some (total_units p * p.unit_ms) else none)
  unfolding horizon_ms
  horizon_ms-total_units p max_ttl_ms hg ht =
      elim (Bool-cases (horizon_checks max_replay_count p max_ttl_ms)) [
        | inl bad ↦ rw (refused_checks p max_ttl_ms bad, bad)
        | inr good ↦
            rw (passed_checks p max_ttl_ms good, good)
              (tail_of_gaps
                (add_gaps p.replay_gap (max_ttl_ms / p.unit_ms) (p.replay_count + 1) 0 0)
                (is_valid p.replay_gap) (sum_units p.replay_gap (p.replay_count + 1) 0) p.unit_ms
                max_ttl_ms p.final_receive_units ht (ground arith)
                (λ v.
                  sum_units_pos p.replay_gap (p.replay_count + 1) (omega arith) v (ground arith))
                (gaps_of_policy p.replay_gap _ (p.replay_count + 1) hg
                  (omega (arith, quotient-le max_ttl_ms p.unit_ms)) (omega arith)))
      ]

-- ===== src/Policy.antt =====
-- The request policy of src/ngx_http_ratelimitly_module.c: replay-gap schedules, their value in a
-- round, and the horizon of a policy. `R_CLIENT_HA_MAX_REPLAY_COUNT` is the C client's constant and
-- a parameter here. The C client's `r_ha_schedule_t` keeps the step and the factor in one union; its
-- one word is the field `growth`.
pub mod Growth
pub mod Horizon
pub mod Syntax
pub mod Directive
pub mod Accepted
use rl_nginx.Base.{
  ℕ, zero, suc, ◌+◌, ◌-◌, ◌*◌, ◌/◌, ◌%◌, ◌^◌, Bool, true, false, not, ◌||◌, Option, none, some, ltb,
  leb, ◌==◌, if◌then◌else◌, ◌>>=◌, ◌>>◌, require, u32_max,
}

pub data ScheduleKind : Type 0 where
  fixed linear exponential unknown : ScheduleKind

pub record Schedule : Type 0 where
  pub kind : ScheduleKind
  pub initial_units : ℕ
  pub max_units : ℕ
  pub growth : ℕ

pub record RequestPolicy : Type 0 where
  pub unit_ms : ℕ
  pub replay_count : ℕ
  pub replay_gap : Schedule
  pub final_receive_units : ℕ
  pub completion_delivery : Bool

pub data PolicyKind : Type 0 where
  standard single_round custom : PolicyKind

-- `while (round-- > 0 && value < max_units)`, in uint32_t.
unfoldable pub grow : ℕ → ℕ → ℕ → ℕ → ℕ
grow zero max_units factor value = value
grow (suc round) max_units factor value =
    if ltb value max_units
    then grow round max_units factor
        (if ltb (max_units / factor) value then max_units else value * factor % 2 ^ 32)
    else value

-- The `switch` on the schedule's kind.
unfoldable pub units_by_kind : ScheduleKind → ℕ → ℕ → ℕ → ℕ → Option ℕ
unfolding grow
units_by_kind fixed initial max_units growth round = some initial
units_by_kind linear initial max_units growth round =
    if growth == 0
    then none
    else if ltb ((max_units - initial) / growth) round
    then some max_units
    else some ((initial + round * growth % 2 ^ 32) % 2 ^ 32)
units_by_kind exponential initial max_units growth round =
    if ltb growth 2 then none else some (grow round max_units growth initial)
units_by_kind unknown initial max_units growth round = none

unfoldable pub schedule_units : Schedule → ℕ → Option ℕ
unfolding units_by_kind
schedule_units s round =
    if ltb s.max_units s.initial_units
    then none
    else units_by_kind s.kind s.initial_units s.max_units s.growth round

-- uint64_t subtraction.
abbrev pub sub64 : ℕ → ℕ → ℕ
sub64 a b = (a + 2 ^ 64 - b) % 2 ^ 64

-- The loop over the rounds: the units of `rounds` gaps from `round` on, on top of `total`.
unfoldable pub add_gaps : Schedule → ℕ → ℕ → ℕ → ℕ → Option ℕ
add_gaps gap max_units zero round total = some total
add_gaps gap max_units (suc rounds) round total = do
  gap_units ← schedule_units gap round
  require (not (ltb (sub64 max_units total) gap_units))
  add_gaps gap max_units rounds (round + 1) ((total + gap_units) % 2 ^ 64)

module _ (max_replay_count : ℕ) where
  abbrev pub horizon_checks : RequestPolicy → ℕ → Bool
  horizon_checks policy max_ttl_ms =
      policy.unit_ms == 0
      || ltb max_ttl_ms policy.unit_ms
      || ltb max_replay_count policy.replay_count
      || policy.replay_gap.initial_units == 0

  unfoldable pub horizon_ms : RequestPolicy → ℕ → Option ℕ
  horizon_ms policy max_ttl_ms = do
    require (not (horizon_checks policy max_ttl_ms))
    let max_units = max_ttl_ms / policy.unit_ms
    total ← add_gaps policy.replay_gap max_units (policy.replay_count + 1) 0 0
    require (not (ltb (sub64 max_units total) policy.final_receive_units))
    let total_units = (total + policy.final_receive_units) % 2 ^ 64
    require (not (total_units == 0))
    some (total_units * policy.unit_ms % 2 ^ 64 % 2 ^ 32)

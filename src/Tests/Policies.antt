-- ===== src/Tests/Policies.antt =====
-- Runs of the request policy's schedules, horizon and directive.
use rl_nginx.Base.{
  ℕ, ◌*◌, ◌≤◌, ◌≡◌, refl, true, Option, none, some, List, [], ◌∷◌, ◌++◌, Bytes, codes,
  if◌then◌else◌, u32_max, has_byte, same_bytes, strip_prefix, arith,
}
use rl_nginx.Numeric.{parse_u32, u32_from_u64}
use rl_nginx.Duration.{parse_duration_ms}
use rl_nginx.Policy.{
  fixed, linear, exponential, Schedule, RequestPolicy, standard, custom, schedule_units, horizon_ms,
  add_gaps,
}
use rl_nginx.Policy.Growth.{is_valid, units_at, schedule_units-progression}
use rl_nginx.Policy.Horizon.{accepts, total_units, horizon_ms-total_units}
use rl_nginx.Policy.Syntax.{parse_schedule, parse_schedule_sound}
use rl_nginx.Policy.Syntax.Written.{IsNumber, three_numbers, parse_schedule-linear}
use rl_nginx.Policy.Directive.{
  read_policy, policy_named, apply_arguments, apply_argument, classify, apply_custom, on_or_off,
  finish_policy,
}
use rl_nginx.Policy.Accepted.{count, read_policy-accepts, read_policy-custom, read_policy-preset}

abbrev doubling : Schedule
doubling = record { kind = exponential; initial_units = 3; max_units = 10; growth = 2 }

schedule_units-progression_example :
    schedule_units doubling 2 ≡ (if is_valid doubling then some (units_at doubling 2) else none)
schedule_units-progression_example = schedule_units-progression doubling 2 (omega arith)

abbrev two_replays : RequestPolicy
two_replays = record {
  unit_ms = 100;
  replay_count = 2;
  replay_gap = doubling;
  final_receive_units = 4;
  completion_delivery = true;
}

horizon_ms-total_units_example :
    horizon_ms 8 two_replays 60000
    ≡ (if accepts 8 two_replays 60000 then some (total_units two_replays * 100) else none)
horizon_ms-total_units_example =
    horizon_ms-total_units 8 two_replays 60000 (omega arith) (omega arith)

parse_schedule_sound_example : (is_valid doubling ≡ true) × (10 ≤ u32_max)
unfolding parse_schedule strip_prefix parse_u32
parse_schedule_sound_example = parse_schedule_sound (codes "exponential:3:2:10") doubling refl

IsNumber-3 : IsNumber (codes "3")
IsNumber-3 = ((λ h. cc), ((omega arith, omega arith), tt), omega arith)

IsNumber-2 : IsNumber (codes "2")
IsNumber-2 = ((λ h. cc), ((omega arith, omega arith), tt), omega arith)

IsNumber-9 : IsNumber (codes "9")
IsNumber-9 = ((λ h. cc), ((omega arith, omega arith), tt), omega arith)

parse_schedule-linear_example :
    parse_schedule (codes "linear:" ++ three_numbers (codes "3") (codes "2") (codes "9"))
    ≡ some (record { kind = linear; initial_units = 3; max_units = 9; growth = 2 })
parse_schedule-linear_example =
    parse_schedule-linear (codes "3") (codes "2") (codes "9") IsNumber-3 IsNumber-2 IsNumber-9
      (omega arith) (omega arith)

-- A reading of times that knows one text.
abbrev some_time : Bytes → Option ℕ
some_time s = if has_byte b'1' s then some 100 else none

abbrev custom_args : List Bytes
custom_args =
    codes "unit=100ms"
    ∷ codes "replays=2"
    ∷ codes "replay_gap=exponential:3:2:10"
    ∷ codes "final_wait_units=4"
    ∷ codes "completion_delivery=on"
    ∷ []

read_policy-accepts_example : accepts 8 two_replays u32_max ≡ true
unfolding read_policy policy_named same_bytes apply_arguments apply_argument classify strip_prefix
    parse_duration_ms has_byte u32_from_u64 apply_custom on_or_off parse_u32 parse_schedule
    finish_policy horizon_ms add_gaps schedule_units
read_policy-accepts_example =
    read_policy-accepts 8 some_time two_replays fixed (codes "custom") custom_args custom
      two_replays (omega arith) refl

read_policy-custom_example : count 3 custom_args ≡ 1
unfolding read_policy policy_named same_bytes apply_arguments apply_argument classify strip_prefix
    parse_duration_ms has_byte u32_from_u64 apply_custom on_or_off parse_u32 parse_schedule
    finish_policy horizon_ms add_gaps schedule_units
read_policy-custom_example =
    read_policy-custom 8 some_time two_replays fixed (codes "custom") custom_args two_replays 3
      (omega arith) refl

read_policy-preset_example : two_replays ≡ record two_replays { unit_ms = 100 }
unfolding read_policy policy_named same_bytes apply_arguments apply_argument classify strip_prefix
    parse_duration_ms has_byte u32_from_u64 apply_custom on_or_off parse_u32 parse_schedule
    finish_policy horizon_ms add_gaps schedule_units
read_policy-preset_example =
    read_policy-preset 8 some_time two_replays fixed (codes "standard") (codes "unit=100ms" ∷ [])
      standard two_replays refl refl

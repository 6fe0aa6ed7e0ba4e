-- ===== src/Policy/Accepted.antt =====
-- What an accepted `ratelimitly_policy` directive has: its arguments, its fields and its horizon.
use rl_nginx.Base.{
  ℕ, zero, suc, ◌+◌, ◌≤◌, ◌<◌, ◌≡◌, Bool, true, false, not, ◌&&◌, Option, some, List, [], ◌∷◌,
  Bytes, ◌==◌, if◌then◌else◌, u32_max, arith, Result, ok, or_error, and_then-eq-ok, is_some,
}
use rl_nginx.Policy.{ScheduleKind, RequestPolicy, PolicyKind, single_round, custom, horizon_ms}
use rl_nginx.Policy.Syntax.{parse_schedule_sound}
use rl_nginx.Policy.Horizon.{accepts, horizon_ms-total_units}
use rl_nginx.Policy.Directive.{
  Draft, Argument, unit, replays, replay_gap, final_wait, completion_delivery, other, classify,
  is_custom, policy_named, apply_custom, apply_argument, apply_arguments, all_set, new_draft,
  read_policy, finish_policy, PolicyError,
}

-- Which of the five names an argument has; 5 stands for none of them.
abbrev pub name_index : Argument → ℕ
name_index (unit v) = 0
name_index (replays v) = 1
name_index (replay_gap v) = 2
name_index (final_wait v) = 3
name_index (completion_delivery v) = 4
name_index other = 5

-- How many arguments have a name.
pub count : ℕ → List Bytes → ℕ
count k [] = 0
count k (arg ∷ args) = (if name_index (classify arg) == k then 1 else 0) + count k args

abbrev bit : Bool → ℕ
bit true = 1
bit false = 0

abbrev flag_at : ℕ → Draft → ℕ
flag_at zero d = bit d.unit_set
flag_at (suc zero) d = bit d.replays_set
flag_at (suc (suc zero)) d = bit d.replay_gap_set
flag_at (suc (suc (suc zero))) d = bit d.final_wait_set
flag_at (suc (suc (suc (suc k)))) d = bit d.completion_delivery_set

abbrev Steps : Argument → Draft → Draft → Type 0
Steps a d d' =
    (bit d'.unit_set ≡ (if name_index a == 0 then 1 else 0) + bit d.unit_set)
    × (bit d'.replays_set ≡ (if name_index a == 1 then 1 else 0) + bit d.replays_set)
    × (bit d'.replay_gap_set ≡ (if name_index a == 2 then 1 else 0) + bit d.replay_gap_set)
    × (bit d'.final_wait_set ≡ (if name_index a == 3 then 1 else 0) + bit d.final_wait_set)
    × (bit d'.completion_delivery_set
        ≡ (if name_index a == 4 then 1 else 0) + bit d.completion_delivery_set)

module _ (max_replay_count : ℕ) (parse_time : Bytes → Option ℕ) where
  abbrev applied : PolicyKind → Argument → Draft → Result PolicyError Draft
  applied = apply_argument max_replay_count parse_time

  -- An accepted argument raises its own flag from 0 to 1 and leaves the others.
  flags_step :
      (kind : PolicyKind) (a : Argument) (d d' : Draft) → applied kind a d ≡ ok d' → Steps a d d'
  unfolding apply_argument apply_custom
  flags_step kind (unit v) d d' h = ground arith
  flags_step kind (replays v) d d' h = ground arith
  flags_step kind (replay_gap v) d d' h = ground arith
  flags_step kind (final_wait v) d d' h = ground arith
  flags_step kind (completion_delivery v) d d' h = ground arith
  flags_step kind other d d' h = ground arith

  flag_step :
      (kind : PolicyKind) (a : Argument) (d d' : Draft) (k : ℕ)
      → k < 5
      → applied kind a d ≡ ok d'
      → flag_at k d' ≡ (if name_index a == k then 1 else 0) + flag_at k d
  flag_step kind a d d' zero hk h = (flags_step kind a d d' h).0
  flag_step kind a d d' (suc zero) hk h = (flags_step kind a d d' h).1
  flag_step kind a d d' (suc (suc zero)) hk h = (flags_step kind a d d' h).2
  flag_step kind a d d' (suc (suc (suc zero))) hk h = (flags_step kind a d d' h).3
  flag_step kind a d d' (suc (suc (suc (suc zero)))) hk h = (flags_step kind a d d' h).4
  flag_step kind a d d' (suc (suc (suc (suc (suc k))))) hk h = absurd (omega arith)

  abbrev applied_all : PolicyKind → List Bytes → Draft → Result PolicyError Draft
  applied_all = apply_arguments max_replay_count parse_time

  flags_count :
      (kind : PolicyKind) (args : List Bytes) (d d' : Draft) (k : ℕ)
      → k < 5
      → applied_all kind args d ≡ ok d'
      → flag_at k d' ≡ count k args + flag_at k d
  unfolding apply_arguments count
  flags_count kind [] d d' k hk h = ground arith
  flags_count kind (arg ∷ args) d d' k hk h =
      let (m, e, rest) = and_then-eq-ok (applied kind (classify arg) d) _ h in
      omega (arith, flag_step kind (classify arg) d m k hk e, flags_count kind args m d' k hk rest)

  -- What the checks of one argument leave true of the draft's numbers.
  schedule_step :
      (kind : PolicyKind) (a : Argument) (d d' : Draft)
      → applied kind a d ≡ ok d'
      → d.policy.replay_gap.max_units ≤ u32_max
      → d'.policy.replay_gap.max_units ≤ u32_max
  unfolding apply_argument apply_custom
  schedule_step kind (unit v) d d' h fits = ground arith
  schedule_step kind (replays v) d d' h fits = ground arith
  schedule_step kind (replay_gap v) d d' h fits =
      ground (arith, parse_schedule_sound v d'.policy.replay_gap)
  schedule_step kind (final_wait v) d d' h fits = ground arith
  schedule_step kind (completion_delivery v) d d' h fits = ground arith
  schedule_step kind other d d' h fits = ground arith

  schedule_steps :
      (kind : PolicyKind) (args : List Bytes) (d d' : Draft)
      → applied_all kind args d ≡ ok d'
      → d.policy.replay_gap.max_units ≤ u32_max
      → d'.policy.replay_gap.max_units ≤ u32_max
  unfolding apply_arguments
  schedule_steps kind [] d d' h fits = ground arith
  schedule_steps kind (arg ∷ args) d d' h fits =
      let (m, e, rest) = and_then-eq-ok (applied kind (classify arg) d) _ h in
      schedule_steps kind args m d' rest (schedule_step kind (classify arg) d m e fits)

  -- A named policy takes nothing but its unit.
  unit_step :
      (kind : PolicyKind) (a : Argument) (d d' : Draft)
      → is_custom kind ≡ false
      → applied kind a d ≡ ok d'
      → d'.policy ≡ record (d.policy) { unit_ms = d'.policy.unit_ms }
  unfolding apply_argument
  unit_step kind (unit v) d d' c h = ground arith
  unit_step kind (replays v) d d' c h = ground arith
  unit_step kind (replay_gap v) d d' c h = ground arith
  unit_step kind (final_wait v) d d' c h = ground arith
  unit_step kind (completion_delivery v) d d' c h = ground arith
  unit_step kind other d d' c h = ground arith

  unit_steps :
      (kind : PolicyKind) (args : List Bytes) (d d' : Draft)
      → is_custom kind ≡ false
      → applied_all kind args d ≡ ok d'
      → d'.policy ≡ record (d.policy) { unit_ms = d'.policy.unit_ms }
  unfolding apply_arguments
  unit_steps kind [] d d' c h = ground arith
  unit_steps kind (arg ∷ args) d d' c h =
      let (m, e, rest) = and_then-eq-ok (applied kind (classify arg) d) _ h in
      ground (arith, unit_step kind (classify arg) d m c e, unit_steps kind args m d' c rest)

  abbrev finished : PolicyKind → Draft → Result PolicyError (PolicyKind × RequestPolicy)
  finished = finish_policy max_replay_count parse_time

  finished_lem :
      (kind kind' : PolicyKind) (d : Draft) (p : RequestPolicy)
      → finished kind d ≡ ok (kind', p)
      → (kind ≡ kind')
        × (d.policy ≡ p)
        × ((is_custom kind && not (all_set d)) ≡ false)
        × (is_some (horizon_ms max_replay_count p u32_max) ≡ true)
  unfolding finish_policy
  finished_lem kind kind' d p h = ground arith

  module _ (default_policy : RequestPolicy) (zero_kind : ScheduleKind) where
    abbrev read : Bytes → List Bytes → Result PolicyError (PolicyKind × RequestPolicy)
    read = read_policy max_replay_count parse_time default_policy zero_kind

    abbrev named : Bytes → Option (PolicyKind × RequestPolicy)
    named = policy_named default_policy zero_kind

    -- The steps behind an accepted directive.
    record Reading (name : Bytes) (args : List Bytes) (kind : PolicyKind) (p : RequestPolicy)
        : Type 0 where
      start : RequestPolicy
      draft : Draft
      by_name : named name ≡ some (kind, start)
      by_arguments : applied_all kind args (new_draft start) ≡ ok draft
      policy_lem : draft.policy ≡ p
      complete : (is_custom kind && not (all_set draft)) ≡ false
      in_horizon : is_some (horizon_ms max_replay_count p u32_max) ≡ true

    read-Reading :
        (name : Bytes) (args : List Bytes) (kind : PolicyKind) (p : RequestPolicy)
        → read name args ≡ ok (kind, p)
        → Reading name args kind p
    unfolding read_policy
    read-Reading name args kind p h =
        let ((kind', start), e1, h1) = and_then-eq-ok (or_error _ (named name)) _ h in
        let (d, e2, h2) = and_then-eq-ok (applied_all kind' args _) _ h1 in
        let (same, policy_lem, complete, in_horizon) = finished_lem kind' kind d p h2 in
        record {
          start = start;
          draft = d;
          by_name = ground (arith, e1, same);
          by_arguments = rw (← same) e2;
          policy_lem = policy_lem;
          complete = rw (← same) complete;
          in_horizon = in_horizon;
        }

    named_fits :
        (name : Bytes) (kind : PolicyKind) (start : RequestPolicy)
        → default_policy.replay_gap.max_units ≤ u32_max
        → named name ≡ some (kind, start)
        → start.replay_gap.max_units ≤ u32_max
    unfolding policy_named
    named_fits name kind start fits h = ground arith

    -- The horizon of an accepted policy is positive time that fits the wire's 32 bits: its unit is
    -- positive, its replay count is within the client's limit, its schedule is valid with a positive
    -- first gap, and `unit * (sum of the gaps + final wait units)` is at most UINT32_MAX. It takes the
    -- client's default policy to have a schedule in 32 bits.
    pub read_policy-accepts :
        (name : Bytes) (args : List Bytes) (kind : PolicyKind) (p : RequestPolicy)
        → default_policy.replay_gap.max_units ≤ u32_max
        → read_policy max_replay_count parse_time default_policy zero_kind name args ≡ ok (kind, p)
        → accepts max_replay_count p u32_max ≡ true
    read_policy-accepts name args kind p fits h =
        let r = read-Reading name args kind p h in
        let gap : p.replay_gap.max_units ≤ u32_max = rw (← r.policy_lem) (
          schedule_steps kind args (new_draft r.start) r.draft r.by_arguments
            (named_fits name kind r.start fits r.by_name)) in
        ground
          (arith, r.in_horizon, horizon_ms-total_units max_replay_count p u32_max gap (omega arith))

    -- A custom policy is accepted only with each of its five arguments exactly once.
    pub read_policy-custom :
        (name : Bytes) (args : List Bytes) (p : RequestPolicy) (k : ℕ)
        → k < 5
        → read_policy max_replay_count parse_time default_policy zero_kind name args
          ≡ ok (custom, p)
        → count k args ≡ 1
    read_policy-custom name args p k hk h =
        let r = read-Reading name args custom p h in
        one_of_set r.start r.draft args k hk (ground (arith, r.complete))
          (flags_count custom args (new_draft r.start) r.draft k hk r.by_arguments)
      where
        one_of_set :
            (start : RequestPolicy) (d : Draft) (args : List Bytes) (k : ℕ)
            → k < 5
            → all_set d ≡ true
            → flag_at k d ≡ count k args + flag_at k (new_draft start)
            → count k args ≡ 1
        one_of_set start d args zero hk v e = ground arith
        one_of_set start d args (suc zero) hk v e = ground arith
        one_of_set start d args (suc (suc zero)) hk v e = ground arith
        one_of_set start d args (suc (suc (suc zero))) hk v e = ground arith
        one_of_set start d args (suc (suc (suc (suc k)))) hk v e = ground arith

    -- What a named policy starts from.
    abbrev pub preset : PolicyKind → RequestPolicy
    preset single_round = record default_policy {
      replay_count = 0;
      final_receive_units = 0;
      completion_delivery = false;
    }
    preset _ = default_policy

    -- `standard` and `single_round` take no argument but `unit=`: an accepted policy is the client's
    -- default, without replay, final wait and completion delivery in the second case, but for the unit.
    pub read_policy-preset :
        (name : Bytes) (args : List Bytes) (kind : PolicyKind) (p : RequestPolicy)
        → is_custom kind ≡ false
        → read_policy max_replay_count parse_time default_policy zero_kind name args ≡ ok (kind, p)
        → p ≡ record (preset kind) { unit_ms = p.unit_ms }
    unfolding policy_named
    read_policy-preset name args kind p c h =
        let r = read-Reading name args kind p h in
        ground (
          arith,
          r.by_name,
          r.policy_lem,
          unit_steps kind args (new_draft r.start) r.draft c r.by_arguments,
        )

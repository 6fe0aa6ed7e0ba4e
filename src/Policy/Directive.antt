-- ===== src/Policy/Directive.antt =====
-- The arguments of the `ratelimitly_policy` directive: the body of `ngx_http_rn_set_policy` up to the
-- store into the main configuration. Parameters: the C client's default policy and replay limit,
-- the schedule kind whose enumerator is 0 (what `ngx_memzero` leaves), and nginx's `ngx_parse_time`.
use rl_nginx.Base.{
  ℕ, Bool, true, false, not, ◌&&◌, Option, none, some, List, [], ◌∷◌, Bytes, codes, ltb, ◌==◌,
  if◌then◌else◌, u32_max, strip_prefix, same_bytes, is_some, Result, ok, err, and_then, or_error,
}
use rl_nginx.Numeric.{parse_u32}
use rl_nginx.Duration.{parse_duration_ms}
use rl_nginx.Policy.{
  ScheduleKind, RequestPolicy, PolicyKind, standard, single_round, custom, horizon_ms,
}
use rl_nginx.Policy.Syntax.{parse_schedule}

pub data PolicyError : Type 0 where
  invalid_name invalid_unit invalid_replays invalid_replay_gap invalid_final_wait : PolicyError
  invalid_completion_delivery invalid_argument only_unit duplicate_unit : PolicyError
  duplicate_replays duplicate_replay_gap duplicate_final_wait : PolicyError
  duplicate_completion_delivery missing_argument horizon_exceeded : PolicyError

-- The argument's name, with the text of its value.
pub data Argument : Type 0 where
  unit replays replay_gap final_wait completion_delivery : Bytes → Argument
  other : Argument

unfoldable pub classify : Bytes → Argument
classify arg = elim (strip_prefix (codes "unit=") arg) [
  | some v ↦ unit v
  | none ↦ elim (strip_prefix (codes "replays=") arg) [
    | some v ↦ replays v
    | none ↦ elim (strip_prefix (codes "replay_gap=") arg) [
      | some v ↦ replay_gap v
      | none ↦ elim (strip_prefix (codes "final_wait_units=") arg) [
        | some v ↦ final_wait v
        | none ↦ elim (strip_prefix (codes "completion_delivery=") arg) [
          | some v ↦ completion_delivery v
          | none ↦ other
        ]
      ]
    ]
  ]
]

-- The policy under construction and the flags of the arguments seen.
pub record Draft : Type 0 where
  pub policy : RequestPolicy
  pub unit_set : Bool
  pub replays_set : Bool
  pub replay_gap_set : Bool
  pub final_wait_set : Bool
  pub completion_delivery_set : Bool

unfoldable pub on_or_off : Bytes → Option Bool
on_or_off v =
    if same_bytes v (codes "on")
    then some true
    else if same_bytes v (codes "off")
    then some false
    else none

abbrev pub is_custom : PolicyKind → Bool
is_custom custom = true
is_custom _ = false

module _ (default_policy : RequestPolicy) (zero_kind : ScheduleKind) where
  abbrev pub zero_policy : RequestPolicy
  zero_policy = record {
    unit_ms = 0;
    replay_count = 0;
    replay_gap = record { kind = zero_kind; initial_units = 0; max_units = 0; growth = 0 };
    final_receive_units = 0;
    completion_delivery = false;
  }

  unfoldable pub policy_named : Bytes → Option (PolicyKind × RequestPolicy)
  policy_named name =
      if same_bytes name (codes "standard")
      then some (standard, default_policy)
      else if same_bytes name (codes "single_round")
      then some (
        single_round,
        record default_policy {
          replay_count = 0;
          final_receive_units = 0;
          completion_delivery = false;
        },
      )
      else if same_bytes name (codes "custom")
      then some (custom, zero_policy)
      else none

abbrev pub all_set : Draft → Bool
all_set d =
    d.unit_set && d.replays_set && d.replay_gap_set && d.final_wait_set && d.completion_delivery_set

abbrev pub new_draft : RequestPolicy → Draft
new_draft policy = record {
  policy = policy;
  unit_set = false;
  replays_set = false;
  replay_gap_set = false;
  final_wait_set = false;
  completion_delivery_set = false;
}

module _ (max_replay_count : ℕ) (parse_time : Bytes → Option ℕ) where
  -- An argument that only a custom policy takes.
  unfoldable pub apply_custom : Argument → Draft → Result PolicyError Draft
  unfolding on_or_off
  apply_custom (unit v) d = err invalid_argument
  apply_custom (replays v) d =
      if d.replays_set
      then err duplicate_replays
      else and_then (or_error invalid_replays (parse_u32 (some v))) λ number.
        if ltb max_replay_count number
        then err invalid_replays
        else ok
            (record d { policy = record (d.policy) { replay_count = number }; replays_set = true })
  apply_custom (replay_gap v) d =
      if d.replay_gap_set
      then err duplicate_replay_gap
      else and_then (or_error invalid_replay_gap (parse_schedule v)) λ schedule.
        if schedule.initial_units == 0
        then err invalid_replay_gap
        else ok (record d {
          policy = record (d.policy) { replay_gap = schedule };
          replay_gap_set = true;
        })
  apply_custom (final_wait v) d =
      if d.final_wait_set
      then err duplicate_final_wait
      else and_then (or_error invalid_final_wait (parse_u32 (some v))) λ number. ok (record d {
        policy = record (d.policy) { final_receive_units = number };
        final_wait_set = true;
      })
  apply_custom (completion_delivery v) d =
      if d.completion_delivery_set
      then err duplicate_completion_delivery
      else and_then (or_error invalid_completion_delivery (on_or_off v)) λ delivery. ok (record d {
        policy = record (d.policy) { completion_delivery = delivery };
        completion_delivery_set = true;
      })
  apply_custom other d = err invalid_argument

  -- `unit=` comes first, for every kind of policy.
  unfoldable pub apply_argument : PolicyKind → Argument → Draft → Result PolicyError Draft
  apply_argument kind (unit v) d =
      if d.unit_set
      then err duplicate_unit
      else and_then (or_error invalid_unit (parse_duration_ms parse_time v)) λ number.
        ok (record d { policy = record (d.policy) { unit_ms = number }; unit_set = true })
  apply_argument kind a d = if is_custom kind then apply_custom a d else err only_unit

  unfoldable pub apply_arguments : PolicyKind → List Bytes → Draft → Result PolicyError Draft
  apply_arguments kind [] d = ok d
  apply_arguments kind (arg ∷ args) d =
      and_then (apply_argument kind (classify arg) d) (λ d'. apply_arguments kind args d')

  -- The checks behind the loop over the arguments.
  unfoldable pub finish_policy :
      PolicyKind → Draft → Result PolicyError (PolicyKind × RequestPolicy)
  finish_policy kind d =
      if is_custom kind && not (all_set d)
      then err missing_argument
      else if is_some (horizon_ms max_replay_count d.policy u32_max)
      then ok (kind, d.policy)
      else err horizon_exceeded

  unfoldable pub read_policy :
      RequestPolicy
      → ScheduleKind
      → Bytes
      → List Bytes
      → Result PolicyError (PolicyKind × RequestPolicy)
  read_policy default_policy zero_kind name args =
      and_then (or_error invalid_name (policy_named default_policy zero_kind name)) λ named.
        and_then (apply_arguments named.0 args (new_draft named.1)) (λ d. finish_policy named.0 d)

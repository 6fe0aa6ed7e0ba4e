-- ===== src/Policy/Syntax.antt =====
-- The text of a replay-gap schedule: `rn_parse_schedule_number` and `rn_parse_policy_schedule`.
pub mod Written
use rl_nginx.Base.{
  ℕ, ◌≤◌, ◌≡◌, ◌≢◌, refl, Bool, true, false, not, ◌||◌, Option, none, some, [], ◌∷◌, ◌++◌, Bytes,
  codes, All, ltb, ◌==◌, if◌then◌else◌, ◌>>=◌, ◌>>◌, require, u32_max, arith, strip_prefix,
  strip_prefix-append, is_some, ◌∙◌, >>=-eq-some, some_inj, require-eq-some, Option-cases, inl, inr,
}
use rl_nginx.Numeric.{parse_u32}
use rl_nginx.Numeric.Decimal.{IsDigit, value, parse_u32_iff}
use rl_nginx.Policy.{Schedule, ScheduleKind, fixed, linear, exponential}
use rl_nginx.Policy.Growth.{is_valid}

-- `ngx_strlchr` for a colon: the bytes before the first one and those after it.
unfoldable pub split_at_colon : Bytes → Option (Bytes × Bytes)
split_at_colon [] = none
split_at_colon (c ∷ s) =
    if c == b':' then some ([], s) else (split_at_colon s >>= λ p. some (c ∷ p.0, p.1))

-- One number from the cursor on, and the new cursor.
unfoldable pub schedule_number : Bool → Bytes → Option (ℕ × Bytes)
unfolding split_at_colon
schedule_number require_separator [] = none
schedule_number true (c ∷ s) = do
  (number, rest) ← split_at_colon (c ∷ s)
  n ← parse_u32 (some number)
  some (n, rest)
schedule_number false (c ∷ s) =
    if is_some (split_at_colon (c ∷ s))
    then none
    else (parse_u32 (some (c ∷ s)) >>= λ n. some (n, []))

-- The prefix, with something behind it.
unfoldable pub behind : Bytes → Bytes → Option Bytes
behind prefix text = elim (strip_prefix prefix text) [
  | none ↦ none
  | some [] ↦ none
  | some (c ∷ s) ↦ some (c ∷ s)
]

unfoldable pub parse_fixed : Bytes → Option Schedule
unfolding schedule_number
parse_fixed text = do
  (initial, rest) ← schedule_number false text
  some (record { kind = fixed; initial_units = initial; max_units = initial; growth = 0 })

-- `<initial>:<growth>:<maximum>`, with the least growth that the kind allows.
unfoldable pub parse_growing : ScheduleKind → ℕ → Bytes → Option Schedule
unfolding schedule_number
parse_growing kind least text = do
  (initial, after_initial) ← schedule_number true text
  (growth, after_growth) ← schedule_number true after_initial
  (maximum, rest) ← schedule_number false after_growth
  require (not (ltb growth least || ltb maximum initial))
  some (record { kind = kind; initial_units = initial; max_units = maximum; growth = growth })

unfoldable pub parse_exponential : Bytes → Option Schedule
unfolding behind parse_growing
parse_exponential text = elim (behind (codes "exponential:") text) [
  | some rest ↦ parse_growing exponential 2 rest
  | none ↦ none
]

unfoldable pub parse_linear : Bytes → Option Schedule
unfolding behind parse_growing parse_exponential
parse_linear text = elim (behind (codes "linear:") text) [
  | some rest ↦ parse_growing linear 1 rest
  | none ↦ parse_exponential text
]

-- The three forms in turn; a form whose prefix fits decides.
unfoldable pub parse_schedule : Bytes → Option Schedule
unfolding behind parse_fixed parse_linear
parse_schedule text = elim (behind (codes "fixed:") text) [
  | some rest ↦ parse_fixed rest
  | none ↦ parse_linear text
]

parse_u32_fits : (s : Bytes) (n : ℕ) → parse_u32 (some s) ≡ some n → n ≤ u32_max
parse_u32_fits s n h = ((parse_u32_iff s n).0 h).3

schedule_number_fits :
    (b : Bool) (s rest : Bytes) (n : ℕ) → schedule_number b s ≡ some (n, rest) → n ≤ u32_max
unfolding schedule_number
schedule_number_fits true [] rest n h = ground arith
schedule_number_fits false [] rest n h = ground arith
schedule_number_fits true (c ∷ s) rest n h =
    let ((number, after), _, h1) = >>=-eq-some (split_at_colon (c ∷ s)) _ h in
    let (m, e, h2) = >>=-eq-some (parse_u32 (some number)) _ h1 in
    ground (arith, parse_u32_fits number m e, some_inj h2)
schedule_number_fits false (c ∷ s) rest n h = ground (arith, parse_u32_fits (c ∷ s) n)

parse_fixed_sound :
    (text : Bytes) (s : Schedule)
    → parse_fixed text ≡ some s
    → (is_valid s ≡ true) × (s.max_units ≤ u32_max)
unfolding parse_fixed
parse_fixed_sound text s h =
    let ((initial, rest), e, h1) = >>=-eq-some (schedule_number false text) _ h in
    ground (arith, schedule_number_fits false text rest initial e, some_inj h1)

growing_fields :
    (kind : ScheduleKind) (least initial growth maximum : ℕ) (s : Schedule)
    → maximum ≤ u32_max
    → not (ltb growth least || ltb maximum initial) ≡ true
    → record { kind = kind; initial_units = initial; max_units = maximum; growth = growth } ≡ s
    → (s.kind ≡ kind)
      × (least ≤ s.growth)
      × (s.initial_units ≤ s.max_units)
      × (s.max_units ≤ u32_max)
growing_fields kind least initial growth maximum s fits ok e = ground arith

parse_growing_sound :
    (kind : ScheduleKind) (least : ℕ) (text : Bytes) (s : Schedule)
    → parse_growing kind least text ≡ some s
    → (s.kind ≡ kind)
      × (least ≤ s.growth)
      × (s.initial_units ≤ s.max_units)
      × (s.max_units ≤ u32_max)
unfolding parse_growing
parse_growing_sound kind least text s h =
    let ((initial, t1), _, h1) = >>=-eq-some (schedule_number true text) _ h in
    let ((growth, t2), _, h2) = >>=-eq-some (schedule_number true t1) _ h1 in
    let ((maximum, t3), e3, h3) = >>=-eq-some (schedule_number false t2) _ h2 in
    let (_, e4, h4) = >>=-eq-some (require (not (ltb growth least || ltb maximum initial))) _ h3 in
    growing_fields kind least initial growth maximum s (schedule_number_fits false t2 t3 maximum e3)
      (require-eq-some _ e4) (some_inj h4)

abbrev IsReadable : Schedule → Type 0
IsReadable s = (is_valid s ≡ true) × (s.max_units ≤ u32_max)

parse_exponential_sound :
    (text : Bytes) (s : Schedule) → parse_exponential text ≡ some s → IsReadable s
parse_exponential_sound text s h = elim (Option-cases (behind (codes "exponential:") text)) [
  | inl e ↦ unfold parse_exponential in cc (rw (e, parse_exponential) at h)
  | inr (rest, e) ↦
      unfold parse_exponential in
      ground (arith, parse_growing_sound exponential 2 rest s (rw (e, parse_exponential) at h))
]

parse_linear_sound : (text : Bytes) (s : Schedule) → parse_linear text ≡ some s → IsReadable s
parse_linear_sound text s h = elim (Option-cases (behind (codes "linear:") text)) [
  | inl e ↦ parse_exponential_sound text s (unfold parse_linear in rw (e, parse_linear) at h)
  | inr (rest, e) ↦ ground (
    arith,
    parse_growing_sound linear 1 rest s (unfold parse_linear in rw (e, parse_linear) at h),
  )
]

-- Every schedule that is read is one that the round computation accepts, with all its numbers in 32
-- bits; so no policy that was read meets the schedule errors of the horizon.
pub parse_schedule_sound :
    (text : Bytes) (s : Schedule)
    → parse_schedule text ≡ some s
    → (is_valid s ≡ true) × (s.max_units ≤ u32_max)
parse_schedule_sound text s h = elim (Option-cases (behind (codes "fixed:") text)) [
  | inl e ↦ parse_linear_sound text s (unfold parse_schedule in rw (e, parse_schedule) at h)
  | inr (rest, e) ↦ parse_fixed_sound rest s (unfold parse_schedule in rw (e, parse_schedule) at h)
]

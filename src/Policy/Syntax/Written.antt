-- ===== src/Policy/Syntax/Written.antt =====
-- The reading of a replay-gap schedule that is written out: it gives back the numbers.
use rl_nginx.Base.{
  ℕ, ◌≤◌, ◌≡◌, ◌≢◌, refl, true, false, none, some, [], ◌∷◌, ◌++◌, Bytes, codes, All, u32_max, arith,
  strip_prefix, strip_prefix-append, ◌∙◌,
}
use rl_nginx.Numeric.{parse_u32}
use rl_nginx.Numeric.Decimal.{IsDigit, value, parse_u32_iff}
use rl_nginx.Policy.{ScheduleKind, linear, exponential}
use rl_nginx.Policy.Syntax.{
  split_at_colon, schedule_number, behind, parse_growing, parse_exponential, parse_linear,
  parse_schedule,
}

abbrev pub IsNumber : Bytes → Type 0
IsNumber ds = (ds ≢ []) × All IsDigit ds × (value 0 ds ≤ u32_max)

parse_u32-IsNumber : (ds : Bytes) → IsNumber ds → parse_u32 (some ds) ≡ some (value 0 ds)
parse_u32-IsNumber ds (ne, digits, fits) =
    (parse_u32_iff ds (value 0 ds)).1 (ne, digits, refl, fits)

split_at_colon-digits :
    (ds rest : Bytes) → All IsDigit ds → split_at_colon (ds ++ b':' ∷ rest) ≡ some (ds, rest)
unfolding split_at_colon
split_at_colon-digits [] rest h = refl
split_at_colon-digits (d ∷ ds) rest (hd, hs) = ground (arith, split_at_colon-digits ds rest hs)

split_at_colon-none : (ds : Bytes) → All IsDigit ds → split_at_colon ds ≡ none
unfolding split_at_colon
split_at_colon-none [] h = refl
split_at_colon-none (d ∷ ds) (hd, hs) = ground (arith, split_at_colon-none ds hs)

schedule_number-first :
    (ds rest : Bytes)
    → IsNumber ds
    → schedule_number true (ds ++ b':' ∷ rest) ≡ some (value 0 ds, rest)
unfolding schedule_number
schedule_number-first [] rest v = absurd (v.0 refl)
schedule_number-first (d ∷ ds) rest v =
    rw (split_at_colon-digits (d ∷ ds) rest v.1, parse_u32-IsNumber (d ∷ ds) v)

schedule_number-last : (ds : Bytes) → IsNumber ds → schedule_number false ds ≡ some (value 0 ds, [])
unfolding schedule_number
schedule_number-last [] v = absurd (v.0 refl)
schedule_number-last (d ∷ ds) v =
    rw (split_at_colon-none (d ∷ ds) v.1, parse_u32-IsNumber (d ∷ ds) v)

-- The text `<initial>:<growth>:<maximum>`.
abbrev pub three_numbers : Bytes → Bytes → Bytes → Bytes
three_numbers initial growth maximum = initial ++ b':' ∷ (growth ++ b':' ∷ maximum)

parse_growing-three_numbers :
    (kind : ScheduleKind) (least : ℕ) (initial growth maximum : Bytes)
    → IsNumber initial
    → IsNumber growth
    → IsNumber maximum
    → least ≤ value 0 growth
    → value 0 initial ≤ value 0 maximum
    → parse_growing kind least (three_numbers initial growth maximum)
      ≡ some (record {
        kind = kind;
        initial_units = value 0 initial;
        max_units = value 0 maximum;
        growth = value 0 growth;
      })
unfolding parse_growing
parse_growing-three_numbers kind least initial growth maximum vi vg vm hg hm =
    rw
      (
        schedule_number-first initial _ vi,
        schedule_number-first growth maximum vg,
        schedule_number-last maximum vm,
      )
      (ground arith)

behind-append : (prefix text : Bytes) → text ≢ [] → behind prefix (prefix ++ text) ≡ some text
unfolding behind
behind-append prefix [] ne = absurd (ne refl)
behind-append prefix (c ∷ s) ne = rw (strip_prefix-append prefix (c ∷ s), behind)

three_numbers-ne-nil : (a b c : Bytes) → three_numbers a b c ≢ []
three_numbers-ne-nil [] b c e = cc
three_numbers-ne-nil (d ∷ a) b c e = cc

not_fixed_linear : (s : Bytes) → behind (codes "fixed:") (codes "linear:" ++ s) ≡ none
unfolding behind strip_prefix
not_fixed_linear s = refl

not_fixed_exponential : (s : Bytes) → behind (codes "fixed:") (codes "exponential:" ++ s) ≡ none
unfolding behind strip_prefix
not_fixed_exponential s = refl

not_linear_exponential : (s : Bytes) → behind (codes "linear:") (codes "exponential:" ++ s) ≡ none
unfolding behind strip_prefix
not_linear_exponential s = refl

parse_schedule_linear :
    (text rest : Bytes)
    → behind (codes "fixed:") text ≡ none
    → behind (codes "linear:") text ≡ some rest
    → parse_schedule text ≡ parse_growing linear 1 rest
parse_schedule_linear text rest e1 e2 =
    unfold parse_schedule in rw (e1, parse_schedule) (unfold parse_linear in rw (e2, parse_linear))

parse_schedule_exponential :
    (text rest : Bytes)
    → behind (codes "fixed:") text ≡ none
    → behind (codes "linear:") text ≡ none
    → behind (codes "exponential:") text ≡ some rest
    → parse_schedule text ≡ parse_growing exponential 2 rest
parse_schedule_exponential text rest e1 e2 e3 =
    unfold parse_schedule in
    rw (e1, parse_schedule)
      (unfold parse_linear in
        rw (e2, parse_linear) (unfold parse_exponential in rw (e3, parse_exponential)))

-- A linear schedule written as three decimal numbers that fit 32 bits, with a positive step and the
-- initial units at most the maximum, is read back as those numbers.
pub parse_schedule-linear :
    (initial step maximum : Bytes)
    → IsNumber initial
    → IsNumber step
    → IsNumber maximum
    → 1 ≤ value 0 step
    → value 0 initial ≤ value 0 maximum
    → parse_schedule (codes "linear:" ++ three_numbers initial step maximum)
      ≡ some (record {
        kind = linear;
        initial_units = value 0 initial;
        max_units = value 0 maximum;
        growth = value 0 step;
      })
parse_schedule-linear initial step maximum vi vg vm hg hm =
    parse_schedule_linear _ (three_numbers initial step maximum) (not_fixed_linear _)
      (behind-append (codes "linear:") _ (three_numbers-ne-nil initial step maximum))
    ∙ parse_growing-three_numbers linear 1 initial step maximum vi vg vm hg hm

-- An exponential schedule written as three decimal numbers that fit 32 bits, with a factor of two or
-- more and the initial units at most the maximum, is read back as those numbers.
pub parse_schedule-exponential :
    (initial factor maximum : Bytes)
    → IsNumber initial
    → IsNumber factor
    → IsNumber maximum
    → 2 ≤ value 0 factor
    → value 0 initial ≤ value 0 maximum
    → parse_schedule (codes "exponential:" ++ three_numbers initial factor maximum)
      ≡ some (record {
        kind = exponential;
        initial_units = value 0 initial;
        max_units = value 0 maximum;
        growth = value 0 factor;
      })
parse_schedule-exponential initial factor maximum vi vg vm hg hm =
    parse_schedule_exponential _ (three_numbers initial factor maximum) (not_fixed_exponential _)
      (not_linear_exponential _)
      (behind-append (codes "exponential:") _ (three_numbers-ne-nil initial factor maximum))
    ∙ parse_growing-three_numbers exponential 2 initial factor maximum vi vg vm hg hm

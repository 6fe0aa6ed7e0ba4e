-- ===== src/Numeric/Rate.antt =====
-- The grammar of the rate expression, `<rate>r/<period><unit>`, and the two numbers it stands for.
use rl_nginx.Base.{
  ℕ, ◌+◌, ◌-◌, ◌*◌, ◌≤◌, ◌<◌, ◌≡◌, refl, ◌↔◌, true, false, [], ◌∷◌, ◌++◌, some, Bytes, All,
  some_inj, u32_max, arith, ltb, ltb→lt, ◌==◌, if◌then◌else◌, >>=-eq-some, require-eq-some, inl,
  inr, ◌⊎◌, require,
}
use mathlib.Core.Path.{subst}
use rl_nginx.Numeric.{
  is_digit, scan_u32, unit_factor, expect_byte, last_byte, rate_window, parse_rate,
}
use rl_nginx.Numeric.Decimal.{IsDigit, value, le-value}

-- The longest prefix of digits.
digit_run : Bytes → Bytes
digit_run [] = []
digit_run (c ∷ s) = if is_digit c then c ∷ digit_run s else []

-- The text before the rest is the digit run, and the number read is its value.
scan_u32_sound :
    (s : Bytes) (n v : ℕ) (rest : Bytes)
    → n ≤ u32_max
    → scan_u32 n s ≡ some (v, rest)
    → (s ≡ digit_run s ++ rest)
      × All IsDigit (digit_run s)
      × (v ≡ value n (digit_run s))
      × (v ≤ u32_max)
unfolding scan_u32 digit_run
scan_u32_sound [] n v rest fits h = ground arith
scan_u32_sound (c ∷ s) n v rest fits h =
    ground (arith, scan_u32_sound s (n * 10 + (c - b'0')) v rest)

-- A digit run before a byte that is no digit is read whole, if its value fits.
scan_u32_complete :
    (ds : Bytes) (n c : ℕ) (rest : Bytes)
    → All IsDigit ds
    → value n ds ≤ u32_max
    → is_digit c ≡ false
    → scan_u32 n (ds ++ c ∷ rest) ≡ some (value n ds, c ∷ rest)
unfolding scan_u32
scan_u32_complete [] n c rest hs fits nd = rw nd
scan_u32_complete (d ∷ ds) n c rest (hd, hs) fits nd =
    let m = n * 10 + (d - b'0') in
    ground (arith, scan_u32_complete ds m c rest hs fits nd, le-value m ds)

-- The units of the grammar with their milliseconds: seconds, minutes and hours.
abbrev pub IsUnit : ℕ → ℕ → Type 0
IsUnit u f =
    ((u ≡ b's') × (f ≡ 1000)) ⊎ ((u ≡ b'm') × (f ≡ 60 * 1000)) ⊎ ((u ≡ b'h') × (f ≡ 60 * 60 * 1000))

unit_factor_iff : (u f : ℕ) → (unit_factor u ≡ some f) ↔ IsUnit u f
unfolding unit_factor
unit_factor_iff u f = (λ h. ground (arith, h), λ h. ground (arith, h))

unit_not_digit : (u f : ℕ) → unit_factor u ≡ some f → is_digit u ≡ false
unfolding unit_factor
unit_not_digit u f h = ground arith

unit_factor_pos : (u f : ℕ) → unit_factor u ≡ some f → 1000 ≤ f
unfolding unit_factor
unit_factor_pos u f h = ground arith

last_byte_sound : (s : Bytes) (c : ℕ) → last_byte s ≡ some c → s ≡ c ∷ []
unfolding last_byte
last_byte_sound [] c h = ground arith
last_byte_sound (d ∷ []) c h = ground arith
last_byte_sound (d ∷ e ∷ s) c h = ground arith

expect_byte_sound : (b : ℕ) (s t : Bytes) → expect_byte b s ≡ some t → s ≡ b ∷ t
unfolding expect_byte
expect_byte_sound b [] t h = ground arith
expect_byte_sound b (c ∷ s) t h = ground arith

-- The window that a period's digits spell: none, or a zero, is one unit.
abbrev pub units : Bytes → ℕ
units ps = let n = value 0 ps in if n == 0 then 1 else n

unit_factor_cases : (u f : ℕ) → unit_factor u ≡ some f → (f ≡ 1000) ⊎ (f ≡ 60000) ⊎ (f ≡ 3600000)
unfolding unit_factor
unit_factor_cases u f h = ground arith

-- The window's 32-bit product is exact where the range test passes, and the test is exact.
rate_window_iff :
    (n u f w : ℕ)
    → unit_factor u ≡ some f
    → (rate_window n f ≡ some w) ↔ ((w ≡ (if n == 0 then 1 else n) * f) × (w ≤ u32_max))
unfolding rate_window
rate_window_iff n u f w unit = elim (unit_factor_cases u f unit) [
  | inl e ↦ rw e (ground arith)
  | inr (inl e) ↦ rw e (ground arith)
  | inr (inr e) ↦ rw e (ground arith)
]

-- A text of the form `<rate>r/<period><unit>` that stands for `rate` tokens each `window_ms`.
pub record IsRate (text : Bytes) (rate window_ms : ℕ) : Type 0 where
  pub digits : Bytes
  pub period : Bytes
  pub unit : ℕ
  pub factor : ℕ
  pub shape : text ≡ digits ++ b'r' ∷ b'/' ∷ (period ++ unit ∷ [])
  pub digits_All : All IsDigit digits
  pub period_All : All IsDigit period
  pub spelled : IsUnit unit factor
  pub rate_exact : rate ≡ value 0 digits
  pub rate_pos : 0 < rate
  pub rate_fits : rate ≤ u32_max
  pub window_exact : window_ms ≡ units period * factor
  pub window_fits : window_ms ≤ u32_max

-- What the steps of the parser found, put together.
IsRate-of_steps :
    (text after_rate after_r period tail : Bytes) (r n c factor w : ℕ)
    → scan_u32 0 text ≡ some (r, after_rate)
    → ltb 0 r ≡ true
    → expect_byte b'r' after_rate ≡ some after_r
    → expect_byte b'/' after_r ≡ some period
    → scan_u32 0 period ≡ some (n, tail)
    → last_byte tail ≡ some c
    → unit_factor c ≡ some factor
    → rate_window n factor ≡ some w
    → IsRate text r w
IsRate-of_steps text after_rate after_r period tail r n c factor w e1 e2 e3 e4 e5 e6 e7 e8 =
    let (text_shape, rate_digits, rate_value, rate_fits) =
      scan_u32_sound text 0 r after_rate (omega arith) e1 in
    let (period_shape, period_digits, period_value, _) =
      scan_u32_sound period 0 n tail (omega arith) e5 in
    let (exact, fits) = (rate_window_iff n c factor w e7).0 e8 in
    record {
      digits = digit_run text;
      period = digit_run period;
      unit = c;
      factor = factor;
      shape = ground (
        arith,
        text_shape,
        period_shape,
        expect_byte_sound b'r' after_rate after_r e3,
        expect_byte_sound b'/' after_r period e4,
        last_byte_sound tail c e6,
      );
      digits_All = rate_digits;
      period_All = period_digits;
      spelled = (unit_factor_iff c factor).0 e7;
      rate_exact = rate_value;
      rate_pos = ltb→lt 0 r e2;
      rate_fits = rate_fits;
      window_exact = ground (arith, exact, period_value);
      window_fits = fits;
    }

parse_rate_sound :
    (text : Bytes) (rate w : ℕ) → parse_rate (some text) ≡ some (rate, w) → IsRate text rate w
unfolding parse_rate
parse_rate_sound text rate w h =
    let ((r, after_rate), e1, h1) = >>=-eq-some (scan_u32 0 text) _ h in
    let (_, e2, h2) = >>=-eq-some (require (ltb 0 r)) _ h1 in
    let (after_r, e3, h3) = >>=-eq-some (expect_byte b'r' after_rate) _ h2 in
    let (period, e4, h4) = >>=-eq-some (expect_byte b'/' after_r) _ h3 in
    let ((n, tail), e5, h5) = >>=-eq-some (scan_u32 0 period) _ h4 in
    let (c, e6, h6) = >>=-eq-some (last_byte tail) _ h5 in
    let (factor, e7, h7) = >>=-eq-some (unit_factor c) _ h6 in
    let (win, e8, h8) = >>=-eq-some (rate_window n factor) _ h7 in
    let found =
      IsRate-of_steps text after_rate after_r period tail r n c factor win e1 (require-eq-some _ e2)
        e3 e4 e5 e6 e7 e8 in
    let same : ◌≡◌ {A = ℕ × ℕ} (r, win) (rate, w) = some_inj h8 in
    subst (λ (p : ℕ × ℕ). IsRate text p.0 p.1) same found

period_fits :
    (ps : Bytes) (u f : ℕ) → unit_factor u ≡ some f → units ps * f ≤ u32_max → value 0 ps ≤ u32_max
period_fits ps u f unit fits = elim (unit_factor_cases u f unit) [
  | inl e ↦ ground arith
  | inr (inl e) ↦ ground arith
  | inr (inr e) ↦ ground arith
]

parse_rate_complete :
    (text : Bytes) (rate w : ℕ) → IsRate text rate w → parse_rate (some text) ≡ some (rate, w)
unfolding parse_rate last_byte expect_byte
parse_rate_complete text rate w v =
    let unit = (unit_factor_iff v.unit v.factor).1 v.spelled in
    let in_range : units v.period * v.factor ≤ u32_max = omega arith in
    ground (
      arith,
      scan_u32_complete v.digits 0 b'r' (b'/' ∷ (v.period ++ v.unit ∷ [])) v.digits_All
          (omega (arith, v.rate_exact, v.rate_fits)) refl,
      scan_u32_complete v.period 0 v.unit [] v.period_All
          (period_fits v.period v.unit v.factor unit in_range)
          (unit_not_digit v.unit v.factor unit),
      (rate_window_iff (value 0 v.period) v.unit v.factor w unit).1 (v.window_exact, v.window_fits),
    )

-- The rate parser accepts a text exactly when it reads `<rate>r/<period><unit>` with a positive
-- rate that fits 32 bits, a unit `s`, `m` or `h` of 1000, 60000 or 3600000 milliseconds, and a period
-- whose milliseconds fit 32 bits, an omitted or zero period standing for one unit; the two numbers it
-- returns are the rate and those milliseconds.
pub parse_rate_iff :
    (text : Bytes) (rate w : ℕ) → (parse_rate (some text) ≡ some (rate, w)) ↔ IsRate text rate w
parse_rate_iff text rate w = (parse_rate_sound text rate w, parse_rate_complete text rate w)

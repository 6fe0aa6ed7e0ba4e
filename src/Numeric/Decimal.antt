-- ===== src/Numeric/Decimal.antt =====
-- What the decimal parser accepts and returns, against the value that the digits spell.
use rl_nginx.Base.{
  ℕ, ◌+◌, ◌-◌, ◌*◌, ◌≤◌, ◌≡◌, refl, ◌↔◌, [], ◌∷◌, ◌≢◌, some, Bytes, All, u32_max, arith, min,
}
use rl_nginx.Numeric.{push_digit, parse_digits, parse_u32, u32_from_u64, ttl_ms_until}

abbrev pub IsDigit : ℕ → Type 0
IsDigit c = (b'0' ≤ c) × (c ≤ b'9')

-- The number that digits spell behind `n`, with no bound.
abbrev pub value : ℕ → Bytes → ℕ
value n [] = n
value n (c ∷ s) = value (n * 10 + (c - b'0')) s

pub le-value : (n : ℕ) (s : Bytes) → n ≤ value n s
le-value n [] = omega arith
le-value n (c ∷ s) = omega (arith, le-value (n * 10 + (c - b'0')) s)

-- One digit is pushed exactly when the number stays within 32 bits.
pub push_digit_fits :
    (n c : ℕ)
    → IsDigit c
    → n * 10 + (c - b'0') ≤ u32_max
    → push_digit n c ≡ some (n * 10 + (c - b'0'))
unfolding push_digit
push_digit_fits n c d h = ground arith

parse_digits_sound :
    (s : Bytes) (n r : ℕ)
    → n ≤ u32_max
    → parse_digits n s ≡ some r
    → All IsDigit s × (r ≡ value n s) × (r ≤ u32_max)
unfolding parse_digits
parse_digits_sound [] n r fits h = ground arith
parse_digits_sound (c ∷ s) n r fits h = ground (arith, parse_digits_sound s (n * 10 + (c - b'0')) r)

parse_digits_complete :
    (s : Bytes) (n : ℕ) → All IsDigit s → value n s ≤ u32_max → parse_digits n s ≡ some (value n s)
unfolding parse_digits
parse_digits_complete [] n _ _ = refl
parse_digits_complete (c ∷ s) n (hc, hs) fits =
    let m = n * 10 + (c - b'0') in ground (arith, parse_digits_complete s m hs fits, le-value m s)

parse_u32_sound :
    (s : Bytes) (r : ℕ)
    → parse_u32 (some s) ≡ some r
    → (s ≢ []) × All IsDigit s × (r ≡ value 0 s) × (r ≤ u32_max)
unfolding parse_u32
parse_u32_sound [] r h = ground arith
parse_u32_sound (c ∷ s) r h =
    let (digits, exact, fits) = parse_digits_sound (c ∷ s) 0 r (omega arith) h in
    ((λ e. cc), digits, exact, fits)

parse_u32_complete :
    (s : Bytes) (r : ℕ)
    → (s ≢ []) × All IsDigit s × (r ≡ value 0 s) × (r ≤ u32_max)
    → parse_u32 (some s) ≡ some r
unfolding parse_u32
parse_u32_complete [] r h = absurd (h.0 refl)
parse_u32_complete (c ∷ s) r (_, digits, exact, fits) =
    ground (arith, parse_digits_complete (c ∷ s) 0 digits)

-- The decimal parser returns a number exactly when the text is one or more digits whose value fits
-- 32 bits, and then it returns that value: no accepted text wraps, and none that fits is refused.
pub parse_u32_iff :
    (s : Bytes) (r : ℕ)
    → (parse_u32 (some s) ≡ some r) ↔ ((s ≢ []) × All IsDigit s × (r ≡ value 0 s) × (r ≤ u32_max))
parse_u32_iff s r = (parse_u32_sound s r, parse_u32_complete s r)

-- The remaining time to live is the time until expiry in milliseconds, saturated at UINT32_MAX:
-- its 32-bit product never wraps, and an expired record has none left.
pub ttl_ms_until-min :
    (expires_at_s now_s : ℕ)
    → ttl_ms_until expires_at_s now_s ≡ min ((expires_at_s - now_s) * 1000) u32_max
unfolding ttl_ms_until
ttl_ms_until-min expires_at_s now_s = ground arith

-- A 64-bit value is narrowed exactly when it fits, and then unchanged.
pub u32_from_u64_iff : (v r : ℕ) → (u32_from_u64 v ≡ some r) ↔ ((r ≡ v) × (v ≤ u32_max))
unfolding u32_from_u64
u32_from_u64_iff v r = ground arith

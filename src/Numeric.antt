-- ===== src/Numeric.antt =====
-- src/rn_numeric.c: decimal fields, the 64-to-32-bit conversion, the remaining time to live, and
-- the rate expression. Text is a list of bytes, and a null pointer to it is `none`; a result is
-- returned in place of the store through the out pointer, with `none` for -1.
pub mod Decimal
pub mod Rate
use rl_nginx.Base.{
  ℕ, ◌+◌, ◌-◌, ◌*◌, ◌/◌, ◌%◌, ◌^◌, ◌≡◌, refl, Bool, true, false, ◌&&◌, ◌||◌, Option, none, some, [],
  ◌∷◌, Bytes, codes, ltb, leb, ◌==◌, if◌then◌else◌, ◌>>=◌, ◌>>◌, require, u32_max,
}

abbrev pub is_digit : ℕ → Bool
is_digit c = leb b'0' c && leb c b'9'

-- One digit of a uint32_t decimal: the overflow test of both parsers, then `value * 10 + digit`.
unfoldable pub push_digit : ℕ → ℕ → Option ℕ
push_digit value c =
    let digit = c - b'0' in
    if ltb ((u32_max - digit) / 10) value then none else some ((value * 10 + digit) % 2 ^ 32)

-- The loop of `rn_numeric_parse_u32`.
unfoldable pub parse_digits : ℕ → Bytes → Option ℕ
unfolding push_digit
parse_digits value [] = some value
parse_digits value (c ∷ s) =
    if ltb c b'0' || ltb b'9' c then none else (push_digit value c >>= λ v. parse_digits v s)

unfoldable pub parse_u32 : Option Bytes → Option ℕ
unfolding parse_digits
parse_u32 none = none
parse_u32 (some []) = none
parse_u32 (some (c ∷ s)) = parse_digits 0 (c ∷ s)

unfoldable pub u32_from_u64 : ℕ → Option ℕ
u32_from_u64 value = if ltb u32_max value then none else some (value % 2 ^ 32)

unfoldable pub ttl_ms_until : ℕ → ℕ → ℕ
ttl_ms_until expires_at_s now_s =
    if leb expires_at_s now_s
    then 0
    else let remaining_s = expires_at_s - now_s in
      if ltb (u32_max / 1000) remaining_s then u32_max else (remaining_s % 2 ^ 32 * 1000) % 2 ^ 32

-- A digit loop of `rn_numeric_parse_rate`: the number read and the rest of the text.
unfoldable pub scan_u32 : ℕ → Bytes → Option (ℕ × Bytes)
unfolding push_digit
scan_u32 value [] = some (value, [])
scan_u32 value (c ∷ s) =
    if is_digit c then (push_digit value c >>= λ v. scan_u32 v s) else some (value, c ∷ s)

-- `switch (data[pos])`.
unfoldable pub unit_factor : ℕ → Option ℕ
unit_factor c =
    if c == b's'
    then some 1000
    else if c == b'm'
    then some 60000
    else if c == b'h'
    then some 3600000
    else none

-- The byte that `data[pos++]` must be, with `pos < len`.
unfoldable pub expect_byte : ℕ → Bytes → Option Bytes
expect_byte b [] = none
expect_byte b (c ∷ s) = if c == b then some s else none

-- `pos + 1 == len`: the one byte that is left.
unfoldable pub last_byte : Bytes → Option ℕ
last_byte [] = none
last_byte (c ∷ []) = some c
last_byte (c ∷ d ∷ s) = none

-- The window in milliseconds: zero means one unit, and the product must fit.
unfoldable pub rate_window : ℕ → ℕ → Option ℕ
rate_window number factor =
    let window = if number == 0 then 1 else number in
    if ltb (u32_max / factor) window then none else some (window * factor % 2 ^ 32)

unfoldable pub parse_rate : Option Bytes → Option (ℕ × ℕ)
unfolding scan_u32 unit_factor expect_byte last_byte rate_window
parse_rate none = none
parse_rate (some text) = do
  (rate, after_rate) ← scan_u32 0 text
  require (ltb 0 rate)
  after_r ← expect_byte b'r' after_rate
  period ← expect_byte b'/' after_r
  (number, tail) ← scan_u32 0 period
  c ← last_byte tail
  factor ← unit_factor c
  window_ms ← rate_window number factor
  some (rate, window_ms)

-- ===== src/Duration.antt =====
-- `rn_parse_protocol_duration_ms`. `ngx_parse_time` is nginx's and a parameter: a text to a number of
-- milliseconds, or `none` for NGX_ERROR.
use rl_nginx.Base.{
  ℕ, ◌≤◌, ◌<◌, ◌≡◌, Option, none, some, [], ◌∷◌, Bytes, ◌==◌, if◌then◌else◌, ◌>>=◌, u32_max, arith,
}
use rl_nginx.Numeric.{u32_from_u64}

module _ (parse_time : Bytes → Option ℕ) where
  unfoldable pub parse_duration_ms : Bytes → Option ℕ
  parse_duration_ms [] = none
  parse_duration_ms (c ∷ s) = do ms ← parse_time (c ∷ s); if ms == 0 then none else u32_from_u64 ms

  -- A duration that is accepted is positive, fits 32 bits, and is the one that nginx read.
  pub parse_duration_ms_sound :
      (s : Bytes) (ms : ℕ)
      → parse_duration_ms s ≡ some ms
      → (parse_time s ≡ some ms) × (0 < ms) × (ms ≤ u32_max)
  unfolding parse_duration_ms u32_from_u64
  parse_duration_ms_sound [] ms h = ground arith
  parse_duration_ms_sound (c ∷ s) ms h = ground arith

-- ===== src/ResolvConf/Buffer.antt =====
-- The output buffer: every write stays within the capacity, and the result is a C string.
use rl_nginx.Base.{
  ap, sym, append_assoc, ℕ, suc, zero, ◌+◌, ◌≤◌, ◌<◌, ◌≡◌, refl, false, Option, none, some, [], ◌∷◌,
  ◌++◌, Bytes, length, take, length-append, has_byte, arith, strip_prefix, ltb, Option-cases,
  if_cases, inl, inr, ◌⊎◌,
}
use rl_nginx.ResolvConf.{
  Output, directive, blank_output, stored, field, skip_blanks, bracketed, convert, parse_line,
  nameserver, Nameserver, inet, inet6, unusable, not_nameserver, keyword_ends,
}

-- The buffer holds a string, its length is `out_len`, and both fit the capacity.
pub record IsString (o : Output) (out_capacity : ℕ) : Type 0 where
  pub text : Bytes
  pub terminated : o.out ≡ text ++ 0 ∷ []
  pub no_nul : has_byte 0 text ≡ false
  pub len : o.out_len ≡ length text
  pub fits : length text < out_capacity

has_byte-append :
    (b : ℕ) (s t : Bytes)
    → has_byte b s ≡ false
    → has_byte b t ≡ false
    → has_byte b (s ++ t) ≡ false
unfolding has_byte
has_byte-append b [] t hs ht = ht
has_byte-append b (c ∷ s) t hs ht = ground (arith, has_byte-append b s t)

has_byte-take : (b n : ℕ) (s : Bytes) → has_byte b s ≡ false → has_byte b (take n s) ≡ false
unfolding has_byte
has_byte-take b zero s h = refl
has_byte-take b (suc n) [] h = refl
has_byte-take b (suc n) (c ∷ s) h = ground (arith, has_byte-take b n s)

field_no_nul : (s : Bytes) → has_byte 0 (field s) ≡ false
unfolding field has_byte
field_no_nul [] = refl
field_no_nul (c ∷ s) = ground (arith, field_no_nul s)

length-take-of_le : (n : ℕ) (s : Bytes) → n ≤ length s → length (take n s) ≡ n
length-take-of_le zero s h = refl
length-take-of_le (suc n) [] h = absurd (omega arith)
length-take-of_le (suc n) (c ∷ s) h = omega (arith, length-take-of_le n s)

pub take-length : (s : Bytes) → take (length s) s ≡ s
take-length [] = refl
take-length (c ∷ s) = ap (◌∷◌ c) (take-length s)

blank-IsString :
    (kind : Nameserver) (capacity : ℕ) → 0 < capacity → IsString (blank_output kind) capacity
unfolding has_byte
blank-IsString kind capacity h = record {
  text = [];
  terminated = refl;
  no_nul = refl;
  len = refl;
  fits = h;
}

-- `rn_resolv_store` keeps the address whole, or its first `out_capacity - 1` bytes.
stored_len :
    (kind : Nameserver) (address : Bytes) (capacity : ℕ)
    → 0 < capacity
    → let len = (stored kind address capacity).out_len in (len ≤ length address) × (len < capacity)
unfolding stored
stored_len kind address capacity h = ground arith

stored_out :
    (kind : Nameserver) (address : Bytes) (capacity : ℕ)
    → (stored kind address capacity).out
      ≡ take (stored kind address capacity).out_len address ++ 0 ∷ []
unfolding stored
stored_out kind address capacity = refl

stored-IsString :
    (kind : Nameserver) (address : Bytes) (capacity : ℕ)
    → 0 < capacity
    → has_byte 0 address ≡ false
    → IsString (stored kind address capacity) capacity
stored-IsString kind address capacity h nul =
    let (short, fits) = stored_len kind address capacity h in
    let exact = length-take-of_le (stored kind address capacity).out_len address short in
    record {
      text = take (stored kind address capacity).out_len address;
      terminated = stored_out kind address capacity;
      no_nul = has_byte-take 0 _ address nul;
      len = sym exact;
      fits = omega (arith, exact);
    }

bracketed-IsString :
    (address : Bytes) (capacity : ℕ)
    → has_byte 0 address ≡ false
    → ltb capacity (length address + 3) ≡ false
    → IsString (bracketed address) capacity
unfolding has_byte bracketed
bracketed-IsString address capacity nul fits = record {
  text = b'[' ∷ (address ++ b']' ∷ []);
  terminated = ap (◌∷◌ b'[') (sym (append_assoc address (b']' ∷ []) (0 ∷ [])));
  no_nul = has_byte-append 0 address (b']' ∷ []) nul refl;
  len = omega (arith, length-append address (b']' ∷ []));
  fits = ground (arith, length-append address (b']' ∷ []));
}

convert_cases :
    (address : Bytes) (capacity : ℕ)
    → (convert address capacity ≡ blank_output unusable)
      ⊎ (convert address capacity ≡ stored unusable address capacity)
      ⊎ (convert address capacity ≡ stored inet address capacity)
      ⊎ (convert address capacity ≡ stored inet6 address capacity)
      ⊎ ((ltb capacity (length address + 3) ≡ false)
          × (convert address capacity ≡ bracketed address))
unfolding convert bracketed
convert_cases address capacity = ground arith

convert-IsString :
    (address : Bytes) (capacity : ℕ)
    → 0 < capacity
    → has_byte 0 address ≡ false
    → IsString (convert address capacity) capacity
convert-IsString address capacity h nul = elim (convert_cases address capacity) [
  | inl e ↦ rw e (blank-IsString unusable capacity h)
  | inr (inl e) ↦ rw e (stored-IsString unusable address capacity h nul)
  | inr (inr (inl e)) ↦ rw e (stored-IsString inet address capacity h nul)
  | inr (inr (inr (inl e))) ↦ rw e (stored-IsString inet6 address capacity h nul)
  | inr (inr (inr (inr (fits, e)))) ↦ rw e (bracketed-IsString address capacity nul fits)
]

parse_line-IsString :
    (line : Bytes) (capacity : ℕ) → 0 < capacity → IsString (parse_line line capacity) capacity
unfolding parse_line
parse_line-IsString line capacity h = elim (Option-cases (strip_prefix directive line)) [
  | inl e ↦ rw (e, parse_line) (blank-IsString not_nameserver capacity h)
  | inr (rest, e) ↦
      rw (e, parse_line)
        (if_cases (λ o. IsString o capacity) (keyword_ends rest)
          {x = convert (field (skip_blanks rest)) capacity} {y = blank_output not_nameserver}
          (λ _.
            convert-IsString (field (skip_blanks rest)) capacity h
              (field_no_nul (skip_blanks rest)))
          (λ _. blank-IsString not_nameserver capacity h))
]

-- Whatever the line holds, a buffer of positive capacity ends up with a C string that fits it, NUL
-- included: the string has no NUL inside, and its length is the one reported.
pub nameserver-IsString :
    (line : Option Bytes) (capacity : ℕ)
    → 0 < capacity
    → IsString (nameserver line capacity) capacity
unfolding nameserver
nameserver-IsString none capacity h = ground (arith, blank-IsString not_nameserver capacity h)
nameserver-IsString (some line) capacity h =
    ground (arith, parse_line-IsString (skip_blanks line) capacity h)

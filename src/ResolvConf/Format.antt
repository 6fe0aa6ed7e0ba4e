-- ===== src/ResolvConf/Format.antt =====
-- What the converter makes of a well-formed resolv.conf entry.
use rl_nginx.Base.{
  ℕ, ◌+◌, ◌≤◌, ◌≡◌, ◌≢◌, refl, true, false, some, [], ◌∷◌, ◌++◌, Bytes, length, has_byte, All,
  arith, strip_prefix-append, ◌<◌, ◌==◌, ◌∙◌, ap, strip_prefix,
}
use rl_nginx.ResolvConf.{
  inet, inet6, unusable, is_blank, ends_field, directive, field, skip_blanks, keyword_ends, convert,
  bracketed, stored, store, first_byte, parse_line, nameserver,
}
use rl_nginx.ResolvConf.Buffer.{take-length}

abbrev pub IsBlank : ℕ → Type 0
IsBlank c = is_blank c ≡ true

abbrev pub InField : ℕ → Type 0
InField c = ends_field c ≡ false

-- A line `nameserver <address>`, with blanks before and between and whatever follows the field.
pub record IsEntry (line address : Bytes) : Type 0 where
  pub indent : Bytes
  pub blank : ℕ
  pub gap : Bytes
  pub tail : Bytes
  pub shape : line ≡ indent ++ (directive ++ (blank ∷ (gap ++ (address ++ tail))))
  pub indent_All : All IsBlank indent
  pub blank_lem : IsBlank blank
  pub gap_All : All IsBlank gap
  pub address_All : All InField address
  pub nonempty : address ≢ []
  pub tail_lem : keyword_ends tail ≡ true

skip_blanks-append : (bs s : Bytes) → All IsBlank bs → skip_blanks (bs ++ s) ≡ skip_blanks s
unfolding skip_blanks
skip_blanks-append [] s h = refl
skip_blanks-append (b ∷ bs) s (hb, hs) = ground (arith, skip_blanks-append bs s hs)

skip_blanks-field :
    (address tail : Bytes)
    → All InField address
    → address ≢ []
    → skip_blanks (address ++ tail) ≡ address ++ tail
unfolding skip_blanks
skip_blanks-field [] tail h ne = absurd (ne refl)
skip_blanks-field (c ∷ s) tail (hc, hs) ne = ground arith

field-append :
    (address tail : Bytes)
    → All InField address
    → keyword_ends tail ≡ true
    → field (address ++ tail) ≡ address
unfolding field keyword_ends
field-append [] [] h e = refl
field-append [] (c ∷ tail) h e = ground arith
field-append (c ∷ s) tail (hc, hs) e = ground (arith, field-append s tail hs e)

keyword_ends-blank : (b : ℕ) (s : Bytes) → IsBlank b → keyword_ends (b ∷ s) ≡ true
unfolding keyword_ends
keyword_ends-blank b s h = ground arith

skip_blanks-directive : (s : Bytes) → skip_blanks (directive ++ s) ≡ directive ++ s
unfolding skip_blanks
skip_blanks-directive s = refl

nameserver-parse_line :
    (line : Bytes) (capacity : ℕ)
    → 0 < capacity
    → nameserver (some line) capacity ≡ parse_line (skip_blanks line) capacity
unfolding nameserver
nameserver-parse_line line capacity pos = ground arith

parse_line-convert :
    (line rest : Bytes) (capacity : ℕ)
    → strip_prefix directive line ≡ some rest
    → keyword_ends rest ≡ true
    → parse_line line capacity ≡ convert (field (skip_blanks rest)) capacity
unfolding parse_line
parse_line-convert line rest capacity e ends = rw (e, parse_line) (rw ends)

-- The address field of an entry is the one converted.
nameserver-convert :
    (line address : Bytes) (capacity : ℕ)
    → 0 < capacity
    → IsEntry line address
    → nameserver (some line) capacity ≡ convert address capacity
nameserver-convert line address capacity pos v =
    nameserver-parse_line line capacity pos
    ∙ rw (v.shape, skip_blanks-append v.indent _ v.indent_All, skip_blanks-directive)
        (parse_line-convert _ _ capacity (strip_prefix-append directive _)
            (keyword_ends-blank v.blank _ v.blank_lem)
          ∙ ap (λ (a : Bytes). convert a capacity) found)
  where
    found : field (skip_blanks (v.blank ∷ (v.gap ++ (address ++ v.tail)))) ≡ address
    found =
        rw
          (
            skip_blanks-append (v.blank ∷ v.gap) (address ++ v.tail) (v.blank_lem, v.gap_All),
            skip_blanks-field address v.tail v.address_All v.nonempty,
          )
          (field-append address v.tail v.address_All v.tail_lem)

length-ne_zero : (address : Bytes) → address ≢ [] → (length address == 0) ≡ false
length-ne_zero [] h = absurd (h refl)
length-ne_zero (c ∷ s) h = ground arith

convert_inet :
    (address : Bytes) (capacity : ℕ)
    → address ≢ []
    → has_byte b'%' address ≡ false
    → has_byte b':' address ≡ false
    → first_byte address ≢ b'['
    → length address + 1 ≤ capacity
    → convert address capacity
      ≡ record { kind = inet; out = address ++ 0 ∷ []; out_len = length address }
unfolding convert stored store
convert_inet address capacity ne zone colon plain fits =
    ground (arith, length-ne_zero address ne, take-length address)

-- An entry with an IPv4 literal or a host name (a field with no colon, no zone index and no opening
-- bracket) that fits the capacity is copied verbatim, as a usable argument.
pub nameserver_inet :
    (line address : Bytes) (capacity : ℕ)
    → IsEntry line address
    → has_byte b'%' address ≡ false
    → has_byte b':' address ≡ false
    → first_byte address ≢ b'['
    → length address + 1 ≤ capacity
    → nameserver (some line) capacity
      ≡ record { kind = inet; out = address ++ 0 ∷ []; out_len = length address }
nameserver_inet line address capacity v zone colon plain fits =
    nameserver-convert line address capacity (omega arith) v
    ∙ convert_inet address capacity v.nonempty zone colon plain fits

convert_inet6 :
    (address : Bytes) (capacity : ℕ)
    → address ≢ []
    → has_byte b'%' address ≡ false
    → has_byte b':' address ≡ true
    → first_byte address ≢ b'['
    → length address + 3 ≤ capacity
    → convert address capacity ≡ record {
      kind = inet6;
      out = b'[' ∷ (address ++ b']' ∷ 0 ∷ []);
      out_len = length address + 2;
    }
unfolding convert bracketed
convert_inet6 address capacity ne zone colon plain fits = ground (arith, length-ne_zero address ne)

-- An entry with a bare IPv6 literal (a field with a colon, no zone index and no opening bracket)
-- whose bracketed form fits the capacity comes out in brackets, as a usable argument.
pub nameserver_inet6 :
    (line address : Bytes) (capacity : ℕ)
    → IsEntry line address
    → has_byte b'%' address ≡ false
    → has_byte b':' address ≡ true
    → first_byte address ≢ b'['
    → length address + 3 ≤ capacity
    → nameserver (some line) capacity ≡ record {
      kind = inet6;
      out = b'[' ∷ (address ++ b']' ∷ 0 ∷ []);
      out_len = length address + 2;
    }
nameserver_inet6 line address capacity v zone colon plain fits =
    nameserver-convert line address capacity (omega arith) v
    ∙ convert_inet6 address capacity v.nonempty zone colon plain fits

convert_zone :
    (address : Bytes) (capacity : ℕ)
    → has_byte b'%' address ≡ true
    → (convert address capacity).kind ≡ unusable
unfolding convert stored
convert_zone address capacity zone = ground arith

-- An entry with a zone index is never a usable argument, whatever the capacity.
pub nameserver_zone :
    (line address : Bytes) (capacity : ℕ)
    → 0 < capacity
    → IsEntry line address
    → has_byte b'%' address ≡ true
    → (nameserver (some line) capacity).kind ≡ unusable
nameserver_zone line address capacity pos v zone =
    rw (nameserver-convert line address capacity pos v) (convert_zone address capacity zone)

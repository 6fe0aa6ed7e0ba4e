-- ===== src/ResolvConf.antt =====
-- src/rn_resolv_conf.c: the nameserver of one /etc/resolv.conf line as an nginx resolver argument.
-- The output buffer is the list of the bytes written from its start; a null line is `none`, and a
-- null output, like a capacity of 0, leaves the buffer alone.
pub mod Buffer
pub mod Format
use rl_nginx.Base.{
  ℕ, ◌+◌, ◌-◌, ◌≡◌, refl, Bool, true, false, not, ◌&&◌, ◌||◌, Option, none, some, [], ◌∷◌, ◌++◌,
  Bytes, codes, length, take, ltb, leb, ◌==◌, if◌then◌else◌, strip_prefix, has_byte,
}

pub data Nameserver : Type 0 where
  not_nameserver inet inet6 unusable : Nameserver

pub record Output : Type 0 where
  pub kind : Nameserver
  pub out : Bytes
  pub out_len : ℕ

abbrev pub is_blank : ℕ → Bool
is_blank c = c == b' ' || c == b'\t'

abbrev pub ends_field : ℕ → Bool
ends_field c = is_blank c || c == 0 || c == b'\r' || c == b'\n' || c == b'#' || c == b';'

abbrev pub directive : Bytes
directive = codes "nameserver"

-- The address copied into the output and its NUL, and whether it fitted the capacity.
unfoldable pub store : Bytes → ℕ → Bytes × ℕ × Bool
store address out_capacity =
    let complete = leb (length address + 1) out_capacity in
    let len = if complete then length address else out_capacity - 1 in
    (take len address ++ 0 ∷ [], len, complete)

-- `while (p < end && rn_resolv_is_blank(*p)) p++`.
unfoldable pub skip_blanks : Bytes → Bytes
skip_blanks [] = []
skip_blanks (c ∷ s) = if is_blank c then skip_blanks s else c ∷ s

-- `while (p < end && !rn_resolv_ends_field(*p)) p++`: the bytes passed over.
unfoldable pub field : Bytes → Bytes
field [] = []
field (c ∷ s) = if ends_field c then [] else c ∷ field s

-- The keyword must be a complete field: what follows it begins with a field's end.
unfoldable pub keyword_ends : Bytes → Bool
keyword_ends [] = true
keyword_ends (c ∷ s) = ends_field c

unfoldable pub first_byte : Bytes → ℕ
first_byte [] = 0
first_byte (c ∷ s) = c

unfoldable pub final_byte : Bytes → ℕ
final_byte [] = 0
final_byte (c ∷ []) = c
final_byte (c ∷ d ∷ s) = final_byte (d ∷ s)

-- A line that yields no address leaves an empty string.
abbrev pub blank_output : Nameserver → Output
blank_output kind = record { kind = kind; out = 0 ∷ []; out_len = 0 }

unfoldable pub stored : Nameserver → Bytes → ℕ → Output
unfolding store
stored kind address out_capacity =
    let (out, len, complete) = store address out_capacity in
    record { kind = kind; out = out; out_len = len }

-- A bare IPv6 literal in the brackets that nginx's parser requires.
unfoldable pub bracketed : Bytes → Output
bracketed address = record {
  kind = inet6;
  out = b'[' ∷ (address ++ b']' ∷ 0 ∷ []);
  out_len = length address + 2;
}

-- What becomes of the address field.
unfoldable pub convert : Bytes → ℕ → Output
unfolding first_byte final_byte
convert address out_capacity =
    let len = length address in
    let is_bracketed = first_byte address == b'[' in
    let complete = (store address out_capacity).2 in
    if len == 0
    then blank_output unusable
    else if has_byte b'%' address
    then stored unusable address out_capacity
    else if is_bracketed && (ltb len 3 || not (final_byte address == b']'))
    then stored unusable address out_capacity
    else if is_bracketed || not (has_byte b':' address)
    then stored (if complete then (if is_bracketed then inet6 else inet) else unusable) address
        out_capacity
    else if ltb out_capacity (len + 3)
    then stored unusable address out_capacity
    else bracketed address

-- The line after its leading blanks.
unfoldable pub parse_line : Bytes → ℕ → Output
unfolding convert keyword_ends skip_blanks field
parse_line line out_capacity = elim (strip_prefix directive line) [
  | none ↦ blank_output not_nameserver
  | some rest ↦
      if keyword_ends rest
      then convert (field (skip_blanks rest)) out_capacity
      else blank_output not_nameserver
]

unfoldable pub nameserver : Option Bytes → ℕ → Output
unfolding parse_line
nameserver none out_capacity =
    if out_capacity == 0
    then record { kind = not_nameserver; out = []; out_len = 0 }
    else blank_output not_nameserver
nameserver (some line) out_capacity =
    if out_capacity == 0
    then record { kind = not_nameserver; out = []; out_len = 0 }
    else parse_line (skip_blanks line) out_capacity

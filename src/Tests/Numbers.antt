-- ===== src/Tests/Numbers.antt =====
-- Runs of rn_numeric.c, of rn_resolv_conf.c and of the duration parser on short texts.
use rl_nginx.Base.{
  ◌≤◌, ◌≡◌, ◌≢◌, ◌↔◌, refl, none, some, List, take, [], ◌∷◌, ◌++◌, Bytes, codes, All, has_byte,
  u32_max, arith,
}
use rl_nginx.Numeric.{parse_u32, parse_rate}
use rl_nginx.Numeric.Decimal.{IsDigit, value, parse_u32_iff}
use rl_nginx.Numeric.Rate.{IsRate, parse_rate_iff}
use rl_nginx.ResolvConf.{inet, inet6, nameserver, keyword_ends, first_byte}
use rl_nginx.ResolvConf.Buffer.{IsString, nameserver-IsString}
use rl_nginx.ResolvConf.Format.{IsEntry, nameserver_inet, nameserver_inet6}
use rl_nginx.Base.{ℕ}
use rl_nginx.AddrRecords.{AddrSource, Addr, Copies, compact, compact-Copies}

parse_u32_iff_example :
    (parse_u32 (some (codes "42")) ≡ some 42)
    ↔ ((codes "42" ≢ []) × All IsDigit (codes "42") × (42 ≡ value 0 (codes "42")) × (42 ≤ u32_max))
parse_u32_iff_example = parse_u32_iff (codes "42") 42

parse_rate_iff_example :
    (parse_rate (some (codes "10r/2m")) ≡ some (10, 120000)) ↔ IsRate (codes "10r/2m") 10 120000
parse_rate_iff_example = parse_rate_iff (codes "10r/2m") 10 120000

nameserver-IsString_example : IsString (nameserver (some (codes "nameserver 10.0.0.1")) 4) 4
nameserver-IsString_example =
    nameserver-IsString (some (codes "nameserver 10.0.0.1")) 4 (omega arith)

abbrev inet_line : Bytes
inet_line = codes " nameserver 1.1.1.1 #x"

inet_IsEntry : IsEntry inet_line (codes "1.1.1.1")
unfolding keyword_ends
inet_IsEntry = record {
  indent = codes " ";
  blank = b' ';
  gap = [];
  tail = codes " #x";
  shape = refl;
  indent_All = (refl, tt);
  blank_lem = refl;
  gap_All = tt;
  address_All = (refl, (refl, (refl, (refl, (refl, (refl, (refl, tt)))))));
  nonempty = λ h. cc;
  tail_lem = refl;
}

nameserver_inet_example :
    nameserver (some inet_line) 8
    ≡ record { kind = inet; out = codes "1.1.1.1" ++ 0 ∷ []; out_len = 7 }
unfolding has_byte first_byte
nameserver_inet_example =
    nameserver_inet inet_line (codes "1.1.1.1") 8 inet_IsEntry refl refl (omega arith) (omega arith)

abbrev inet6_line : Bytes
inet6_line = codes "nameserver ::1"

inet6_IsEntry : IsEntry inet6_line (codes "::1")
unfolding keyword_ends
inet6_IsEntry = record {
  indent = [];
  blank = b' ';
  gap = [];
  tail = [];
  shape = refl;
  indent_All = tt;
  blank_lem = refl;
  gap_All = tt;
  address_All = (refl, (refl, (refl, tt)));
  nonempty = λ h. cc;
  tail_lem = refl;
}

nameserver_inet6_example :
    nameserver (some inet6_line) 6
    ≡ record { kind = inet6; out = b'[' ∷ (codes "::1" ++ b']' ∷ 0 ∷ []); out_len = 5 }
unfolding has_byte first_byte
nameserver_inet6_example =
    nameserver_inet6 inet6_line (codes "::1") 6 inet6_IsEntry refl refl (omega arith) (omega arith)

-- A usable address, one with no bytes, and another usable one that does not fit any more.
abbrev sources : List AddrSource
sources =
    record { sockaddr = some (2 ∷ 7 ∷ []); socklen = 2 }
    ∷ record { sockaddr = none; socklen = 2 }
    ∷ record { sockaddr = some (3 ∷ []); socklen = 1 }
    ∷ []

compact-Copies_example :
    (addrs : List Addr) × Copies 4 sources addrs
    × ((room : ℕ) → compact 4 sources room ≡ take room addrs)
compact-Copies_example = compact-Copies 4 sources

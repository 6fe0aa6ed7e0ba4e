-- ===== src/Conf/Startup/Names.antt =====
-- The resolver that `rn_create_system_dns_resolver` makes from the lines of /etc/resolv.conf.
use rl_nginx.Base.{
  Bool, true, false, Option, none, some, List, [], ◌∷◌, Bytes, take, ◌≡◌, ◌++◌, ◌⊎◌, codes,
}
use rl_nginx.ResolvConf.{not_nameserver, unusable, inet, inet6, nameserver}
use rl_nginx.Conf.Startup.{usable_name}

-- A line that gives the resolver no name: no nameserver, one that cannot be used, or an IPv6 address
-- where nginx has no IPv6.
abbrev pub IsUnusable : Bool → Bytes → Type 0
IsUnusable has_inet6 line =
    let o = nameserver (some line) 256 in
    (o.kind ≡ not_nameserver) ⊎ (o.kind ≡ unusable) ⊎ ((o.kind ≡ inet6) × (has_inet6 ≡ false))

-- A line that gives a name: the string that the conversion of the line leaves.
pub record IsNamed (has_inet6 : Bool) (line name : Bytes) : Type 0 where
  pub usable :
      let o = nameserver (some line) 256 in
      (o.kind ≡ inet) ⊎ ((o.kind ≡ inet6) × (has_inet6 ≡ true))
  pub is_text : (nameserver (some line) 256).out ≡ name ++ 0 ∷ []

-- The names of the lines that give one, in order.
pub data Names (has_inet6 : Bool) : List Bytes → List Bytes → Type 0 where
  no_lines : Names has_inet6 [] []
  passed_over :
      {line : Bytes} {lines names : List Bytes}
      → IsUnusable has_inet6 line
      → Names has_inet6 lines names
      → Names has_inet6 (line ∷ lines) names
  named :
      {line name : Bytes} {lines names : List Bytes}
      → IsNamed has_inet6 line name
      → Names has_inet6 lines names
      → Names has_inet6 (line ∷ lines) (name ∷ names)

abbrev Tested : Bool → Bytes → Option Bytes → Type 0
Tested has_inet6 line none = IsUnusable has_inet6 line
Tested has_inet6 line (some name) = IsNamed has_inet6 line name

-- The names of all the lines that have one.
abbrev pub and_name : Option Bytes → List Bytes → List Bytes
and_name none names = names
and_name (some name) names = name ∷ names

unfoldable pub usable_names : Bool → List Bytes → List Bytes
usable_names has_inet6 [] = []
usable_names has_inet6 (line ∷ lines) =
    and_name (usable_name has_inet6 line) (usable_names has_inet6 lines)

-- The first 16 names, or the local resolver when there is none.
abbrev pub at_most_16 : List Bytes → List Bytes
at_most_16 [] = codes "127.0.0.1" ∷ []
at_most_16 (name ∷ names) = take 16 (name ∷ names)

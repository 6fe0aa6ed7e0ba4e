-- ===== src/AddrRecords.antt =====
-- src/rn_addr_records.c: the compaction of resolved addresses into the client's array. The size of
-- `sockaddr_storage` is a parameter; a source has at least as many bytes as its length says.
use rl_nginx.Base.{
  ℕ, zero, suc, ◌-◌, ◌||◌, Option, none, some, List, [], ◌∷◌, ◌++◌, Bytes, ltb, ◌==◌, if◌then◌else◌,
  take, ◌≡◌, refl, ap, ◌+◌, ◌<◌, ◌≤◌, ◌⊎◌, inl, inr, All, length, if_cases, option_cases, arith,
}

pub record AddrSource : Type 0 where
  pub sockaddr : Option Bytes
  pub socklen : ℕ

-- `r_addr_t`: the storage, zero behind the address, and the length.
pub record Addr : Type 0 where
  pub sa : Bytes
  pub len : ℕ

unfoldable pub zeros : ℕ → Bytes
zeros zero = []
zeros (suc n) = 0 ∷ zeros n

module _ (storage_size : ℕ) where
  -- The copy of one address, or nothing for one that is skipped.
  unfoldable pub copy_addr : Bytes → ℕ → Option Addr
  unfolding zeros
  copy_addr bytes socklen =
      if socklen == 0 || ltb storage_size socklen
      then none
      else some
          (record { sa = take socklen bytes ++ zeros (storage_size - socklen); len = socklen })

  unfoldable pub usable_addr : AddrSource → Option Addr
  unfolding copy_addr
  usable_addr source = elim (source.sockaddr) [
    | none ↦ none
    | some bytes ↦ copy_addr bytes source.socklen
  ]

  -- The address of a source, if it has one, before those of the rest.
  unfoldable pub put_addr : Option Addr → (ℕ → List Addr) → ℕ → List Addr
  put_addr addr rest zero = []
  put_addr none rest (suc room) = rest (suc room)
  put_addr (some addr) rest (suc room) = addr ∷ rest room

  -- The loop, which stops when the array is full; the count returned is the length.
  unfoldable pub compact : List AddrSource → ℕ → List Addr
  unfolding usable_addr put_addr
  compact [] room = []
  compact (source ∷ sources) room = put_addr (usable_addr source) (compact sources) room

  -- All the addresses that can be used.
  abbrev pub prepend : Option Addr → List Addr → List Addr
  prepend none addrs = addrs
  prepend (some addr) addrs = addr ∷ addrs

  unfoldable pub usable_addrs : List AddrSource → List Addr
  usable_addrs [] = []
  usable_addrs (source ∷ sources) = prepend (usable_addr source) (usable_addrs sources)

  -- An address that stands for a source: its bytes, with zeros up to the size of the storage.
  pub record IsCopy (source : AddrSource) (addr : Addr) : Type 0 where
    pub bytes : Bytes
    pub padding : Bytes
    pub is_source : source.sockaddr ≡ some bytes
    pub nonempty : 0 < source.socklen
    pub fits : source.socklen ≤ storage_size
    pub sa : addr.sa ≡ take source.socklen bytes ++ padding
    pub is_zero : All (λ b. b ≡ 0) padding
    pub size : source.socklen + length padding ≡ storage_size
    pub len : addr.len ≡ source.socklen

  -- A source without an address, with an empty one, or with one that the storage cannot hold.
  abbrev pub IsUnusable : AddrSource → Type 0
  IsUnusable source =
      (source.sockaddr ≡ none) ⊎ (source.socklen ≡ 0) ⊎ (storage_size < source.socklen)

  -- The copies of the sources that can be used, in order.
  pub data Copies : List AddrSource → List Addr → Type 0 where
    no_sources : Copies [] []
    passed_over :
        {source : AddrSource} {sources : List AddrSource} {addrs : List Addr}
        → IsUnusable source
        → Copies sources addrs
        → Copies (source ∷ sources) addrs
    put :
        {source : AddrSource} {addr : Addr} {sources : List AddrSource} {addrs : List Addr}
        → IsCopy source addr
        → Copies sources addrs
        → Copies (source ∷ sources) (addr ∷ addrs)

  zeros-All : (n : ℕ) → All (λ b. b ≡ 0) (zeros n)
  unfolding zeros
  zeros-All zero = tt
  zeros-All (suc n) = (refl, zeros-All n)

  length-zeros : (n : ℕ) → length (zeros n) ≡ n
  unfolding zeros
  length-zeros zero = refl
  length-zeros (suc n) = ap suc (length-zeros n)

  -- What the test on a source finds.
  abbrev Tested : AddrSource → Option Addr → Type 0
  Tested source none = IsUnusable source
  Tested source (some addr) = IsCopy source addr

  copy_addr-Tested :
      (source : AddrSource) (bytes : Bytes)
      → source.sockaddr ≡ some bytes
      → Tested source (copy_addr bytes source.socklen)
  unfolding copy_addr
  copy_addr-Tested source bytes at =
      if_cases (Tested source) (source.socklen == 0 || ltb storage_size source.socklen)
        (λ h. inr (ground (arith, h)))
        (λ h. record {
          bytes = bytes;
          padding = zeros (storage_size - source.socklen);
          is_source = at;
          nonempty = ground (arith, h);
          fits = ground (arith, h);
          sa = refl;
          is_zero = zeros-All (storage_size - source.socklen);
          size = ground (arith, h, length-zeros (storage_size - source.socklen));
          len = refl;
        })

  usable_addr-Tested : (source : AddrSource) → Tested source (usable_addr source)
  unfolding usable_addr
  usable_addr-Tested source =
      option_cases (Tested source) source.sockaddr (λ e. inl e) (copy_addr-Tested source)

  prepend-Copies :
      {source : AddrSource} {sources : List AddrSource} {addrs : List Addr} (addr : Option Addr)
      → Tested source addr
      → Copies sources addrs
      → Copies (source ∷ sources) (prepend addr addrs)
  prepend-Copies none t c = passed_over t c
  prepend-Copies (some addr) t c = put t c

  usable_addrs-Copies : (sources : List AddrSource) → Copies sources (usable_addrs sources)
  unfolding usable_addrs
  usable_addrs-Copies [] = no_sources
  usable_addrs-Copies (source ∷ sources) =
      prepend-Copies (usable_addr source) (usable_addr-Tested source) (usable_addrs-Copies sources)

  put_addr-take :
      (addr : Option Addr) (rest : ℕ → List Addr) (addrs : List Addr) (room : ℕ)
      → ((r : ℕ) → rest r ≡ take r addrs)
      → put_addr addr rest room ≡ take room (prepend addr addrs)
  unfolding put_addr
  put_addr-take addr rest addrs zero h = refl
  put_addr-take none rest addrs (suc room) h = h (suc room)
  put_addr-take (some addr) rest addrs (suc room) h = ap (λ xs. addr ∷ xs) (h room)

  compact-take :
      (sources : List AddrSource) (room : ℕ)
      → compact sources room ≡ take room (usable_addrs sources)
  unfolding compact usable_addrs
  compact-take [] zero = refl
  compact-take [] (suc room) = refl
  compact-take (source ∷ sources) room =
      put_addr-take (usable_addr source) (compact sources) (usable_addrs sources) room
        (compact-take sources)

  -- For any sources there is a list of their copies, in order: of each source with an address that is
  -- not empty and fits the storage, that address with zeros behind it and its length, and
  -- nothing of the others. An array gets the first of them, as many as it has room for.
  pub compact-Copies :
      (sources : List AddrSource)
      → (addrs : List Addr) × Copies sources addrs
        × ((room : ℕ) → compact sources room ≡ take room addrs)
  compact-Copies sources =
      (usable_addrs sources, usable_addrs-Copies sources, λ room. compact-take sources room)

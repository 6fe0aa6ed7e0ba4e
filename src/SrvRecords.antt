-- ===== src/SrvRecords.antt =====
-- src/rn_srv_records.c: the copies of resolved SRV records that the client gets, and their release. The
-- allocator and the size of the client's record (`r_srv_record_t`) are parameters. A target of a
-- source has as many bytes as its length says, and no target is a null pointer; the arrays
-- are lists, with what `memset` wrote in the places that are not filled.
pub mod Released
use rl_nginx.Base.{
  ℕ, ◌+◌, ◌-◌, ◌*◌, ◌/◌, ◌^◌, Bool, true, false, ◌||◌, Option, none, some, List, [], ◌∷◌, ◌++◌, map,
  Bytes, ltb, ◌==◌, if◌then◌else◌, length,
}
use rl_nginx.Memory.{Allocator, Memory, with_block, free, free_if}

pub record SrvSource : Type 0 where
  pub target : Option Bytes
  pub port : ℕ
  pub priority : ℕ
  pub weight : ℕ
  pub ttl_ms : ℕ

-- A string in memory, with its final zero.
pub record Text : Type 0 where
  pub address : ℕ
  pub bytes : Bytes

pub record SrvRecord : Type 0 where
  pub target : Option Text
  pub port : ℕ
  pub priority : ℕ
  pub weight : ℕ
  pub ttl_ms : ℕ

-- The two arrays by their blocks, what is in them, and the count.
pub record SrvRecords : Type 0 where
  pub records : Option ℕ
  pub entries : List SrvRecord
  pub targets : Option ℕ
  pub texts : List (Option Text)
  pub count : ℕ

abbrev pub size_max : ℕ
size_max = 2 ^ 64 - 1

abbrev pub pointer_size : ℕ
pointer_size = 8

unfoldable pub no_records : SrvRecords
no_records = record { records = none; entries = []; targets = none; texts = []; count = 0 }

unfoldable pub free_texts : List (Option Text) → Memory → Memory
unfolding free
free_texts [] m = m
free_texts (none ∷ rest) m = free_texts rest m
free_texts (some t ∷ rest) m = free_texts rest (free t.address m)

-- The targets and their array, where there is one.
unfoldable pub free_targets : Option ℕ → List (Option Text) → Memory → Memory
unfolding free_texts free
free_targets none texts m = m
free_targets (some p) texts m = free p (free_texts texts m)

-- `rn_srv_records_free`: what is left of the memory; the record is `no_records`.
unfoldable pub records_free : SrvRecords → Memory → SrvRecords × Memory
unfolding no_records free_targets free_if
records_free out m = (no_records, free_if out.records (free_targets out.targets out.texts m))

abbrev pub blank_record : SrvRecord
blank_record = record { target = none; port = 0; priority = 0; weight = 0; ttl_ms = 0 }

-- The record of a source whose target was copied to a block.
unfoldable pub copied : SrvSource → Text → SrvRecord
copied source text = record {
  target = some text;
  port = source.port;
  priority = source.priority;
  weight = source.weight;
  ttl_ms = source.ttl_ms;
}

-- The record while the loop runs: the sources that are done, with their texts, and those that are left.
unfoldable pub partial : ℕ → ℕ → List (SrvSource × Text) → List SrvSource → SrvRecords
unfolding copied
partial records targets done left = record {
  records = some records;
  entries = map (λ (s, t). copied s t) done ++ map (λ s. blank_record) left;
  targets = some targets;
  texts = map (λ (s, t). some t) done ++ map (λ s. none) left;
  count = length done + length left;
}

-- A failure of the build: the record is released.
unfoldable pub build_failed : SrvRecords → Memory → Bool × SrvRecords × Memory
unfolding records_free
build_failed out m = let (out', m') = records_free out m in (false, out', m')

-- The bytes of a target that can be copied.
unfoldable pub usable_target : Option Bytes → Option Bytes
usable_target none = none
usable_target (some bytes) =
    if length bytes == 0 || length bytes == size_max then none else some bytes

abbrev pub text_at : ℕ → Bytes → Text
text_at p bytes = record { address = p; bytes = bytes ++ 0 ∷ [] }

module _ (give : Allocator) (record_size : ℕ) where
  -- The loop over the sources that are left.
  unfoldable pub fill :
      ℕ → ℕ → List (SrvSource × Text) → List SrvSource → Memory → Bool × SrvRecords × Memory
  unfolding partial build_failed usable_target with_block
  fill records targets done [] m = (true, partial records targets done [], m)
  fill records targets done (source ∷ left) m = elim (usable_target source.target) [
    | none ↦ build_failed (partial records targets done (source ∷ left)) m
    | some bytes ↦
        with_block give (length bytes + 1) m
          (build_failed (partial records targets done (source ∷ left)))
          (λ p. fill records targets (done ++ (source, text_at p bytes) ∷ []) left)
  ]

  unfoldable pub with_records : List SrvSource → ℕ → Memory → Bool × SrvRecords × Memory
  unfolding fill build_failed no_records with_block
  with_records sources records m =
      with_block give (length sources * pointer_size) m
        (build_failed
          (record no_records { records = some records; entries = map (λ s. blank_record) sources }))
        (λ targets. fill records targets [] sources)

  abbrev pub too_many : ℕ → Bool
  too_many count = ltb (size_max / record_size) count || ltb (size_max / pointer_size) count

  -- `rn_srv_records_build`: whether it returned 0, the record and the memory.
  unfoldable pub build : Option (List SrvSource) → Memory → Bool × SrvRecords × Memory
  unfolding with_records no_records with_block
  build none m = (false, no_records, m)
  build (some sources) m =
      if length sources == 0 || too_many (length sources)
      then (false, no_records, m)
      else with_block give (length sources * record_size) m (λ m'. (false, no_records, m'))
          (with_records sources)

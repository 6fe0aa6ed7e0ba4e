-- ===== src/SrvRecords/Released.antt =====
-- `rn_srv_records_build` and `rn_srv_records_free` together: what is copied, and what becomes of the
-- memory on every way out.
use rl_nginx.Base.{
  ℕ, suc, option_cases, ◌*◌, ◌+◌, Bool, true, false, ◌||◌, Option, none, some, List, [], ◌∷◌, ◌++◌,
  map, Bytes, ◌==◌, ◌≡◌, ◌⊎◌, inl, inr, refl, sym, ap, ◌∙◌, length, All, All-append, append-nil,
  if_cases, arith,
}
use rl_nginx.Memory.{
  Allocator, Memory, occurrences, Holds, Holds-none, Holds-free, Holds-order, free, free_if,
  with_block-Holds,
}
use rl_nginx.SrvRecords.{
  SrvSource, Text, SrvRecord, SrvRecords, pointer_size, no_records, free_texts, free_targets,
  records_free, copied, partial, build_failed, usable_target, text_at, fill, with_records, too_many,
  build,
}

abbrev addresses : List (Option Text) → List ℕ
addresses [] = []
addresses (none ∷ rest) = addresses rest
addresses (some t ∷ rest) = t.address ∷ addresses rest

abbrev texts_of : List (SrvSource × Text) → List ℕ
texts_of [] = []
texts_of ((s, t) ∷ rest) = t.address ∷ texts_of rest

free_texts-Holds :
    {m₀ : Memory} (texts : List (Option Text)) (blocks : List ℕ) (m : Memory)
    → Holds (addresses texts ++ blocks) m₀ m
    → Holds blocks m₀ (free_texts texts m)
unfolding free_texts
free_texts-Holds [] blocks m h = h
free_texts-Holds (none ∷ rest) blocks m h = free_texts-Holds rest blocks m h
free_texts-Holds (some t ∷ rest) blocks m h =
    free_texts-Holds rest blocks (free t.address m) (Holds-free t.address h)

blank_addresses : (left : List SrvSource) → addresses (map (λ s. none) left) ≡ []
blank_addresses [] = refl
blank_addresses (s ∷ left) = blank_addresses left

partial_addresses :
    (done : List (SrvSource × Text)) (left : List SrvSource)
    → addresses (map (λ (s, t). some t) done ++ map (λ s. none) left) ≡ texts_of done
partial_addresses [] left = blank_addresses left
partial_addresses ((s, t) ∷ done) left = ap (λ xs. t.address ∷ xs) (partial_addresses done left)

-- The release of a record gives back its texts and its two arrays.
released-Holds :
    {m₀ : Memory} (records targets : ℕ) (done : List (SrvSource × Text)) (left : List SrvSource)
    (m : Memory)
    → Holds (texts_of done ++ targets ∷ records ∷ []) m₀ m
    → Holds [] m₀ (records_free (partial records targets done left) m).1
unfolding records_free partial free_targets free_if
released-Holds records targets done left m h = Holds-free records (
    Holds-free targets (
      free_texts-Holds (map (λ (s, t). some t) done ++ map (λ s. none) left)
        (targets ∷ records ∷ []) m (rw (partial_addresses done left) h)))

added_texts :
    (p : ℕ) (done : List (SrvSource × Text)) (s : SrvSource) (t : Text) (blocks : List ℕ)
    → occurrences p (t.address ∷ texts_of done ++ blocks)
      ≡ occurrences p (texts_of (done ++ (s, t) ∷ []) ++ blocks)
unfolding occurrences
added_texts p [] s t blocks = refl
added_texts p ((s', t') ∷ done) s t blocks = ground (arith, added_texts p done s t blocks)

-- A source with the text that was made of its target.
pub record CopiedTarget (pair : SrvSource × Text) : Type 0 where
  pub bytes : Bytes
  pub is_target : pair.0.target ≡ some bytes
  pub is_text : pair.1.bytes ≡ bytes ++ 0 ∷ []

-- The record that a source with its text is to have.
abbrev pub record_of : SrvSource × Text → SrvRecord
record_of (s, t) = record {
  target = some t;
  port = s.port;
  priority = s.priority;
  weight = s.weight;
  ttl_ms = s.ttl_ms;
}

-- The records of a list of sources, in order, each with a text of its own.
pub record CopiedRecords (sources : List SrvSource) (out : SrvRecords) : Type 0 where
  pub pairs : List (SrvSource × Text)
  pub of_sources : map (λ (s, t). s) pairs ≡ sources
  pub targets : All CopiedTarget pairs
  pub entries : out.entries ≡ map record_of pairs
  pub count : out.count ≡ length sources

-- Nothing was made, or what was made is a copy of the sources and is what a release gives back.
unfoldable pub Built : List SrvSource → Memory → Bool × SrvRecords × Memory → Type 0
Built sources m (rc, out, m') =
    ((rc ≡ false) × (out ≡ no_records) × (Holds [] m m'))
    ⊎ ((rc ≡ true) × (CopiedRecords sources out) × (Holds [] m (records_free out m').1))

length_pairs : (pairs : List (SrvSource × Text)) → length (map (λ (s, t). s) pairs) ≡ length pairs
length_pairs [] = refl
length_pairs (p ∷ pairs) = ap suc (length_pairs pairs)

sources_with :
    (done : List (SrvSource × Text)) (s : SrvSource) (t : Text) (left : List SrvSource)
    → map (λ (s, t). s) (done ++ (s, t) ∷ []) ++ left ≡ map (λ (s, t). s) done ++ s ∷ left
sources_with [] s t left = refl
sources_with ((s', t') ∷ done) s t left = ap (λ xs. s' ∷ xs) (sources_with done s t left)

usable_target-some :
    (target : Option Bytes) (bytes : Bytes)
    → usable_target target ≡ some bytes
    → target ≡ some bytes
unfolding usable_target
usable_target-some none bytes e = cc
usable_target-some (some b) bytes e = ground (arith, e)

build_failed-Built :
    {m₀ : Memory} (sources : List SrvSource) (records targets : ℕ) (done : List (SrvSource × Text))
    (left : List SrvSource) (m : Memory)
    → Holds (texts_of done ++ targets ∷ records ∷ []) m₀ m
    → Built sources m₀ (build_failed (partial records targets done left) m)
unfolding Built build_failed records_free
build_failed-Built sources records targets done left m h =
    inl (refl, refl, released-Holds records targets done left m h)

copied_records :
    (pairs : List (SrvSource × Text)) → map (λ (s, t). copied s t) pairs ≡ map record_of pairs
unfolding copied
copied_records [] = refl
copied_records ((s, t) ∷ pairs) = ap (λ rs. record_of (s, t) ∷ rs) (copied_records pairs)

partial-CopiedRecords :
    (records targets : ℕ) (done : List (SrvSource × Text))
    → All CopiedTarget done
    → CopiedRecords (map (λ (s, t). s) done) (partial records targets done [])
unfolding partial
partial-CopiedRecords records targets done h = record {
  pairs = done;
  of_sources = refl;
  targets = h;
  entries = append-nil (map (λ (s, t). copied s t) done) ∙ copied_records done;
  count = omega (arith, length_pairs done);
}

module _ (give : Allocator) (record_size : ℕ) where
  fill-Built :
      {m₀ : Memory} (sources : List SrvSource) (records targets : ℕ)
      (done : List (SrvSource × Text)) (left : List SrvSource) (m : Memory)
      → map (λ (s, t). s) done ++ left ≡ sources
      → All CopiedTarget done
      → Holds (texts_of done ++ targets ∷ records ∷ []) m₀ m
      → Built sources m₀ (fill give record_size records targets done left m)
  unfolding fill Built
  fill-Built sources records targets done [] m e c h = inr (
    refl,
    rw (sym e ∙ append-nil (map (λ (s, t). s) done)) (partial-CopiedRecords records targets done c),
    released-Holds records targets done [] m h,
  )
  fill-Built {m₀ = m₀} sources records targets done (source ∷ left) m e c h =
      option_cases (Built sources m₀) (usable_target source.target)
        (λ _. build_failed-Built sources records targets done (source ∷ left) m h)
        (λ bytes u.
          with_block-Holds (Built sources m₀) give (length bytes + 1) _ _ h
            (λ m' h'. build_failed-Built sources records targets done (source ∷ left) m' h')
            (λ p m' h'.
              fill-Built sources records targets (done ++ (source, text_at p bytes) ∷ []) left m'
                (sources_with done source (text_at p bytes) left ∙ e)
                (All-append CopiedTarget done ((source, text_at p bytes) ∷ []) c (
                  record {
                    bytes = bytes;
                    is_target = usable_target-some source.target bytes u;
                    is_text = refl;
                  },
                  tt,
                ))
                (Holds-order
                  (λ q. added_texts q done source (text_at p bytes) (targets ∷ records ∷ [])) h')))

  with_records-Built :
      {m₀ : Memory} (sources : List SrvSource) (records : ℕ) (m : Memory)
      → Holds (records ∷ []) m₀ m
      → Built sources m₀ (with_records give record_size sources records m)
  unfolding with_records Built build_failed records_free no_records free_targets free_if
  with_records-Built {m₀ = m₀} sources records m h =
      with_block-Holds (Built sources m₀) give (length sources * pointer_size) _ _ h
        (λ m' h'. inl (refl, refl, Holds-free records h'))
        (λ targets m' h'. fill-Built sources records targets [] sources m' refl tt h')

  -- The build of the records of any sources, with any allocator: when it fails, nothing is left in the
  -- record and every block that was obtained on the way has been given back, as often as it was
  -- obtained; when it succeeds, there is a record for each source, in order, with the source's numbers
  -- and a copy of its target that ends in a zero, and the release gives back every block.
  pub build-Built :
      (sources : Option (List SrvSource)) (m : Memory)
      → Built (elim sources [ none ↦ [] | some ss ↦ ss ]) m (build give record_size sources m)
  unfolding build Built
  build-Built none m = inl (refl, refl, Holds-none m)
  build-Built (some sources) m =
      if_cases (Built sources m) (length sources == 0 || too_many give record_size (length sources))
        (λ _. inl (refl, refl, Holds-none m))
        (λ _.
          with_block-Holds (Built sources m) give (length sources * record_size) _ _ (Holds-none m)
            (λ m' h'. inl (refl, refl, h'))
            (λ records m' h'. with_records-Built sources records m' h'))

-- ===== src/Micmem/Range/Length.antt =====
-- How many pages `init_coalesce_range_pages` maps.
use intel_xeon_phi_kernel_dr.Common.{
  ℕ, zero, suc, ◌+◌, ◌-◌, ◌*◌, ◌/◌, ◌^◌, ◌≤◌, ◌<◌, ◌≡◌, refl, ap, ◌∙◌, subst, ◌⊎◌, inl, inr, true,
  false, some, List, [], ◌∷◌, ◌++◌, ◌==◌, ==_iff, le→ltb_false, arith, Bool-cases, leb,
}
use intel_xeon_phi_kernel_dr.Micmem.{Chunk, is_neg}
use intel_xeon_phi_kernel_dr.Micmem.Range.{
  PinnedPages, Mapping, MapSingle, Mapped, chunk_at, first_addr, pages_to_map, range_add_chunk,
  coalesce, init_coalesce_range_pages,
}
use intel_xeon_phi_kernel_dr.Micmem.Range.Turns.{
  skip, stop, more, coalesce-Turn, chunk_at-num_pages,
}
use intel_xeon_phi_kernel_dr.Micmem.Range.Unmap.{
  SmallChunks, no_room, added_one, range_add_chunk-Adding,
}

-- The pages of all chunks of a range.
pub total : List Chunk → ℕ
total [] = 0
total (c ∷ cs) = c.num_pages + total cs

-- The pinned pages are made of `rounds` chunks that are not empty, from page `i` on.
abbrev pub Tiles : PinnedPages → ℕ → ℕ → Type 0
Tiles p zero i = i ≡ p.nr_pages
Tiles p (suc rounds) i =
    (page : ℕ) × (n : ℕ) × (chunk_at p i ≡ some (page, n)) × (0 < n) × Tiles p rounds (i + n)

-- The first pages of the chunks.
pub data Starts (p : PinnedPages) : ℕ → Type 0 where
  start : Starts p 0
  behind :
      {i j : ℕ} (page n : ℕ) → Starts p i → chunk_at p i ≡ some (page, n) → j ≡ i + n → Starts p j

-- The chunk that holds the page `first`.
pub record Holds (p : PinnedPages) (first s : ℕ) : Type 0 where
  pub page : ℕ
  pub pages : ℕ
  pub starts : Starts p s
  pub read : chunk_at p s ≡ some (page, pages)
  pub from : s ≤ first
  pub to : first < s + pages

total-snoc : (cs : List Chunk) (c : Chunk) → total (cs ++ c ∷ []) ≡ total cs + c.num_pages
unfolding total
total-snoc [] c = omega arith
total-snoc (d ∷ cs) c = omega (arith, total-snoc cs c)

total-added :
    (map_single : MapSingle) (chunks : List Chunk) (addr pages : ℕ) (mapped : List Mapping)
    → pages * 4096 < 2 ^ 31
    → is_neg (range_add_chunk map_single chunks addr pages mapped).err ≡ false
    → total (range_add_chunk map_single chunks addr pages mapped).chunks ≡ total chunks + pages
total-added map_single chunks addr pages mapped small clear =
    elim (range_add_chunk-Adding map_single chunks addr pages mapped small) [
      | no_room e ↦ absurd (ground (arith, ap (λ t. is_neg t.err) e))
      | added_one c there size e ↦
          ap (λ t. total t.chunks) e ∙ total-snoc chunks c ∙ ap (λ t. total chunks + t) size
    ]

module _ (map_single : MapSingle) (p : PinnedPages) (first last : ℕ) (small : SmallChunks p)
    (some_pages : first < last) (inside : last ≤ p.nr_pages) where
  few : (i page n : ℕ) → chunk_at p i ≡ some (page, n) → pages_to_map last i n * 4096 < 2 ^ 31
  few i page n at = ground (arith, small i n (chunk_at-num_pages p i page n at))

  abbrev one : ℕ → List Chunk → List Mapping → ℕ → ℕ → Mapped
  one i chunks mapped page n =
      range_add_chunk map_single chunks (first_addr first i page) (pages_to_map last i n) mapped

  one_total :
      (i : ℕ) (chunks : List Chunk) (mapped : List Mapping) (page n : ℕ)
      → chunk_at p i ≡ some (page, n)
      → is_neg (one i chunks mapped page n).err ≡ false
      → total (one i chunks mapped page n).chunks ≡ total chunks + pages_to_map last i n
  one_total i chunks mapped page n at clear =
      total-added map_single chunks (first_addr first i page) (pages_to_map last i n) mapped
        (few i page n at) clear

  -- The turn that ends the loop without an error has reached the last page.
  stop_total :
      (i : ℕ) (chunks : List Chunk) (mapped : List Mapping) (m : Mapped) (page n : ℕ)
      → chunk_at p i ≡ some (page, n)
      → one i chunks mapped page n ≡ m
      → is_neg m.err ≡ false
      → (is_neg m.err ≡ true) ⊎ ((last == i + pages_to_map last i n) ≡ true)
      → total m.chunks + i ≡ total chunks + last
  stop_total i chunks mapped m page n at e clear (inl failing) = absurd cc
  stop_total i chunks mapped m page n at e clear (inr reached) = omega (
    arith,
    ap (λ t. total t.chunks) e,
    one_total i chunks mapped page n at (ap (λ t. is_neg t.err) e ∙ clear),
    (==_iff last (i + pages_to_map last i n)).0 reached,
  )

  -- A turn that goes on has mapped a whole chunk, and pages are left.
  whole_chunk :
      (i n : ℕ)
      → i < last
      → (last == i + pages_to_map last i n) ≡ false
      → (pages_to_map last i n ≡ n) × (i + n < last)
  whole_chunk i n left not_last = ground arith

  -- From the first chunk that is mapped on, every page up to the last one is counted.
  counted :
      (rounds i : ℕ) (chunks : List Chunk) (mapped : List Mapping) (m : Mapped)
      → coalesce map_single p first last rounds i chunks mapped ≡ some m
      → is_neg m.err ≡ false
      → Tiles p rounds i
      → first ≤ i
      → i < last
      → total m.chunks + i ≡ total chunks + last
  unfolding coalesce
  counted zero i chunks mapped m h clear tiles begun left = absurd (omega arith)
  counted (suc rounds) i chunks mapped m h clear (page', n', at', some_page, tiles) begun left =
      elim (coalesce-Turn map_single p first last rounds i chunks mapped m h) [
        | skip page n at past rest ↦ absurd (ground (arith, at, at'))
        | stop page n at up_to e reason ↦ stop_total i chunks mapped m page n at e clear reason
        | more page n at up_to ok_err not_last rest ↦
            let (whole, pages_left) = whole_chunk i n left not_last in
            let same : n ≡ n' = ground (arith, at, at') in
            let next : Tiles p rounds (i + pages_to_map last i n) =
              subst (Tiles p rounds) (omega (arith, same, whole)) tiles in
            omega (
              arith,
              counted rounds (i + pages_to_map last i n) (one i chunks mapped page n).chunks
                  (one i chunks mapped page n).mapped m rest clear next
                  (omega (arith, whole, up_to)) (omega (arith, whole, pages_left)),
              one_total i chunks mapped page n at ok_err,
            )
      ]

  -- Up to the chunk that holds the first page, chunks are skipped.
  skipped :
      (rounds i : ℕ) (chunks : List Chunk) (mapped : List Mapping) (m : Mapped)
      → coalesce map_single p first last rounds i chunks mapped ≡ some m
      → is_neg m.err ≡ false
      → Tiles p rounds i
      → Starts p i
      → i ≤ first
      → (s : ℕ) × Holds p first s × (total m.chunks + s ≡ total chunks + last)
  unfolding coalesce
  skipped zero i chunks mapped m h clear tiles here begun = absurd (omega arith)
  skipped (suc rounds) i chunks mapped m h clear (page', n', at', some_page, tiles) here begun =
      elim (coalesce-Turn map_single p first last rounds i chunks mapped m h) [
        | skip page n at past rest ↦
            let same : n' ≡ n = ground (arith, at, at') in
            skipped rounds (i + n) chunks mapped m rest clear
              (subst (λ t. Tiles p rounds (i + t)) same tiles) (behind page n here at refl) past
        | stop page n at up_to e reason ↦
            (i, holds page n at up_to, stop_total i chunks mapped m page n at e clear reason)
        | more page n at up_to ok_err not_last rest ↦
            let (whole, pages_left) = whole_chunk i n (omega arith) not_last in
            let same : n ≡ n' = ground (arith, at, at') in
            let next : Tiles p rounds (i + pages_to_map last i n) =
              subst (Tiles p rounds) (omega (arith, same, whole)) tiles in
            (
              i,
              holds page n at up_to,
              omega (
                arith,
                counted rounds (i + pages_to_map last i n) (one i chunks mapped page n).chunks
                    (one i chunks mapped page n).mapped m rest clear next
                    (omega (arith, whole, up_to)) (omega (arith, whole, pages_left)),
                one_total i chunks mapped page n at ok_err,
              ),
            )
      ]
    where
      holds : (page n : ℕ) → chunk_at p i ≡ some (page, n) → first < i + n → Holds p first i
      holds page n at up_to = record {
        page = page;
        pages = n;
        starts = here;
        read = at;
        from = begun;
        to = up_to;
      }

-- For pinned pages that are made of chunks below 2 GiB, and a request for some pages among them:
-- when `init_coalesce_range_pages` succeeds, the chunks that it has mapped have as many pages as
-- lie between the start of the chunk that holds the first page asked for and the last page asked
-- for. The pages of that chunk before the first one are counted, though the mapping starts at the
-- first one: so the range is right only if the first page starts a chunk.
pub init_coalesce_range_pages_lem :
    (map_single : MapSingle) (p : PinnedPages) (offset len : ℕ) (mapped : List Mapping) (m : Mapped)
    → SmallChunks p
    → Tiles p p.nr_contig_chunks 0
    → 4096 ≤ len
    → offset / 4096 + len / 4096 ≤ p.nr_pages
    → init_coalesce_range_pages map_single p offset len mapped ≡ some m
    → is_neg m.err ≡ false
    → (s : ℕ) × Holds p (offset / 4096) s × (total m.chunks ≡ len / 4096 + (offset / 4096 - s))
unfolding init_coalesce_range_pages total
init_coalesce_range_pages_lem map_single p offset len mapped m small tiles some_page inside h
      clear =
    let (s, holds, pages) =
      skipped map_single p (offset / 4096) (offset / 4096 + len / 4096) small (omega arith) inside
        p.nr_contig_chunks 0 [] mapped m (within h) clear tiles start (omega arith) in
    (s, holds, omega (arith, pages, holds.from))
  where
    within :
        init_coalesce_range_pages map_single p offset len mapped ≡ some m
        → coalesce map_single p
            (offset / 4096)
            (offset / 4096 + len / 4096)
            p.nr_contig_chunks
            0
            []
            mapped
          ≡ some m
    within q = elim (Bool-cases (leb (2 ^ 31) (offset / 4096 + len / 4096))) [
      | inl large ↦ absurd (ground (arith, large))
      | inr small_pages ↦ ground (arith, small_pages, le→ltb_false _ _ inside)
    ]

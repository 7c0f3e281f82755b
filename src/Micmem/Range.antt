-- ===== src/Micmem/Range.antt =====
-- host/micmem.c: mapping pinned pages for the device, chunk by chunk. `mic_map_single` is a
-- parameter (its model is Smpt.Leases.Single): what it answers for an address and a size when the
-- mappings `mapped` are there. Page numbers are kept in an `int`: a request whose page numbers it does
-- not hold is outside the model, and `none`, like a page outside the arrays.
pub mod Turns
pub mod Unmap
pub mod Length
mod Examples
use intel_xeon_phi_kernel_dr.Common.{
  ℕ, zero, suc, ◌+◌, ◌-◌, ◌*◌, ◌/◌, ◌%◌, ◌^◌, ◌≤◌, ◌<◌, ◌≡◌, Bool, true, false, Option, none, some,
  List, [], ◌∷◌, ◌++◌, ◌&&◌, get_elem?, ltb, leb, ◌==◌, if◌then◌else◌,
}
use intel_xeon_phi_kernel_dr.Common.Int.{ℤ, pos, negsuc}
use intel_xeon_phi_kernel_dr.Micmem.{Chunk, DmaMemRange, add64, einval, is_neg, shift_pages}

abbrev pub enomem : ℤ
enomem = negsuc 11

-- `struct scif_pinned_pages`: the physical address of each page, the pages of each contiguous chunk
-- at the index of its first page, and the numbers of pages and of chunks.
pub record PinnedPages : Type 0 where
  pub pages : List ℕ
  pub num_pages : List ℕ
  pub nr_pages : ℕ
  pub nr_contig_chunks : ℕ

-- A mapping for the device: its address and its size.
abbrev pub Mapping : Type 0
Mapping = ℕ × ℕ

abbrev pub MapSingle : Type 0
MapSingle = List Mapping → ℕ → ℕ → ℕ

-- The error, the chunks of the range, and the mappings that are there.
pub record Mapped : Type 0 where
  pub err : ℤ
  pub chunks : List Chunk
  pub mapped : List Mapping

abbrev pub mapped_size : ℕ → ℕ
mapped_size pages = pages * 4096 % 2 ^ 64

pub do_map_virt_into_aperture : MapSingle → ℕ → ℕ → List Mapping → ℤ × ℕ × List Mapping
do_map_virt_into_aperture map_single addr size mapped =
    let out_offset = map_single mapped addr size in
    if out_offset == 0
    then (enomem, 0, mapped)
    else (pos 0, out_offset, (out_offset, size) ∷ mapped)

-- `mic_ctx_unmap_single` of an address that is mapped with that size.
pub do_unmap_from_aperture : ℕ → ℕ → List Mapping → List Mapping
do_unmap_from_aperture addr size [] = []
do_unmap_from_aperture addr size ((a, s) ∷ ms) =
    if a == addr && s == size then ms else (a, s) ∷ do_unmap_from_aperture addr size ms

pub range_add_chunk : MapSingle → List Chunk → ℕ → ℕ → List Mapping → Mapped
range_add_chunk map_single chunks addr pages mapped =
    let (err, dma_addr, mapped') =
      do_map_virt_into_aperture map_single addr (mapped_size pages) mapped in
    let added : List Chunk = record { dma_addr = dma_addr; num_pages = pages } ∷ [] in
    if is_neg err
    then record { err = err; chunks = chunks; mapped = mapped' }
    else record { err = pos 0; chunks = chunks ++ added; mapped = mapped' }

-- Behind one chunk: stop with its error or at the last page, or go on.
pub then_next : Mapped → Bool → Option Mapped → Option Mapped
then_next m last rest = if is_neg m.err then some m else if last then some m else rest

-- The physical address and the number of pages of the chunk that starts at page `i`.
pub chunk_at : PinnedPages → ℕ → Option (ℕ × ℕ)
chunk_at p i = elim (get_elem? p.pages i) [
  | none ↦ none
  | some page ↦ elim (get_elem? p.num_pages i) [ none ↦ none | some n ↦ some (page, n) ]
]

pub with_chunk : Option (ℕ × ℕ) → (ℕ → ℕ → Option Mapped) → Option Mapped
with_chunk none f = none
with_chunk (some (page, n)) f = f page n

-- The address and the number of pages to map of the chunk at page `i`.
abbrev pub first_addr : ℕ → ℕ → ℕ → ℕ
first_addr first_page i page =
    if ltb i first_page then add64 page (shift_pages (first_page - i)) else page

abbrev pub pages_to_map : ℕ → ℕ → ℕ → ℕ
pages_to_map last_page i n = if ltb last_page (i + n) then last_page - i else n

-- The loop, with the chunks that are left and the page `i` where the next one starts.
pub coalesce : MapSingle → PinnedPages → ℕ → ℕ → ℕ → ℕ → List Chunk → List Mapping → Option Mapped
coalesce map_single p first_page last_page zero i chunks mapped =
    some (record { err = pos 0; chunks = chunks; mapped = mapped })
coalesce map_single p first_page last_page (suc rounds) i chunks mapped =
    with_chunk (chunk_at p i) (λ page n.
      let nr_pages = pages_to_map last_page i n in
      let m = range_add_chunk map_single chunks (first_addr first_page i page) nr_pages mapped in
      let skip = coalesce map_single p first_page last_page rounds (i + n) chunks mapped in
      let rest =
        coalesce map_single p first_page last_page rounds (i + nr_pages) m.chunks m.mapped in
      if leb (i + n) first_page then skip else then_next m (last_page == i + nr_pages) rest)

pub init_coalesce_range_pages : MapSingle → PinnedPages → ℕ → ℕ → List Mapping → Option Mapped
init_coalesce_range_pages map_single p offset len mapped =
    let first_page = offset / 4096 in
    let last_page = first_page + len / 4096 in
    if leb (2 ^ 31) last_page
    then none
    else if ltb p.nr_pages last_page
    then some (record { err = einval; chunks = []; mapped = mapped })
    else coalesce map_single p first_page last_page p.nr_contig_chunks 0 [] mapped

-- The unmapping of the chunks of a range; one with no address was never mapped.
pub do_unmap_range_pages : List Chunk → List Mapping → List Mapping
do_unmap_range_pages [] mapped = mapped
do_unmap_range_pages (c ∷ cs) mapped = do_unmap_range_pages cs (
    if c.dma_addr == 0
    then mapped
    else do_unmap_from_aperture c.dma_addr (shift_pages c.num_pages) mapped)

-- What a call gives the caller: a range, or an error.
pub data MapAnswer : Type 0 where
  mapped_range : DmaMemRange → MapAnswer
  failed : ℤ → MapAnswer

pub map_answer : ℕ → Mapped → MapAnswer × List Mapping
map_answer len m =
    if is_neg m.err
    then (failed m.err, do_unmap_range_pages m.chunks m.mapped)
    else (mapped_range (record { chunks = m.chunks; size = len }), m.mapped)

-- `memory` says whether the three allocations succeed.
pub do_map_range_pages :
    MapSingle → Bool → PinnedPages → ℕ → ℕ → List Mapping → Option (MapAnswer × List Mapping)
do_map_range_pages map_single memory p offset len mapped =
    if memory
    then elim (init_coalesce_range_pages map_single p offset len mapped) [
      | none ↦ none
      | some m ↦ some (map_answer len m)
    ]
    else some (failed enomem, mapped)

pub micmem_map_range :
    MapSingle → Bool → PinnedPages → ℕ → ℕ → List Mapping → Option (MapAnswer × List Mapping)
micmem_map_range map_single memory p offset len mapped =
    if ltb (p.nr_pages * 4096) (add64 offset len)
    then some (failed einval, mapped)
    else do_map_range_pages map_single memory p offset len mapped

pub micmem_unmap_range : DmaMemRange → List Mapping → List Mapping
micmem_unmap_range range mapped = do_unmap_range_pages range.chunks mapped

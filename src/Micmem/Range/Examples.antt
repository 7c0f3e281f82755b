-- ===== src/Micmem/Range/Examples.antt =====
-- Tests of the mapping of pinned pages, and the theorems about it at concrete requests.
use intel_xeon_phi_kernel_dr.Common.{ℕ, ◌+◌, ◌-◌, ◌≡◌, refl, true, some, [], ◌∷◌, arith}
use intel_xeon_phi_kernel_dr.Common.Int.{pos}
use intel_xeon_phi_kernel_dr.Micmem.{shift_pages}
use intel_xeon_phi_kernel_dr.Micmem.Range.{
  PinnedPages, MapSingle, Mapped, failed, enomem, init_coalesce_range_pages, micmem_map_range,
  do_map_range_pages, map_answer, coalesce, chunk_at, with_chunk, range_add_chunk,
  do_map_virt_into_aperture, then_next, do_unmap_range_pages, do_unmap_from_aperture,
}
use intel_xeon_phi_kernel_dr.Micmem.Range.Unmap.{
  SmallChunks, unmap_answer, micmem_unmap_range-micmem_map_range,
}
use intel_xeon_phi_kernel_dr.Micmem.Range.Length.{
  Tiles, Holds, total, init_coalesce_range_pages_lem,
}

-- Three pinned chunks, of two, one and three pages.
abbrev pinned : PinnedPages
pinned = record {
  pages = 0x10000 ∷ 0x11000 ∷ 0x80000 ∷ 0x200000 ∷ 0x201000 ∷ 0x202000 ∷ [];
  num_pages = 2 ∷ 0 ∷ 1 ∷ 3 ∷ 0 ∷ 0 ∷ [];
  nr_pages = 6;
  nr_contig_chunks = 3;
}

abbrev identity : MapSingle
identity mapped addr size = addr

-- Room for two mappings only.
abbrev two_mappings : MapSingle
two_mappings mapped addr size = elim mapped [ _ ∷ _ ∷ _ ↦ 0 | _ ↦ addr ]

abbrev mapped_four : Mapped
mapped_four = record {
  err = pos 0;
  chunks =
      record { dma_addr = 0x11000; num_pages = 2 }
      ∷ record { dma_addr = 0x80000; num_pages = 1 }
      ∷ record { dma_addr = 0x200000; num_pages = 1 }
      ∷ [];
  mapped = (0x200000, 4096) ∷ (0x80000, 4096) ∷ (0x11000, 8192) ∷ [];
}

-- Three pages from the second one on are asked for, and four are mapped.
coalesce_test : init_coalesce_range_pages identity pinned 4096 12288 [] ≡ some mapped_four
unfolding init_coalesce_range_pages coalesce chunk_at with_chunk shift_pages range_add_chunk
    do_map_virt_into_aperture then_next
coalesce_test = refl

no_room_test : micmem_map_range two_mappings true pinned 0 24576 [] ≡ some (failed enomem, [])
unfolding micmem_map_range do_map_range_pages map_answer init_coalesce_range_pages coalesce chunk_at
    with_chunk shift_pages range_add_chunk do_map_virt_into_aperture then_next do_unmap_range_pages
    do_unmap_from_aperture
no_room_test = refl

pinned-SmallChunks : SmallChunks pinned
pinned-SmallChunks i n h = ground arith

micmem_unmap_range-micmem_map_range_example : unmap_answer (failed enomem) [] ≡ []
micmem_unmap_range-micmem_map_range_example =
    micmem_unmap_range-micmem_map_range two_mappings true pinned 0 24576 [] [] (failed enomem)
      pinned-SmallChunks no_room_test

pinned-Tiles : Tiles pinned 3 0
unfolding chunk_at
pinned-Tiles = (
  0x10000,
  2,
  refl,
  omega arith,
  (0x80000, 1, refl, omega arith, (0x200000, 3, refl, omega arith, refl)),
)

init_coalesce_range_pages_lem_example :
    (s : ℕ) × Holds pinned 1 s × (total mapped_four.chunks ≡ 3 + (1 - s))
init_coalesce_range_pages_lem_example =
    init_coalesce_range_pages_lem identity pinned 4096 12288 [] mapped_four pinned-SmallChunks
      pinned-Tiles (omega arith) (omega arith) coalesce_test refl

-- ===== src/Smpt/Examples.antt =====
-- A table at concrete calls.
use intel_xeon_phi_kernel_dr.Common.{
  ℕ, List, ◌+◌, ◌-◌, ◌*◌, ◌/◌, ◌%◌, ◌^◌, ◌≡◌, refl, some, [], ◌∷◌, length, arith,
}
use intel_xeon_phi_kernel_dr.Common.Int.{pos}
use intel_xeon_phi_kernel_dr.Smpt.{
  Align, Board, family_knc, page_size, system_base, num_smpt_entries, get_smpt_ref_count,
  ref_counts, smpt_op, smpt_search, find_existing, find_free, mic_map, mic_unmap, mic_to_dma_addr,
  mic_smpt_init, init_entries, write_register, mic_smpt_set, add_smpt_entry,
}
use intel_xeon_phi_kernel_dr.Smpt.Entries.{entry}
use intel_xeon_phi_kernel_dr.Smpt.Leases.{Lease, Translates, All}
use intel_xeon_phi_kernel_dr.Smpt.Leases.Bytes.{bytes_mapped}
use intel_xeon_phi_kernel_dr.Smpt.Leases.Runs.{Runs, start, mapped, Runs-Translates, Runs-counts}
use intel_xeon_phi_kernel_dr.Smpt.Leases.Single.{
  PciMapping, mic_map_single, mic_unmap_single, mic_unmap_single-mic_map_single,
}
use intel_xeon_phi_kernel_dr.Smpt.Leases.Calls.{
  mic_to_dma_addr-mic_map, mic_unmap-mic_map, mic_map_in_bounds,
}

abbrev rounding : Align
rounding = record { align = λ x a. (x + a - 1) % 2 ^ 64 / a * a; align_lem = λ k x. refl }

abbrev blank : Board
blank = record { bi_family = family_knc; mic_smpt = []; events = [] }

fresh : Board
fresh = mic_smpt_init blank

-- Two pages from the last bytes of page 1 on.
abbrev range : ℕ
range = 0x07FFFFFF00

after_map : Board
after_map = add_smpt_entry 1 (256 ∷ 44 ∷ []) page_size fresh

maps_range : mic_map rounding range 300 fresh ≡ some (system_base + range, after_map)
unfolding mic_map get_smpt_ref_count ref_counts smpt_op smpt_search find_existing find_free fresh
    mic_smpt_init init_entries write_register mic_smpt_set after_map
maps_range = refl

fresh_full : length fresh.mic_smpt ≡ num_smpt_entries
unfolding fresh mic_smpt_init init_entries write_register mic_smpt_set
fresh_full = refl

mic_to_dma_addr-mic_map_example :
    mic_to_dma_addr after_map (system_base + range + 299) ≡ range + 299
mic_to_dma_addr-mic_map_example =
    mic_to_dma_addr-mic_map rounding fresh after_map range 300 (system_base + range) fresh_full
      (omega arith) (omega arith) maps_range (omega arith) 299 (omega arith)

mic_unmap-mic_map_example :
    (b'' : Board) × ((mic_unmap rounding (system_base + range) 300 after_map ≡ some b'')
      × ((j : ℕ) → (entry b'' j).ref_count ≡ (entry fresh j).ref_count))
mic_unmap-mic_map_example =
    mic_unmap-mic_map rounding fresh after_map range 300 (system_base + range) fresh_full
      (omega arith) (omega arith) maps_range (omega arith)

mic_map_in_bounds_example : (result : ℕ × Board) × (mic_map rounding range 300 fresh ≡ some result)
mic_map_in_bounds_example =
    mic_map_in_bounds rounding fresh range 300 (omega arith) (omega arith) (omega arith)

one_lease : Lease
one_lease = record { mic_addr = system_base + range; dma = range; size = 300 }

one_run : Runs rounding after_map (one_lease ∷ [])
unfolding one_lease fresh
one_run =
    mapped range 300 (system_base + range) (start blank) (omega arith) (omega arith) maps_range
      (omega arith)

Runs-Translates_example : All (Translates after_map) (one_lease ∷ [])
Runs-Translates_example = Runs-Translates rounding one_run

Runs-counts_example : (entry after_map 1).ref_count ≡ pos (bytes_mapped (one_lease ∷ []) 1)
Runs-counts_example = Runs-counts rounding one_run 1

mic_unmap_single-mic_map_single_example :
    (pci' : List PciMapping) × ((mic_map_single rounding (some range) 300 fresh []
        ≡ some (system_base + range, (after_map, pci')))
      × ((b'' : Board) × ((mic_unmap_single rounding (system_base + range) 300 after_map pci'
              ≡ some (b'', []))
            × ((j : ℕ) → (entry b'' j).ref_count ≡ (entry fresh j).ref_count))))
mic_unmap_single-mic_map_single_example =
    mic_unmap_single-mic_map_single rounding fresh after_map range 300 (system_base + range) []
      fresh_full (omega arith) (omega arith) maps_range (omega arith)

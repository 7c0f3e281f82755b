-- ===== src/Smpt/Leases/Calls.antt =====
-- One call of `mic_map`, and the call of `mic_unmap` that undoes it.
use intel_xeon_phi_kernel_dr.Common.{
  ℕ, ◌+◌, ◌*◌, ◌%◌, ◌≤◌, ◌<◌, ◌≡◌, ◌≢◌, ap, ◌∙◌, false, some, length, arith,
}
use intel_xeon_phi_kernel_dr.Common.Int.{pos, ◌-ℤ◌, +ℤ_cancel}
use intel_xeon_phi_kernel_dr.Smpt.{
  Align, Board, page_size, num_smpt_entries, page_of, is_zero, drop_refs, mic_map, mic_unmap,
  mic_to_dma_addr,
}
use intel_xeon_phi_kernel_dr.Smpt.Pages.{NoWrap, ref_counts-fits}
use intel_xeon_phi_kernel_dr.Smpt.Entries.{entry, add_smpt_entry-length}
use intel_xeon_phi_kernel_dr.Smpt.Grant.{
  Granted, first_page, mic_map-Granted, mic_map-some, placed, counted,
}
use intel_xeon_phi_kernel_dr.Smpt.Mapping.{translated, kept}
use intel_xeon_phi_kernel_dr.Smpt.Leases.{
  Lease, Lawful, share, given, given-Lawful, given-refs, mic_unmap-drops, dropped-entry,
}

-- When `mic_map` gives the address `m` for a range of `size` bytes at `dma` that ends a page before
-- the end of the address space, `mic_to_dma_addr` takes `m + off` to `dma + off` for every byte of
-- the range.
pub mic_to_dma_addr-mic_map :
    (a : Align) (b b' : Board) (dma size m : ℕ)
    → length b.mic_smpt ≡ num_smpt_entries
    → 0 < size
    → NoWrap (dma + size)
    → mic_map a dma size b ≡ some (m, b')
    → m ≢ 0
    → (off : ℕ) → off < size
    → mic_to_dma_addr b' (m + off) ≡ dma + off
mic_to_dma_addr-mic_map a b b' dma size m full sized ends got given_addr =
    translated a b b' dma size m full sized ends
      (mic_map-Granted a dma size b b' m full sized ends got given_addr)

-- When `mic_map` gives an address for a range that ends a page before the end of the address space,
-- every entry whose count was not 0 keeps its page.
pub mic_map_keeps :
    (a : Align) (b b' : Board) (dma size m : ℕ)
    → length b.mic_smpt ≡ num_smpt_entries
    → 0 < size
    → NoWrap (dma + size)
    → mic_map a dma size b ≡ some (m, b')
    → m ≢ 0
    → (j : ℕ) → is_zero (entry b j).ref_count ≡ false
    → (entry b' j).dma_addr ≡ (entry b j).dma_addr
mic_map_keeps a b b' dma size m full sized ends got given_addr =
    kept a b b' dma size m full sized ends
      (mic_map-Granted a dma size b b' m full sized ends got given_addr)

-- When `mic_map` gives the address `m` for a range that ends a page before the end of the address
-- space, `mic_unmap` of `m` and the same size, called on the board that `mic_map` left, gives every
-- entry the count it had before the two calls.
pub mic_unmap-mic_map :
    (a : Align) (b b' : Board) (dma size m : ℕ)
    → length b.mic_smpt ≡ num_smpt_entries
    → 0 < size
    → NoWrap (dma + size)
    → mic_map a dma size b ≡ some (m, b')
    → m ≢ 0
    → (b'' : Board) × ((mic_unmap a m size b' ≡ some b'')
        × ((j : ℕ) → (entry b'' j).ref_count ≡ (entry b j).ref_count))
unfolding given given-Lawful
mic_unmap-mic_map a b b' dma size m full sized ends got given_addr = (
  drop_refs (page_of m) g.ref b',
  (
    mic_unmap-drops a l w b',
    λ j.
        ap (λ e. e.ref_count) (dropped-entry a l w b' full' j)
        ∙ ap (λ c. c -ℤ pos (share a l j)) (given-refs a b b' dma size m full sized ends g j)
        ∙ +ℤ_cancel (entry b j).ref_count (pos (share a l j)),
  ),
)
  where
    g : Granted a b b' dma size m
    g = mic_map-Granted a dma size b b' m full sized ends got given_addr

    full' : length b'.mic_smpt ≡ num_smpt_entries
    full' =
        ap (λ x. length x.mic_smpt) g.result
        ∙ add_smpt_entry-length g.ref g.spt (first_page dma) b
        ∙ full

    l : Lease
    l = given a b b' dma size m full sized ends g

    w : Lawful a l
    w = given-Lawful a b b' dma size m full sized ends g

-- `mic_map` does not write past the end of `ref` for a range that touches at most 32 pages and ends
-- a page before the end of the address space.
pub mic_map_in_bounds :
    (a : Align) (b : Board) (dma size : ℕ)
    → 0 < size
    → NoWrap (dma + size)
    → dma % page_size + size ≤ num_smpt_entries * page_size
    → (result : ℕ × Board) × (mic_map a dma size b ≡ some result)
mic_map_in_bounds a b dma size sized ends few =
    let (ref, e) = ref_counts-fits a num_smpt_entries dma (dma + size) ends (omega arith) in
    (placed a dma ref b, mic_map-some a dma size ref b sized (counted a dma size ends ∙ e))

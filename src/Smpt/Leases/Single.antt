-- ===== src/Smpt/Leases/Single.antt =====
-- micscif/micscif_smpt.c: `mic_map_single` and `mic_unmap_single`, which map memory for the board's
-- PCI device and then in the table. What `pci_map_single` answers is an argument, `none` for an
-- address that `pci_dma_mapping_error` refuses; the mappings of the device are a list.
use intel_xeon_phi_kernel_dr.Common.{
  ℕ, ◌+◌, ◌<◌, ◌≡◌, ◌≢◌, refl, ap, ◌∙◌, true, false, ◌&&◌, Option, none, some, List, [], ◌∷◌,
  length, ◌==◌, if◌then◌else◌, arith,
}
use intel_xeon_phi_kernel_dr.Smpt.{
  Align, Board, num_smpt_entries, mic_map, mic_unmap, mic_to_dma_addr,
}
use intel_xeon_phi_kernel_dr.Smpt.Pages.{NoWrap}
use intel_xeon_phi_kernel_dr.Smpt.Entries.{entry}
use intel_xeon_phi_kernel_dr.Smpt.Leases.Calls.{mic_to_dma_addr-mic_map, mic_unmap-mic_map}

-- A mapping of the device: its DMA address and its size.
pub record PciMapping : Type 0 where
  pub dma_addr : ℕ
  pub size : ℕ

pub pci_unmap_single : ℕ → ℕ → List PciMapping → List PciMapping
pci_unmap_single dma_addr size [] = []
pci_unmap_single dma_addr size (m ∷ ms) =
    let rest = pci_unmap_single dma_addr size ms in
    if m.dma_addr == dma_addr && m.size == size then ms else m ∷ rest

-- Behind `mic_map`: the mapping of the device is given up if the table has no room.
pub after_mic_map :
    ℕ → ℕ → List PciMapping → Option (ℕ × Board) → Option (ℕ × (Board × List PciMapping))
after_mic_map dma_addr size pci none = none
after_mic_map dma_addr size pci (some (mic_addr, b)) =
    let mapped = record { dma_addr = dma_addr; size = size } ∷ pci in
    some (mic_addr, (b, if mic_addr == 0 then pci_unmap_single dma_addr size mapped else mapped))

pub mic_map_single :
    Align → Option ℕ → ℕ → Board → List PciMapping → Option (ℕ × (Board × List PciMapping))
mic_map_single a none size b pci = some (0, (b, pci))
mic_map_single a (some dma_addr) size b pci =
    after_mic_map dma_addr size pci (mic_map a dma_addr size b)

pub after_mic_unmap : List PciMapping → Option Board → Option (Board × List PciMapping)
after_mic_unmap pci none = none
after_mic_unmap pci (some b) = some (b, pci)

pub mic_unmap_single : Align → ℕ → ℕ → Board → List PciMapping → Option (Board × List PciMapping)
mic_unmap_single a mic_addr size b pci =
    let dma_addr = mic_to_dma_addr b mic_addr in
    after_mic_unmap (pci_unmap_single dma_addr size pci) (mic_unmap a mic_addr size b)

-- When `pci_map_single` gives an address for a range of some bytes that ends a page before the end of
-- the address space, and the table has room for it: `mic_map_single` gives the address of the table,
-- and `mic_unmap_single` of it and the same size gives up exactly the mapping that was made for the
-- device and gives every entry of the table the count it had before.
pub mic_unmap_single-mic_map_single :
    (a : Align) (b b' : Board) (dma size m : ℕ) (pci : List PciMapping)
    → length b.mic_smpt ≡ num_smpt_entries
    → 0 < size
    → NoWrap (dma + size)
    → mic_map a dma size b ≡ some (m, b')
    → m ≢ 0
    → (pci' : List PciMapping) × ((mic_map_single a (some dma) size b pci ≡ some (m, (b', pci')))
        × ((b'' : Board) × ((mic_unmap_single a m size b' pci' ≡ some (b'', pci))
              × ((j : ℕ) → (entry b'' j).ref_count ≡ (entry b j).ref_count))))
unfolding mic_map_single after_mic_map mic_unmap_single after_mic_unmap pci_unmap_single
mic_unmap_single-mic_map_single a b b' dma size m pci full sized ends got given =
    let (b'', (undone, counts)) = mic_unmap-mic_map a b b' dma size m full sized ends got given in
    let real : (m == 0) ≡ false = ground (arith, given) in
    (
      record { dma_addr = dma; size = size } ∷ pci,
      (rw (got, real) refl, (b'', (rw (undone, back, same_dma, same_size) refl, counts))),
    )
  where
    back : mic_to_dma_addr b' m ≡ dma
    back =
        ap (mic_to_dma_addr b') (omega arith)
        ∙ mic_to_dma_addr-mic_map a b b' dma size m full sized ends got given 0 sized
        ∙ omega arith

    same_dma : (dma == dma) ≡ true
    same_dma = ground arith

    same_size : (size == size) ≡ true
    same_size = ground arith

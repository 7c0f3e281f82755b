-- ===== src/Smpt/Mapping.antt =====
-- `mic_map` and `mic_unmap` over a whole table.
use mathlib.Core.Path.{ap₂}
use intel_xeon_phi_kernel_dr.Common.{
  ℕ, ◌+◌, ◌-◌, ◌*◌, ◌/◌, ◌%◌, ◌≤◌, ◌<◌, ◌≡◌, sym, ap, ◌∙◌, ◌⊎◌, inl, inr, true, false, some, length,
  get_or, ltb, leb, le→leb, leb→le, leb_false→lt, ltb→lt, ltb_false→le, Bool-cases, arith,
}
use intel_xeon_phi_kernel_dr.Smpt.{
  Align, Board, page_size, system_base, num_smpt_entries, max_system_addr, page_of, u64, is_zero,
  is_syspa, add_smpt_entry, ref_counts, get_smpt_ref_count, mic_to_dma_addr,
}
use intel_xeon_phi_kernel_dr.Smpt.Pages.{NoWrap, ref_counts-shift}
use intel_xeon_phi_kernel_dr.Smpt.Entries.{
  entry, updated_addr, updated_used, add_smpt_entry-below, add_smpt_entry-beyond,
  add_smpt_entry-within,
}
use intel_xeon_phi_kernel_dr.Smpt.Grant.{first_page, Granted, counted, counts-Covers}

-- Where an entry lies with respect to a window.
abbrev pub Place : ℕ → ℕ → ℕ → Type 0
Place spt n j = ((j < spt) ⊎ (spt + n ≤ j)) ⊎ ((k : ℕ) × ((k < n) × (spt + k ≡ j)))

pub place : (spt n j : ℕ) → Place spt n j
place spt n j = elim (Bool-cases (ltb j spt)) [
  | inl y ↦ inl (inl (ltb→lt j spt y))
  | inr n' ↦ elim (Bool-cases (leb (spt + n) j)) [
    | inl y ↦ inl (inr (leb→le (spt + n) j y))
    | inr n'' ↦ inr (
      j - spt,
      (
        omega (arith, leb_false→lt (spt + n) j n'', ltb_false→le j spt n'),
        omega (arith, ltb_false→le j spt n'),
      ),
    )
  ]
]

-- The page of a range that starts at `dma` where the byte at `off` lies.
abbrev pub page_with : ℕ → ℕ → ℕ
page_with dma off = (dma % page_size + off) / page_size

module _ (a : Align) (b b' : Board) (dma size m : ℕ) (full : length b.mic_smpt ≡ num_smpt_entries)
    (sized : 0 < size) (ends : NoWrap (dma + size)) where
  pub translated :
      (g : Granted a b b' dma size m) (off : ℕ)
      → off < size
      → mic_to_dma_addr b' (m + off) ≡ dma + off
  unfolding mic_to_dma_addr is_syspa
  translated g off h =
      rw (inside_low, inside_high)
        (ap₂ (λ i x. (entry b' i).dma_addr + x) at_page (omega (arith, g.address))
          ∙ ap (λ x. x + (dma % page_size + off) % page_size) page_there
          ∙ omega arith)
    where
      enough : dma + size ≤ (dma / page_size + length g.ref) * page_size
      enough = (counts-Covers a dma size b b' m full sized ends g.ref g.counts).enough (omega arith)

      page_lt : (page_with dma off) < length g.ref
      page_lt = omega (arith, enough)

      inside_low : leb system_base (m + off) ≡ true
      inside_low = le→leb system_base (m + off) (omega (arith, g.address))

      inside_high : leb (m + off) max_system_addr ≡ true
      inside_high = le→leb (m + off) max_system_addr (omega (arith, g.address, g.room, enough))

      at_page : page_of (m + off) ≡ g.spt + (page_with dma off)
      at_page = omega (arith, g.address)

      no_carry :
          u64 (first_page dma + (page_with dma off) * page_size)
          ≡ first_page dma + (page_with dma off) * page_size
      no_carry = omega (arith, page_lt)

      page_there :
          (entry b' (g.spt + (page_with dma off))).dma_addr
          ≡ first_page dma + (page_with dma off) * page_size
      page_there =
          ap (λ x. (entry x (g.spt + (page_with dma off))).dma_addr) g.result
          ∙ ap (λ e. e.dma_addr)
              (add_smpt_entry-within g.ref g.spt (first_page dma) b (page_with dma off)
                (omega arith) (omega (arith, full, g.room)) page_lt)
          ∙ updated_addr (entry b (g.spt + (page_with dma off)))
              (u64 (first_page dma + (page_with dma off) * page_size))
              (get_or g.ref (page_with dma off) 0) (g.fits (page_with dma off) page_lt)
          ∙ no_carry

  pub kept :
      (g : Granted a b b' dma size m) (j : ℕ)
      → is_zero (entry b j).ref_count ≡ false
      → (entry b' j).dma_addr ≡ (entry b j).dma_addr
  kept g j used = elim (place g.spt (length g.ref) j) [
    | inl (inl below) ↦
        ap (λ x. (entry x j).dma_addr) g.result
        ∙ ap (λ e. e.dma_addr) (add_smpt_entry-below g.ref g.spt (first_page dma) b j below)
    | inl (inr beyond) ↦
        ap (λ x. (entry x j).dma_addr) g.result
        ∙ ap (λ e. e.dma_addr) (add_smpt_entry-beyond g.ref g.spt (first_page dma) b j beyond)
    | inr (k, (lt, at)) ↦
        ap (λ x. (entry x j).dma_addr) g.result
        ∙ ap (λ i. (entry (add_smpt_entry g.spt g.ref (first_page dma) b) i).dma_addr) (sym at)
        ∙ ap (λ e. e.dma_addr)
            (add_smpt_entry-within g.ref g.spt (first_page dma) b k (omega arith)
              (omega (arith, full, g.room)) lt)
        ∙ updated_used (entry b (g.spt + k)) (u64 (first_page dma + k * page_size))
            (get_or g.ref k 0) (ap (λ i. is_zero (entry b i).ref_count) at ∙ used)
        ∙ ap (λ i. (entry b i).dma_addr) at
  ]

  -- The counts of a range are those of the addresses it was given.
  pub counts_there : (g : Granted a b b' dma size m) → get_smpt_ref_count a m size ≡ some g.ref
  unfolding get_smpt_ref_count
  counts_there g =
      ap (ref_counts a num_smpt_entries m) (omega (arith, g.address, g.room, enough))
      ∙ ref_counts-shift a num_smpt_entries m (m + size) dma (dma + size)
          (omega (arith, g.address, g.room, enough)) ends (omega (arith, g.address)) (omega arith)
      ∙ sym (counted a dma size ends)
      ∙ g.counts
    where
      enough : dma + size ≤ (dma / page_size + length g.ref) * page_size
      enough = (counts-Covers a dma size b b' m full sized ends g.ref g.counts).enough (omega arith)

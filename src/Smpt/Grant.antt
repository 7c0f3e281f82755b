-- ===== src/Smpt/Grant.antt =====
-- What a call of `mic_map` has done when it gives an address, and when it gives none.
use mathlib.Core.Option.{some-injective, none-ne-some}
use intel_xeon_phi_kernel_dr.Common.{
  ℕ, ◌+◌, ◌-◌, ◌*◌, ◌/◌, ◌%◌, ◌^◌, ◌≤◌, ◌<◌, ◌≡◌, ◌≢◌, refl, sym, ap, ◌∙◌, ◌⊎◌, inl, inr, false,
  none, some, Option-cases, List, length, ◌==◌, if◌then◌else◌, arith,
}
use intel_xeon_phi_kernel_dr.Smpt.{
  Align, Board, page_size, system_base, num_smpt_entries, u64, add_smpt_entry, Search, found,
  not_found, ended, smpt_search, smpt_op, smpt_align_low, ref_counts, get_smpt_ref_count, mic_map,
}
use intel_xeon_phi_kernel_dr.Smpt.Pages.{NoWrap, low, Covers, ref_counts-Covers}
use intel_xeon_phi_kernel_dr.Smpt.Window.{Fit, Window, smpt_search-Window}
use intel_xeon_phi_kernel_dr.Smpt.Entries.{entry}

-- The start of the page of `dma`.
abbrev pub first_page : ℕ → ℕ
first_page dma = dma / page_size * page_size

-- What a call of `mic_map` that gave the address `m` has done.
pub record Granted (a : Align) (b b' : Board) (dma size m : ℕ) : Type 0 where
  pub spt : ℕ
  pub ref : List ℕ
  pub counts : get_smpt_ref_count a dma size ≡ some ref
  pub result : b' ≡ add_smpt_entry spt ref (first_page dma) b
  pub address : m ≡ system_base + spt * page_size + dma % page_size
  pub room : spt + length ref ≤ num_smpt_entries
  pub fits :
      (j : ℕ) → j < length ref → Fit (entry b (spt + j)) (u64 (first_page dma + j * page_size))

-- What is left of `mic_map` once the counts are known.
pub placed : Align → ℕ → List ℕ → Board → ℕ × Board
placed a dma ref b =
    let (mic_addr, b') = smpt_op (smpt_align_low a dma) ref b in
    ((if mic_addr == 0 then 0 else u64 (mic_addr + dma % page_size)), b')

pub mic_map-some :
    (a : Align) (dma size : ℕ) (ref : List ℕ) (b : Board)
    → 0 < size
    → get_smpt_ref_count a dma size ≡ some ref
    → mic_map a dma size b ≡ some (placed a dma ref b)
unfolding mic_map placed
mic_map-some a dma size ref b h e =
    let sized : (size == 0) ≡ false = ground arith in rw (sized, e) refl

mic_map-none :
    (a : Align) (dma size : ℕ) (b : Board)
    → 0 < size
    → get_smpt_ref_count a dma size ≡ none
    → mic_map a dma size b ≡ none
unfolding mic_map
mic_map-none a dma size b h e = let sized : (size == 0) ≡ false = ground arith in rw (sized, e) refl

smpt_op-found :
    (dma i : ℕ) (ref : List ℕ) (b : Board)
    → smpt_search b.mic_smpt dma (length ref) ≡ found i
    → smpt_op dma ref b ≡ (
      system_base + (i + 1 - length ref) * page_size,
      add_smpt_entry (i + 1 - length ref) ref dma b,
    )
unfolding smpt_op
smpt_op-found dma i ref b e = rw (smpt_op, e) refl

-- No answer of the search but an index changes the table.
pub smpt_op-lost :
    (dma : ℕ) (ref : List ℕ) (b : Board)
    → (smpt_search b.mic_smpt dma (length ref) ≡ not_found)
      ⊎ (smpt_search b.mic_smpt dma (length ref) ≡ ended)
    → smpt_op dma ref b ≡ (0, b)
unfolding smpt_op
smpt_op-lost dma ref b (inl e) = rw (smpt_op, e) refl
smpt_op-lost dma ref b (inr e) = rw (smpt_op, e) refl

placed-by :
    (a : Align) (dma addr : ℕ) (ref : List ℕ) (b b' : Board)
    → dma < 2 ^ 64
    → smpt_op (first_page dma) ref b ≡ (addr, b')
    → placed a dma ref b ≡ ((if addr == 0 then 0 else u64 (addr + dma % page_size)), b')
unfolding placed
placed-by a dma addr ref b b' h e = rw (low a dma h, e) refl

Search-cases : (s : Search) → ((i : ℕ) × (s ≡ found i)) ⊎ ((s ≡ not_found) ⊎ (s ≡ ended))
Search-cases (found i) = inl (i, refl)
Search-cases not_found = inr (inl refl)
Search-cases ended = inr (inr refl)

-- A range that does not wrap is counted from its start to its end.
pub counted :
    (a : Align) (dma size : ℕ)
    → NoWrap (dma + size)
    → get_smpt_ref_count a dma size ≡ ref_counts a num_smpt_entries dma (dma + size)
unfolding get_smpt_ref_count
counted a dma size ends = ap (ref_counts a num_smpt_entries dma) (omega arith)

module _ (a : Align) (dma size : ℕ) (b b' : Board) (m : ℕ)
    (full : length b.mic_smpt ≡ num_smpt_entries) (sized : 0 < size)
    (ends : NoWrap (dma + size)) where
  pub counts-Covers :
      (ref : List ℕ) → get_smpt_ref_count a dma size ≡ some ref → Covers dma (dma + size) ref
  counts-Covers ref e =
      ref_counts-Covers a num_smpt_entries dma (dma + size) ref ends
        (sym (counted a dma size ends) ∙ e)

  counts-nonempty : (ref : List ℕ) → get_smpt_ref_count a dma size ≡ some ref → 0 < length ref
  counts-nonempty ref e = omega (arith, (counts-Covers ref e).enough (omega arith))

  granted :
      (ref : List ℕ) (i : ℕ)
      → get_smpt_ref_count a dma size ≡ some ref
      → placed a dma ref b ≡ (m, b')
      → smpt_search b.mic_smpt (first_page dma) (length ref) ≡ found i
      → Granted a b b' dma size m
  granted ref i e given_back f =
      let w : Window b.mic_smpt (first_page dma) (length ref) i =
        smpt_search-Window b.mic_smpt (first_page dma) (length ref) i (counts-nonempty ref e)
          (omega arith) f in
      let nonzero : (system_base + (i + 1 - length ref) * page_size == 0) ≡ false = ground arith in
      let placed_here : placed a dma ref b ≡ (
        (if system_base + (i + 1 - length ref) * page_size == 0
            then 0
            else u64 (system_base + (i + 1 - length ref) * page_size + dma % page_size)),
        add_smpt_entry (i + 1 - length ref) ref (first_page dma) b,
      ) =
        placed-by a dma (system_base + (i + 1 - length ref) * page_size) ref b
          (add_smpt_entry (i + 1 - length ref) ref (first_page dma) b) (omega arith)
          (smpt_op-found (first_page dma) i ref b f) in
      record {
        spt = i + 1 - length ref;
        ref = ref;
        counts = e;
        result = ap (λ p. p.1) (sym given_back ∙ placed_here);
        address =
            ap (λ p. p.0) (sym given_back ∙ placed_here)
            ∙ (rw (nonzero) (omega (arith, full, w.within)));
        room = omega (arith, full, w.within, w.before);
        fits = w.fits;
      }

  -- A call that gave an address has found room for every page of the range.
  pub mic_map-Granted : mic_map a dma size b ≡ some (m, b') → m ≢ 0 → Granted a b b' dma size m
  mic_map-Granted got given = elim (Option-cases (get_smpt_ref_count a dma size)) [
    | inl n ↦ absurd (none-ne-some _ (sym (mic_map-none a dma size b sized n) ∙ got))
    | inr (ref, e) ↦
        let given_back : placed a dma ref b ≡ (m, b') =
          some-injective _ _ (sym (mic_map-some a dma size ref b sized e) ∙ got) in
        elim (Search-cases (smpt_search b.mic_smpt (first_page dma) (length ref))) [
          | inl (i, f) ↦ granted ref i e given_back f
          | inr lost ↦
              let nothing : placed a dma ref b ≡ (0, b) =
                placed-by a dma 0 ref b b (omega arith)
                  (smpt_op-lost (first_page dma) ref b lost) in
              absurd (given (ap (λ p. p.0) (sym given_back ∙ nothing)))
        ]
  ]

  -- A call that gave no address has changed nothing.
  pub mic_map-refused : m ≡ 0 → mic_map a dma size b ≡ some (m, b') → b' ≡ b
  mic_map-refused none_given got = elim (Option-cases (get_smpt_ref_count a dma size)) [
    | inl n ↦ absurd (none-ne-some _ (sym (mic_map-none a dma size b sized n) ∙ got))
    | inr (ref, e) ↦
        let given_back : placed a dma ref b ≡ (m, b') =
          some-injective _ _ (sym (mic_map-some a dma size ref b sized e) ∙ got) in
        elim (Search-cases (smpt_search b.mic_smpt (first_page dma) (length ref))) [
          | inl (i, f) ↦
              let g : Granted a b b' dma size m = granted ref i e given_back f in
              absurd (omega (arith, g.address, none_given))
          | inr lost ↦
              let nothing : placed a dma ref b ≡ (0, b) =
                placed-by a dma 0 ref b b (omega arith)
                  (smpt_op-lost (first_page dma) ref b lost) in
              ap (λ p. p.1) (sym given_back ∙ nothing)
        ]
  ]

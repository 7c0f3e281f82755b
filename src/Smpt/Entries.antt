-- ===== src/Smpt/Entries.antt =====
-- What `add_smpt_entry` and the loop of `mic_unmap` do to the table.
use mathlib.Core.Path.{ap₂}
use intel_xeon_phi_kernel_dr.Common.{
  ℕ, zero, suc, ◌+◌, ◌*◌, ◌^◌, ◌≤◌, ◌<◌, ◌≡◌, refl, ap, ◌∙◌, inl, inr, false, not, ◌&&◌, List, [],
  ◌∷◌, length, get_or, set, ◌==◌, ==_iff, Bool-cases, length-set, get_or-set_self, get_or-set_ne,
  if◌then◌else◌, arith,
}
use intel_xeon_phi_kernel_dr.Common.Int.{pos, ◌+ℤ◌, ◌-ℤ◌}
use intel_xeon_phi_kernel_dr.Smpt.Window.{Fit}
use intel_xeon_phi_kernel_dr.Smpt.{
  Entry, Board, page_size, u64, no_entry, is_zero, add_one, add_smpt_entry, drop_refs,
}

abbrev pub entry : Board → ℕ → Entry
entry b j = get_or b.mic_smpt j no_entry

-- What `add_smpt_entry` makes of an entry.
abbrev pub updated : Entry → ℕ → ℕ → Entry
updated e addr r =
    if is_zero e.ref_count && not (e.dma_addr == addr)
    then record { dma_addr = addr; ref_count = e.ref_count +ℤ pos r }
    else record e { ref_count = e.ref_count +ℤ pos r }

pub updated_addr : (e : Entry) (addr r : ℕ) → Fit e addr → (updated e addr r).dma_addr ≡ addr
updated_addr e addr r (inl same) =
    elim (Bool-cases (is_zero e.ref_count && not (e.dma_addr == addr))) [
      | inl y ↦ rw (y) refl
      | inr n ↦ rw (n) same
    ]
updated_addr e addr r (inr z) = elim (Bool-cases (e.dma_addr == addr)) [
  | inl y ↦ rw (z, y) ((==_iff e.dma_addr addr).0 y)
  | inr n ↦ rw (z, n) refl
]

pub updated_refs : (e : Entry) (addr r : ℕ) → (updated e addr r).ref_count ≡ e.ref_count +ℤ pos r
updated_refs e addr r = elim (Bool-cases (is_zero e.ref_count && not (e.dma_addr == addr))) [
  | inl y ↦ rw (y) refl
  | inr n ↦ rw (n) refl
]

-- An entry in use keeps its page.
pub updated_used :
    (e : Entry) (addr r : ℕ)
    → is_zero e.ref_count ≡ false
    → (updated e addr r).dma_addr ≡ e.dma_addr
updated_used e addr r used = rw (used) refl

add_one-entries :
    (b : Board) (i addr r : ℕ)
    → (add_one b i addr r).mic_smpt ≡ set b.mic_smpt i (updated (entry b i) addr r)
unfolding add_one
add_one-entries b i addr r =
    elim (Bool-cases (is_zero (entry b i).ref_count && not ((entry b i).dma_addr == addr))) [
      | inl y ↦ rw (y) refl
      | inr n ↦ rw (n) refl
    ]

pub add_smpt_entry-length :
    (ref : List ℕ) (spt first : ℕ) (b : Board)
    → length (add_smpt_entry spt ref first b).mic_smpt ≡ length b.mic_smpt
unfolding add_smpt_entry
add_smpt_entry-length [] spt first b = refl
add_smpt_entry-length (r ∷ rs) spt first b =
    add_smpt_entry-length rs (spt + 1) (u64 (first + page_size)) (add_one b spt first r)
    ∙ ap length (add_one-entries b spt first r)
    ∙ length-set b.mic_smpt spt (updated (entry b spt) first r)

pub add_smpt_entry-below :
    (ref : List ℕ) (spt first : ℕ) (b : Board) (j : ℕ)
    → j < spt
    → entry (add_smpt_entry spt ref first b) j ≡ entry b j
unfolding add_smpt_entry
add_smpt_entry-below [] spt first b j h = refl
add_smpt_entry-below (r ∷ rs) spt first b j h =
    add_smpt_entry-below rs (spt + 1) (u64 (first + page_size)) (add_one b spt first r) j
      (omega arith)
    ∙ ap (λ es. get_or es j no_entry) (add_one-entries b spt first r)
    ∙ get_or-set_ne b.mic_smpt (updated (entry b spt) first r) no_entry (omega arith)

pub add_smpt_entry-beyond :
    (ref : List ℕ) (spt first : ℕ) (b : Board) (j : ℕ)
    → spt + length ref ≤ j
    → entry (add_smpt_entry spt ref first b) j ≡ entry b j
unfolding add_smpt_entry
add_smpt_entry-beyond [] spt first b j h = refl
add_smpt_entry-beyond (r ∷ rs) spt first b j h =
    add_smpt_entry-beyond rs (spt + 1) (u64 (first + page_size)) (add_one b spt first r) j
      (omega arith)
    ∙ ap (λ es. get_or es j no_entry) (add_one-entries b spt first r)
    ∙ get_or-set_ne b.mic_smpt (updated (entry b spt) first r) no_entry (omega arith)

pub add_smpt_entry-within :
    (ref : List ℕ) (spt first : ℕ) (b : Board) (j : ℕ)
    → first < 2 ^ 64
    → spt + length ref ≤ length b.mic_smpt
    → j < length ref
    → entry (add_smpt_entry spt ref first b) (spt + j)
      ≡ updated (entry b (spt + j)) (u64 (first + j * page_size)) (get_or ref j 0)
unfolding add_smpt_entry
add_smpt_entry-within [] spt first b j lt within h = absurd (omega arith)
add_smpt_entry-within (r ∷ rs) spt first b zero lt within h =
    ap (entry (add_smpt_entry (spt + 1) rs (u64 (first + page_size)) (add_one b spt first r)))
      (omega arith)
    ∙ add_smpt_entry-below rs (spt + 1) (u64 (first + page_size)) (add_one b spt first r) spt
        (omega arith)
    ∙ ap (λ es. get_or es spt no_entry) (add_one-entries b spt first r)
    ∙ get_or-set_self b.mic_smpt spt (updated (entry b spt) first r) no_entry (omega arith)
    ∙ ap₂ (λ i a. updated (entry b i) a r) (omega arith) (omega arith)
add_smpt_entry-within (r ∷ rs) spt first b (suc j) lt within h =
    ap (entry (add_smpt_entry (spt + 1) rs (u64 (first + page_size)) (add_one b spt first r)))
      (omega arith)
    ∙ add_smpt_entry-within rs (spt + 1) (u64 (first + page_size)) (add_one b spt first r) j
        (omega arith) (omega (arith, same_length)) (omega arith)
    ∙ ap₂ (λ e a. updated e a (get_or rs j 0))
        (ap (λ es. get_or es (spt + 1 + j) no_entry) (add_one-entries b spt first r)
          ∙ get_or-set_ne b.mic_smpt (updated (entry b spt) first r) no_entry (omega arith)
          ∙ ap (entry b) (omega arith))
        (omega arith)
  where
    same_length : length (add_one b spt first r).mic_smpt ≡ length b.mic_smpt
    same_length =
        ap length (add_one-entries b spt first r)
        ∙ length-set b.mic_smpt spt (updated (entry b spt) first r)

-- What the loop of `mic_unmap` makes of an entry.
abbrev pub dropped : Entry → ℕ → Entry
dropped e r = record e { ref_count = e.ref_count -ℤ pos r }

pub drop_refs-below :
    (ref : List ℕ) (i : ℕ) (b : Board) (j : ℕ) → j < i → entry (drop_refs i ref b) j ≡ entry b j
unfolding drop_refs
drop_refs-below [] i b j h = refl
drop_refs-below (r ∷ rs) i b j h =
    drop_refs-below rs (i + 1) (record b { mic_smpt = set b.mic_smpt i (dropped (entry b i) r) }) j
      (omega arith)
    ∙ get_or-set_ne b.mic_smpt (dropped (entry b i) r) no_entry (omega arith)

pub drop_refs-beyond :
    (ref : List ℕ) (i : ℕ) (b : Board) (j : ℕ)
    → i + length ref ≤ j
    → entry (drop_refs i ref b) j ≡ entry b j
unfolding drop_refs
drop_refs-beyond [] i b j h = refl
drop_refs-beyond (r ∷ rs) i b j h =
    drop_refs-beyond rs (i + 1) (record b { mic_smpt = set b.mic_smpt i (dropped (entry b i) r) }) j
      (omega arith)
    ∙ get_or-set_ne b.mic_smpt (dropped (entry b i) r) no_entry (omega arith)

pub drop_refs-within :
    (ref : List ℕ) (i : ℕ) (b : Board) (j : ℕ)
    → i + length ref ≤ length b.mic_smpt
    → j < length ref
    → entry (drop_refs i ref b) (i + j) ≡ dropped (entry b (i + j)) (get_or ref j 0)
unfolding drop_refs
drop_refs-within [] i b j within h = absurd (omega arith)
drop_refs-within (r ∷ rs) i b zero within h =
    ap
      (entry
        (drop_refs (i + 1) rs (record b { mic_smpt = set b.mic_smpt i (dropped (entry b i) r) })))
      (omega arith)
    ∙ drop_refs-below rs (i + 1) (record b { mic_smpt = set b.mic_smpt i (dropped (entry b i) r) })
        i (omega arith)
    ∙ get_or-set_self b.mic_smpt i (dropped (entry b i) r) no_entry (omega arith)
    ∙ ap (λ k. dropped (entry b k) r) (omega arith)
drop_refs-within (r ∷ rs) i b (suc j) within h =
    ap
      (entry
        (drop_refs (i + 1) rs (record b { mic_smpt = set b.mic_smpt i (dropped (entry b i) r) })))
      (omega arith)
    ∙ drop_refs-within rs (i + 1) (record b { mic_smpt = set b.mic_smpt i (dropped (entry b i) r) })
        j (omega (arith, length-set b.mic_smpt i (dropped (entry b i) r))) (omega arith)
    ∙ ap (λ e. dropped e (get_or rs j 0))
        (get_or-set_ne b.mic_smpt (dropped (entry b i) r) no_entry (omega arith)
          ∙ ap (entry b) (omega arith))

pub drop_refs-length :
    (ref : List ℕ) (i : ℕ) (b : Board) → length (drop_refs i ref b).mic_smpt ≡ length b.mic_smpt
unfolding drop_refs
drop_refs-length [] i b = refl
drop_refs-length (r ∷ rs) i b =
    drop_refs-length rs (i + 1) (record b { mic_smpt = set b.mic_smpt i (dropped (entry b i) r) })
    ∙ length-set b.mic_smpt i (dropped (entry b i) r)

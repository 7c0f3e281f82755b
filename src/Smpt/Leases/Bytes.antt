-- ===== src/Smpt/Leases/Bytes.antt =====
-- The bytes of the mapped ranges at the entries, said without the counts of the code.
use mathlib.Core.Path.{ap₂}
use intel_xeon_phi_kernel_dr.Common.{
  ℕ, ◌+◌, ◌-◌, ◌*◌, ◌≡◌, refl, sym, ap, ◌∙◌, inl, inr, min, max, List, [], ◌∷◌, length, arith,
}
use intel_xeon_phi_kernel_dr.Smpt.{
  Align, page_size, system_base, num_smpt_entries, page_of, get_smpt_ref_count, ref_counts,
}
use intel_xeon_phi_kernel_dr.Smpt.Pages.{Covers, ref_counts-Covers}
use intel_xeon_phi_kernel_dr.Smpt.Mapping.{place}
use intel_xeon_phi_kernel_dr.Smpt.Leases.{
  Lease, All, Lawful, share, total, share-within, share-outside,
}

-- The addresses of entry `j` are the page of a board's address space that begins `j` pages behind
-- `system_base`; those of the range that lie there.
pub bytes_at : Lease → ℕ → ℕ
bytes_at l j =
    min (l.mic_addr + l.size) (system_base + (j + 1) * page_size)
    - max l.mic_addr (system_base + j * page_size)

pub bytes_mapped : List Lease → ℕ → ℕ
bytes_mapped [] j = 0
bytes_mapped (l ∷ ls) j = bytes_at l j + bytes_mapped ls j

module _ (a : Align) (l : Lease) (w : Lawful a l) where
  counts_lem : Covers l.mic_addr (l.mic_addr + l.size) w.ref
  unfolding get_smpt_ref_count
  counts_lem =
      ref_counts-Covers a num_smpt_entries l.mic_addr (l.mic_addr + l.size) w.ref
        (omega (arith, w.base, w.room, w.enough))
        (ap (ref_counts a num_smpt_entries l.mic_addr) (omega (arith, w.base, w.room, w.enough))
          ∙ w.counts)

  share-bytes_at : (j : ℕ) → share a l j ≡ bytes_at l j
  unfolding bytes_at
  share-bytes_at j = elim (place (page_of l.mic_addr) (length w.ref) j) [
    | inl (inl below) ↦ share-outside a l w j (inl below) ∙ omega (arith, w.base)
    | inl (inr beyond) ↦ share-outside a l w j (inr beyond) ∙ omega (arith, w.base, w.enough)
    | inr (k, (lt, at)) ↦
        ap (share a l) (sym at)
        ∙ share-within a l w k
        ∙ counts_lem.each k
        ∙ omega (arith, w.base, at)
  ]

pub total-bytes_mapped :
    (a : Align) (ls : List Lease) → All (Lawful a) ls → (j : ℕ) → total a ls j ≡ bytes_mapped ls j
unfolding All total bytes_mapped
total-bytes_mapped a [] w j = refl
total-bytes_mapped a (l ∷ ls) (w, ws) j =
    ap₂ (◌+◌) (share-bytes_at a l w j) (total-bytes_mapped a ls ws j)

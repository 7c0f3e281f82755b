-- ===== src/VaGen/Aligned.antt =====
-- What `va_gen_alloc_aligned` does for an alignment of more than one page.
use intel_xeon_phi_kernel_dr.Common.{
  ℕ, ◌+◌, ◌-◌, ◌^◌, ◌≤◌, ◌<◌, ◌≡◌, refl, ap, inl, inr, true, false, some, List, ltb, ◌==◌, ==_iff,
  le→ltb_false, Bool-cases, arith,
}
use intel_xeon_phi_kernel_dr.VaGen.{
  VaNode, u64, invalid_va_page_index, first_fit, va_gen_alloc_internal, free_behind,
  va_gen_alloc_aligned,
}
use intel_xeon_phi_kernel_dr.VaGen.Holes.{Sorted, first_fit_lem}

-- For an alignment of more than one page and at most one page more than the range, the answer is
-- that of first fit for `range + unit_align - 1` pages: its base is not rounded up, and none of the
-- additional pages is given back.
pub va_gen_alloc_aligned_lem :
    (range unit_align : ℕ) (holes : List VaNode)
    → 0 < range
    → 1 < unit_align
    → unit_align ≤ range + 1
    → range + unit_align < 2 ^ 63
    → Sorted 0 holes
    → va_gen_alloc_aligned range unit_align holes ≡ some (first_fit (range + unit_align - 1) holes)
unfolding va_gen_alloc_aligned va_gen_alloc_internal free_behind
va_gen_alloc_aligned_lem range unit_align holes h more few small s =
    elim (Bool-cases ((first_fit (range + unit_align - 1) holes).0 == invalid_va_page_index)) [
      | inl y ↦ rw (larger, sized, some_range, some_align, not_one, y) refl
      | inr y ↦ elim (first_fit_lem holes 0 (range + unit_align - 1) (omega arith) s) [
        | inl f ↦
            let none_found : ((first_fit (range + unit_align - 1) holes).0 == invalid_va_page_index)
                ≡ true =
              (==_iff (first_fit (range + unit_align - 1) holes).0 invalid_va_page_index).1
                (ap (λ p. p.0) f) in
            absurd cc
        | inr t ↦
            let behind : ltb (u64 ((first_fit (range + unit_align - 1) holes).0 + range))
                  (u64 ((first_fit (range + unit_align - 1) holes).0 + unit_align + 2 ^ 64 - 1))
                ≡ false =
              le→ltb_false (u64 ((first_fit (range + unit_align - 1) holes).0 + range))
                (u64 ((first_fit (range + unit_align - 1) holes).0 + unit_align + 2 ^ 64 - 1))
                (omega (arith, t.inside)) in
            rw (larger, sized, some_range, some_align, not_one, y, behind) refl
      ]
    ]
  where
    larger : u64 (range + unit_align + 2 ^ 64 - 1) ≡ range + unit_align - 1
    larger = omega arith

    sized : (range + unit_align - 1 == 0) ≡ false
    sized = ground arith

    some_range : (range == 0) ≡ false
    some_range = ground arith

    some_align : (unit_align == 0) ≡ false
    some_align = ground arith

    not_one : (unit_align == 1) ≡ false
    not_one = ground arith
